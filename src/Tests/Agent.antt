-- ===== src/Tests/Agent.antt =====
-- The client at concrete windows, configurations and events.
use pre_call.Prelude.{
  ◌≡◌, ◌≢◌, refl, arith, Text, Bool, true, false, codes, List, [], ◌∷◌, none, some, ok, All, inl,
}
use pre_call.Prelude.Int.{pos}
use pre_call.Client.Meta.{Desktop, Process, foreground_meta, is_separator}
use pre_call.Client.Meta.Laws.{check-excluded_image}
use pre_call.Client.Config.{ClientConfig, default}
use pre_call.Client.Config.Registry.{Registry, get, persist, resolve, or_else}
use pre_call.Client.Config.Registry.Laws.{resolve-persist, resolve-resolve}
use pre_call.Client.Privacy.{Exclusions, Loop, new, check}
use pre_call.Client.Run.{
  Outside, CaptureFrame, Event, frame, tick, heartbeat_tick, inbound, timed_out, Agent, run_session,
  next_ctrl,
}
use pre_call.Client.Run.Domains.{run_session-domains}
use pre_call.Client.Run.Paused.{IsQuiet, run_session-IsQuiet}
use pre_call.Client.Run.Counts.{IsWithin, frames_in, run_session-IsWithin}
use pre_call.Client.Run.Backoff.{failed, connected, waits, failures, waits_from, IsWait, waits-eq}

abbrev same : Text → Text
same t = t

abbrev vault : Process
vault = record { image_name = some (codes "C:\\vault.exe"); aumid_len = 0; aumid_units = none }

abbrev screen : Desktop
screen = record {
  hwnd = pos 7;
  title_units = codes "Vault";
  rect = none;
  pid = 4;
  process = some vault;
  window_aumid = none;
  affinity = some 0;
  edits = none;
  shell_windows = none;
}

check-excluded_image_example :
    check same false
      (some (foreground_meta same same screen))
      (new same (codes "vault.exe" ∷ []) [])
      false
    ≢ none
unfolding is_separator
check-excluded_image_example =
    check-excluded_image same same screen vault (codes "C:\\vault.exe") (codes "C:")
      (codes "vault.exe") b'\\' (codes "vault.exe" ∷ []) [] false false (λ t. refl) refl refl refl
      refl (refl, (refl, (refl, (refl, (refl, (refl, (refl, (refl, (refl, tt))))))))) (inl refl)

abbrev outside : Outside
outside = record {
  lowercase = same;
  utf16_lossy = same;
  flush = λ w. true;
  write_image = λ rgb w h q. some rgb;
  ocr = λ f. none;
  uuid = λ n. codes "token";
  batch_json = λ b. some (b.seq ∷ []);
  ctrl_json = λ m. some [];
  head_json = λ c r. none;
  read_ctrl = λ p. none;
}

abbrev nobody : Exclusions
nobody = record { processes = []; domains = [] }

abbrev pixel : CaptureFrame
pixel = record { bgra = 1 ∷ 2 ∷ 3 ∷ 4 ∷ []; width = 1; height = 1; dirty_regions = 1 }

abbrev idle : Loop
idle = record {
  is_paused = false;
  last_hash = 0;
  frames_skipped_unchanged = 0;
  frames_skipped_privacy = 0;
  pending = [];
}

abbrev agent : Agent
agent = record {
  link = record {
    conn = record { client_id = codes "id"; seq = 0; frame_id = 0; surface_id = 1 };
    wire = [];
  };
  state = idle;
  frames_sent = 0;
  latest_frame = none;
  draws = 0;
}

abbrev morning : List Event
morning = frame (some pixel) ∷ tick screen 1000 ∷ heartbeat_tick ∷ inbound timed_out ∷ []

abbrev after_morning : Agent
after_morning = (run_session outside default nobody morning agent).0

-- The morning sends a screenshot.
morning_sends : after_morning.frames_sent ≡ 1
unfolding run_session
morning_sends = refl

run_session-domains_example :
    run_session outside default
      (record nobody { domains = codes "bank.example" ∷ [] })
      morning
      agent
    ≡ run_session outside default nobody morning agent
run_session-domains_example =
    run_session-domains outside default nobody (codes "bank.example" ∷ []) morning agent

abbrev paused_agent : Agent
paused_agent = record agent { state = record idle { is_paused = true } }

run_session-IsQuiet_example :
    IsQuiet paused_agent (run_session outside default nobody morning paused_agent).0
unfolding next_ctrl
run_session-IsQuiet_example =
    run_session-IsQuiet outside default nobody morning paused_agent refl
      (tt, (tt, (tt, (λ n e. cc, tt))))

run_session-IsWithin_example :
    IsWithin (frames_in morning) agent (run_session outside default nobody morning agent).0
run_session-IsWithin_example =
    run_session-IsWithin outside default nobody morning agent (omega arith)

waits-eq_example :
    All IsWait (waits (failed false ∷ connected false ∷ []) 500)
    × (waits (connected false ∷ failures 8) 500 ≡ waits_from 0 8)
waits-eq_example = waits-eq (failed false ∷ connected false ∷ []) 8 500 (omega arith)

abbrev enrolled : ClientConfig
enrolled = record default { server = codes "10.0.0.1:8443" }

abbrev writes : Text → Bool
writes name = true

resolve-persist_example :
    let saved = record enrolled {
      fingerprint = none;
      psk = some (codes "s");
      client_id = some (codes "u");
    } in
    (r' : Registry) × (persist writes saved [] ≡ ok r')
    × (resolve writes some none (codes "v") default r'
        ≡ ok (
          record default {
            server = enrolled.server;
            server_name = enrolled.server_name;
            fingerprint = or_else none (get (codes "Fingerprint") []);
            psk = or_else (some (codes "s")) (or_else (get (codes "Psk") []) none);
            client_id = some (codes "u");
          },
          r',
        ))
resolve-persist_example =
    resolve-persist writes some none (codes "v") enrolled none (some (codes "s")) (codes "u") []
      (λ name. refl) refl (omega arith) tt (omega arith)

abbrev first_start : ClientConfig × Registry
first_start = (record default { client_id = some (codes "v") }, (codes "ClientId", codes "v") ∷ [])

resolve-resolve_example :
    resolve writes some none (codes "w") default first_start.1 ≡ ok first_start
unfolding resolve
resolve-resolve_example =
    resolve-resolve writes some none (codes "v") (codes "w") default [] first_start refl
      (omega arith) refl
