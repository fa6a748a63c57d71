-- ===== src/Client/Run.antt =====
-- crates/precall-client/src/run.rs: the capture loop within one connection. The encoder, the OCR
-- engine, the draw of UUIDs and serde are parameters, and so is whether the network takes what is
-- written; a tick has the desktop and the time that it finds.
pub mod Pieces
pub mod Stream
pub mod Paused
pub mod Domains
pub mod Counts
pub mod Backoff
use pre_call.Prelude.{
  ℕ, zero, suc, ◌+◌, ◌*◌, ◌%◌, ◌^◌, Text, codes, Bool, true, false, ◌&&◌, List, [], ◌∷◌, ◌++◌, map,
  Option, none, some, Result, ok, err, length, take, drop, ◌==◌, if◌then◌else◌,
}
use Prim.Native.Nat.{bit_xor}
use pre_call.Prelude.Int.{ℤ}
use pre_call.Prelude.Print.{decimal_ℤ}
use pre_call.Proto.Metadata.{
  AppRecord, WebRecord, FileRecord, ScreenRegionRecord, WindowCaptureRecord, CaptureBatch,
  ControlMessage, heartbeat,
}
use pre_call.Proto.Channel.{pc_ctrl, gfx_rdp, pc_meta, pc_audio, pc_query}
use pre_call.Proto.Mux.{MuxFrame}
use pre_call.Client.Config.{ClientConfig}
use pre_call.Client.Meta.{
  WindowBounds, WindowMeta, Desktop, foreground_meta, is_protected_window, capture_name,
  activation_uri, fallback_uri, app_record,
}
use pre_call.Client.Meta.Urls.{browser_url}
use pre_call.Client.Meta.Shell.{explorer_paths}
use pre_call.Client.Jpeg.{encode_jpeg}
use pre_call.Client.Privacy.{
  Exclusions, Loop, Verdict, unchanged, send, dropped, capture_tick, push_time, on_control,
}
use pre_call.Client.Session.{ClientError, Link, transmit_frame, send_meta, send_audio, send_ctrl}

-- `CaptureFrame` of dxgi.rs.
pub record CaptureFrame : Type 0 where
  pub bgra : List ℕ
  pub width : ℕ
  pub height : ℕ
  pub dirty_regions : ℕ

-- `AudioChunk` of audio.rs.
pub record AudioChunk : Type 0 where
  pub pcm16 : List ℤ
  pub channels : ℕ
  pub sample_rate : ℕ

-- The hash of the first sixteen bytes of a chunk.
unfoldable pub hash_bytes : ℕ → List ℕ → ℕ
hash_bytes h [] = h
hash_bytes h (b ∷ bs) = hash_bytes (bit_xor h b * 0x100000001b3 % 2 ^ 64) bs

-- `chunks(4096)`; there are no more chunks than bytes.
unfoldable pub hash_chunks : ℕ → ℕ → List ℕ → ℕ
unfolding hash_bytes
hash_chunks fuel h [] = h
hash_chunks zero h (b ∷ bs) = h
hash_chunks (suc fuel) h (b ∷ bs) =
    hash_chunks fuel (hash_bytes h (take 16 (b ∷ bs))) (drop 4096 (b ∷ bs))

unfoldable pub cheap_hash : List ℕ → ℕ
unfolding hash_chunks
cheap_hash bgra = hash_chunks (length bgra) 0xcbf29ce484222325 bgra

-- What the loop asks of the outside: texts, the network, the JPEG encoder, the OCR engine, the
-- n-th UUID that is drawn, and serde.
pub record Outside : Type 0 where
  pub lowercase : List ℕ → Text
  pub utf16_lossy : List ℕ → Text
  pub flush : List ℕ → Bool
  pub write_image : List ℕ → ℕ → ℕ → ℕ → Option (List ℕ)
  pub ocr : CaptureFrame → Option (List ScreenRegionRecord)
  pub uuid : ℕ → Text
  pub batch_json : CaptureBatch → Option (List ℕ)
  pub ctrl_json : ControlMessage → Option (List ℕ)
  pub head_json : ℕ → ℕ → Option (List ℕ)
  pub read_ctrl : List ℕ → Option ControlMessage

-- What `framed.next()` gives within fifty milliseconds.
pub data Inbound : Type 0 where
  received : MuxFrame → Inbound
  failed closed timed_out : Inbound

-- The branches of the select: what `frame_chan` and `audio_chan` give is `none` once their thread
-- has ended, and a capture tick finds a desktop and the time.
pub data Event : Type 0 where
  stop : Event
  frame : Option CaptureFrame → Event
  audio : Option AudioChunk → Event
  tick : Desktop → ℕ → Event
  heartbeat_tick : Event
  inbound : Inbound → Event

-- The connection, what the loop keeps, the frame that waits for a tick, and how many UUIDs were
-- drawn.
pub record Agent : Type 0 where
  pub link : Link
  pub state : Loop
  pub frames_sent : ℕ
  pub latest_frame : Option CaptureFrame
  pub draws : ℕ

-- The agent after an event, and whether the session goes on.
abbrev pub Stepped : Type 0
Stepped = Agent × Bool

-- A session that was left takes no further event.
proceed : Stepped → (Agent → Stepped) → Stepped
proceed (a, true) next = next a
proceed (a, false) next = (a, false)

unfoldable pub bounds_text : WindowBounds → Text
unfolding decimal_ℤ
bounds_text b =
    decimal_ℤ b.left
    ++ (codes ","
        ++ (decimal_ℤ b.top
            ++ (codes "," ++ (decimal_ℤ b.right ++ (codes "," ++ decimal_ℤ b.bottom)))))

abbrev to_list : Option AppRecord → List AppRecord
to_list none = []
to_list (some a) = a ∷ []

abbrev regions_or_none : Option (List ScreenRegionRecord) → List ScreenRegionRecord
regions_or_none none = []
regions_or_none (some r) = r

-- The answer of `next_ctrl`: an error leaves the session.
unfoldable pub next_ctrl :
    (List ℕ → Option ControlMessage) → Inbound → Option (Option ControlMessage)
next_ctrl read_ctrl (received f) = elim f.channel [
  | pc_ctrl ↦ elim (read_ctrl f.payload) [ none ↦ none | some m ↦ some (some m) ]
  | gfx_rdp ↦ some none
  | pc_meta ↦ some none
  | pc_audio ↦ some none
  | pc_query ↦ some none
]
next_ctrl read_ctrl failed = none
next_ctrl read_ctrl closed = none
next_ctrl read_ctrl timed_out = some none

controlled : Agent → Option Loop → Stepped
controlled a none = (a, false)
controlled a (some l) = (record a { state = l }, true)

answered : Agent → Option (Option ControlMessage) → Stepped
unfolding on_control controlled
answered a none = (a, false)
answered a (some none) = (a, true)
answered a (some (some m)) = controlled a (on_control m a.state)

relinked : Agent → Result ClientError Link → Stepped
relinked a (err e) = (a, false)
relinked a (ok l) = (record a { link = l }, true)

unfoldable pub heartbeat_of : Agent → ControlMessage
heartbeat_of a =
    heartbeat a.frames_sent a.state.frames_skipped_unchanged (length a.state.pending % 2 ^ 32)

-- The last send of a tick.
counted : Agent → Result ClientError Link → Stepped
counted a (err e) = (a, false)
counted a (ok l) = (record a { link = l; frames_sent = suc a.frames_sent }, true)

module _ (o : Outside) (cfg : ClientConfig) (ex : Exclusions) where
  urls_of : Desktop → WindowMeta → List WebRecord
  unfolding browser_url
  urls_of d meta = if meta.pid == 0 then [] else browser_url o.lowercase d

  ocr_regions : CaptureFrame → List ScreenRegionRecord
  ocr_regions f = if cfg.enable_ocr then regions_or_none (o.ocr f) else []

  -- `rec` of a tick.
  unfoldable pub record_of : CaptureFrame → Desktop → Text → ℕ → WindowCaptureRecord
  unfolding foreground_meta capture_name bounds_text activation_uri fallback_uri app_record
      explorer_paths urls_of ocr_regions
  record_of f d token now =
      let meta = foreground_meta o.lowercase o.utf16_lossy d in
      record {
        name = capture_name meta;
        image_token = token;
        is_foreground = true;
        window_id = meta.hwnd;
        window_bounds = bounds_text meta.bounds;
        window_title = meta.title;
        properties = none;
        timestamp_100ns = now;
        activation_uri = activation_uri meta;
        activity_id = meta.aumid;
        fallback_uri = fallback_uri meta;
        apps = to_list (app_record meta);
        files = explorer_paths d;
        webs = urls_of d meta;
        regions = ocr_regions f;
      }

  after_frame : Agent → WindowCaptureRecord → Result ClientError Link → Stepped
  unfolding send_meta counted
  after_frame a cap (err e) = (a, false)
  after_frame a cap (ok l) = counted a (send_meta o.flush o.batch_json cap l)

  -- A frame that is sent, from the encoder on.
  encoded : CaptureFrame → Desktop → ℕ → Agent → Option (List ℕ) → Stepped
  unfolding record_of push_time transmit_frame after_frame
  encoded f d now a none = (a, true)
  encoded f d now a (some jpeg) =
      let cap = record_of f d (o.uuid a.draws) now in
      let drawn = record a {
        draws = suc a.draws;
        state = record a.state { pending = push_time now a.state.pending };
      } in
      after_frame drawn cap (transmit_frame o.flush jpeg f.width f.height now a.link)

  judged : CaptureFrame → Desktop → ℕ → Agent → Verdict × Loop → Stepped
  unfolding encoded encode_jpeg
  judged f d now a (send, l) =
      encoded f d now (record a { state = l })
        (encode_jpeg o.write_image f.bgra f.width f.height 80)
  judged f d now a (unchanged, l) = (record a { state = l }, true)
  judged f d now a (dropped reason, l) = (record a { state = l }, true)

  taken : Desktop → ℕ → Agent → Option CaptureFrame → Stepped
  unfolding judged capture_tick cheap_hash foreground_meta is_protected_window
  taken d now a none = (a, true)
  taken d now a (some f) =
      judged f d now (record a { latest_frame = none })
        (capture_tick o.lowercase (cheap_hash f.bgra) f.dirty_regions
          (foreground_meta o.lowercase o.utf16_lossy d) (is_protected_window d) ex a.state)

  -- One round of the inner loop.
  unfoldable pub step : Event → Agent → Stepped
  unfolding relinked send_audio send_ctrl heartbeat_of taken next_ctrl answered
  step stop a = (a, false)
  step (frame none) a = (a, false)
  step (frame (some f)) a = (record a { latest_frame = some f }, true)
  step (audio none) a = (a, true)
  step (audio (some c)) a =
      if cfg.enable_audio
      then relinked a (send_audio o.flush o.head_json c.pcm16 c.channels c.sample_rate a.link)
      else (a, true)
  step (tick d now) a = taken d now a a.latest_frame
  step heartbeat_tick a = relinked a (send_ctrl o.flush o.ctrl_json (heartbeat_of a) a.link)
  step (inbound i) a = answered a (next_ctrl o.read_ctrl i)

  -- The inner loop over the events that come; `true` if it still runs.
  unfoldable pub run_session : List Event → Agent → Stepped
  unfolding step proceed
  run_session [] a = (a, true)
  run_session (e ∷ es) a = proceed (step e a) (run_session es)
