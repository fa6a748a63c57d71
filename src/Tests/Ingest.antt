-- ===== src/Tests/Ingest.antt =====
-- The broker and its stores at concrete inputs, with a cipher that only adds sixteen bytes.
use pre_call.Prelude.{
  ℕ, ◌≢◌, ◌+◌, ◌-◌, ◌≡◌, ◌↔◌, ◌⊎◌, refl, subst, ap, codes, Bool, true, false, List, [], ◌∷◌, ◌++◌,
  Option, none, some, ok, length, length-append, take, take-append_self, bytes_eq, arith,
}
use pre_call.Prelude.Int.{pos}
use pre_call.Proto.Channel.{gfx_rdp, pc_meta}
use pre_call.Proto.Gfx.Iter.{encode_pdus}
use pre_call.Proto.Metadata.{CaptureBatch, ControlMessage}
use pre_call.Proto.Handshake.{ClientHello, ServerHello, psk, protocol_version}
use pre_call.Store.Ukg.Tables.{empty}
use pre_call.Store.Ukg.Ingest.{find_token}
use pre_call.Store.Objects.{ObjectStore, key_path, get}
use pre_call.Broker.Frames.{new}
use pre_call.Broker.Frames.Snapshot.{frame_pdus}
use pre_call.Broker.Auth.{Authenticator, allow, authenticate}
use pre_call.Broker.Ingest.{Session, AudioHead, dispatch, handle_meta, date_of}
use pre_call.Broker.Ingest.Batch.{IsStored, handle_meta_outcome}
use pre_call.Broker.Ingest.Snapshot.{dispatch_snapshot}
use pre_call.Broker.Connect.{Registries, handshake}
use pre_call.Broker.Connect.Laws.{handshake_iff}
use pre_call.Broker.Connect.Count.{Sessions, Steps, no_sessions, enter, refuse, done, then}
use pre_call.Broker.Session.{Loop, Event, item, tick, timed_out, run_session}
use pre_call.Broker.Session.Laws.{run_session-timeout}
use pre_call.Tests.Ukg.{notepad}
use pre_call.Tests.Frames.{shot}

abbrev tag : List ℕ
tag = 0 ∷ 0 ∷ 0 ∷ 0 ∷ 0 ∷ 0 ∷ 0 ∷ 0 ∷ 0 ∷ 0 ∷ 0 ∷ 0 ∷ 0 ∷ 0 ∷ 0 ∷ 0 ∷ []

abbrev pub encrypt : List ℕ → List ℕ → List ℕ → List ℕ → List ℕ
encrypt key iv aad msg = msg ++ tag

abbrev pub decrypt : List ℕ → List ℕ → List ℕ → List ℕ → Option (List ℕ)
decrypt key iv aad sealed = some (take (length sealed - 16) sealed)

pub length-encrypt : (key iv aad msg : List ℕ) → length (encrypt key iv aad msg) ≡ length msg + 16
length-encrypt key iv aad msg = length-append msg tag

pub decrypt-encrypt :
    (key iv aad msg : List ℕ) → decrypt key iv aad (encrypt key iv aad msg) ≡ some msg
decrypt-encrypt key iv aad msg = ap some (
    subst (λ n. take n (msg ++ tag) ≡ msg) (omega (arith, length-append msg tag))
      (take-append_self msg tag))

abbrev pub iv : ℕ → List ℕ
iv n = 1 ∷ 2 ∷ 3 ∷ 4 ∷ 5 ∷ 6 ∷ 7 ∷ 8 ∷ 9 ∷ 10 ∷ 11 ∷ 12 ∷ []

pub length-iv : (n : ℕ) → length (iv n) ≡ 12
length-iv n = refl

-- Letters, digits and all else but the separator.
abbrev pub is_alphanumeric : ℕ → Bool
is_alphanumeric c = true

abbrev pub vault : ObjectStore
vault = record { objects = []; cipher = some (7 ∷ []) }

abbrev pub waiting : Session
waiting = record { frames = new; pending = []; db = empty; objects = vault; events = []; draws = 0 }

abbrev batch : CaptureBatch
batch = record { client_id = codes "c"; seq = 0; captures = notepad ∷ [] }

abbrev read_batch : List ℕ → Option CaptureBatch
read_batch json = some batch

abbrev pub read_head : List ℕ → Option AudioHead
read_head json = none

abbrev pub read_ctrl : List ℕ → Option ControlMessage
read_ctrl json = none

dispatch_snapshot_example :
    let path =
      key_path is_alphanumeric (codes "c") (date_of notepad) (codes "tok-1") (codes "jpg") in
    let run =
      dispatch is_alphanumeric encrypt decrypt iv
        (codes "c")
        read_batch
        read_head
        read_ctrl
        (pos 0) in
    (s1 : Session) × (s2 : Session) × (run
        (record { channel = gfx_rdp; payload = encode_pdus (frame_pdus 3 5 1 0x20 (shot ∷ [])) [] })
        waiting
      ≡ some (ok s1))
    × (run (record { channel = pc_meta; payload = b'{' ∷ b'}' ∷ [] }) s1 ≡ some (ok s2))
    × (get is_alphanumeric encrypt decrypt bytes_eq (codes "c") path (codes "tok-1") s2.objects
        ≡ ok shot.bits)
    × (id : ℕ) × (find_token (codes "tok-1") s2.db.captures ≡ some id)
dispatch_snapshot_example =
    dispatch_snapshot is_alphanumeric encrypt decrypt iv length-encrypt decrypt-encrypt length-iv
      (codes "c") read_batch read_head read_ctrl bytes_eq (pos 0) 3 5 1 0x20 0 shot notepad
      (b'{' ∷ b'}' ∷ []) waiting (omega arith) refl refl refl (unfold key_path bytes_eq in refl)

handle_meta_outcome_example :
    ((bytes_eq (codes "c") (codes "c") ≡ false)
      × (handle_meta is_alphanumeric encrypt decrypt iv (codes "c") (some batch) waiting
          ≡ ok waiting))
    ⊎ ((bytes_eq (codes "c") (codes "c") ≡ true)
        × (s' : Session) × (handle_meta is_alphanumeric encrypt decrypt iv
              (codes "c")
              (some batch)
              waiting
            ≡ ok s')
        × IsStored (notepad ∷ []) waiting s')
handle_meta_outcome_example =
    handle_meta_outcome is_alphanumeric encrypt decrypt iv (codes "c") batch waiting

abbrev same : List ℕ → List ℕ
same xs = xs

abbrev guard : Authenticator
guard = record {
  psk_digests = codes "key" ∷ [];
  enrolled_certs = [];
  allow_ntlm = false;
  allow_any_client = false;
}

abbrev hello : ClientHello
hello = record {
  version = 1;
  client_id = codes "c";
  hostname = codes "host";
  auth = psk (codes "key");
  capabilities = record {
    displays = [];
    channels = gfx_rdp ∷ [];
    codec_ids = [];
    capture_interval_ms = 2000;
    client_build = [];
  };
}

abbrev registries : Registries
registries = record { ukg = empty; server_db = empty }

handshake_iff_example :
    ((a : ServerHello × Registries) × (handshake same same guard hello (codes "s") 5 1000 registries
        ≡ ok a))
    ↔ ((1 ≡ protocol_version)
        × (p : List ℕ) × (authenticate same same guard (psk (codes "key")) (codes "c") ≡ allow p))
handshake_iff_example = handshake_iff same same guard hello (codes "s") 5 1000 registries

abbrev full : Sessions
full = record { counter = 2; active = 1; refused = 1 }

abbrev filling : Steps 1 no_sessions full
filling =
    then no_sessions (record { counter = 1; active = 1; refused = 0 }) full
      (then no_sessions no_sessions (record { counter = 1; active = 1; refused = 0 })
        (done no_sessions) (enter no_sessions (omega arith)))
      (refuse (record { counter = 1; active = 1; refused = 0 }) (omega arith))

abbrev heard : Loop
heard = record { session = waiting; last_seen = 1000; sent = [] }

abbrev beats : List Event
beats =
    tick 2000 ∷ item (some (ok (record { channel = pc_meta; payload = [] }))) 4500 ∷ tick 8000 ∷ []

run_session-timeout_example :
    ((run_session is_alphanumeric encrypt decrypt iv
        (codes "c")
        read_batch
        read_head
        read_ctrl
        (λ now. pos now)
        (λ m. [])
        1000
        beats
        heard).1
      ≢ timed_out)
    × (run_session is_alphanumeric encrypt decrypt iv
          (codes "c")
          read_batch
          read_head
          read_ctrl
          (λ now. pos now)
          (λ m. [])
          1000
          (tick 6000 ∷ [])
          heard
        ≡ (heard, timed_out))
run_session-timeout_example =
    run_session-timeout is_alphanumeric encrypt decrypt iv (codes "c") read_batch read_head
      read_ctrl (λ now. pos now) (λ m. []) 1000 beats [] heard 6000 (omega arith) (omega arith)
