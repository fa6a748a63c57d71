-- ===== src/Broker/Ingest.antt =====
-- crates/precall-broker/src/ingest.rs: the handlers of PCMETA, PCAUDIO and PCCTRL, and the
-- dispatch of a mux frame. The JSON parser and the draw of nonces are parameters; log lines are
-- left out. A client id is the text of its UUID.
pub mod Batch
pub mod Snapshot
use pre_call.Prelude.{
  ℕ, suc, ◌+◌, ◌*◌, Text, codes, Bool, true, false, not, List, [], ◌∷◌, ◌++◌, Option, none, some,
  Result, ok, err, ltb, length, take, drop, bytes_eq, ◌==◌, if◌then◌else◌,
}
use pre_call.Prelude.Int.{ℤ}
use pre_call.Proto.Channel.{ChannelId, gfx_rdp, pc_meta, pc_audio, pc_ctrl, pc_query}
use pre_call.Proto.Error.{ProtoError}
use pre_call.Proto.Mux.{MuxFrame}
use pre_call.Proto.Bytes.{get_u16_le}
use pre_call.Proto.Gfx.{codecid_jpeg}
use pre_call.Proto.Metadata.{CaptureBatch, ControlMessage, WindowCaptureRecord}
use pre_call.Store.Ukg.Tables.{Ukg}
use pre_call.Store.Ukg.Ingest.{as_i64, insert_capture}
use pre_call.Store.Objects.{ObjectStore, ymd_from_filetime, put}
use pre_call.Broker.Frames.{PendingFrame, FrameAssembler, GfxState, GfxOutcome, handle_gfx}

pub record LiveEvent : Type 0 where
  pub client_id : Text
  pub window_capture_id : ℕ
  pub image_token : Option Text
  pub window_title : Option Text
  pub timestamp_100ns : ℤ

-- What a session reads and writes: its frames, the client's stores, the events that it sent, and
-- how many nonces it drew.
pub record Session : Type 0 where
  pub frames : FrameAssembler
  pub pending : List PendingFrame
  pub db : Ukg
  pub objects : ObjectStore
  pub events : List LiveEvent
  pub draws : ℕ

pub data BrokerError : Type 0 where
  json : BrokerError
  proto : ProtoError → BrokerError

-- `AudioHead`
pub record AudioHead : Type 0 where
  pub token : Text
  pub timestamp_100ns : Option ℤ

unfoldable pub ext_of : PendingFrame → Text
ext_of f = if f.codec_id == codecid_jpeg then codes "jpg" else codes "raw"

unfoldable pub date_of : WindowCaptureRecord → ℤ × ℕ × ℕ
unfolding as_i64 ymd_from_filetime
date_of capture = ymd_from_filetime (as_i64 capture.timestamp_100ns)

unfoldable pub timestamp_or : ℤ → Option ℤ → ℤ
timestamp_or now none = now
timestamp_or now (some t) = t

module _ (is_alphanumeric : ℕ → Bool) (encrypt : List ℕ → List ℕ → List ℕ → List ℕ → List ℕ)
    (decrypt : List ℕ → List ℕ → List ℕ → List ℕ → Option (List ℕ)) (nonce : ℕ → List ℕ) where
  unfoldable pub put_object : Text → ℤ × ℕ × ℕ → Text → Text → List ℕ → Session → Session
  unfolding put
  put_object client_id date token ext bytes s = record s {
    objects =
        (put is_alphanumeric encrypt decrypt (nonce s.draws) client_id date token ext bytes
          s.objects).1;
    draws = suc s.draws;
  }

  -- `if let Some(f) = frame { … }`, with the frame popped.
  unfoldable pub pair_frame : Text → WindowCaptureRecord → List PendingFrame → Session → Session
  unfolding put_object ext_of date_of
  pair_frame client_id capture [] s = s
  pair_frame client_id capture (f ∷ rest) s =
      put_object client_id (date_of capture) capture.image_token (ext_of f) f.payload
        (record s { pending = rest })

  unfoldable pub record_capture : Text → WindowCaptureRecord → Session → Session
  unfolding insert_capture as_i64
  record_capture client_id capture s =
      let (wc_id, db) = insert_capture capture s.db in
      record s {
        db = db;
        events =
            s.events
            ++ (record {
              client_id = client_id;
              window_capture_id = wc_id;
              image_token = some capture.image_token;
              window_title = some capture.window_title;
              timestamp_100ns = as_i64 capture.timestamp_100ns;
            }
                ∷ []);
      }

  -- The body of the loop over the captures.
  unfoldable pub store_capture : Text → WindowCaptureRecord → Session → Session
  unfolding pair_frame record_capture
  store_capture client_id capture s =
      record_capture client_id capture (pair_frame client_id capture s.pending s)

  unfoldable pub store_captures : Text → List WindowCaptureRecord → Session → Session
  unfolding store_capture
  store_captures client_id [] s = s
  store_captures client_id (c ∷ rest) s =
      store_captures client_id rest (store_capture client_id c s)

  -- `json` is what serde reads in the payload.
  unfoldable pub handle_meta : Text → Option CaptureBatch → Session → Result BrokerError Session
  unfolding store_captures
  handle_meta client_id none s = err json
  handle_meta client_id (some batch) s =
      if not (bytes_eq batch.client_id client_id)
      then ok s
      else ok (store_captures client_id batch.captures s)

  audio_with : Text → ℤ → Option AudioHead → List ℕ → Session → Result BrokerError Session
  unfolding put_object timestamp_or
  audio_with client_id now none bytes s = err json
  audio_with client_id now (some head) [] s = ok s
  audio_with client_id now (some head) (b ∷ bs) s = ok (
      put_object client_id (ymd_from_filetime (timestamp_or now head.timestamp_100ns)) head.token
        (codes "opus") (b ∷ bs) s)

  -- `read_head` is the JSON parser and `now` the time.
  unfoldable pub handle_audio :
      Text → (List ℕ → Option AudioHead) → ℤ → List ℕ → Session → Result BrokerError Session
  unfolding audio_with
  handle_audio client_id read_head now (b0 ∷ b1 ∷ rest) s =
      let hlen = get_u16_le b0 b1 in
      if ltb (length rest) hlen
      then ok s
      else audio_with client_id now (read_head (take hlen rest)) (drop hlen rest) s
  handle_audio client_id read_head now (b0 ∷ []) s = ok s
  handle_audio client_id read_head now [] s = ok s

  -- A control message is only logged.
  unfoldable pub handle_ctrl : Option ControlMessage → Session → Result BrokerError Session
  handle_ctrl message s = ok s

  gfx_into : Session → GfxOutcome → Option (Result BrokerError Session)
  gfx_into s none = none
  gfx_into s (some (ok _, g)) = some (ok (record s { frames = g.frames; pending = g.pending }))
  gfx_into s (some (err e, g)) = some (err (proto e))

  -- The match on the channel of a mux frame; `none` would be missing fuel of `handle_gfx`.
  unfoldable pub dispatch :
      Text
      → (List ℕ → Option CaptureBatch)
      → (List ℕ → Option AudioHead)
      → (List ℕ → Option ControlMessage)
      → ℤ
      → MuxFrame
      → Session
      → Option (Result BrokerError Session)
  unfolding handle_gfx handle_meta handle_audio handle_ctrl gfx_into
  dispatch client_id read_batch read_head read_ctrl now frame s = elim frame.channel [
    | gfx_rdp ↦
        gfx_into s (handle_gfx frame.payload (record { frames = s.frames; pending = s.pending }))
    | pc_meta ↦ some (handle_meta client_id (read_batch frame.payload) s)
    | pc_audio ↦ some (handle_audio client_id read_head now frame.payload s)
    | pc_ctrl ↦ some (handle_ctrl (read_ctrl frame.payload) s)
    | pc_query ↦ some (ok s)
  ]
