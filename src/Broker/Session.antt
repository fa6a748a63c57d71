-- ===== src/Broker/Session.antt =====
-- crates/precall-broker/src/ingest.rs: the session loop of `handle_conn`. The handlers'
-- parameters are those of Broker.Ingest; an item has the time at which it is read and a tick the
-- time of the clock, both in milliseconds.
pub mod Laws
use pre_call.Prelude.{
  ℕ, ◌+◌, ◌-◌, ◌*◌, Text, Bool, true, false, List, [], ◌∷◌, ◌++◌, Option, none, some, Result, ok,
  err, ltb, if◌then◌else◌,
}
use pre_call.Prelude.Int.{ℤ}
use pre_call.Proto.Channel.{pc_ctrl}
use pre_call.Proto.Error.{ProtoError}
use pre_call.Proto.Mux.{MuxFrame}
use pre_call.Proto.Metadata.{
  CaptureBatch, ControlMessage, goodbye, pause, resume, set_exclusions, heartbeat, panic_wipe,
}
use pre_call.Broker.Ingest.{Session, AudioHead, BrokerError, proto, dispatch}

-- The branches of the select: what the source gives (`none` at its end), a command for the
-- client, and a tick of the heartbeat interval.
pub data Event : Type 0 where
  item : Option (Result ProtoError MuxFrame) → ℕ → Event
  command : ControlMessage → Event
  tick : ℕ → Event

-- What the loop keeps: the session, when the client was heard last, and the frames sent to it.
pub record Loop : Type 0 where
  pub session : Session
  pub last_seen : ℕ
  pub sent : List MuxFrame

-- Whether the loop runs on, was left, or left with an error; `stuck` would be missing fuel of a
-- handler.
pub data Status : Type 0 where
  running closed timed_out stuck : Status
  failed : BrokerError → Status

handled : Loop → Option (Result BrokerError Session) → Loop × Status
handled l none = (l, stuck)
handled l (some (err e)) = (l, failed e)
handled l (some (ok s)) = (record l { session = s }, running)

is_goodbye : ControlMessage → Bool
is_goodbye (goodbye reason) = true
is_goodbye pause = false
is_goodbye (resume _) = false
is_goodbye (set_exclusions _ _) = false
is_goodbye (heartbeat _ _ _) = false
is_goodbye panic_wipe = false

-- The loop takes no event once it is left.
proceed : Loop × Status → (Loop → Loop × Status) → Loop × Status
proceed (l, running) next = next l
proceed (l, closed) next = (l, closed)
proceed (l, timed_out) next = (l, timed_out)
proceed (l, stuck) next = (l, stuck)
proceed (l, failed e) next = (l, failed e)

module _ (is_alphanumeric : ℕ → Bool) (encrypt : List ℕ → List ℕ → List ℕ → List ℕ → List ℕ)
    (decrypt : List ℕ → List ℕ → List ℕ → List ℕ → Option (List ℕ)) (nonce : ℕ → List ℕ)
    (client_id : Text) (read_batch : List ℕ → Option CaptureBatch)
    (read_head : List ℕ → Option AudioHead) (read_ctrl : List ℕ → Option ControlMessage)
    (filetime : ℕ → ℤ) (ctrl_json : ControlMessage → List ℕ) (heartbeat_interval_ms : ℕ) where
  -- One round of the loop.
  unfoldable pub step : Event → Loop → Loop × Status
  unfolding handled is_goodbye dispatch
  step (item none now) l = (l, closed)
  step (item (some (err e)) now) l = (l, failed (proto e))
  step (item (some (ok frame)) now) l =
      handled (record l { last_seen = now })
        (dispatch is_alphanumeric encrypt decrypt nonce client_id read_batch read_head read_ctrl
          (filetime now) frame l.session)
  step (command cmd) l =
      let told = record l {
        sent = l.sent ++ (record { channel = pc_ctrl; payload = ctrl_json cmd } ∷ []);
      } in
      (told, if is_goodbye cmd then closed else running)
  step (tick now) l =
      (l, if ltb (heartbeat_interval_ms * 4) (now - l.last_seen) then timed_out else running)

  unfoldable pub run_session : List Event → Loop → Loop × Status
  unfolding step proceed
  run_session [] l = (l, running)
  run_session (e ∷ es) l = proceed (step e l) (run_session es)
