-- ===== src/Broker/Session/Laws.antt =====
-- When the broker leaves a session.
use pre_call.Prelude.{
  ℕ, ◌+◌, ◌-◌, ◌*◌, ◌≤◌, ◌<◌, ◌≡◌, ◌≢◌, refl, Text, Bool, true, false, List, [], ◌∷◌, Option, none,
  some, Result, ok, err, ltb-false, lt→ltb, ◌++◌, if◌then◌else◌, arith,
}
use pre_call.Prelude.Int.{ℤ}
use pre_call.Proto.Channel.{pc_ctrl}
use pre_call.Proto.Metadata.{CaptureBatch, ControlMessage}
use pre_call.Broker.Ingest.{Session, AudioHead, BrokerError, dispatch}
use pre_call.Broker.Session.{
  Event, item, command, tick, Loop, Status, running, closed, timed_out, stuck, failed, handled,
  is_goodbye, proceed, run_session,
}

-- Every tick comes within four intervals of the time at which the client was heard last.
abbrev pub AreHeard : ℕ → ℕ → List Event → Type 0
AreHeard interval seen [] = Unit
AreHeard interval seen (item i now ∷ es) = AreHeard interval now es
AreHeard interval seen (command c ∷ es) = AreHeard interval seen es
AreHeard interval seen (tick now ∷ es) = (now ≤ seen + interval * 4) × AreHeard interval seen es

abbrev HasStatus : ℕ → Loop × Status → Type 0
HasStatus seen (l, running) = l.last_seen ≡ seen
HasStatus seen (l, timed_out) = ⊥
HasStatus seen (l, closed) = Unit
HasStatus seen (l, stuck) = Unit
HasStatus seen (l, failed e) = Unit

handled-HasStatus :
    (l : Loop) (o : Option (Result BrokerError Session)) → HasStatus l.last_seen (handled l o)
unfolding handled
handled-HasStatus l none = tt
handled-HasStatus l (some (err e)) = tt
handled-HasStatus l (some (ok s)) = refl

proceed-kept :
    (seen : ℕ) (s : Loop × Status) (next : Loop → Loop × Status)
    → HasStatus seen s
    → ((l : Loop) → l.last_seen ≡ seen → (next l).1 ≢ timed_out)
    → (proceed s next).1 ≢ timed_out
unfolding proceed
proceed-kept seen (l, running) next h f = f l h
proceed-kept seen (l, timed_out) next h f = absurd h
proceed-kept seen (l, closed) next h f = λ e. cc
proceed-kept seen (l, stuck) next h f = λ e. cc
proceed-kept seen (l, failed x) next h f = λ e. cc

module _ (is_alphanumeric : ℕ → Bool) (encrypt : List ℕ → List ℕ → List ℕ → List ℕ → List ℕ)
    (decrypt : List ℕ → List ℕ → List ℕ → List ℕ → Option (List ℕ)) (nonce : ℕ → List ℕ)
    (client_id : Text) (read_batch : List ℕ → Option CaptureBatch)
    (read_head : List ℕ → Option AudioHead) (read_ctrl : List ℕ → Option ControlMessage)
    (filetime : ℕ → ℤ) (ctrl_json : ControlMessage → List ℕ) (heartbeat_interval_ms : ℕ) where
  abbrev run : List Event → Loop → Loop × Status
  run =
      run_session is_alphanumeric encrypt decrypt nonce client_id read_batch read_head read_ctrl
        filetime ctrl_json heartbeat_interval_ms

  command-HasStatus :
      (l : Loop) (seen : ℕ) (b : Bool)
      → l.last_seen ≡ seen
      → HasStatus seen (l, if b then closed else running)
  command-HasStatus l seen true h = tt
  command-HasStatus l seen false h = h

  kept :
      (es : List Event) (l : Loop) (seen : ℕ)
      → l.last_seen ≡ seen
      → AreHeard heartbeat_interval_ms seen es
      → (run es l).1 ≢ timed_out
  unfolding run_session
  kept [] l seen e h = λ k. cc
  kept (item none now ∷ es) l seen e h = λ k. cc
  kept (item (some (err x)) now ∷ es) l seen e h = λ k. cc
  kept (item (some (ok f)) now ∷ es) l seen e h =
      proceed-kept now
        (handled (record l { last_seen = now })
          (dispatch is_alphanumeric encrypt decrypt nonce client_id read_batch read_head read_ctrl
            (filetime now) f l.session))
        (run es) (handled-HasStatus (record l { last_seen = now }) _) (λ m k. kept es m now k h)
  kept (command c ∷ es) l seen e h =
      proceed-kept seen
        (
          record l { sent = l.sent ++ (record { channel = pc_ctrl; payload = ctrl_json c } ∷ []) },
          if is_goodbye c then closed else running,
        )
        (run es)
        (command-HasStatus
          (record l { sent = l.sent ++ (record { channel = pc_ctrl; payload = ctrl_json c } ∷ []) })
          seen (is_goodbye c) e)
        (λ m k. kept es m seen k h)
  kept (tick now ∷ es) l seen e h =
      rw (ltb-false (heartbeat_interval_ms * 4) (now - l.last_seen) (omega (arith, e, h.0)))
        (kept es l seen e h.1)

  late :
      (es : List Event) (l : Loop) (now : ℕ)
      → l.last_seen + heartbeat_interval_ms * 4 < now
      → run (tick now ∷ es) l ≡ (l, timed_out)
  unfolding run_session
  late es l now h =
      rw (lt→ltb (heartbeat_interval_ms * 4) (now - l.last_seen) (omega (arith, h))) refl

  -- A session in which every tick comes within four heartbeat intervals of the last frame that
  -- the client sent is never dropped for silence, whatever frames and commands come; and if a
  -- tick comes later than that in a running session, the session is dropped at once.
  pub run_session-timeout :
      (es rest : List Event) (l : Loop) (now : ℕ)
      → AreHeard heartbeat_interval_ms l.last_seen es
      → l.last_seen + heartbeat_interval_ms * 4 < now
      → ((run es l).1 ≢ timed_out) × (run (tick now ∷ rest) l ≡ (l, timed_out))
  run_session-timeout es rest l now h k = (kept es l l.last_seen refl h, late rest l now k)
