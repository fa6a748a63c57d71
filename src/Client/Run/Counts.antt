-- ===== src/Client/Run/Counts.antt =====
-- What the counters of a session and its queue of times add up to.
use pre_call.Prelude.{
  ℕ, suc, ◌+◌, ◌≤◌, ◌≡◌, refl, sym, ap, subst, true, false, List, [], ◌∷◌, ◌++◌, Option, none, some,
  Result, ok, err, Bool-cases, inl, inr, length, length-append, length-drop, ltb, arith,
}
use pre_call.Proto.Metadata.{
  ControlMessage, WindowCaptureRecord, pause, resume, set_exclusions, heartbeat, panic_wipe,
  goodbye,
}
use pre_call.Client.Config.{ClientConfig}
use pre_call.Client.Meta.{Desktop, foreground_meta, is_protected_window}
use pre_call.Client.Privacy.{
  Exclusions, Loop, Verdict, send, unchanged, dropped, on_control, push_time,
}
use pre_call.Client.Privacy.Laws.{capture_tick-score, score, skips}
use pre_call.Client.Session.{ClientError, Link, send_meta, send_audio, send_ctrl, transmit_frame}
use pre_call.Client.Jpeg.{encode_jpeg}
use pre_call.Client.Run.{
  Outside, CaptureFrame, Event, stop, frame, audio, tick, heartbeat_tick, inbound, Agent, Stepped,
  run_session, step, relinked, counted, after_frame, encoded, judged, taken, answered, controlled,
  next_ctrl, heartbeat_of, proceed, cheap_hash, record_of,
}

abbrev pub held : Option CaptureFrame → ℕ
held none = 0
held (some f) = 1

-- The frames that are accounted for, and the one that waits.
abbrev pub total : Agent → ℕ
total a = a.frames_sent + skips a.state + held a.latest_frame

-- The frames that the capture thread hands over.
abbrev pub frames_in : List Event → ℕ
frames_in [] = 0
frames_in (frame (some f) ∷ es) = suc (frames_in es)
frames_in (frame none ∷ es) = frames_in es
frames_in (stop ∷ es) = frames_in es
frames_in (audio c ∷ es) = frames_in es
frames_in (tick d now ∷ es) = frames_in es
frames_in (heartbeat_tick ∷ es) = frames_in es
frames_in (inbound i ∷ es) = frames_in es

frames_in-cons :
    (e : Event) (es : List Event) → frames_in (e ∷ es) ≡ frames_in (e ∷ []) + frames_in es
frames_in-cons (frame (some f)) es = omega arith
frames_in-cons (frame none) es = omega arith
frames_in-cons stop es = omega arith
frames_in-cons (audio c) es = omega arith
frames_in-cons (tick d now) es = omega arith
frames_in-cons heartbeat_tick es = omega arith
frames_in-cons (inbound i) es = omega arith

-- At most `n` frames more, and a queue of at most 64 times.
abbrev pub IsWithin : ℕ → Agent → Agent → Type 0
IsWithin n a c = (total c ≤ n + total a) × (length c.state.pending ≤ 64)

push_time-le :
    (now : ℕ) (pending : List ℕ) → length pending ≤ 64 → length (push_time now pending) ≤ 64
unfolding push_time
push_time-le now pending h = elim (Bool-cases (ltb 64 (length (pending ++ (now ∷ []))))) [
  | inl e ↦
      rw e (omega (arith, length-drop 1 (pending ++ (now ∷ [])), length-append pending (now ∷ [])))
  | inr e ↦ rw e (ground (arith, e))
]

relinked-IsWithin :
    (a : Agent) (r : Result ClientError Link)
    → length a.state.pending ≤ 64
    → IsWithin 0 a (relinked a r).0
unfolding relinked
relinked-IsWithin a (err e) h = (omega arith, h)
relinked-IsWithin a (ok l) h = (omega arith, h)

controlled-IsWithin :
    (a : Agent) (m : ControlMessage)
    → length a.state.pending ≤ 64
    → IsWithin 0 a (controlled a (on_control m a.state)).0
unfolding controlled on_control
controlled-IsWithin a pause h = (omega arith, h)
controlled-IsWithin a (resume n) h = (omega arith, h)
controlled-IsWithin a (set_exclusions _ _) h = (omega arith, h)
controlled-IsWithin a (heartbeat _ _ _) h = (omega arith, h)
controlled-IsWithin a panic_wipe h = (omega arith, omega arith)
controlled-IsWithin a (goodbye _) h = (omega arith, h)

answered-IsWithin :
    (a : Agent) (m : Option (Option ControlMessage))
    → length a.state.pending ≤ 64
    → IsWithin 0 a (answered a m).0
unfolding answered
answered-IsWithin a none h = (omega arith, h)
answered-IsWithin a (some none) h = (omega arith, h)
answered-IsWithin a (some (some m)) h = controlled-IsWithin a m h

counted-IsWithin :
    (a : Agent) (r : Result ClientError Link)
    → length a.state.pending ≤ 64
    → IsWithin 1 a (counted a r).0
unfolding counted
counted-IsWithin a (err e) h = (omega arith, h)
counted-IsWithin a (ok l) h = (omega arith, h)

module _ (o : Outside) (cfg : ClientConfig) (ex : Exclusions) where
  after_frame-IsWithin :
      (a : Agent) (row : WindowCaptureRecord) (r : Result ClientError Link)
      → length a.state.pending ≤ 64
      → IsWithin 1 a (after_frame o cfg ex a row r).0
  unfolding after_frame
  after_frame-IsWithin a row (err e) h = (omega arith, h)
  after_frame-IsWithin a row (ok l) h = counted-IsWithin a (send_meta o.flush o.batch_json row l) h

  encoded-IsWithin :
      (f : CaptureFrame) (d : Desktop) (now : ℕ) (a : Agent) (jpeg : Option (List ℕ))
      → length a.state.pending ≤ 64
      → IsWithin 1 a (encoded o cfg ex f d now a jpeg).0
  unfolding encoded
  encoded-IsWithin f d now a none h = (omega arith, h)
  encoded-IsWithin f d now a (some jpeg) h =
      after_frame-IsWithin
        (record a {
          draws = suc a.draws;
          state = record a.state { pending = push_time now a.state.pending };
        })
        (record_of o cfg ex f d (o.uuid a.draws) now)
        (transmit_frame o.flush jpeg f.width f.height now a.link)
        (push_time-le now a.state.pending h)

  judged-IsWithin :
      (f : CaptureFrame) (d : Desktop) (now : ℕ) (a : Agent) (v : Verdict × Loop)
      → length v.1.pending ≤ 64
      → (score v.0 + skips v.1 ≤ suc (skips a.state))
      → IsWithin 1 a (judged o cfg ex f d now a v).0
  unfolding judged
  judged-IsWithin f d now a (send, l) h k =
      let (n, p) =
        encoded-IsWithin f d now (record a { state = l })
          (encode_jpeg o.write_image f.bgra f.width f.height 80) h in
      (omega (arith, n, k), p)
  judged-IsWithin f d now a (unchanged, l) h k = (omega (arith, k), h)
  judged-IsWithin f d now a (dropped _, l) h k = (omega (arith, k), h)

  taken-IsWithin :
      (d : Desktop) (now : ℕ) (a : Agent) (f : Option CaptureFrame)
      → a.latest_frame ≡ f
      → length a.state.pending ≤ 64
      → IsWithin 0 a (taken o cfg ex d now a f).0
  unfolding taken
  taken-IsWithin d now a none e h = (omega arith, h)
  taken-IsWithin d now a (some f) e h =
      let meta = foreground_meta o.lowercase o.utf16_lossy d in
      let (counted_once, same) =
        capture_tick-score o.lowercase (cheap_hash f.bgra) f.dirty_regions meta
          (is_protected_window d) ex a.state in
      let (n, p) =
        judged-IsWithin f d now (record a { latest_frame = none }) _
          (subst (λ q. length q ≤ 64) (sym same) h) counted_once in
      (omega (arith, n, ap held e), p)

  step-IsWithin :
      (e : Event) (a : Agent)
      → length a.state.pending ≤ 64
      → IsWithin (frames_in (e ∷ [])) a (step o cfg ex e a).0
  unfolding step
  step-IsWithin stop a h = (omega arith, h)
  step-IsWithin (frame none) a h = (omega arith, h)
  step-IsWithin (frame (some f)) a h = (omega arith, h)
  step-IsWithin (audio none) a h = (omega arith, h)
  step-IsWithin (audio (some c)) a h = elim (Bool-cases cfg.enable_audio) [
    | inr off ↦ rw off (omega arith, h)
    | inl on ↦ rw on (
        relinked-IsWithin a (send_audio o.flush o.head_json c.pcm16 c.channels c.sample_rate a.link)
          h)
  ]
  step-IsWithin (tick d now) a h = taken-IsWithin d now a a.latest_frame refl h
  step-IsWithin heartbeat_tick a h =
      relinked-IsWithin a (send_ctrl o.flush o.ctrl_json (heartbeat_of a) a.link) h
  step-IsWithin (inbound i) a h = answered-IsWithin a (next_ctrl o.read_ctrl i) h

  proceed-IsWithin :
      (n k : ℕ) (a : Agent) (s : Stepped) (next : Agent → Stepped)
      → IsWithin n a s.0
      → ((b : Agent) → length b.state.pending ≤ 64 → IsWithin k b (next b).0)
      → IsWithin (n + k) a (proceed s next).0
  unfolding proceed
  proceed-IsWithin n k a (b, false) next (t, p) f = (omega (arith, t), p)
  proceed-IsWithin n k a (b, true) next (t, p) f = let (u, q) = f b p in (omega (arith, t, u), q)

  -- In a session no frame is counted twice: the frames that were sent and the frames that were
  -- skipped, with the one that waits, grow by no more than the frames that the capture thread
  -- handed over, in whatever order the events come; and the queue of the times, which the
  -- heartbeat reports, never holds more than 64.
  pub run_session-IsWithin :
      (es : List Event) (a : Agent)
      → length a.state.pending ≤ 64
      → IsWithin (frames_in es) a (run_session o cfg ex es a).0
  unfolding run_session
  run_session-IsWithin [] a h = (omega arith, h)
  run_session-IsWithin (e ∷ es) a h =
      let (t, p) =
        proceed-IsWithin (frames_in (e ∷ [])) (frames_in es) a (step o cfg ex e a)
          (run_session o cfg ex es) (step-IsWithin e a h) (run_session-IsWithin es) in
      (omega (arith, t, frames_in-cons e es), p)
