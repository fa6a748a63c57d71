-- ===== src/Client/Run/Paused.antt =====
-- What a paused client does not do, over a whole session.
use pre_call.Prelude.{
  ℕ, ◌≡◌, ◌≢◌, refl, ap, ◌∙◌, true, false, List, [], ◌∷◌, Option, none, some, All, Result, ok, err,
  Bool-cases, inl, inr,
}
use pre_call.Proto.Metadata.{
  ControlMessage, pause, resume, set_exclusions, heartbeat, panic_wipe, goodbye,
}
use pre_call.Client.Config.{ClientConfig}
use pre_call.Client.Meta.{Desktop, foreground_meta, is_protected_window}
use pre_call.Client.Privacy.{
  Exclusions, Loop, Verdict, send, unchanged, dropped, on_control, capture_tick,
}
use pre_call.Client.Privacy.Laws.{capture_tick_paused}
use pre_call.Client.Session.{ClientError, Link, send_audio, send_ctrl}
use pre_call.Client.Session.Sent.{send_audio-Puts, send_ctrl-Puts}
use pre_call.Client.Run.{
  Outside, CaptureFrame, Event, stop, frame, audio, tick, heartbeat_tick, inbound, Agent, Stepped,
  run_session, step, relinked, judged, taken, answered, controlled, next_ctrl, heartbeat_of,
  proceed, cheap_hash,
}

-- The event is not a message that ends a pause.
abbrev pub IsNoResume : Outside → Event → Type 0
IsNoResume o (inbound i) =
    (interval : Option ℕ) → next_ctrl o.read_ctrl i ≢ some (some (resume interval))
IsNoResume o stop = Unit
IsNoResume o (frame f) = Unit
IsNoResume o (audio c) = Unit
IsNoResume o (tick d now) = Unit
IsNoResume o heartbeat_tick = Unit

-- No screenshot went out: the next one has the same frame id, and its batch the same number.
abbrev pub IsQuiet : Agent → Agent → Type 0
IsQuiet a c =
    (c.state.is_paused ≡ true) × (c.frames_sent ≡ a.frames_sent) × (c.link.conn ≡ a.link.conn)

relinked-IsQuiet :
    (a : Agent) (r : Result ClientError Link)
    → a.state.is_paused ≡ true
    → ((l : Link) → r ≡ ok l → l.conn ≡ a.link.conn)
    → IsQuiet a (relinked a r).0
unfolding relinked
relinked-IsQuiet a (err e) h f = (h, refl, refl)
relinked-IsQuiet a (ok l) h f = (h, refl, f l refl)

controlled-IsQuiet :
    (a : Agent) (m : ControlMessage)
    → a.state.is_paused ≡ true
    → ((interval : Option ℕ) → m ≢ resume interval)
    → IsQuiet a (controlled a (on_control m a.state)).0
unfolding controlled on_control
controlled-IsQuiet a pause h f = (refl, refl, refl)
controlled-IsQuiet a (resume n) h f = absurd (f n refl)
controlled-IsQuiet a (set_exclusions _ _) h f = (h, refl, refl)
controlled-IsQuiet a (heartbeat _ _ _) h f = (h, refl, refl)
controlled-IsQuiet a panic_wipe h f = (refl, refl, refl)
controlled-IsQuiet a (goodbye _) h f = (h, refl, refl)

answered-IsQuiet :
    (a : Agent) (m : Option (Option ControlMessage))
    → a.state.is_paused ≡ true
    → ((interval : Option ℕ) → m ≢ some (some (resume interval)))
    → IsQuiet a (answered a m).0
unfolding answered
answered-IsQuiet a none h f = (h, refl, refl)
answered-IsQuiet a (some none) h f = (h, refl, refl)
answered-IsQuiet a (some (some m)) h f =
    controlled-IsQuiet a m h (λ n e. f n (ap (λ x. some (some x)) e))

module _ (o : Outside) (cfg : ClientConfig) (ex : Exclusions) where
  judged-IsQuiet :
      (f : CaptureFrame) (d : Desktop) (now : ℕ) (a : Agent) (v : Verdict × Loop)
      → (v.0 ≢ send) × (v.1.is_paused ≡ true)
      → IsQuiet a (judged o cfg ex f d now a v).0
  unfolding judged
  judged-IsQuiet f d now a (send, l) (h, p) = absurd (h refl)
  judged-IsQuiet f d now a (unchanged, l) (h, p) = (p, refl, refl)
  judged-IsQuiet f d now a (dropped _, l) (h, p) = (p, refl, refl)

  taken-IsQuiet :
      (d : Desktop) (now : ℕ) (a : Agent) (held : Option CaptureFrame)
      → a.state.is_paused ≡ true
      → IsQuiet a (taken o cfg ex d now a held).0
  unfolding taken
  taken-IsQuiet d now a none h = (h, refl, refl)
  taken-IsQuiet d now a (some f) h =
      judged-IsQuiet f d now (record a { latest_frame = none })
        (capture_tick o.lowercase (cheap_hash f.bgra) f.dirty_regions
          (foreground_meta o.lowercase o.utf16_lossy d) (is_protected_window d) ex a.state)
        (capture_tick_paused o.lowercase (cheap_hash f.bgra) f.dirty_regions
          (foreground_meta o.lowercase o.utf16_lossy d) (is_protected_window d) ex a.state h)

  step-IsQuiet :
      (e : Event) (a : Agent)
      → a.state.is_paused ≡ true
      → IsNoResume o e
      → IsQuiet a (step o cfg ex e a).0
  unfolding step
  step-IsQuiet stop a h k = (h, refl, refl)
  step-IsQuiet (frame none) a h k = (h, refl, refl)
  step-IsQuiet (frame (some f)) a h k = (h, refl, refl)
  step-IsQuiet (audio none) a h k = (h, refl, refl)
  step-IsQuiet (audio (some c)) a h k = elim (Bool-cases cfg.enable_audio) [
    | inr off ↦ rw off (h, refl, refl)
    | inl on ↦ rw on (
        relinked-IsQuiet a (send_audio o.flush o.head_json c.pcm16 c.channels c.sample_rate a.link)
          h
          (λ l r.
            (send_audio-Puts o.flush o.head_json c.pcm16 c.channels c.sample_rate a.link l r).2.1))
  ]
  step-IsQuiet (tick d now) a h k = taken-IsQuiet d now a a.latest_frame h
  step-IsQuiet heartbeat_tick a h k =
      relinked-IsQuiet a (send_ctrl o.flush o.ctrl_json (heartbeat_of a) a.link) h
        (λ l r. (send_ctrl-Puts o.flush o.ctrl_json (heartbeat_of a) a.link l r).2.1)
  step-IsQuiet (inbound i) a h k = answered-IsQuiet a (next_ctrl o.read_ctrl i) h k

  proceed-IsQuiet :
      (a : Agent) (s : Stepped) (next : Agent → Stepped)
      → IsQuiet a s.0
      → ((b : Agent) → b.state.is_paused ≡ true → IsQuiet b (next b).0)
      → IsQuiet a (proceed s next).0
  unfolding proceed
  proceed-IsQuiet a (b, false) next h f = h
  proceed-IsQuiet a (b, true) next (p, n, c) f = let (q, m, d) = f b p in (q, m ∙ n, d ∙ c)

  -- From a pause on, as long as no resume comes, no screenshot and no metadata go out, in
  -- whatever order frames, ticks, audio, heartbeats and other messages come and whether the
  -- session is left or not: the count of the frames, the frame id and the number of the batches
  -- stay, and the client stays paused.
  pub run_session-IsQuiet :
      (es : List Event) (a : Agent)
      → a.state.is_paused ≡ true
      → All (IsNoResume o) es
      → IsQuiet a (run_session o cfg ex es a).0
  unfolding run_session
  run_session-IsQuiet [] a h k = (h, refl, refl)
  run_session-IsQuiet (e ∷ es) a h k =
      proceed-IsQuiet a (step o cfg ex e a) (run_session o cfg ex es) (step-IsQuiet e a h k.0)
        (λ b p. run_session-IsQuiet es b p k.1)
