-- ===== src/Client/Run/Domains.antt =====
-- crates/precall-client/src/run.rs: what the excluded domains do in a session.
use pre_call.Prelude.{
  Option-cases, inl, inr, ℕ, ◌≡◌, refl, ap, ◌∙◌, Text, true, false, List, [], ◌∷◌, Option, none,
  some, Result, ok, err,
}
use pre_call.Proto.Metadata.{WindowCaptureRecord}
use pre_call.Client.Config.{ClientConfig}
use pre_call.Client.Privacy.{Exclusions, Loop, Verdict, send, unchanged, dropped}
use pre_call.Client.Jpeg.{encode_jpeg}
use pre_call.Client.Meta.{Desktop, foreground_meta, is_protected_window}
use pre_call.Client.Session.{ClientError, Link, transmit_frame}
use pre_call.Client.Run.{
  Outside, CaptureFrame, Event, stop, frame, audio, tick, heartbeat_tick, inbound, Agent, Stepped,
  run_session, step, record_of, after_frame, encoded, judged, taken, proceed, cheap_hash,
}
use pre_call.Client.Privacy.Laws.{capture_tick-domains}

module _ (o : Outside) (cfg : ClientConfig) (ex : Exclusions) (domains : List Text) where
  abbrev other : Exclusions
  other = record ex { domains = domains }

  record_of-domains :
      (f : CaptureFrame) (d : Desktop) (token : Text) (now : ℕ)
      → record_of o cfg other f d token now ≡ record_of o cfg ex f d token now
  unfolding record_of
  record_of-domains f d token now = refl

  after_frame-domains :
      (a : Agent) (cap : WindowCaptureRecord) (r : Result ClientError Link)
      → after_frame o cfg other a cap r ≡ after_frame o cfg ex a cap r
  unfolding after_frame
  after_frame-domains a cap (err e) = refl
  after_frame-domains a cap (ok l) = refl

  encoded-domains :
      (f : CaptureFrame) (d : Desktop) (now : ℕ) (a : Agent) (jpeg : Option (List ℕ))
      → encoded o cfg other f d now a jpeg ≡ encoded o cfg ex f d now a jpeg
  unfolding encoded
  encoded-domains f d now a none = refl
  encoded-domains f d now a (some jpeg) =
      after_frame-domains _ (record_of o cfg ex f d (o.uuid a.draws) now)
        (transmit_frame o.flush jpeg f.width f.height now a.link)

  judged-domains :
      (f : CaptureFrame) (d : Desktop) (now : ℕ) (a : Agent) (v : Verdict × Loop)
      → judged o cfg other f d now a v ≡ judged o cfg ex f d now a v
  unfolding judged
  judged-domains f d now a (send, l) =
      encoded-domains f d now (record a { state = l })
        (encode_jpeg o.write_image f.bgra f.width f.height 80)
  judged-domains f d now a (unchanged, l) = refl
  judged-domains f d now a (dropped reason, l) = refl

  foreground_meta-urls : (d : Desktop) → (foreground_meta o.lowercase o.utf16_lossy d).urls ≡ []
  unfolding foreground_meta
  foreground_meta-urls d = elim (Option-cases d.process) [
    | inl e ↦ rw e refl
    | inr (p, e) ↦ elim (Option-cases p.image_name) [
      | inl n ↦ rw (e, n) refl
      | inr (units, n) ↦ rw (e, n) refl
    ]
  ]

  taken-domains :
      (d : Desktop) (now : ℕ) (a : Agent) (f : Option CaptureFrame)
      → taken o cfg other d now a f ≡ taken o cfg ex d now a f
  unfolding taken
  taken-domains d now a none = refl
  taken-domains d now a (some f) =
      judged-domains f d now (record a { latest_frame = none }) _
      ∙ ap (judged o cfg ex f d now (record a { latest_frame = none })) (
          capture_tick-domains o.lowercase (cheap_hash f.bgra) f.dirty_regions
            (foreground_meta o.lowercase o.utf16_lossy d) (is_protected_window d) ex domains a.state
            (foreground_meta-urls d))

  step-domains : (e : Event) (a : Agent) → step o cfg other e a ≡ step o cfg ex e a
  unfolding step
  step-domains stop a = refl
  step-domains (frame none) a = refl
  step-domains (frame (some f)) a = refl
  step-domains (audio none) a = refl
  step-domains (audio (some c)) a = refl
  step-domains (tick d now) a = taken-domains d now a a.latest_frame
  step-domains heartbeat_tick a = refl
  step-domains (inbound i) a = refl

  proceed-same :
      (r : Stepped) (f g : Agent → Stepped) → ((a : Agent) → f a ≡ g a) → proceed r f ≡ proceed r g
  unfolding proceed
  proceed-same (a, true) f g h = h a
  proceed-same (a, false) f g h = refl

-- A session with other excluded domains is the same session, event for event and byte for byte,
-- whatever pages the browsers of the desktops show: a tick checks the window before the URL of
-- the browser is read, so no excluded domain keeps a frame back.
pub run_session-domains :
    (o : Outside) (cfg : ClientConfig) (ex : Exclusions) (domains : List Text) (es : List Event)
    (a : Agent)
    → run_session o cfg (record ex { domains = domains }) es a ≡ run_session o cfg ex es a
unfolding run_session
run_session-domains o cfg ex domains [] a = refl
run_session-domains o cfg ex domains (e ∷ es) a =
    ap (λ r. proceed r (run_session o cfg (record ex { domains = domains }) es))
      (step-domains o cfg ex domains e a)
    ∙ proceed-same o cfg ex domains (step o cfg ex e a) _ _
        (run_session-domains o cfg ex domains es)
