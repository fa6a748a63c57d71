-- ===== src/Client/Privacy/Laws.antt =====
-- When a frame is kept.
use pre_call.Prelude.{
  suc, ◌+◌, ◌≤◌, arith, true-false, none-some, some-none, some-inj, sym, ap, ◌∙◌, ◌≢◌, ℕ, ◌≡◌, ◌↔◌,
  refl, Text, Bool, true, false, List, [], Option, none, some, any, ◌==◌, ◌&&◌, Bool-cases, inl,
  inr,
}
use pre_call.Proto.Metadata.{WebRecord}
use pre_call.Client.Meta.{WindowMeta}
use pre_call.Client.Privacy.{
  DropReason, paused, protected_window, excluded_process, excluded_domain, no_window, unchanged,
  dropped, Exclusions, Loop, Verdict, send, process_excluded, domain_excluded, check, judge,
  capture_tick, skip_private,
}

module _ (lowercase : Text → Text) where
  -- `check` keeps a capture exactly if the client is not paused, there is a foreground window,
  -- the window is not protected, its process is not excluded, and no domain among its URLs is.
  pub check_iff :
      (is_paused : Bool) (meta : Option WindowMeta) (ex : Exclusions) (protected : Bool)
      → (check lowercase is_paused meta ex protected ≡ none) ↔ (
          (is_paused ≡ false)
          × (m : WindowMeta) × (meta ≡ some m)
          × (protected ≡ false)
          × (process_excluded lowercase ex m.process_name ≡ false)
          × (any (λ (w : WebRecord). domain_excluded lowercase ex w.domain) m.urls ≡ false))
  unfolding check
  check_iff true meta ex protected = (λ e. absurd (some-none e), λ t. absurd (true-false t.0))
  check_iff false none ex protected = (λ e. absurd (some-none e), λ t. absurd (none-some t.2))
  check_iff false (some m) ex true = (λ e. absurd (some-none e), λ t. absurd (true-false t.3))
  check_iff false (some m) ex false =
      elim (Bool-cases (process_excluded lowercase ex m.process_name)) [
        | inl e ↦ rw e (
          λ k. absurd (some-none k),
          λ (a, n, i, h, p, q). absurd (
              true-false (
                sym e
                ∙ (ap (λ (o : WindowMeta). process_excluded lowercase ex o.process_name)
                      (some-inj i)
                    ∙ p))),
        )
        | inr e ↦
            elim (Bool-cases
              (any (λ (w : WebRecord). domain_excluded lowercase ex w.domain) m.urls)) [
                | inl d ↦
                    rw (e, d)
                      (
                        λ k. absurd (some-none k),
                        λ (a, n, i, h, p, q). absurd (
                            true-false (
                              sym d
                              ∙ (ap
                                    (λ (o : WindowMeta).
                                      any (λ (w : WebRecord). domain_excluded lowercase ex w.domain)
                                        o.urls)
                                    (some-inj i)
                                  ∙ q))),
                      )
                | inr d ↦ rw (e, d) (λ k. (refl, m, refl, refl, e, d), λ t. refl)
              ]
      ]

  -- For a window without URLs, as `foreground_meta` returns it, the list of excluded domains
  -- never decides about a frame.
  pub capture_tick-domains :
      (hash dirty : ℕ) (m : WindowMeta) (protected : Bool) (ex : Exclusions) (domains : List Text)
      (l : Loop)
      → m.urls ≡ []
      → capture_tick lowercase hash dirty m protected (record ex { domains = domains }) l
        ≡ capture_tick lowercase hash dirty m protected ex l
  unfolding capture_tick check process_excluded
  capture_tick-domains hash dirty m protected ex domains l h = rw h refl

  -- While the client is paused a frame is never sent, and the client stays paused.
  pub capture_tick_paused :
      (hash dirty : ℕ) (m : WindowMeta) (protected : Bool) (ex : Exclusions) (l : Loop)
      → l.is_paused ≡ true
      → ((capture_tick lowercase hash dirty m protected ex l).0 ≢ send)
        × ((capture_tick lowercase hash dirty m protected ex l).1.is_paused ≡ true)
  unfolding capture_tick check judge skip_private
  capture_tick_paused hash dirty m protected ex l h =
      elim (Bool-cases (hash == l.last_hash && dirty == 0)) [
        | inl e ↦ rw e (λ k. cc, h)
        | inr e ↦ rw (e, h) (λ k. cc, refl)
      ]

-- A verdict counts as one frame that is sent, or none.
abbrev pub score : Verdict → ℕ
score send = 1
score unchanged = 0
score (dropped _) = 0

abbrev pub skips : Loop → ℕ
skips l = l.frames_skipped_unchanged + l.frames_skipped_privacy

judge-score :
    (lowercase : Text → Text) (r : Option DropReason) (l : Loop)
    → (score (judge lowercase r l).0 + skips (judge lowercase r l).1 ≤ suc (skips l))
      × ((judge lowercase r l).1.pending ≡ l.pending)
unfolding judge skip_private
judge-score lowercase none l = (omega arith, refl)
judge-score lowercase (some paused) l = (omega arith, refl)
judge-score lowercase (some protected_window) l = (omega arith, refl)
judge-score lowercase (some excluded_process) l = (omega arith, refl)
judge-score lowercase (some excluded_domain) l = (omega arith, refl)
judge-score lowercase (some no_window) l = (omega arith, refl)

-- A tick counts its frame at most once, and the times of the frames sent stay.
pub capture_tick-score :
    (lowercase : Text → Text) (hash dirty : ℕ) (m : WindowMeta) (protected : Bool) (ex : Exclusions)
    (l : Loop)
    → let v = capture_tick lowercase hash dirty m protected ex l in
      (score v.0 + skips v.1 ≤ suc (skips l)) × (v.1.pending ≡ l.pending)
unfolding capture_tick
capture_tick-score lowercase hash dirty m protected ex l =
    elim (Bool-cases (hash == l.last_hash && dirty == 0)) [
      | inl e ↦ rw e (omega arith, refl)
      | inr e ↦ rw e (
          judge-score lowercase (check lowercase l.is_paused (some m) ex protected)
            (record l { last_hash = hash }))
    ]
