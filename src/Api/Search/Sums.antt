-- ===== src/Api/Search/Sums.antt =====
-- What the fusion of the ranks adds up to.
use pre_call.Prelude.{
  ℕ, suc, ◌≡◌, refl, sym, ap, ◌∙◌, true, false, List, [], ◌∷◌, Option, none, some, ◌==◌, ==_iff,
  if◌then◌else◌, ◌⊎◌, Bool-cases, inl, inr, true-false,
}
use pre_call.Api.Search.Rank.{
  Fusion, Fused, add_to_entry, add_leg, add_legs, reciprocal_rank_fusion, fused_score,
}

module _ {Score : Type 0} (f64 : Fusion Score) where
  -- The score with the share of one rank, the first of the capture onto 0.0.
  abbrev pub with_share : ℕ → Option Score → Option Score
  with_share rank none = some (f64.plus f64.nothing (f64.share rank))
  with_share rank (some x) = some (f64.plus x (f64.share rank))

  -- The sum over one list of ids from the given rank on.
  unfoldable pub leg_sum : ℕ → ℕ → List ℕ → Option Score → Option Score
  leg_sum id rank [] x = x
  leg_sum id rank (k ∷ ks) x =
      let here = leg_sum id (suc rank) ks (with_share rank x) in
      let past = leg_sum id (suc rank) ks x in if k == id then here else past

  unfoldable pub legs_sum : ℕ → List (List ℕ) → Option Score → Option Score
  unfolding leg_sum
  legs_sum id [] x = x
  legs_sum id (ks ∷ legs) x = legs_sum id legs (leg_sum id 0 ks x)

  fused_score-add_to_entry :
      (id k rank : ℕ) (fused : List (Fused Score))
      → fused_score id (add_to_entry f64 k (f64.share rank) fused)
        ≡ (if k == id then with_share rank (fused_score id fused) else fused_score id fused)
  unfolding fused_score add_to_entry
  fused_score-add_to_entry id k rank [] = elim (Bool-cases (k == id)) [
    | inl e ↦ rw e refl
    | inr e ↦ rw e refl
  ]
  fused_score-add_to_entry id k rank (e ∷ es) = elim (Bool-cases (e.id == k)) [
    | inl h ↦ rw h (same ((==_iff e.id k).0 h))
    | inr h ↦ rw h (differ (fused_score-add_to_entry id k rank es) h)
  ]
    where
      same :
          e.id ≡ k
          → fused_score id (record e { score = f64.plus e.score (f64.share rank) } ∷ es) ≡ (
              if k == id
              then with_share rank (fused_score id (e ∷ es))
              else fused_score id (e ∷ es))
      same q = rw (sym q) (elim (Bool-cases (e.id == id)) [ inl r ↦ rw r refl | inr r ↦ rw r refl ])

      differ :
          fused_score id (add_to_entry f64 k (f64.share rank) es)
            ≡ (if k == id then with_share rank (fused_score id es) else fused_score id es)
          → (e.id == k) ≡ false
          → fused_score id (e ∷ add_to_entry f64 k (f64.share rank) es) ≡ (
              if k == id
              then with_share rank (fused_score id (e ∷ es))
              else fused_score id (e ∷ es))
      differ later h = elim (Bool-cases (e.id == id)) [
        | inl r ↦ elim (Bool-cases (k == id)) [
          | inl q ↦ absurd (
              true-false
                (sym ((==_iff e.id k).1 ((==_iff e.id id).0 r ∙ sym ((==_iff k id).0 q))) ∙ h))
          | inr q ↦ rw (r, q) refl
        ]
        | inr r ↦ rw r later
      ]

  fused_score-add_leg :
      (id rank : ℕ) (ks : List ℕ) (fused : List (Fused Score))
      → fused_score id (add_leg f64 rank ks fused) ≡ leg_sum id rank ks (fused_score id fused)
  unfolding add_leg leg_sum
  fused_score-add_leg id rank [] fused = refl
  fused_score-add_leg id rank (k ∷ ks) fused =
      fused_score-add_leg id (suc rank) ks (add_to_entry f64 k (f64.share rank) fused)
      ∙ rw (fused_score-add_to_entry id k rank fused) (pushed (Bool-cases (k == id)))
    where
      pushed :
          ((k == id) ≡ true) ⊎ ((k == id) ≡ false)
          → leg_sum id
              (suc rank)
              ks
              (if k == id then with_share rank (fused_score id fused) else fused_score id fused)
            ≡ (if k == id
                then leg_sum id (suc rank) ks (with_share rank (fused_score id fused))
                else leg_sum id (suc rank) ks (fused_score id fused))
      pushed (inl e) = rw e refl
      pushed (inr e) = rw e refl

  fused_score-add_legs :
      (id : ℕ) (legs : List (List ℕ)) (fused : List (Fused Score))
      → fused_score id (add_legs f64 legs fused) ≡ legs_sum id legs (fused_score id fused)
  unfolding add_legs legs_sum
  fused_score-add_legs id [] fused = refl
  fused_score-add_legs id (ks ∷ legs) fused =
      fused_score-add_legs id legs (add_leg f64 0 ks fused)
      ∙ ap (legs_sum id legs) (fused_score-add_leg id 0 ks fused)

  -- The map that the fusion builds holds, for each capture that a leg has ranked and for no
  -- other, the sum of the shares of its ranks, leg after leg: nothing but the ranks counts, and
  -- no capture disturbs another.
  pub reciprocal_rank_fusion-eq :
      (id : ℕ) (legs : List (List ℕ))
      → fused_score id (reciprocal_rank_fusion f64 legs) ≡ legs_sum id legs none
  unfolding reciprocal_rank_fusion fused_score
  reciprocal_rank_fusion-eq id legs = fused_score-add_legs id legs []
