-- ===== src/Api/Search/Rank.antt =====
-- Reciprocal rank fusion. The sums of f64 are a parameter.
use pre_call.Prelude.{ℕ, suc, Bool, List, [], ◌∷◌, Option, none, some, ◌==◌, if◌then◌else◌}

pub record Fusion (Score : Type 0) : Type 0 where
  -- 0.0
  pub nothing : Score
  pub plus : Score → Score → Score
  -- 1.0 / (RRF_K + rank as f64 + 1.0)
  pub share : ℕ → Score
  pub greater : Score → Score → Bool

pub record Fused (Score : Type 0) : Type 0 where
  pub id : ℕ
  pub score : Score

module _ {Score : Type 0} (f64 : Fusion Score) where
  -- `*fused.entry(*id).or_insert(0.0) += x`
  unfoldable pub add_to_entry : ℕ → Score → List (Fused Score) → List (Fused Score)
  add_to_entry id x [] = record { id = id; score = f64.plus f64.nothing x } ∷ []
  add_to_entry id x (e ∷ es) =
      let rest = add_to_entry id x es in
      if e.id == id then record e { score = f64.plus e.score x } ∷ es else e ∷ rest

  -- One leg from the given rank on.
  unfoldable pub add_leg : ℕ → List ℕ → List (Fused Score) → List (Fused Score)
  unfolding add_to_entry
  add_leg rank [] fused = fused
  add_leg rank (id ∷ ids) fused = add_leg (suc rank) ids (add_to_entry id (f64.share rank) fused)

  unfoldable pub add_legs : List (List ℕ) → List (Fused Score) → List (Fused Score)
  unfolding add_leg
  add_legs [] fused = fused
  add_legs (ids ∷ legs) fused = add_legs legs (add_leg 0 ids fused)

  unfoldable pub reciprocal_rank_fusion : List (List ℕ) → List (Fused Score)
  unfolding add_legs
  reciprocal_rank_fusion legs = add_legs legs []

-- `fused.get(id)`
unfoldable pub fused_score : {Score : Type 0} → ℕ → List (Fused Score) → Option Score
fused_score id [] = none
fused_score id (e ∷ es) = let rest = fused_score id es in if e.id == id then some e.score else rest
