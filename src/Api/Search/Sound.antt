-- ===== src/Api/Search/Sound.antt =====
-- What a search can return.
use pre_call.Prelude.{
  err-ok, ok-inj, ℕ, ◌≡◌, refl, sym, ap, ◌∙◌, subst, Bool, true, List, [], ◌∷◌, Option, none, some,
  some-inj, none-some, Result, ok, err, any, length, ◌==◌, Bool-cases, inl, inr, All, All-snoc,
  All-lookup, All-tabulate,
}
use pre_call.Store.Semantic.{SemanticIndex, SemanticError, capture_id_for_item, bytes_to_f32s}
use pre_call.Store.Semantic.Search.{Entry, EmbeddingHit, is_listed, is_allowed, hit_of}
use pre_call.Store.Semantic.Search
use pre_call.Store.Semantic.Nearest.{search-All}
use pre_call.Api.Embed.{EmbedOutcome, embedded, disabled, rejected, retry}
use pre_call.Api.Enrich.{space_mismatch}
use pre_call.Api.Search.{ApiError, Leg, image_semantic, SearchState, candidate_ids, push_once, note}
use pre_call.Api.Search.Handler.{
  absorb_semantic_leg, absorb_found, search_index, text_query_leg, image_query_leg,
}
use pre_call.Api.Search.Request.{SearchEnv}

-- Does the allow-list let the capture through?
unfoldable pub lets_in : Option (List ℕ) → ℕ → Bool
lets_in none id = true
lets_in (some ids) id = any (λ a. a == id) ids

abbrev pub AreLetIn : Option (List ℕ) → List ℕ → Type 0
AreLetIn allowed ids = All (λ id. lets_in allowed id ≡ true) ids

is_allowed-lets_in :
    (allowed : Option (List ℕ)) (item_id : List ℕ) (id : ℕ)
    → capture_id_for_item item_id ≡ some id
    → is_allowed allowed item_id ≡ true
    → lets_in allowed id ≡ true
unfolding is_allowed lets_in
is_allowed-lets_in none item_id id e h = refl
is_allowed-lets_in (some ids) item_id id e h = sym (ap (is_listed ids) e) ∙ h

module _ {Sim Score : Type 0} (env : SearchEnv Sim Score) where
  hit_of-is_allowed :
      (dim : ℕ) (query : List ℕ) (allowed : Option (List ℕ)) (e : Entry) (h : EmbeddingHit Sim)
      → hit_of env.cosine env.greater_sim dim query allowed e ≡ some h
      → is_allowed allowed h.item_id ≡ true
  unfolding hit_of
  hit_of-is_allowed dim query allowed e h k = elim (Bool-cases (is_allowed allowed e.item_id)) [
    | inr a ↦ absurd (none-some (rw a at k))
    | inl a ↦ elim (Bool-cases (length (bytes_to_f32s e.blob) == dim)) [
      | inr d ↦ absurd (none-some (rw (a, d) at k))
      | inl d ↦
          subst (λ i. is_allowed allowed i ≡ true)
            (ap (λ (x : EmbeddingHit Sim). x.item_id) (some-inj (rw (a, d) at k))) a
    ]
  ]

  push_once-AreLetIn :
      (allowed : Option (List ℕ)) (o : Option ℕ) (ids : List ℕ)
      → ((id : ℕ) → o ≡ some id → lets_in allowed id ≡ true)
      → AreLetIn allowed ids
      → AreLetIn allowed (push_once o ids)
  unfolding push_once
  push_once-AreLetIn allowed none ids h k = k
  push_once-AreLetIn allowed (some id) ids h k = elim (Bool-cases (any (λ i. i == id) ids)) [
    | inl e ↦ rw e k
    | inr e ↦ rw e (All-snoc (λ id. lets_in allowed id ≡ true) ids id k (h id refl))
  ]

  candidate_ids-AreLetIn :
      (allowed : Option (List ℕ)) (found : List (EmbeddingHit Sim)) (ids : List ℕ)
      → All (λ (h : EmbeddingHit Sim). is_allowed allowed h.item_id ≡ true) found
      → AreLetIn allowed ids
      → AreLetIn allowed (candidate_ids env.is_positive found ids)
  unfolding candidate_ids
  candidate_ids-AreLetIn allowed [] ids h k = k
  candidate_ids-AreLetIn allowed (f ∷ fs) ids (h, hs) k =
      elim (Bool-cases (env.is_positive f.score)) [
        | inl e ↦ rw e (
            candidate_ids-AreLetIn allowed fs (push_once (capture_id_for_item f.item_id) ids) hs (
              push_once-AreLetIn allowed (capture_id_for_item f.item_id) ids
                (λ id q. is_allowed-lets_in allowed f.item_id id q h) k))
        | inr e ↦ rw e (candidate_ids-AreLetIn allowed fs ids hs k)
      ]

  -- All that a leg has ranked is let in.
  abbrev pub IsFiltered : Option (List ℕ) → SearchState Score → Type 0
  IsFiltered allowed s = All (AreLetIn allowed) s.leg_ranks

  -- A result that is no error is filtered.
  abbrev pub Filters : Option (List ℕ) → Result ApiError (SearchState Score) → Type 0
  Filters allowed r = (s : SearchState Score) → r ≡ ok s → IsFiltered allowed s

  absorb-IsFiltered :
      (allowed : Option (List ℕ)) (leg : Leg) (found : List (EmbeddingHit Sim))
      (s : SearchState Score)
      → All (λ (h : EmbeddingHit Sim). is_allowed allowed h.item_id ≡ true) found
      → IsFiltered allowed s
      → IsFiltered allowed (absorb_semantic_leg env leg found s)
  unfolding absorb_semantic_leg
  absorb-IsFiltered allowed leg found s h k =
      All-snoc (AreLetIn allowed) s.leg_ranks (candidate_ids env.is_positive found []) k
        (candidate_ids-AreLetIn allowed found [] h tt)

  search_index-Filters :
      (leg : Leg) (idx : SemanticIndex) (embedding : List ℕ) (pool : ℕ) (allowed : Option (List ℕ))
      (s : SearchState Score)
      → IsFiltered allowed s
      → Filters allowed (search_index env leg idx embedding pool allowed s)
  unfolding search_index
  search_index-Filters leg idx embedding pool allowed s k =
      answered (Search.search env.cosine env.greater_sim embedding pool allowed idx) refl
    where
      answered :
          (r : Result SemanticError (List (EmbeddingHit Sim)))
          → Search.search env.cosine env.greater_sim embedding pool allowed idx ≡ r
          → Filters allowed (absorb_found env leg r s)
      answered (err e) q s' h = absurd (err-ok (unfold absorb_found in h))
      answered (ok found) q s' h = subst (IsFiltered allowed) (ok-inj (unfold absorb_found in h)) (
          absorb-IsFiltered allowed leg found s
            (All-tabulate _ found (λ f m.
              let (e, i, let_in) =
                All-lookup _ found f
                  (search-All env.cosine env.greater_sim embedding pool allowed idx found q) m in
              hit_of-is_allowed idx.dim embedding allowed e f let_in))
            k)

  pub text_query_leg-Filters :
      (leg : Leg) (idx : SemanticIndex) (pool : ℕ) (allowed : Option (List ℕ))
      (outcome : EmbedOutcome) (s : SearchState Score)
      → IsFiltered allowed s
      → Filters allowed (text_query_leg env leg idx pool allowed outcome s)
  unfolding text_query_leg note
  text_query_leg-Filters leg idx pool allowed (embedded embedding space) s k s' h =
      elim (Bool-cases (space_mismatch idx space)) [
        | inl m ↦ subst (IsFiltered allowed) (ok-inj (rw m at h)) k
        | inr m ↦ elim (Bool-cases (length embedding == env.dim)) [
          | inr w ↦ subst (IsFiltered allowed) (ok-inj (rw (m, w) at h)) k
          | inl w ↦ search_index-Filters leg idx embedding pool allowed s k s' (rw (m, w) at h)
        ]
      ]
  text_query_leg-Filters leg idx pool allowed disabled s k s' h =
      subst (IsFiltered allowed) (ok-inj h) k
  text_query_leg-Filters leg idx pool allowed rejected s k s' h =
      subst (IsFiltered allowed) (ok-inj h) k
  text_query_leg-Filters leg idx pool allowed retry s k s' h =
      subst (IsFiltered allowed) (ok-inj h) k

  pub image_query_leg-Filters :
      (pool : ℕ) (allowed : Option (List ℕ)) (outcome : EmbedOutcome) (s : SearchState Score)
      → IsFiltered allowed s
      → Filters allowed (image_query_leg env pool allowed outcome s)
  unfolding image_query_leg note
  image_query_leg-Filters pool allowed (embedded embedding space) s k s' h =
      elim (Bool-cases (space_mismatch env.images space)) [
        | inl m ↦ subst (IsFiltered allowed) (ok-inj (rw m at h)) k
        | inr m ↦ elim (Bool-cases (length embedding == env.dim)) [
          | inr w ↦ absurd (err-ok (rw (m, w) at h))
          | inl w ↦
              search_index-Filters image_semantic env.images embedding pool allowed s k s'
                (rw (m, w) at h)
        ]
      ]
  image_query_leg-Filters pool allowed disabled s k s' h = absurd (err-ok h)
  image_query_leg-Filters pool allowed rejected s k s' h = absurd (err-ok h)
  image_query_leg-Filters pool allowed retry s k s' h = absurd (err-ok h)
