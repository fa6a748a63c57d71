-- ===== src/Api/Search/Results.antt =====
-- The results of a search as a whole.
use pre_call.Prelude.{
  err-ok, ok-inj, ℕ, suc, ◌≡◌, ◌≤◌, refl, sym, ap, ◌∙◌, subst, Text, Bool, true, false, not, List,
  [], ◌∷◌, Option, none, some, none-some, ok, length, ◌==◌, ==_iff, Bool-cases, Result-cases, inl,
  inr, ◌⊎◌, arith, All, All-tabulate, All-lookup, Option-cases, ◌∈◌, true-false, trim,
}
use pre_call.Prelude.Int.{ℤ, pos, negsuc}
use pre_call.Store.Sql.Laws.{mem-take, mem-order_rows}
use pre_call.Store.Semantic.Nearest.{length-take_le}
use pre_call.Store.Ukg.Timeline.{capture_ids_matching_filters}
use pre_call.Store.Ukg.Hits.{SearchHit}
use pre_call.Store.Ukg.Tables.{Ukg}
use pre_call.Store.Ukg.Timeline.Filters.{IsAllowed, capture_ids_matching_filters_iff}
use pre_call.Store.Semantic.Best.{mem-any_id}
use pre_call.Api.Enrich.Texts.{is_empty_text}
use pre_call.Api.Search.Rank.{Fused, reciprocal_rank_fusion, fused_score}
use pre_call.Api.Search.{ApiError, SearchState, validate, fusion_pool, search_limit}
use pre_call.Api.Search.Handler.{
  all_legs, with_score, scored, comes_first, finish, no_hits, run_legs, search,
}
use pre_call.Api.Search.Request.{SearchEnv, SearchBody, mode_of, image_query}
use pre_call.Api.Search.Sums.{leg_sum, legs_sum, reciprocal_rank_fusion-eq}
use pre_call.Api.Search.Sound.{lets_in, AreLetIn, IsFiltered}
use pre_call.Api.Search.Filtered.{all_legs-Filters}

no_filter :
    (start end : Option ℤ) (app_filter : List Text) (db : Ukg)
    → capture_ids_matching_filters start end app_filter db ≡ none
    → (start ≡ none) × (end ≡ none) × (app_filter ≡ [])
unfolding capture_ids_matching_filters
no_filter none none [] db e = (refl, refl, refl)
no_filter none none (f ∷ fs) db e = absurd (none-some (sym e))
no_filter none (some t) apps db e = absurd (none-some (sym e))
no_filter (some s) t apps db e = absurd (none-some (sym e))

lets_in→IsAllowed :
    (start end : Option ℤ) (app_filter : List Text) (db : Ukg) (id : ℕ)
    → lets_in (capture_ids_matching_filters start end app_filter db) id ≡ true
    → ((start ≡ none) × (end ≡ none) × (app_filter ≡ [])) ⊎ IsAllowed start end app_filter db id
unfolding lets_in
lets_in→IsAllowed start end app_filter db id h =
    elim (Option-cases (capture_ids_matching_filters start end app_filter db)) [
      | inl e ↦ inl (no_filter start end app_filter db e)
      | inr (ids, e) ↦ inr (
          (capture_ids_matching_filters_iff start end app_filter db ids id e).0
            (mem-any_id id ids (rw e at h)))
    ]

module _ {Sim Score : Type 0} (env : SearchEnv Sim Score) where
  leg_sum-past :
      (allowed : Option (List ℕ)) (id rank : ℕ) (ks : List ℕ) (x : Option Score)
      → lets_in allowed id ≡ false
      → AreLetIn allowed ks
      → leg_sum env.f64 id rank ks x ≡ x
  unfolding leg_sum
  leg_sum-past allowed id rank [] x out h = refl
  leg_sum-past allowed id rank (k ∷ ks) x out (h, hs) = elim (Bool-cases (k == id)) [
    | inl e ↦ absurd (true-false (sym h ∙ (ap (lets_in allowed) ((==_iff k id).0 e) ∙ out)))
    | inr e ↦ rw e (leg_sum-past allowed id (suc rank) ks x out hs)
  ]

  legs_sum-past :
      (allowed : Option (List ℕ)) (id : ℕ) (legs : List (List ℕ)) (x : Option Score)
      → lets_in allowed id ≡ false
      → All (AreLetIn allowed) legs
      → legs_sum env.f64 id legs x ≡ x
  unfolding legs_sum
  legs_sum-past allowed id [] x out h = refl
  legs_sum-past allowed id (ks ∷ legs) x out (h, hs) =
      legs_sum-past allowed id legs (leg_sum env.f64 id 0 ks x) out hs
      ∙ leg_sum-past allowed id 0 ks x out h

  mem-with_score :
      (o : Option Score) (k : SearchHit Score) (rest : List (SearchHit Score)) (h : SearchHit Score)
      → h ∈ with_score env o k rest
      → ((x : Score) × (o ≡ some x) × (h ≡ record k { score = x })) ⊎ (h ∈ rest)
  unfolding with_score
  mem-with_score none k rest h m = inr m
  mem-with_score (some x) k rest h (inl e) = inl (x, refl, e)
  mem-with_score (some x) k rest h (inr m) = inr m

  mem-scored :
      (fused : List (Fused Score)) (hits : List (SearchHit Score)) (h : SearchHit Score)
      → h ∈ scored env fused hits
      → (x : Score) × (fused_score h.window_capture_id fused ≡ some x)
  unfolding scored
  mem-scored fused [] h m = absurd m.1
  mem-scored fused (k ∷ ks) h m =
      elim (mem-with_score (fused_score k.window_capture_id fused) k (scored env fused ks) h m) [
        | inl (x, e, q) ↦
            (x, ap (λ (y : SearchHit Score). fused_score y.window_capture_id fused) q ∙ e)
        | inr j ↦ mem-scored fused ks h j
      ]

  ranked→lets_in :
      (allowed : Option (List ℕ)) (id : ℕ) (legs : List (List ℕ)) (x : Score)
      → All (AreLetIn allowed) legs
      → fused_score id (reciprocal_rank_fusion env.f64 legs) ≡ some x
      → lets_in allowed id ≡ true
  ranked→lets_in allowed id legs x h e = elim (Bool-cases (lets_in allowed id)) [
    | inl t ↦ t
    | inr f ↦ absurd (
        none-some (
          sym (reciprocal_rank_fusion-eq env.f64 id legs ∙ legs_sum-past allowed id legs none f h)
          ∙ e))
  ]

  search_limit-le : (limit : Option ℤ) → search_limit limit ≤ 200
  unfolding search_limit
  search_limit-le none = ground arith
  search_limit-le (some (pos n)) = ground arith
  search_limit-le (some (negsuc n)) = ground arith

  abbrev IsLetInHit : Option (List ℕ) → SearchHit Score → Type 0
  IsLetInHit allowed h = lets_in allowed h.window_capture_id ≡ true

  module _
      (arranged : (xs : List (SearchHit Score)) (h : SearchHit Score)
        → h ∈ env.arrange xs
        → h ∈ xs) where
    finish-All :
        (allowed : Option (List ℕ)) (limit : ℕ) (s : SearchState Score)
        → IsFiltered env allowed s
        → All (IsLetInHit allowed) (finish env limit s)
    unfolding finish
    finish-All allowed limit s k = All-tabulate _ _ (λ h m.
        let hits = scored env (reciprocal_rank_fusion env.f64 s.leg_ranks) s.hits in
        let (x, e) = mem-scored (reciprocal_rank_fusion env.f64 s.leg_ranks) s.hits h (
          arranged hits h (
            mem-order_rows (comes_first env s.fts_ids) (env.arrange hits) h
              (mem-take limit _ h m))) in
        ranked→lets_in allowed h.window_capture_id s.leg_ranks x k e)

    length-finish : (limit : ℕ) (s : SearchState Score) → length (finish env limit s) ≤ limit
    unfolding finish
    length-finish limit s = length-take_le limit _

    run_legs-All :
        (e : Option ApiError) (body : SearchBody) (mode : Text) (has_query : Bool)
        (image : Option Text) (results : List (SearchHit Score)) (s : SearchState Score)
        → run_legs env e body mode has_query image ≡ ok (results, s)
        → All
            (IsLetInHit (capture_ids_matching_filters body.start body.end body.app_filter env.db))
            results
          × (length results ≤ 200)
    unfolding run_legs
    run_legs-All (some e) body mode has_query image results s h = absurd (err-ok h)
    run_legs-All none body mode has_query image results s h =
        elim (Result-cases (
          all_legs env body mode has_query image (fusion_pool (search_limit body.limit))
            (no_hits env))) [
              | inr (e, q) ↦ absurd (err-ok (rw q at h))
              | inl (t, q) ↦
                  let allowed =
                    capture_ids_matching_filters body.start body.end body.app_filter env.db in
                  let same : finish env (search_limit body.limit) t ≡ results =
                    ap (λ (p : List (SearchHit Score) × SearchState Score). p.0)
                      (ok-inj (rw q at h)) in
                  subst (λ l. All (IsLetInHit allowed) l × (length l ≤ 200)) same
                    (
                      finish-All allowed (search_limit body.limit) t (
                          all_legs-Filters env body mode has_query image
                            (fusion_pool (search_limit body.limit)) (no_hits env) tt t q),
                      omega (
                        arith,
                        length-finish (search_limit body.limit) t,
                        search_limit-le body.limit,
                      ),
                    )
            ]

    -- A search that answers returns at most 200 hits. If a time bound or an application is given,
    -- each hit, whichever legs found it, is a stored capture that is not before the start, not
    -- after the end and, if applications are given, linked to a stored application whose path or
    -- name is one of them. The map of the hits is run through in any order that makes no hits up.
    pub search-AreLetIn :
        (body : SearchBody) (results : List (SearchHit Score)) (s : SearchState Score)
        → search env body ≡ ok (results, s)
        → All
            (λ h.
              ((body.start ≡ none) × (body.end ≡ none) × (body.app_filter ≡ []))
              ⊎ IsAllowed body.start body.end body.app_filter env.db h.window_capture_id)
            results
          × (length results ≤ 200)
    unfolding search
    search-AreLetIn body results s h =
        let (let_in, few) =
          run_legs-All
            (validate (mode_of body.mode) (not (is_empty_text (trim body.query)))
              (image_query body.image))
            body (mode_of body.mode) (not (is_empty_text (trim body.query)))
            (image_query body.image) results s h in
        (
          All-tabulate _ results (λ k m.
              lets_in→IsAllowed body.start body.end body.app_filter env.db k.window_capture_id (
                All-lookup
                  (IsLetInHit
                    (capture_ids_matching_filters body.start body.end body.app_filter env.db))
                  results k let_in m)),
          few,
        )
