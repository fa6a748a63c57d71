-- ===== src/Api/Search/Filtered.antt =====
-- The legs of a search rank only what the filters let through.
use pre_call.Prelude.{
  zero, suc, take, drop, length, bytes_eq, Bool-cases, true-false, err-ok, ok-inj, ℕ, ◌≡◌, refl,
  sym, ap, ◌∙◌, subst, Text, codes, Bool, true, false, ◌&&◌, List, [], ◌∷◌, ◌++◌, Option, none,
  some, any, map, filter, ◌==◌, Option-cases, Result-cases, inl, inr, arith, All, All-snoc,
  All-lookup, All-tabulate, ◌∈◌, mem-map, mem-filter,
}
use pre_call.Prelude.Int.{ℤ, pos}
use pre_call.Store.Sql.{order_rows}
use pre_call.Store.Sql.Laws.{mem-take, mem-order_rows, mem-limit_rows}
use pre_call.Store.Semantic.{SemanticIndex}
use pre_call.Store.Ukg.Tables.{Ukg, CaptureRow, TextIndexRow}
use pre_call.Store.Ukg.Timeline.{
  linked_apps, is_app_of, uses_app, passes, capture_ids_matching_filters,
}
use pre_call.Store.Ukg.Timeline.Filters.{passes_iff, capture_ids_matching_filters_iff}
use pre_call.Store.Ukg.Timeline.Apps.{mem-any_bytes, any_bytes-mem}
use pre_call.Store.Semantic.Best.{any_id-mem}
use pre_call.Proto.Metadata.{AppRecord}
use pre_call.Store.Ukg.Hits.{
  pushed_params, is_fts_app, fts_uses_app, fts_passes, SearchHit, FtsRow, rows_of, matched_rows,
  is_ranked_before, fts_hit, fts_limit, fts_escape, search_fts,
}
use pre_call.Api.Embed.{EmbedOutcome}
use pre_call.Api.Search.{Leg, text_semantic, image_text, SearchState}
use pre_call.Api.Search.Handler.{
  decode_image_query, embed_query_image, image_part, text_part, fts_part, all_legs,
}
use pre_call.Api.Search.Request.{SearchEnv, SearchBody, one_of}
use pre_call.Api.Search.Sound.{
  lets_in, AreLetIn, IsFiltered, Filters, text_query_leg-Filters, image_query_leg-Filters,
}

-- Each parameter that is pushed is an application of the filter.
mem-pushed_params : (fs : List Text) (p : Text) → p ∈ pushed_params fs → p ∈ fs
unfolding pushed_params
mem-pushed_params [] p m = m
mem-pushed_params (f ∷ fs) p (inl e) = inl e
mem-pushed_params (f ∷ fs) p (inr (inl e)) = inl e
mem-pushed_params (f ∷ fs) p (inr (inr m)) = inr (mem-pushed_params fs p m)

mem-drop : (n : ℕ) (xs : List Text) (p : Text) → p ∈ drop n xs → p ∈ xs
mem-drop zero xs p m = m
mem-drop (suc n) [] p m = m
mem-drop (suc n) (x ∷ xs) p m = inr (mem-drop n xs p m)

is_fts_app→is_app_of :
    (fs : List Text) (a : AppRecord) → is_fts_app fs a ≡ true → is_app_of fs a ≡ true
unfolding is_fts_app is_app_of
is_fts_app→is_app_of fs a h =
    let pushed = pushed_params fs in
    elim (Bool-cases (any (bytes_eq a.name) (drop (length fs) pushed))) [
      | inl e ↦
          let named = any_bytes-mem a.name fs (
            mem-pushed_params fs a.name
              (mem-drop (length fs) pushed a.name (mem-any_bytes a.name _ e))) in
          ground (arith, named)
      | inr e ↦ elim (Option-cases a.path) [
        | inl n ↦ absurd (true-false (sym (rw (n, e) at h)))
        | inr (p, q) ↦ elim (Bool-cases (any (bytes_eq p) (take (length fs) pushed))) [
          | inl k ↦
              rw
                (
                  q,
                  any_bytes-mem p fs (
                      mem-pushed_params fs p (mem-take (length fs) pushed p (mem-any_bytes p _ k))),
                )
                refl
          | inr k ↦ absurd (true-false (sym (rw (q, k, e) at h)))
        ]
      ]
    ]

any_fts_app :
    (fs : List Text) (cs : List AppRecord)
    → any (is_fts_app fs) cs ≡ true
    → any (is_app_of fs) cs ≡ true
any_fts_app fs [] h = absurd (true-false (sym h))
any_fts_app fs (c ∷ cs) h = elim (Bool-cases (is_fts_app fs c)) [
  | inl e ↦ rw (is_fts_app→is_app_of fs c e) refl
  | inr e ↦ let later = any_fts_app fs cs (rw e at h) in ground (arith, later)
]

-- What the full-text query lets through, the filters do.
fts_passes→passes :
    (start end : Option ℤ) (app_filter : List Text) (db : Ukg) (w : CaptureRow)
    → fts_passes start end app_filter db w ≡ true
    → passes start end app_filter db w ≡ true
unfolding fts_passes passes fts_uses_app uses_app
fts_passes→passes start end [] db w h = h
fts_passes→passes start end (f ∷ fs) db w h =
    let apps =
      any_fts_app (f ∷ fs) (linked_apps db.apps.relations w.id db.apps.rows) (ground (arith, h)) in
    rw apps (ground (arith, h))

passes-lets_in :
    (start end : Option ℤ) (app_filter : List Text) (db : Ukg) (w : CaptureRow)
    → w ∈ db.captures
    → passes start end app_filter db w ≡ true
    → lets_in (capture_ids_matching_filters start end app_filter db) w.id ≡ true
unfolding lets_in
passes-lets_in start end app_filter db w m p =
    elim (Option-cases (capture_ids_matching_filters start end app_filter db)) [
      | inl e ↦ rw e refl
      | inr (ids, e) ↦ rw e (
          any_id-mem w.id ids (
            (capture_ids_matching_filters_iff start end app_filter db ids w.id e).1 (
              let (a, b, c) = (passes_iff start end app_filter db w).0 p in (w, m, refl, a, b, c))))
    ]

module _ {Sim Score : Type 0} (env : SearchEnv Sim Score) where
  abbrev IsWanted : (CaptureRow → Bool) → List CaptureRow → FtsRow Score → Type 0
  IsWanted wanted ws r = (r.capture ∈ ws) × (wanted r.capture ≡ true)

  All-append :
      (P : FtsRow Score → Type 0) (xs ys : List (FtsRow Score))
      → All P xs
      → All P ys
      → All P (xs ++ ys)
  All-append P [] ys h k = k
  All-append P (x ∷ xs) ys (h, hs) k = (h, All-append P xs ys hs k)

  matched_rows-IsWanted :
      (query : Text) (wanted : CaptureRow → Bool) (ws : List CaptureRow) (ts : List TextIndexRow)
      → All
          (IsWanted wanted ws)
          (matched_rows env.fts_match env.lower env.negate query wanted ws ts)
  unfolding matched_rows
  matched_rows-IsWanted query wanted ws [] = tt
  matched_rows-IsWanted query wanted ws (t ∷ ts) =
      All-append (IsWanted wanted ws) _ _ (one (env.fts_match query t))
        (matched_rows-IsWanted query wanted ws ts)
    where
      one :
          (o : Option (Text × Score))
          → All (IsWanted wanted ws) (
              rows_of env.fts_match env.lower env.negate o
                (filter (λ (w : CaptureRow). w.id == t.rowid && wanted w) ws))
      one none = unfold rows_of in tt
      one (some (snippet, rank)) =
          unfold rows_of in
          All-tabulate _ _ (λ r m.
            let (w, i, q) =
              mem-map {A = CaptureRow} {B = FtsRow Score}
                (λ w. record { capture = w; snippet = snippet; rank = rank }) _ r m in
            let (stored, both) =
              mem-filter (λ (w : CaptureRow). w.id == t.rowid && wanted w) ws w i in
            let kept : wanted w ≡ true = ground (arith, both) in
            subst (λ c. (c ∈ ws) × (wanted c ≡ true)) (sym (ap (λ (x : FtsRow Score). x.capture) q))
              (stored, kept))

  search_fts-AreLetIn :
      (query : Text) (start end : Option ℤ) (app_filter : List Text) (limit : Option ℤ)
      → AreLetIn (capture_ids_matching_filters start end app_filter env.db) (
          map
            (λ (h : SearchHit Score). h.window_capture_id)
            (search_fts env.fts_match env.lower env.negate query start end app_filter limit env.db))
  unfolding search_fts
  search_fts-AreLetIn query start end app_filter limit = All-tabulate _ _ (λ id m.
      let rows =
        matched_rows env.fts_match env.lower env.negate query
          (fts_passes start end app_filter env.db) env.db.captures env.db.text_index in
      let before = is_ranked_before env.fts_match env.lower env.negate in
      let (h, i, q) = mem-map (λ (h : SearchHit Score). h.window_capture_id) _ id m in
      let (r, j, p) = mem-map (fts_hit env.fts_match env.lower env.negate env.db) _ h i in
      let (stored, kept) =
        All-lookup _ rows r
          (matched_rows-IsWanted query (fts_passes start end app_filter env.db) env.db.captures
            env.db.text_index)
          (mem-order_rows before rows r
            (mem-limit_rows (fts_limit limit) (order_rows before rows) r j)) in
      subst (λ k. lets_in (capture_ids_matching_filters start end app_filter env.db) k ≡ true)
        (sym (q ∙ ap (λ (x : SearchHit Score). x.window_capture_id) p))
        (unfold fts_hit in
          passes-lets_in start end app_filter env.db r.capture stored
            (fts_passes→passes start end app_filter env.db r.capture kept)))

  fts_part-IsFiltered :
      (lexical : Bool) (body : SearchBody) (pool : ℕ) (s : SearchState Score)
      → IsFiltered env (capture_ids_matching_filters body.start body.end body.app_filter env.db) s
      → IsFiltered env
          (capture_ids_matching_filters body.start body.end body.app_filter env.db)
          (fts_part env lexical body pool s)
  unfolding fts_part
  fts_part-IsFiltered false body pool s k = k
  fts_part-IsFiltered true body pool s k =
      All-snoc (AreLetIn (capture_ids_matching_filters body.start body.end body.app_filter env.db))
        s.leg_ranks _ k
        (search_fts-AreLetIn (fts_escape body.query) body.start body.end body.app_filter
          (some (pos pool)))

  text_part-Filters :
      (run : Bool) (leg : Leg) (idx : SemanticIndex) (pool : ℕ) (allowed : Option (List ℕ))
      (outcome : EmbedOutcome) (s : SearchState Score)
      → IsFiltered env allowed s
      → Filters env allowed (text_part env run leg idx pool allowed outcome s)
  unfolding text_part
  text_part-Filters false leg idx pool allowed outcome s k =
      λ s' h. subst (IsFiltered env allowed) (ok-inj h) k
  text_part-Filters true leg idx pool allowed outcome s k =
      text_query_leg-Filters env leg idx pool allowed outcome s k

  image_part-Filters :
      (image : Option Text) (pool : ℕ) (allowed : Option (List ℕ)) (s : SearchState Score)
      → IsFiltered env allowed s
      → Filters env allowed (image_part env image pool allowed s)
  unfolding image_part
  image_part-Filters none pool allowed s k s' h = subst (IsFiltered env allowed) (ok-inj h) k
  image_part-Filters (some b64) pool allowed s k s' h =
      elim (Result-cases (decode_image_query env b64)) [
        | inr (e, q) ↦ absurd (err-ok (rw q at h))
        | inl (raw, q) ↦ embedded_image raw s' (rw q at h)
      ]
    where
      embedded_image :
          (raw : List ℕ) → Filters env allowed (embed_query_image env pool allowed raw s)
      embedded_image [] s' h = absurd (err-ok (unfold embed_query_image in h))
      embedded_image (b ∷ bs) s' h =
          image_query_leg-Filters env pool allowed (env.embed_image (b ∷ bs)) s k s'
            (unfold embed_query_image in h)

  pub all_legs-Filters :
      (body : SearchBody) (mode : Text) (has_query : Bool) (image : Option Text) (pool : ℕ)
      (s : SearchState Score)
      → IsFiltered env (capture_ids_matching_filters body.start body.end body.app_filter env.db) s
      → Filters env
          (capture_ids_matching_filters body.start body.end body.app_filter env.db)
          (all_legs env body mode has_query image pool s)
  unfolding all_legs
  all_legs-Filters body mode has_query image pool s k s3 h =
      let allowed = capture_ids_matching_filters body.start body.end body.app_filter env.db in
      let lexical = one_of (codes "hybrid") (codes "fts") mode && has_query in
      let by_text = one_of (codes "hybrid") (codes "semantic") mode && has_query in
      let s0 = fts_part env lexical body pool s in
      let k0 = fts_part-IsFiltered lexical body pool s k in
      elim (Result-cases (
        text_part env by_text text_semantic env.texts pool allowed (env.embed_text body.query)
          s0)) [
            | inr (e, q) ↦ absurd (err-ok (rw q at h))
            | inl (s1, q) ↦ elim (Result-cases (image_part env image pool allowed s1)) [
              | inr (e, r) ↦ absurd (err-ok (rw (q, r) at h))
              | inl (s2, r) ↦
                  text_part-Filters by_text image_text env.images pool allowed
                    (env.embed_image_text body.query) s2
                    (image_part-Filters image pool allowed s1
                      (text_part-Filters by_text text_semantic env.texts pool allowed
                        (env.embed_text body.query) s0 k0 s1 q)
                      s2 r)
                    s3 (rw (q, r) at h)
            ]
          ]
