-- ===== src/Store/Semantic/Best.antt =====
-- What the flat scan of the semantic index finds, and what it leaves out.
use pre_call.Prelude.{
  ◌==◌, Bool-cases, subst, ap, ℕ, any, ◌≤◌, ◌≡◌, refl, sym, ◌∙◌, Bool, true, false, List, [], ◌∷◌,
  Option, none, some, some-inj, ok, ok-inj, length, All, All-tabulate, All-lookup, ◌∈◌, ◌⊎◌, inl,
  inr, ==_iff, arith, none-some, true-false, Option-cases,
}
use pre_call.Store.Sql.Laws.{
  IsSortedBy, IsOrdered-IsSortedBy, mem_take, mem-take, mem_order_rows, mem-order_rows,
  order_rows-IsOrdered, take-IsOrdered,
}
use pre_call.Store.Sql.{order_rows}
use pre_call.Store.Semantic.{SemanticIndex, capture_id_for_item, bytes_to_f32s}
use pre_call.Store.Semantic.Search.{
  Entry, EmbeddingHit, hit_of, scan, not_worse, nearest, is_allowed, is_listed, is_empty_list,
  search,
}
use pre_call.Store.Semantic.View.{view}
use pre_call.Store.Semantic.Nearest.{length-take_le, mem_scan, mem-scan, search_ok}

-- The item belongs to a capture of the allow-list, if there is one.
abbrev pub IsListed : Option (List ℕ) → List ℕ → Type 0
IsListed none item_id = Unit
IsListed (some ids) item_id = (id : ℕ) × (capture_id_for_item item_id ≡ some id) × (id ∈ ids)

pub mem-any_id : (id : ℕ) (ids : List ℕ) → any (λ a. a == id) ids ≡ true → id ∈ ids
mem-any_id id [] h = absurd (true-false (sym h))
mem-any_id id (k ∷ ks) h = elim (Bool-cases (k == id)) [
  | inl e ↦ inl (sym ((==_iff k id).0 e))
  | inr e ↦ inr (mem-any_id id ks (rw e at h))
]

pub any_id-mem : (id : ℕ) (ids : List ℕ) → id ∈ ids → any (λ a. a == id) ids ≡ true
any_id-mem id [] m = absurd m.1
any_id-mem id (k ∷ ks) (inl e) = rw ((==_iff k id).1 (sym e)) refl
any_id-mem id (k ∷ ks) (inr m) = ground (arith, any_id-mem id ks m)

is_allowed-IsListed :
    (allowed : Option (List ℕ)) (item_id : List ℕ)
    → is_allowed allowed item_id ≡ true
    → IsListed allowed item_id
unfolding is_allowed
is_allowed-IsListed none item_id h = tt
is_allowed-IsListed (some ids) item_id h = elim (Option-cases (capture_id_for_item item_id)) [
  | inl e ↦ absurd (true-false (sym (sym (ap (is_listed ids) e) ∙ h)))
  | inr (id, e) ↦ (id, e, mem-any_id id ids (sym (ap (is_listed ids) e) ∙ h))
]

IsListed-is_allowed :
    (allowed : Option (List ℕ)) (item_id : List ℕ)
    → IsListed allowed item_id
    → is_allowed allowed item_id ≡ true
unfolding is_allowed
IsListed-is_allowed none item_id h = refl
IsListed-is_allowed (some ids) item_id (id, e, m) = ap (is_listed ids) e ∙ any_id-mem id ids m

module _ {Score : Type 0} (cosine : List ℕ → List ℕ → Score) where
  -- The hit of a stored embedding: its capture is in the allow-list, it has the dimension, and
  -- the score is its cosine to the query.
  abbrev pub IsHit : ℕ → List ℕ → Option (List ℕ) → Entry → EmbeddingHit Score → Type 0
  IsHit dim query allowed e h =
      IsListed allowed e.item_id
      × (length (bytes_to_f32s e.blob) ≡ dim)
      × (h ≡ record {
        item_id = e.item_id;
        region_id = e.region_id;
        score = cosine query (bytes_to_f32s e.blob);
      })

module _ {Score : Type 0} (cosine : List ℕ → List ℕ → Score) (greater : Score → Score → Bool)
    (asym : (x y : Score) → greater x y ≡ true → greater y x ≡ false)
    (trans : (x y z : Score)
      → greater y x ≡ false
      → greater z y ≡ false
      → greater z x ≡ false) where
  not_worse_total :
      (a b : EmbeddingHit Score)
      → not_worse cosine greater a b ≡ false
      → not_worse cosine greater b a ≡ true
  unfolding not_worse
  not_worse_total a b h = ground (arith, asym b.score a.score)

  not_worse_trans :
      (a b c : EmbeddingHit Score)
      → not_worse cosine greater a b ≡ true
      → not_worse cosine greater b c ≡ true
      → not_worse cosine greater a c ≡ true
  unfolding not_worse
  not_worse_trans a b c h k = ground (arith, trans a.score b.score c.score)

  not_worse-score :
      (a b : EmbeddingHit Score)
      → not_worse cosine greater a b ≡ true
      → greater b.score a.score ≡ false
  unfolding not_worse
  not_worse-score a b h = ground arith

  hit_of-IsHit :
      (dim : ℕ) (query : List ℕ) (allowed : Option (List ℕ)) (e : Entry) (h : EmbeddingHit Score)
      → hit_of cosine greater dim query allowed e ≡ some h
      → IsHit cosine dim query allowed e h
  unfolding hit_of
  hit_of-IsHit dim query allowed e h k = elim (Bool-cases (is_allowed allowed e.item_id)) [
    | inr a ↦ absurd (none-some (rw a at k))
    | inl a ↦ elim (Bool-cases (length (bytes_to_f32s e.blob) == dim)) [
      | inr d ↦ absurd (none-some (rw (a, d) at k))
      | inl d ↦ (
        is_allowed-IsListed allowed e.item_id a,
        (==_iff (length (bytes_to_f32s e.blob)) dim).0 d,
        sym (some-inj (rw (a, d) at k)),
      )
    ]
  ]

  IsHit-hit_of :
      (dim : ℕ) (query : List ℕ) (allowed : Option (List ℕ)) (e : Entry) (h : EmbeddingHit Score)
      → IsHit cosine dim query allowed e h
      → hit_of cosine greater dim query allowed e ≡ some h
  unfolding hit_of
  IsHit-hit_of dim query allowed e h (a, d, q) =
      rw (IsListed-is_allowed allowed e.item_id a, (==_iff (length (bytes_to_f32s e.blob)) dim).1 d)
        (ap some (sym q))

  -- A search of the right dimension, whose allow-list is not empty, returns at most `k` hits, and
  -- none scores more than an earlier one. Each hit is that of a stored embedding of the index's
  -- dimension: its item, its region and its cosine to the query. Its capture is in the
  -- allow-list, if there is one. The scores are a weak order.
  pub search_sound :
      (query : List ℕ) (k : ℕ) (allowed : Option (List ℕ)) (db : SemanticIndex)
      → length query ≡ db.dim
      → is_empty_list allowed ≡ false
      → (hits : List (EmbeddingHit Score)) × (search cosine greater query k allowed db ≡ ok hits)
        × (length hits ≤ k)
        × IsSortedBy (λ a b. greater b.score a.score ≡ false) hits
        × All (λ h. (e : Entry) × (e ∈ view db) × IsHit cosine db.dim query allowed e h) hits
  unfolding nearest
  search_sound query k allowed db h n = (
    nearest cosine greater db.dim query k allowed (view db),
    search_ok cosine greater query k allowed db h n,
    length-take_le k (
        order_rows (not_worse cosine greater) (scan cosine greater db.dim query allowed (view db))),
    IsOrdered-IsSortedBy (not_worse cosine greater) (λ a b. greater b.score a.score ≡ false) _
        not_worse-score
        (take-IsOrdered (not_worse cosine greater) k _ (
          order_rows-IsOrdered (not_worse cosine greater) not_worse_total not_worse_trans
            (scan cosine greater db.dim query allowed (view db)))),
    All-tabulate _ _ (λ h m.
        let (e, i, q) = mem-scan cosine greater db.dim query allowed (view db) h (
          mem-order_rows (not_worse cosine greater)
            (scan cosine greater db.dim query allowed (view db)) h (mem-take k _ h m)) in
        (e, i, hit_of-IsHit db.dim query allowed e h q)),
  )

  -- A stored embedding of the index's dimension, whose capture is in the allow-list if there is
  -- one, is among the hits, or there are `k` hits and none of them scores less: the filter never
  -- costs a match, as it is applied before the cut. The query has the right dimension, the
  -- allow-list is not empty, and the scores are a weak order.
  pub search_complete :
      (query : List ℕ) (k : ℕ) (allowed : Option (List ℕ)) (db : SemanticIndex)
      (hits : List (EmbeddingHit Score)) (e : Entry) (h : EmbeddingHit Score)
      → search cosine greater query k allowed db ≡ ok hits
      → length query ≡ db.dim
      → is_empty_list allowed ≡ false
      → e ∈ view db
      → IsHit cosine db.dim query allowed e h
      → (h ∈ hits) ⊎ ((length hits ≡ k) × All (λ r. greater h.score r.score ≡ false) hits)
  unfolding nearest
  search_complete query k allowed db hits e h s q n m i =
      let same : nearest cosine greater db.dim query k allowed (view db) ≡ hits =
        ok-inj (sym (search_ok cosine greater query k allowed db q n) ∙ s) in
      let cut =
        mem_take (not_worse cosine greater) k _ h
          (order_rows-IsOrdered (not_worse cosine greater) not_worse_total not_worse_trans
            (scan cosine greater db.dim query allowed (view db)))
          (mem_order_rows (not_worse cosine greater) _ h (
            mem_scan cosine greater db.dim query allowed (view db) e h m
              (IsHit-hit_of db.dim query allowed e h i))) in
      subst (λ l. (h ∈ l) ⊎ ((length l ≡ k) × All (λ r. greater h.score r.score ≡ false) l)) same
        (elim cut [
          | inl o ↦ inl o
          | inr (full, worse) ↦ inr (
            full,
            All-tabulate _ _ (λ r o.
                not_worse-score r h
                  (All-lookup (λ r. not_worse cosine greater r h ≡ true) _ r worse o)),
          )
        ])
