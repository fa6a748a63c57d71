-- ===== src/Store/Semantic/Nearest.antt =====
-- What a search returns.
use pre_call.Prelude.{
  err-ok, ok-inj, ◌==◌, err, Bool-cases, subst, ap, ℕ, zero, suc, take, ◌≤◌, ◌≡◌, refl, sym, ◌∙◌,
  Bool, true, false, List, [], ◌∷◌, Option, none, some, some-inj, ok, length, All, All-tabulate,
  ◌∈◌, ◌⊎◌, inl, inr, ==_iff, arith, none-some,
}
use pre_call.Store.Sql.Laws.{mem-take, mem-order_rows}
use pre_call.Store.Semantic.{SemanticIndex, dim_mismatch}
use pre_call.Store.Semantic.Search.{
  Entry, EmbeddingHit, hit_of, consider, scan, not_worse, nearest, is_empty_list, search,
}
use pre_call.Store.Semantic.View.{view}

pub length-take_le : {A : Type 0} (k : ℕ) (xs : List A) → length (take k xs) ≤ k
length-take_le zero xs = ground arith
length-take_le (suc k) [] = ground arith
length-take_le (suc k) (x ∷ xs) = ground (arith, length-take_le k xs)

module _ {Score : Type 0} (cosine : List ℕ → List ℕ → Score) (greater : Score → Score → Bool) where
  mem_consider :
      (o : Option (EmbeddingHit Score)) (rest : List (EmbeddingHit Score)) (h : EmbeddingHit Score)
      → (o ≡ some h) ⊎ (h ∈ rest)
      → h ∈ consider cosine greater o rest
  unfolding consider
  mem_consider none rest h (inl e) = absurd (none-some e)
  mem_consider none rest h (inr m) = m
  mem_consider (some j) rest h (inl e) = inl (sym (some-inj e))
  mem_consider (some j) rest h (inr m) = inr m

  mem-consider :
      (o : Option (EmbeddingHit Score)) (rest : List (EmbeddingHit Score)) (h : EmbeddingHit Score)
      → h ∈ consider cosine greater o rest
      → (o ≡ some h) ⊎ (h ∈ rest)
  unfolding consider
  mem-consider none rest h m = inr m
  mem-consider (some j) rest h (inl e) = inl (ap some (sym e))
  mem-consider (some j) rest h (inr m) = inr m

  pub mem_scan :
      (dim : ℕ) (query : List ℕ) (allowed : Option (List ℕ)) (es : List Entry) (e : Entry)
      (h : EmbeddingHit Score)
      → e ∈ es
      → hit_of cosine greater dim query allowed e ≡ some h
      → h ∈ scan cosine greater dim query allowed es
  unfolding scan
  mem_scan dim query allowed [] e h m k = absurd m.1
  mem_scan dim query allowed (x ∷ xs) e h (inl m) k =
      mem_consider _ (scan cosine greater dim query allowed xs) h
        (inl (sym (ap (hit_of cosine greater dim query allowed) m) ∙ k))
  mem_scan dim query allowed (x ∷ xs) e h (inr m) k =
      mem_consider (hit_of cosine greater dim query allowed x) _ h
        (inr (mem_scan dim query allowed xs e h m k))

  pub mem-scan :
      (dim : ℕ) (query : List ℕ) (allowed : Option (List ℕ)) (es : List Entry)
      (h : EmbeddingHit Score)
      → h ∈ scan cosine greater dim query allowed es
      → (e : Entry) × (e ∈ es) × (hit_of cosine greater dim query allowed e ≡ some h)
  unfolding scan
  mem-scan dim query allowed [] h m = absurd m.1
  mem-scan dim query allowed (x ∷ xs) h m =
      elim (mem-consider (hit_of cosine greater dim query allowed x)
        (scan cosine greater dim query allowed xs) h m) [
          | inl q ↦ (x, inl refl, q)
          | inr k ↦ let (e, i, q) = mem-scan dim query allowed xs h k in (e, inr i, q)
        ]

  pub search_ok :
      (query : List ℕ) (k : ℕ) (allowed : Option (List ℕ)) (db : SemanticIndex)
      → length query ≡ db.dim
      → is_empty_list allowed ≡ false
      → search cosine greater query k allowed db
        ≡ ok (nearest cosine greater db.dim query k allowed (view db))
  unfolding search
  search_ok query k allowed db h n = rw ((==_iff (length query) db.dim).1 h, n) refl

  abbrev pub IsLetIn : ℕ → List ℕ → Option (List ℕ) → List Entry → EmbeddingHit Score → Type 0
  IsLetIn dim query allowed es h =
      (e : Entry) × (e ∈ es) × (hit_of cosine greater dim query allowed e ≡ some h)

  nearest-All :
      (dim : ℕ) (query : List ℕ) (k : ℕ) (allowed : Option (List ℕ)) (es : List Entry)
      → All (IsLetIn dim query allowed es) (nearest cosine greater dim query k allowed es)
  unfolding nearest
  nearest-All dim query k allowed es = All-tabulate _ _ (λ h m. mem-scan dim query allowed es h (
      mem-order_rows (not_worse cosine greater) (scan cosine greater dim query allowed es) h
        (mem-take k _ h m)))

  -- What a search returns stands for embeddings that the allow-list lets through.
  pub search-All :
      (query : List ℕ) (k : ℕ) (allowed : Option (List ℕ)) (db : SemanticIndex)
      (hits : List (EmbeddingHit Score))
      → search cosine greater query k allowed db ≡ ok hits
      → All (IsLetIn db.dim query allowed (view db)) hits
  search-All query k allowed db hits s = elim (Bool-cases (length query == db.dim)) [
    | inr e ↦ absurd (err-ok (sym (wrong e) ∙ s))
    | inl e ↦ elim (Bool-cases (is_empty_list allowed)) [
      | inl n ↦
          subst (All (IsLetIn db.dim query allowed (view db))) (ok-inj (sym (none_allowed e n) ∙ s))
            tt
      | inr n ↦
          subst (All (IsLetIn db.dim query allowed (view db)))
            (ok-inj (sym (search_ok query k allowed db ((==_iff (length query) db.dim).0 e) n) ∙ s))
            (nearest-All db.dim query k allowed (view db))
    ]
  ]
    where
      wrong :
          (length query == db.dim) ≡ false
          → search cosine greater query k allowed db ≡ err (dim_mismatch db.dim (length query))
      wrong e = unfold search in rw e refl

      none_allowed :
          (length query == db.dim) ≡ true
          → is_empty_list allowed ≡ true
          → search cosine greater query k allowed db ≡ ok []
      none_allowed e n = unfold search in rw (e, n) refl
