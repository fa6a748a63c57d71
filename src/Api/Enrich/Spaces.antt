-- ===== src/Api/Enrich/Spaces.antt =====
-- Which space the embeddings of an index belong to.
use pre_call.Prelude.{
  ℕ, ◌≡◌, refl, sym, ◌∙◌, subst, Text, true, false, List, [], Option, none, some, ok, if◌then◌else◌,
  bytes_eq, bytes_eq→eq, Bool-cases, inl, inr, arith, true-false, All, All-snoc,
}
use pre_call.Store.Semantic.{
  SemanticIndex, item_id_for_capture, insert, inserted, clear, set_space_id, ensure_info, space_id,
  space_unknown,
}
use pre_call.Store.Semantic.Search.{Entry, join_rows}
use pre_call.Store.Semantic.View.{view, IsLinked, entry, view-inserted, inserted-IsLinked}
use pre_call.Api.Enrich.{is_foreign, space_mismatch}

insert-inserted :
    (item_id : List ℕ) (region metadata : Option Text) (embedding : List ℕ) (db : SemanticIndex)
    (r : ℕ × SemanticIndex)
    → insert item_id region metadata embedding db ≡ ok r
    → r.1 ≡ inserted item_id region metadata embedding db
unfolding insert
insert-inserted item_id region metadata embedding db r h = ground arith

same_dim :
    (item_id : List ℕ) (embedding : List ℕ) (db : SemanticIndex)
    → (inserted item_id none none embedding db).dim ≡ db.dim
unfolding inserted
same_dim item_id embedding db = refl

same_space :
    (item_id : List ℕ) (embedding : List ℕ) (db : SemanticIndex)
    → (inserted item_id none none embedding db).space ≡ db.space
unfolding inserted
same_space item_id embedding db = refl

-- `IsFrom space e`: the embedder of the space has made the embedding.
module _ (IsFrom : Text → Entry → Type 0) where
  -- Under a label all embeddings are of its space; without one, and under "unknown", there are
  -- none.
  abbrev pub IsPureAt : Option Text → List Entry → Type 0
  IsPureAt none es = es ≡ []
  IsPureAt (some space) es =
      (bytes_eq space space_unknown ≡ true → es ≡ [])
      × (bytes_eq space space_unknown ≡ false → All (IsFrom space) es)

  abbrev pub IsSound : ℕ → SemanticIndex → Type 0
  IsSound dim idx = (idx.dim ≡ dim) × IsLinked idx × IsPureAt idx.space (view idx)

  pure_nil : (space : Option Text) → IsPureAt space []
  pure_nil none = refl
  pure_nil (some space) = (λ h. refl, λ h. tt)

  nil→All : (space : Text) (es : List Entry) → es ≡ [] → All (IsFrom space) es
  nil→All space es e = subst (All (IsFrom space)) (sym e) tt

  -- Embeddings under a label that is not foreign may stand under the new one.
  pure-relabel :
      (space : Text) (label : Option Text) (es : List Entry)
      → is_foreign space label ≡ false
      → IsPureAt label es
      → IsPureAt (some space) es
  unfolding is_foreign
  pure-relabel space none es h e = (λ u. e, λ u. nil→All space es e)
  pure-relabel space (some stored) es h (if_unknown, if_known) =
      elim (Bool-cases (bytes_eq stored space_unknown)) [
        | inl u ↦ (λ k. if_unknown u, λ k. nil→All space es (if_unknown u))
        | inr u ↦ elim (Bool-cases (bytes_eq stored space)) [
          | inl k ↦
              subst (λ t. IsPureAt (some t) es) (bytes_eq→eq stored space k) (if_unknown, if_known)
          | inr k ↦ absurd (true-false (sym (rw (k, u) refl) ∙ h))
        ]
      ]

  -- The index with its rows of a foreign space gone and its label moved.
  abbrev pub readied : Text → SemanticIndex → SemanticIndex
  readied space idx = set_space_id space (if space_mismatch idx space then clear idx else idx)

  set_space_id-fields :
      (space : Text) (idx : SemanticIndex) → (set_space_id space idx).space ≡ some space
  unfolding set_space_id ensure_info
  set_space_id-fields space idx = ground arith

  same_tables :
      (space : Text) (idx : SemanticIndex)
      → ((set_space_id space idx).items ≡ idx.items)
        × ((set_space_id space idx).graph ≡ idx.graph)
        × ((set_space_id space idx).next_graph ≡ idx.next_graph)
        × ((set_space_id space idx).metadata ≡ idx.metadata)
        × ((set_space_id space idx).dim ≡ idx.dim)
  unfolding set_space_id ensure_info
  same_tables space idx = (ground arith, ground arith, ground arith, ground arith, ground arith)

  set_space_id-IsSound :
      (dim : ℕ) (space : Text) (idx : SemanticIndex)
      → idx.dim ≡ dim
      → IsLinked idx
      → IsPureAt (some space) (view idx)
      → IsSound dim (set_space_id space idx)
  set_space_id-IsSound dim space idx d l p =
      let (items, graph, next, metadata, width) = same_tables space idx in
      rw (items, graph, next, metadata, width, set_space_id-fields space idx) (d, l, p)

  pub readied-IsSound :
      (dim : ℕ) (space : Text) (idx : SemanticIndex)
      → IsSound dim idx
      → IsSound dim (readied space idx)
  unfolding space_mismatch space_id clear join_rows
  readied-IsSound dim space idx (d, l, p) = elim (Bool-cases (is_foreign space idx.space)) [
    | inl f ↦ rw f (cleared d)
    | inr f ↦
        rw f (set_space_id-IsSound dim space idx d l (pure-relabel space idx.space (view idx) f p))
  ]
    where
      cleared : idx.dim ≡ dim → IsSound dim (set_space_id space (clear idx))
      cleared d = set_space_id-IsSound dim space (clear idx) d (tt, tt, tt) (pure_nil (some space))

  -- An embedding of the space that the label is moved to keeps the index sound.
  pub insert-IsSound :
      (dim id : ℕ) (space : Text) (embedding : List ℕ) (idx : SemanticIndex) (r : ℕ × SemanticIndex)
      → IsSound dim idx
      → bytes_eq space space_unknown ≡ false
      → IsFrom space (entry (item_id_for_capture id) none embedding)
      → insert (item_id_for_capture id) none none embedding (readied space idx) ≡ ok r
      → IsSound dim r.1
  insert-IsSound dim id space embedding idx r h u from e =
      let (d, l, p) = readied-IsSound dim space idx h in
      let item = item_id_for_capture id in
      let label : (readied space idx).space ≡ some space =
        set_space_id-fields space (if space_mismatch idx space then clear idx else idx) in
      let pure : IsPureAt (some space) (view (readied space idx)) =
        subst (λ o. IsPureAt o (view (readied space idx))) label p in
      let grown : IsSound dim (inserted item none none embedding (readied space idx)) = (
        same_dim item embedding (readied space idx) ∙ d,
        inserted-IsLinked item none none embedding (readied space idx) l,
        rw
            (
              same_space item embedding (readied space idx) ∙ label,
              view-inserted item none none embedding (readied space idx) l,
            )
            (
              λ k. absurd (true-false (sym k ∙ u)),
              λ k.
                  All-snoc (IsFrom space) (view (readied space idx)) (entry item none embedding)
                    (pure.1 u) from,
            ),
      ) in
      subst (IsSound dim) (sym (insert-inserted item none none embedding (readied space idx) r e))
        grown
