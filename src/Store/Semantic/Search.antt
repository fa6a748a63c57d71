-- ===== src/Store/Semantic/Search.antt =====
-- crates/precall-store/src/semantic.rs: `search`, the flat scan. The cosine and the order of the
-- scores are parameters: arithmetic of f32 is not modelled.
use pre_call.Prelude.{
  ℕ, Text, Bool, true, false, not, List, [], ◌∷◌, ◌++◌, Option, none, some, Result, ok, err, any,
  ◌==◌, length, take, if◌then◌else◌,
}
use pre_call.Store.Sql.{order_rows}
use pre_call.Store.Semantic.{
  GraphRow, MetadataRow, SemanticIndex, SemanticError, dim_mismatch, capture_id_for_item,
  bytes_to_f32s,
}

-- A row of the JOIN that `search` runs over.
pub record Entry : Type 0 where
  pub item_id : List ℕ
  pub region_id : Option Text
  pub blob : List ℕ

unfoldable pub entries_of : GraphRow → List MetadataRow → List Entry
entries_of g [] = []
entries_of g (m ∷ ms) =
    let rest = entries_of g ms in
    if m.embedding_id == g.id
    then record { item_id = m.item_id; region_id = m.region_id; blob = g.embedding } ∷ rest
    else rest

-- "si_diskann_graph" JOIN "si_embedding_metadata"
unfoldable pub join_rows : List GraphRow → List MetadataRow → List Entry
unfolding entries_of
join_rows [] ms = []
join_rows (g ∷ gs) ms = entries_of g ms ++ join_rows gs ms

-- Some(cid) if allowed.contains(&cid)
abbrev pub is_listed : List ℕ → Option ℕ → Bool
is_listed ids none = false
is_listed ids (some id) = any (λ a. a == id) ids

-- Is the item in the allow-list?
unfoldable pub is_allowed : Option (List ℕ) → List ℕ → Bool
unfolding capture_id_for_item
is_allowed none item_id = true
is_allowed (some ids) item_id = is_listed ids (capture_id_for_item item_id)

-- `allowed.is_some_and(|a| a.is_empty())`
abbrev pub is_empty_list : Option (List ℕ) → Bool
is_empty_list (some []) = true
is_empty_list _ = false

pub record EmbeddingHit (Score : Type 0) : Type 0 where
  pub item_id : List ℕ
  pub region_id : Option Text
  pub score : Score

module _ {Score : Type 0} (cosine : List ℕ → List ℕ → Score) (greater : Score → Score → Bool) where
  -- The body of the scan.
  unfoldable pub hit_of : ℕ → List ℕ → Option (List ℕ) → Entry → Option (EmbeddingHit Score)
  unfolding is_allowed bytes_to_f32s
  hit_of dim query allowed e =
      if not (is_allowed allowed e.item_id)
      then none
      else if not (length (bytes_to_f32s e.blob) == dim)
      then none
      else some (record {
        item_id = e.item_id;
        region_id = e.region_id;
        score = cosine query (bytes_to_f32s e.blob);
      })

  -- `continue`, or `hits.push`
  unfoldable pub consider :
      Option (EmbeddingHit Score) → List (EmbeddingHit Score) → List (EmbeddingHit Score)
  consider none rest = rest
  consider (some h) rest = h ∷ rest

  unfoldable pub scan : ℕ → List ℕ → Option (List ℕ) → List Entry → List (EmbeddingHit Score)
  unfolding hit_of consider
  scan dim query allowed [] = []
  scan dim query allowed (e ∷ es) =
      consider (hit_of dim query allowed e) (scan dim query allowed es)

  -- The comparison of `sort_by`: a hit stays before a later one unless that one scores more.
  unfoldable pub not_worse : EmbeddingHit Score → EmbeddingHit Score → Bool
  not_worse a b = not (greater b.score a.score)

  unfoldable pub nearest : ℕ → List ℕ → ℕ → Option (List ℕ) → List Entry → List (EmbeddingHit Score)
  unfolding scan not_worse order_rows
  nearest dim query k allowed es = take k (order_rows not_worse (scan dim query allowed es))

  unfoldable pub search :
      List ℕ
      → ℕ
      → Option (List ℕ)
      → SemanticIndex
      → Result SemanticError (List (EmbeddingHit Score))
  unfolding nearest join_rows
  search query k allowed self =
      if not (length query == self.dim)
      then err (dim_mismatch self.dim (length query))
      else if is_empty_list allowed
      then ok []
      else ok (nearest self.dim query k allowed (join_rows self.graph self.metadata))
