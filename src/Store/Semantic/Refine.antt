-- ===== src/Store/Semantic/Refine.antt =====
-- A semantic index is, to its callers, a list of embeddings: the three tables, their keys and
-- their joins show in no answer. The id that `insert` returns is the one thing forgotten here.
use pre_call.Prelude.{
  ℕ, ◌≡◌, refl, sym, ◌∙◌, ap, subst, Text, Bool, true, false, not, List, [], ◌∷◌, ◌++◌, Option,
  Result, ok, err, any, length, ◌==◌, bytes_eq, bytes_eq→eq, Bool-cases, inl, inr, true-false,
  if◌then◌else◌, arith,
}
use pre_call.Store.Semantic.{
  GraphRow, MetadataRow, SemanticIndex, SemanticError, dim_mismatch, bad_item_id, insert, inserted,
  clear, has_item, is_linked,
}
use pre_call.Store.Semantic.Search.{Entry, EmbeddingHit, nearest, is_empty_list, search}
use pre_call.Store.Semantic.View.{
  view, IsLinked, AreItemsKnown, entry, holds, linked_in, holds-join, view-inserted,
  inserted-IsLinked,
}

-- A call, and what its caller learns.
pub data Call : Type 0 where
  add : List ℕ → Option Text → Option Text → List ℕ → Call
  has : List ℕ → Call
  find : List ℕ → ℕ → Option (List ℕ) → Call
  wipe : Call

pub data Reply (Score : Type 0) : Type 0 where
  added : Result SemanticError (Unit {0}) → Reply Score
  answer : Result SemanticError Bool → Reply Score
  hits : Result SemanticError (List (EmbeddingHit Score)) → Reply Score
  wiped : Reply Score

has_item-view :
    (item_id : List ℕ) (items : List (List ℕ)) (gs : List GraphRow) (ms : List MetadataRow)
    → AreItemsKnown items ms
    → any (linked_in item_id gs) ms ≡ true
    → any (bytes_eq item_id) items ≡ true
unfolding linked_in
has_item-view item_id items gs [] known h = absurd (true-false (sym h))
has_item-view item_id items gs (m ∷ ms) known h = elim (Bool-cases (bytes_eq m.item_id item_id)) [
  | inl e ↦ subst (λ i. any (bytes_eq i) items ≡ true) (bytes_eq→eq m.item_id item_id e) known.0
  | inr e ↦ has_item-view item_id items gs ms known.1 (ground arith)
]

module _ {Score : Type 0} (cosine : List ℕ → List ℕ → Score) (greater : Score → Score → Bool) where
  insert_reply :
      Result SemanticError (ℕ × SemanticIndex) → SemanticIndex → Reply Score × SemanticIndex
  insert_reply (ok (id, db')) db = (added (ok tt), db')
  insert_reply (err e) db = (added (err e), db)

  unfoldable pub step : Call → SemanticIndex → Reply Score × SemanticIndex
  unfolding insert_reply insert has_item search clear
  step (add item_id region metadata embedding) db =
      insert_reply (insert item_id region metadata embedding db) db
  step (has item_id) db = (answer (has_item item_id db), db)
  step (find query k allowed) db = (hits (search cosine greater query k allowed db), db)
  step wipe db = (wiped, clear db)

  unfoldable pub run : List Call → SemanticIndex → List (Reply Score)
  unfolding step
  run [] db = []
  run (c ∷ cs) db = let (r, db') = step c db in r ∷ run cs db'

  -- The same calls on a list of embeddings of one dimension.
  unfoldable pub spec_step : ℕ → Call → List Entry → Reply Score × List Entry
  unfolding nearest
  spec_step dim (add item_id region metadata embedding) es =
      if not (length embedding == dim)
      then (added (err (dim_mismatch dim (length embedding))), es)
      else if not (length item_id == 16)
      then (added (err bad_item_id), es)
      else (added (ok tt), es ++ (entry item_id region embedding ∷ []))
  spec_step dim (has item_id) es =
      (answer (if not (length item_id == 16) then err bad_item_id else ok (holds item_id es)), es)
  spec_step dim (find query k allowed) es = (
    hits (
        if not (length query == dim)
        then err (dim_mismatch dim (length query))
        else if is_empty_list allowed
        then ok []
        else ok (nearest cosine greater dim query k allowed es)),
    es,
  )
  spec_step dim wipe es = (wiped, [])

  unfoldable pub spec_run : ℕ → List Call → List Entry → List (Reply Score)
  unfolding spec_step
  spec_run dim [] es = []
  spec_run dim (c ∷ cs) es = let (r, es') = spec_step dim c es in r ∷ spec_run dim cs es'

  -- One call keeps the tables linked and the dimension, and answers and acts as on the list.
  abbrev Refines : Call → SemanticIndex → Type 0
  Refines c db =
      IsLinked (step c db).1
      × ((step c db).1.dim ≡ db.dim)
      × ((step c db).0 ≡ (spec_step db.dim c (view db)).0)
      × (view (step c db).1 ≡ (spec_step db.dim c (view db)).1)

  step-add :
      (item_id : List ℕ) (region metadata : Option Text) (embedding : List ℕ) (db : SemanticIndex)
      → IsLinked db
      → Refines (add item_id region metadata embedding) db
  unfolding step spec_step insert insert_reply
  step-add item_id region metadata embedding db h = elim (Bool-cases (length embedding == db.dim)) [
    | inr e ↦ rw e (h, refl, refl, refl)
    | inl e ↦ elim (Bool-cases (length item_id == 16)) [
      | inr k ↦ rw (e, k) (h, refl, refl, refl)
      | inl k ↦
          rw (e, k)
            (
              inserted-IsLinked item_id region metadata embedding db h,
              unfold inserted in refl,
              refl,
              view-inserted item_id region metadata embedding db h,
            )
    ]
  ]

  has_item-holds :
      (item_id : List ℕ) (db : SemanticIndex)
      → IsLinked db
      → has_item item_id db
        ≡ (if not (length item_id == 16) then err bad_item_id else ok (holds item_id (view db)))
  unfolding has_item is_linked linked_in
  has_item-holds item_id db (below, links, known) =
      ap (λ b. if not (length item_id == 16) then err bad_item_id else ok b)
        (guarded (any (bytes_eq item_id) db.items) (holds-join item_id db.graph db.metadata)
          (has_item-view item_id db.items db.graph db.metadata known))
    where
      guarded :
          (b : Bool)
          → any (linked_in item_id db.graph) db.metadata ≡ holds item_id (view db)
          → (any (linked_in item_id db.graph) db.metadata ≡ true → b ≡ true)
          → (if b then any (linked_in item_id db.graph) db.metadata else false)
            ≡ holds item_id (view db)
      guarded true e h = e
      guarded false e h = elim (Bool-cases (any (linked_in item_id db.graph) db.metadata)) [
        | inl k ↦ absurd (true-false (sym (h k)))
        | inr k ↦ sym k ∙ e
      ]

  step-Refines : (c : Call) (db : SemanticIndex) → IsLinked db → Refines c db
  unfolding step spec_step search clear
  step-Refines (add item_id region metadata embedding) db h =
      step-add item_id region metadata embedding db h
  step-Refines (has item_id) db h = (h, refl, ap answer (has_item-holds item_id db h), refl)
  step-Refines (find query k allowed) db h = (h, refl, refl, refl)
  step-Refines wipe db h = ((tt, tt, tt), refl, refl, refl)

  -- No sequence of insertions, clearings, questions for an item and searches tells a semantic
  -- index whose tables are linked from the list of its embeddings.
  pub run_refines :
      (cs : List Call) (db : SemanticIndex) → IsLinked db → run cs db ≡ spec_run db.dim cs (view db)
  unfolding run spec_run
  run_refines [] db h = refl
  run_refines (c ∷ cs) db h =
      let (kept, same_dim, same_reply, same_view) = step-Refines c db h in
      rw (same_reply, run_refines cs (step c db).1 kept, same_dim, same_view) refl
