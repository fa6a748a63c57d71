-- ===== src/Store/Semantic/View.antt =====
-- What the three tables of a semantic index stand for: the list of its embeddings.
use pre_call.Prelude.{
  ℕ, suc, ◌<◌, ◌≡◌, refl, sym, ◌∙◌, ap, Text, Bool, true, false, ◌||◌, List, [], ◌∷◌, ◌++◌,
  append-nil, append_assoc, Option, any, bytes_eq, ◌==◌, ==_iff, if◌then◌else◌, arith,
}
use pre_call.Store.Semantic.{
  GraphRow, MetadataRow, SemanticIndex, inserted, add_item, f32s_to_bytes,
}
use pre_call.Prelude.{true-false, Bool-cases, inl, inr}
use pre_call.Store.Semantic.Items.{any-add_item}
use pre_call.Store.Semantic.Search.{Entry, entries_of, join_rows}

abbrev pub view : SemanticIndex → List Entry
view self = join_rows self.graph self.metadata

-- The ids of both tables are below the counter, and each item of the metadata has its row.
abbrev pub AreIdsBelow : ℕ → List GraphRow → Type 0
AreIdsBelow n [] = Unit
AreIdsBelow n (g ∷ gs) = (g.id < n) × AreIdsBelow n gs

abbrev pub AreLinksBelow : ℕ → List MetadataRow → Type 0
AreLinksBelow n [] = Unit
AreLinksBelow n (m ∷ ms) = (m.embedding_id < n) × AreLinksBelow n ms

abbrev pub AreItemsKnown : List (List ℕ) → List MetadataRow → Type 0
AreItemsKnown items [] = Unit
AreItemsKnown items (m ∷ ms) = (any (bytes_eq m.item_id) items ≡ true) × AreItemsKnown items ms

abbrev pub IsLinked : SemanticIndex → Type 0
IsLinked db =
    AreIdsBelow db.next_graph db.graph
    × AreLinksBelow db.next_graph db.metadata
    × AreItemsKnown db.items db.metadata

entries_of-snoc_other :
    (g : GraphRow) (ms : List MetadataRow) (m : MetadataRow)
    → g.id < m.embedding_id
    → entries_of g (ms ++ (m ∷ [])) ≡ entries_of g ms
unfolding entries_of
entries_of-snoc_other g [] m h = ground arith
entries_of-snoc_other g (x ∷ xs) m h = rw (entries_of-snoc_other g xs m h)

join_rows-snoc_other :
    (gs : List GraphRow) (ms : List MetadataRow) (m : MetadataRow)
    → AreIdsBelow m.embedding_id gs
    → join_rows gs (ms ++ (m ∷ [])) ≡ join_rows gs ms
unfolding join_rows
join_rows-snoc_other [] ms m h = refl
join_rows-snoc_other (g ∷ gs) ms m h =
    rw (entries_of-snoc_other g ms m h.0, join_rows-snoc_other gs ms m h.1)

entries_of-new :
    (g : GraphRow) (ms : List MetadataRow) (m : MetadataRow)
    → AreLinksBelow g.id ms
    → m.embedding_id ≡ g.id
    → entries_of g (ms ++ (m ∷ []))
      ≡ record { item_id = m.item_id; region_id = m.region_id; blob = g.embedding } ∷ []
unfolding entries_of
entries_of-new g [] m h e = rw e (rw ((==_iff g.id g.id).1 refl) refl)
entries_of-new g (x ∷ xs) m h e = ground (arith, entries_of-new g xs m h.1 e, h.0)

join_rows-append :
    (gs hs : List GraphRow) (ms : List MetadataRow)
    → join_rows (gs ++ hs) ms ≡ join_rows gs ms ++ join_rows hs ms
unfolding join_rows
join_rows-append [] hs ms = refl
join_rows-append (g ∷ gs) hs ms =
    rw (join_rows-append gs hs ms)
      (sym (append_assoc (entries_of g ms) (join_rows gs ms) (join_rows hs ms)))

join_rows-one : (g : GraphRow) (ms : List MetadataRow) → join_rows (g ∷ []) ms ≡ entries_of g ms
unfolding join_rows
join_rows-one g ms = append-nil (entries_of g ms)

abbrev pub entry : List ℕ → Option Text → List ℕ → Entry
entry item_id region_id embedding = record {
  item_id = item_id;
  region_id = region_id;
  blob = f32s_to_bytes embedding;
}

-- An insertion puts one embedding behind the others.
pub view-inserted :
    (item_id : List ℕ) (region metadata : Option Text) (embedding : List ℕ) (db : SemanticIndex)
    → IsLinked db
    → view (inserted item_id region metadata embedding db)
      ≡ view db ++ (entry item_id region embedding ∷ [])
unfolding inserted
view-inserted item_id region metadata embedding db (below, links, known) =
    let g : GraphRow = record { id = db.next_graph; embedding = f32s_to_bytes embedding } in
    let m : MetadataRow = record {
      embedding_id = db.next_graph;
      item_id = item_id;
      region_id = region;
      metadata_json = metadata;
    } in
    join_rows-append db.graph (g ∷ []) (db.metadata ++ (m ∷ []))
    ∙ (ap (λ es. es ++ join_rows (g ∷ []) (db.metadata ++ (m ∷ [])))
          (join_rows-snoc_other db.graph db.metadata m below)
        ∙ ap (λ es. view db ++ es)
            (join_rows-one g (db.metadata ++ (m ∷ [])) ∙ entries_of-new g db.metadata m links refl))

AreIdsBelow-insert :
    (n : ℕ) (gs : List GraphRow) (g : GraphRow)
    → AreIdsBelow n gs
    → g.id ≡ n
    → AreIdsBelow (suc n) (gs ++ (g ∷ []))
AreIdsBelow-insert n [] g h e = (omega arith, tt)
AreIdsBelow-insert n (x ∷ xs) g h e = (omega (arith, h.0), AreIdsBelow-insert n xs g h.1 e)

AreLinksBelow-insert :
    (n : ℕ) (ms : List MetadataRow) (m : MetadataRow)
    → AreLinksBelow n ms
    → m.embedding_id ≡ n
    → AreLinksBelow (suc n) (ms ++ (m ∷ []))
AreLinksBelow-insert n [] m h e = (omega arith, tt)
AreLinksBelow-insert n (x ∷ xs) m h e = (omega (arith, h.0), AreLinksBelow-insert n xs m h.1 e)

any-append_left :
    {A : Type 0} (p : A → Bool) (xs ys : List A) → any p xs ≡ true → any p (xs ++ ys) ≡ true
any-append_left p [] ys h = absurd (true-false (sym h))
any-append_left p (x ∷ xs) ys h = ground (arith, any-append_left p xs ys)

any-add_item_old :
    (i item_id : List ℕ) (items : List (List ℕ))
    → any (bytes_eq i) items ≡ true
    → any (bytes_eq i) (add_item item_id items) ≡ true
unfolding add_item
any-add_item_old i item_id items h = elim (Bool-cases (any (bytes_eq item_id) items)) [
  | inl e ↦ rw e h
  | inr e ↦ rw e (any-append_left (bytes_eq i) items (item_id ∷ []) h)
]

AreItemsKnown-insert :
    (item_id : List ℕ) (items : List (List ℕ)) (ms : List MetadataRow) (m : MetadataRow)
    → AreItemsKnown items ms
    → m.item_id ≡ item_id
    → AreItemsKnown (add_item item_id items) (ms ++ (m ∷ []))
AreItemsKnown-insert item_id items [] m h e = (rw e (any-add_item item_id items), tt)
AreItemsKnown-insert item_id items (x ∷ xs) m h e =
    (any-add_item_old x.item_id item_id items h.0, AreItemsKnown-insert item_id items xs m h.1 e)

pub inserted-IsLinked :
    (item_id : List ℕ) (region metadata : Option Text) (embedding : List ℕ) (db : SemanticIndex)
    → IsLinked db
    → IsLinked (inserted item_id region metadata embedding db)
unfolding inserted
inserted-IsLinked item_id region metadata embedding db (below, links, known) = (
  AreIdsBelow-insert db.next_graph db.graph _ below refl,
  AreLinksBelow-insert db.next_graph db.metadata _ links refl,
  AreItemsKnown-insert item_id db.items db.metadata _ known refl,
)

-- Has the list an embedding of the item?
abbrev pub holds : List ℕ → List Entry → Bool
holds item_id es = any (λ (e : Entry). bytes_eq e.item_id item_id) es

any-append :
    {A : Type 0} (p : A → Bool) (xs ys : List A) → any p (xs ++ ys) ≡ (any p xs || any p ys)
any-append p [] ys = refl
any-append p (x ∷ xs) ys = ground (arith, any-append p xs ys)

-- The scan of the metadata with a scan of the graph inside is the scan of their join.
unfoldable pub linked_in : List ℕ → List GraphRow → MetadataRow → Bool
linked_in item_id gs m =
    if bytes_eq m.item_id item_id then any (λ g. g.id == m.embedding_id) gs else false

holds-join_nil : (item_id : List ℕ) (ms : List MetadataRow) → any (linked_in item_id []) ms ≡ false
unfolding linked_in
holds-join_nil item_id [] = refl
holds-join_nil item_id (m ∷ ms) = ground (arith, holds-join_nil item_id ms)

holds-join_cons :
    (item_id : List ℕ) (g : GraphRow) (gs : List GraphRow) (ms : List MetadataRow)
    → any (linked_in item_id (g ∷ gs)) ms
      ≡ (holds item_id (entries_of g ms) || any (linked_in item_id gs) ms)
unfolding linked_in entries_of
holds-join_cons item_id g gs [] = refl
holds-join_cons item_id g gs (m ∷ ms) = ground (arith, holds-join_cons item_id g gs ms)

pub holds-join :
    (item_id : List ℕ) (gs : List GraphRow) (ms : List MetadataRow)
    → any (linked_in item_id gs) ms ≡ holds item_id (join_rows gs ms)
unfolding join_rows
holds-join item_id [] ms = holds-join_nil item_id ms
holds-join item_id (g ∷ gs) ms =
    holds-join_cons item_id g gs ms
    ∙ rw (holds-join item_id gs ms) (
        sym (
          any-append (λ (e : Entry). bytes_eq e.item_id item_id) (entries_of g ms)
            (join_rows gs ms)))
