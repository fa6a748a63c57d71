-- ===== src/Store/Semantic/Items.antt =====
-- The item ids of the embeddings.
use pre_call.Prelude.{
  ==_iff, ℕ, suc, zero, ◌^◌, ◌/◌, ◌<◌, ◌≡◌, refl, ap, Bool, true, List, [], ◌∷◌, Option, some, ok,
  any, length, bytes_eq, bytes_eq_refl, arith, ◌++◌, Text, Bool-cases, inl, inr,
}
use pre_call.Store.Semantic.{
  le_bytes, of_le_bytes, item_id_for_capture, capture_id_for_item, SemanticIndex, insert, inserted,
  add_item, is_linked, has_item,
}

of_le_bytes-le_bytes : (w n : ℕ) → n < 256 ^ w → of_le_bytes (le_bytes w n) ≡ n
unfolding le_bytes of_le_bytes
of_le_bytes-le_bytes zero n h = omega arith
of_le_bytes-le_bytes (suc w) n h = rw (of_le_bytes-le_bytes w (n / 256) (omega arith)) (omega arith)

-- `capture_id_for_item` undoes `item_id_for_capture` on every id of 64 bits.
pub capture_id_for_item-item_id_for_capture :
    (id : ℕ) → id < 256 ^ 8 → capture_id_for_item (item_id_for_capture id) ≡ some id
unfolding capture_id_for_item item_id_for_capture
capture_id_for_item-item_id_for_capture id h = ap some (of_le_bytes-le_bytes 8 id h)

any-snoc_found :
    {A : Type 0} (p : A → Bool) (xs : List A) (x : A) → p x ≡ true → any p (xs ++ (x ∷ [])) ≡ true
any-snoc_found p [] x h = rw h refl
any-snoc_found p (y ∷ ys) x h = ground (arith, any-snoc_found p ys x h)

pub any-add_item :
    (item_id : List ℕ) (items : List (List ℕ))
    → any (bytes_eq item_id) (add_item item_id items) ≡ true
unfolding add_item
any-add_item item_id items = elim (Bool-cases (any (bytes_eq item_id) items)) [
  | inl e ↦ rw e e
  | inr e ↦ rw e (any-snoc_found (bytes_eq item_id) items item_id (bytes_eq_refl item_id))
]

-- An embedding of the right dimension under an item id of sixteen bytes is inserted, and
-- `has_item` then answers that the item is there.
pub has_item-insert :
    (item_id : List ℕ) (region metadata : Option Text) (embedding : List ℕ) (db : SemanticIndex)
    → length embedding ≡ db.dim
    → length item_id ≡ 16
    → (r : ℕ × SemanticIndex) × (insert item_id region metadata embedding db ≡ ok r)
      × (has_item item_id r.1 ≡ ok true)
unfolding insert inserted has_item is_linked
has_item-insert item_id region metadata embedding db h k =
    let fits = (==_iff (length embedding) db.dim).1 h in
    let is_id = (==_iff (length item_id) 16).1 k in
    (
      (db.next_graph, inserted item_id region metadata embedding db),
      rw (fits, is_id) refl,
      rw (is_id, any-add_item item_id db.items)
          (ap ok (
            any-snoc_found _ db.metadata _ (
              rw (bytes_eq_refl item_id)
                (any-snoc_found _ db.graph _ ((==_iff db.next_graph db.next_graph).1 refl))))),
    )
