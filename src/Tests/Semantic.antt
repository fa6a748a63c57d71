-- ===== src/Tests/Semantic.antt =====
-- The store of embeddings at concrete rows. The score of two embeddings is the first component of
-- the second.
use pre_call.Prelude.{
  ℕ, ◌≤◌, ◌≡◌, ◌⊎◌, refl, Bool, true, false, List, [], ◌∷◌, none, some, ok, arith, ltb, All, ◌∈◌,
  length, inl,
}
use pre_call.Store.Sql.Laws.{IsSortedBy}
use pre_call.Store.Semantic.{SemanticIndex, bytes_to_f32s, capture_id_for_item}
use pre_call.Store.Semantic.Search.{
  Entry, EmbeddingHit, join_rows, entries_of, hit_of, is_allowed, search,
}
use pre_call.Store.Semantic.View.{view}
use pre_call.Store.Semantic.Refine.{Call, add, has, find, wipe, run, spec_run, run_refines}
use pre_call.Store.Semantic.Best.{IsHit, search_sound, search_complete}

abbrev vacant : SemanticIndex
vacant = record { items = []; graph = []; next_graph = 1; metadata = []; dim = 2; space = none }

abbrev item : List ℕ
item = 0 ∷ 0 ∷ 0 ∷ 0 ∷ 0 ∷ 0 ∷ 0 ∷ 0 ∷ 5 ∷ 0 ∷ 0 ∷ 0 ∷ 0 ∷ 0 ∷ 0 ∷ 0 ∷ []

abbrev first_component : List ℕ → List ℕ → ℕ
first_component query [] = 0
first_component query (x ∷ xs) = x

abbrev greater : ℕ → ℕ → Bool
greater x y = ltb y x

abbrev calls : List Call
calls =
    add item none none (3 ∷ 4 ∷ []) ∷ has item ∷ find (1 ∷ 1 ∷ []) 10 none ∷ wipe ∷ has item ∷ []

run_refines_example :
    run first_component greater calls vacant
    ≡ spec_run first_component greater 2 calls (view vacant)
run_refines_example = run_refines first_component greater calls vacant (tt, tt, tt)

greater_asym : (x y : ℕ) → greater x y ≡ true → greater y x ≡ false
greater_asym x y h = ground arith

greater_trans : (x y z : ℕ) → greater y x ≡ false → greater z y ≡ false → greater z x ≡ false
greater_trans x y z h k = ground arith

abbrev one_item : SemanticIndex
one_item = record vacant {
  items = item ∷ [];
  graph = record { id = 1; embedding = 3 ∷ 0 ∷ 0 ∷ 0 ∷ 4 ∷ 0 ∷ 0 ∷ 0 ∷ [] } ∷ [];
  next_graph = 2;
  metadata =
      record { embedding_id = 1; item_id = item; region_id = none; metadata_json = none } ∷ [];
}

abbrev row : Entry
row = record { item_id = item; region_id = none; blob = 3 ∷ 0 ∷ 0 ∷ 0 ∷ 4 ∷ 0 ∷ 0 ∷ 0 ∷ [] }

search_sound_example :
    (hits : List (EmbeddingHit ℕ)) × (search first_component greater
        (1 ∷ 1 ∷ [])
        10
        (some (5 ∷ []))
        one_item
      ≡ ok hits)
    × (length hits ≤ 10)
    × IsSortedBy (λ a b. greater b.score a.score ≡ false) hits
    × All
        (λ h.
          (e : Entry) × (e ∈ view one_item)
          × IsHit first_component 2 (1 ∷ 1 ∷ []) (some (5 ∷ [])) e h)
        hits
search_sound_example =
    search_sound first_component greater greater_asym greater_trans (1 ∷ 1 ∷ []) 10 (some (5 ∷ []))
      one_item refl refl

abbrev best : EmbeddingHit ℕ
best = record { item_id = item; region_id = none; score = 3 }

search_complete_example :
    (best ∈ (best ∷ []))
    ⊎ ((length (best ∷ []) ≡ 10) × All (λ r. greater best.score r.score ≡ false) (best ∷ []))
unfolding search join_rows entries_of hit_of bytes_to_f32s is_allowed capture_id_for_item
search_complete_example =
    search_complete first_component greater greater_asym greater_trans (1 ∷ 1 ∷ []) 10
      (some (5 ∷ [])) one_item (best ∷ []) row best refl refl refl (inl refl)
      ((5, refl, inl refl), refl, refl)
