-- ===== src/Store/Semantic.antt =====
-- crates/precall-store/src/semantic.rs: the store of embeddings. An f32 is its 32 bits. Capture
-- ids are the i64 from 0 on.
pub mod Items
pub mod Search
pub mod View
pub mod Refine
pub mod Nearest
pub mod Best
use pre_call.Prelude.{
  codes, ℕ, suc, zero, ◌+◌, ◌*◌, ◌/◌, ◌%◌, Text, Bool, true, false, not, ◌||◌, List, [], ◌∷◌, ◌++◌,
  Option, none, some, Result, ok, err, any, ◌==◌, bytes_eq, length, take, drop, if◌then◌else◌,
}
use pre_call.Proto.Bytes.{put_u32_le, get_u32_le}

pub data SemanticError : Type 0 where
  -- expected, got
  dim_mismatch : ℕ → ℕ → SemanticError
  bad_item_id : SemanticError

-- A row of "si_diskann_graph".
pub record GraphRow : Type 0 where
  pub id : ℕ
  pub embedding : List ℕ

-- A row of "si_embedding_metadata".
pub record MetadataRow : Type 0 where
  pub embedding_id : ℕ
  pub item_id : List ℕ
  pub region_id : Option Text
  pub metadata_json : Option Text

pub record SemanticIndex : Type 0 where
  pub items : List (List ℕ)
  pub graph : List GraphRow
  pub next_graph : ℕ
  pub metadata : List MetadataRow
  pub dim : ℕ
  -- "vector_space_id" of the row of "si_diskann_info", if it is there
  pub space : Option Text

-- SPACE_UNKNOWN
abbrev pub space_unknown : Text
space_unknown = codes "unknown"

unfoldable pub ensure_info : Text → SemanticIndex → SemanticIndex
ensure_info space_id self = elim self.space [
  | none ↦ record self { space = some space_id }
  | some _ ↦ self
]

-- A store that is opened and was not there.
unfoldable pub open_new : ℕ → Text → SemanticIndex
unfolding ensure_info
open_new dim space_id =
    ensure_info space_id
      (record { items = []; graph = []; next_graph = 1; metadata = []; dim = dim; space = none })

unfoldable pub space_id : SemanticIndex → Option Text
space_id self = self.space

-- The first UPDATE finds no row exactly if there is no space.
unfoldable pub set_space_id : Text → SemanticIndex → SemanticIndex
unfolding ensure_info
set_space_id id self = elim self.space [
  | none ↦ record (ensure_info id self) { space = some id }
  | some _ ↦ record self { space = some id }
]

unfoldable pub count : SemanticIndex → ℕ
count self = length self.graph

-- `to_le_bytes` and `from_le_bytes`.
unfoldable pub le_bytes : ℕ → ℕ → List ℕ
le_bytes zero n = []
le_bytes (suc w) n = n % 256 ∷ le_bytes w (n / 256)

unfoldable pub of_le_bytes : List ℕ → ℕ
of_le_bytes [] = 0
of_le_bytes (b ∷ bs) = b + 256 * of_le_bytes bs

abbrev pub no_bytes : List ℕ
no_bytes = 0 ∷ 0 ∷ 0 ∷ 0 ∷ 0 ∷ 0 ∷ 0 ∷ 0 ∷ []

unfoldable pub item_id_for_capture : ℕ → List ℕ
unfolding le_bytes
item_id_for_capture capture_id = no_bytes ++ le_bytes 8 capture_id

unfoldable pub capture_id_for_item : List ℕ → Option ℕ
unfolding of_le_bytes
capture_id_for_item item_id =
    if not (length item_id == 16) || any (λ b. not (b == 0)) (take 8 item_id)
    then none
    else some (of_le_bytes (drop 8 item_id))

unfoldable pub f32s_to_bytes : List ℕ → List ℕ
f32s_to_bytes [] = []
f32s_to_bytes (x ∷ xs) = put_u32_le x ++ f32s_to_bytes xs

unfoldable pub bytes_to_f32s : List ℕ → List ℕ
bytes_to_f32s (a ∷ b ∷ c ∷ d ∷ rest) = get_u32_le a b c d ∷ bytes_to_f32s rest
bytes_to_f32s _ = []

-- INSERT OR IGNORE INTO "si_items"
unfoldable pub add_item : List ℕ → List (List ℕ) → List (List ℕ)
add_item item_id items = if any (bytes_eq item_id) items then items else items ++ (item_id ∷ [])

-- The three statements of the transaction.
unfoldable pub inserted :
    List ℕ → Option Text → Option Text → List ℕ → SemanticIndex → SemanticIndex
unfolding add_item f32s_to_bytes
inserted item_id region_id metadata_json embedding self = record self {
  items = add_item item_id self.items;
  graph = self.graph ++ (record { id = self.next_graph; embedding = f32s_to_bytes embedding } ∷ []);
  next_graph = suc self.next_graph;
  metadata =
      self.metadata
      ++ (record {
        embedding_id = self.next_graph;
        item_id = item_id;
        region_id = region_id;
        metadata_json = metadata_json;
      }
          ∷ []);
}

unfoldable pub insert :
    List ℕ
    → Option Text
    → Option Text
    → List ℕ
    → SemanticIndex
    → Result SemanticError (ℕ × SemanticIndex)
unfolding inserted
insert item_id region_id metadata_json embedding self =
    if not (length embedding == self.dim)
    then err (dim_mismatch self.dim (length embedding))
    else if not (length item_id == 16)
    then err bad_item_id
    else ok (self.next_graph, inserted item_id region_id metadata_json embedding self)

unfoldable pub clear : SemanticIndex → SemanticIndex
clear self = record self { items = []; graph = []; metadata = [] }

unfoldable pub is_linked : List ℕ → SemanticIndex → MetadataRow → Bool
is_linked item_id self m =
    if bytes_eq m.item_id item_id then any (λ g. g.id == m.embedding_id) self.graph else false

unfoldable pub has_item : List ℕ → SemanticIndex → Result SemanticError Bool
unfolding is_linked
has_item item_id self =
    if not (length item_id == 16)
    then err bad_item_id
    else ok (
        if any (bytes_eq item_id) self.items
        then any (is_linked item_id self) self.metadata
        else false)
