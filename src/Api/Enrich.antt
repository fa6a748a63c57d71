-- ===== src/Api/Enrich.antt =====
-- crates/precall-api/src/enrich.rs: what the legs of the enrichment share. A step that fails ends
-- the pass over its client, and what it has written stays: `err` holds the stores as they are
-- then.
pub mod Image
pub mod Texts
pub mod Pass
pub mod Outcomes
pub mod Records
pub mod Step
pub mod Leg
pub mod Spaces
pub mod Captures
pub mod Sound
pub mod TextSound
pub mod Returns
use pre_call.Prelude.{
  ℕ, ◌+◌, Text, codes, Bool, true, false, not, ◌&&◌, List, [], ◌∷◌, Option, none, some, Result, ok,
  err, bytes_eq, length, ◌==◌, if◌then◌else◌,
}
use pre_call.Prelude.Int.{ℤ, pos}
use pre_call.Store.Objects.{ObjectStore, ObjectKey, ObjectError}
use pre_call.Store.Ukg.Tables.{Ukg, EmbeddingState}
use pre_call.Store.Ukg.Rows.{set_config, get_config}
use pre_call.Store.Ukg.Queues.{set_image_embedding_state}
use pre_call.Store.Semantic.{
  SemanticIndex, SemanticError, space_id, set_space_id, insert, space_unknown,
}
use pre_call.Api.Embed.{EmbedOutcome}

-- The counters of one pass.
pub record EnrichStats : Type 0 where
  pub text_embeddings : ℕ
  pub image_embeddings : ℕ
  pub backfilled : ℕ
  pub images_skipped : ℕ
  pub images_pending : ℕ
  pub texts_pending : ℕ

abbrev pub no_stats : EnrichStats
no_stats = record {
  text_embeddings = 0;
  image_embeddings = 0;
  backfilled = 0;
  images_skipped = 0;
  images_pending = 0;
  texts_pending = 0;
}

unfoldable pub absorb : EnrichStats → EnrichStats → EnrichStats
absorb self other = record {
  text_embeddings = self.text_embeddings + other.text_embeddings;
  image_embeddings = self.image_embeddings + other.image_embeddings;
  backfilled = self.backfilled + other.backfilled;
  images_skipped = self.images_skipped + other.images_skipped;
  images_pending = self.images_pending + other.images_pending;
  texts_pending = self.texts_pending + other.texts_pending;
}

pub data ImageLeg : Type 0 where
  image_done image_terminal image_retry image_unavailable : ImageLeg

pub data ImageStep : Type 0 where
  -- jpeg, attempts
  embed_jpeg : List ℕ → ℤ → ImageStep
  settled : ImageLeg → ImageStep

-- The stores of one client during a pass, and its counters.
pub record EnrichState : Type 0 where
  pub ukg : Ukg
  pub texts : SemanticIndex
  pub images : SemanticIndex
  pub stats : EnrichStats

-- What a pass over one client is given. The answers of the embedder and the clock are functions
-- of the capture that they are asked for; `is_under` and `describe` are `Path::starts_with` and
-- the text of an error.
pub record EnrichEnv : Type 0 where
  pub client : Text
  pub dim : ℕ
  pub objects : ObjectStore
  pub now : ℤ
  pub step_clock : ℕ → ℤ
  pub record_clock : ℕ → ℤ
  pub embed_text : ℕ → Text → EmbedOutcome
  pub embed_image : ℕ → List ℕ → EmbedOutcome
  pub topics : ℕ → Text → List (Text × Text)
  pub is_alphanumeric : ℕ → Bool
  pub encrypt : List ℕ → List ℕ → List ℕ → List ℕ → List ℕ
  pub decrypt : List ℕ → List ℕ → List ℕ → List ℕ → Option (List ℕ)
  pub is_under : Text → Text → Bool
  pub describe : ObjectError → Text

-- BATCH
abbrev pub batch : ℤ
batch = pos 64

-- RETRY_BACKOFF_TICKS
abbrev pub retry_backoff_ticks : ℤ
retry_backoff_ticks = pos 600000000

abbrev pub text_unavailable : Text
text_unavailable = codes "enrich.text_unavailable"

abbrev pub image_unavailable_key : Text
image_unavailable_key = codes "enrich.image_unavailable"

abbrev pub is_one : Option Text → Bool
is_one none = false
is_one (some v) = bytes_eq v (codes "1")

unfoldable pub flag_set : Text → Ukg → Bool
unfolding get_config
flag_set key db = is_one (get_config key db)

unfoldable pub usable : List ℕ → ℕ → Bool
usable vec dim = length vec == dim

-- A space other than `space` and other than "unknown".
unfoldable pub is_foreign : Text → Option Text → Bool
is_foreign space none = false
is_foreign space (some stored) = not (bytes_eq stored space) && not (bytes_eq stored space_unknown)

unfoldable pub space_mismatch : SemanticIndex → Text → Bool
unfolding is_foreign space_id
space_mismatch idx space = is_foreign space (space_id idx)

-- A statement on the metadata database, which fails if the capture is not there.
unfoldable pub write_ukg : Option Ukg → EnrichState → Result EnrichState EnrichState
write_ukg none s = err s
write_ukg (some db) s = ok (record s { ukg = db })

unfoldable pub note_state :
    ℕ → EmbeddingState → ℤ → Option Text → ℤ → EnrichState → Result EnrichState EnrichState
unfolding write_ukg set_image_embedding_state
note_state id state attempts last_error now s =
    write_ukg (set_image_embedding_state id state attempts last_error now s.ukg) s
