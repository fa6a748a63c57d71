-- ===== src/Api/Search/Request.antt =====
-- The request of a search, and what a search is given.
use pre_call.Prelude.{
  ℕ, Text, codes, Bool, ◌||◌, List, [], ◌∷◌, Option, none, some, bytes_eq, if◌then◌else◌, trim,
  strip_prefix,
}
use pre_call.Prelude.Int.{ℤ}
use pre_call.Store.Semantic.{SemanticIndex}
use pre_call.Store.Ukg.Tables.{Ukg, TextIndexRow}
use pre_call.Store.Ukg.Hits.{SearchHit}
use pre_call.Api.Embed.{EmbedOutcome}
use pre_call.Api.Enrich.Texts.{is_empty_text}
use pre_call.Api.Search.Rank.{Fusion}

pub record SearchBody : Type 0 where
  pub query : Text
  pub start : Option ℤ
  pub end : Option ℤ
  pub app_filter : List Text
  pub limit : Option ℤ
  pub mode : Option Text
  pub image : Option Text

-- What a search is given: the stores of the client, the embedder, SQLite's full-text search, the
-- base64 decoder, the arithmetic of the scores, and the order in which the map of the hits is run
-- through.
pub record SearchEnv (Sim Score : Type 0) : Type 0 where
  pub db : Ukg
  pub texts : SemanticIndex
  pub images : SemanticIndex
  pub dim : ℕ
  pub embed_text : Text → EmbedOutcome
  pub embed_image : List ℕ → EmbedOutcome
  pub embed_image_text : Text → EmbedOutcome
  pub fts_match : Text → TextIndexRow → Option (Text × Score)
  pub lower : Score → Score → Bool
  pub negate : Score → Score
  pub decode_base64 : Text → Option (List ℕ)
  pub cosine : List ℕ → List ℕ → Sim
  pub greater_sim : Sim → Sim → Bool
  pub is_positive : Sim → Bool
  pub f64 : Fusion Score
  pub arrange : List (SearchHit Score) → List (SearchHit Score)

-- `rest.split_once("base64,")`, the part behind it.
unfoldable pub after_base64 : Text → Option Text
unfolding strip_prefix
after_base64 [] = none
after_base64 (c ∷ cs) =
    let later = after_base64 cs in
    elim (strip_prefix (codes "base64,") (c ∷ cs)) [ some rest ↦ some rest | none ↦ later ]

-- Plain base64, or what follows in a data URL.
unfoldable pub base64_part : Text → Option Text
unfolding strip_prefix after_base64
base64_part s = elim (strip_prefix (codes "data:") s) [
  | some rest ↦ after_base64 rest
  | none ↦ some s
]

-- `map(str::trim).filter(|s| !s.is_empty())`
unfoldable pub image_query : Option Text → Option Text
unfolding trim is_empty_text
image_query none = none
image_query (some s) = if is_empty_text (trim s) then none else some (trim s)

unfoldable pub mode_of : Option Text → Text
mode_of none = codes "hybrid"
mode_of (some m) = m

abbrev pub one_of : Text → Text → Text → Bool
one_of a b mode = bytes_eq mode a || bytes_eq mode b
