-- ===== src/Api/Embed.antt =====
-- crates/precall-api/src/embed.rs. The HTTP client, the JSON parsers, SHA-256, `to_lowercase` and
-- the arithmetic of f32 are parameters; an f32 is its 32 bits and the literals are their IEEE 754
-- bits.
pub mod Local
pub mod Outcomes
use pre_call.Prelude.{
  ℕ, zero, suc, ◌+◌, ◌%◌, Text, codes, Bool, true, false, not, ◌||◌, ◌&&◌, List, [], ◌∷◌, ◌++◌,
  Option, none, some, map, ◌==◌, leb, ltb, take, drop, length, if◌then◌else◌,
}
use pre_call.Api.Embed.Local.{Float32, hash_embedding, hash_image, embed_dim}

abbrev pub local_text_space : Text
local_text_space = codes "hash:rust-text@384"

abbrev pub local_image_space : Text
local_image_space = codes "hash:rust-image@384"

pub data EmbedOutcome : Type 0 where
  -- embedding, space
  embedded : List ℕ → Text → EmbedOutcome
  disabled rejected retry : EmbedOutcome

-- 400 | 413 | 415 | 422
unfoldable pub is_input_refusal : ℕ → Bool
is_input_refusal status = status == 400 || (status == 413 || (status == 415 || status == 422))

-- `StatusCode::is_success`
unfoldable pub is_success : ℕ → Bool
is_success status = leb 200 status && ltb status 300

-- NOT_FOUND or NOT_IMPLEMENTED
unfoldable pub is_absent : ℕ → Bool
is_absent status = status == 404 || status == 501

pub record HttpResponse : Type 0 where
  pub status : ℕ
  pub body : List ℕ

-- What serde reads in a response: the embedding, and the space if it is named.
pub record EmbedBody : Type 0 where
  pub embedding : List ℕ
  pub space : Option Text

pub data Embedder : Type 0 where
  -- base
  http : Text → Embedder
  local_hash off : Embedder

-- `space.unwrap_or_else(|| format!("http:{base}"))`
unfoldable pub body_outcome : Text → Option EmbedBody → EmbedOutcome
body_outcome base none = retry
body_outcome base (some x) =
    embedded x.embedding (elim x.space [ none ↦ codes "http:" ++ base | some s ↦ s ])

module _ (read_body : List ℕ → Option EmbedBody) where
  -- The answer of `/embed/text` and `/embed/image`; no response is a transport error.
  unfoldable pub embed_answer : Text → Option HttpResponse → EmbedOutcome
  unfolding is_input_refusal is_success is_absent body_outcome
  embed_answer base none = retry
  embed_answer base (some r) =
      if is_input_refusal r.status
      then rejected
      else if not (is_success r.status)
      then (if is_absent r.status then disabled else retry)
      else body_outcome base (read_body r.body)

  -- The answer of `/embed/image-text`, which asks for the absent route first.
  unfoldable pub image_text_answer : Text → Option HttpResponse → EmbedOutcome
  unfolding is_input_refusal is_success is_absent body_outcome
  image_text_answer base none = retry
  image_text_answer base (some r) =
      if is_absent r.status
      then disabled
      else if is_input_refusal r.status
      then rejected
      else if not (is_success r.status)
      then retry
      else body_outcome base (read_body r.body)

-- The POST of the client: the URL, and the text or the image that its body is made from.
module _ (post : Text → List ℕ → Option HttpResponse) (read_body : List ℕ → Option EmbedBody)
    (sha256 lowercase : List ℕ → List ℕ) (f32 : Float32) where
  unfoldable pub embed_text : Embedder → Text → EmbedOutcome
  unfolding embed_answer hash_embedding
  embed_text (http base) text =
      embed_answer read_body base (post (base ++ codes "/embed/text") text)
  embed_text local_hash text =
      embedded (hash_embedding sha256 lowercase f32 text embed_dim) local_text_space
  embed_text off text = disabled

  unfoldable pub embed_image : Embedder → List ℕ → EmbedOutcome
  unfolding embed_answer hash_image
  embed_image (http base) jpeg =
      embed_answer read_body base (post (base ++ codes "/embed/image") jpeg)
  embed_image local_hash jpeg = embedded (hash_image sha256 f32 jpeg) local_image_space
  embed_image off jpeg = disabled

  unfoldable pub embed_image_text : Embedder → Text → EmbedOutcome
  unfolding image_text_answer
  embed_image_text (http base) text =
      image_text_answer read_body base (post (base ++ codes "/embed/image-text") text)
  embed_image_text local_hash text = disabled
  embed_image_text off text = disabled

-- What serde reads in the answer of `/health`: the two spaces, each if it is named.
unfoldable pub health_spaces : Option (Option Text × Option Text) → Option (Text × Text)
health_spaces none = none
health_spaces (some (some t, some i)) = some (t, i)
health_spaces (some (some t, none)) = none
health_spaces (some (none, i)) = none

module _ (fetch : Text → Option HttpResponse)
    (read_health : List ℕ → Option (Option Text × Option Text)) where
  health_of : Option HttpResponse → Option (Text × Text)
  unfolding is_success health_spaces
  health_of none = none
  health_of (some r) =
      if not (is_success r.status) then none else health_spaces (read_health r.body)

  unfoldable pub spaces : Embedder → Option (Text × Text)
  unfolding health_of
  spaces (http base) = health_of (fetch (base ++ codes "/health"))
  spaces local_hash = some (local_text_space, local_image_space)
  spaces off = none

module _ (post : Text → List ℕ → Option HttpResponse)
    (read_topics : List ℕ → Option (List (Text × Text))) where
  topics_of : Option HttpResponse → List (Text × Text)
  unfolding is_success
  topics_of none = []
  topics_of (some r) =
      if is_success r.status then elim (read_topics r.body) [ none ↦ [] | some ts ↦ ts ] else []

  -- Labels with their scores; a score is only stored: its text.
  unfoldable pub topics : Embedder → Text → List (Text × Text)
  unfolding topics_of
  topics (http base) text = topics_of (post (base ++ codes "/topics") text)
  topics local_hash text = []
  topics off text = []
