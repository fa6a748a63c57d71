-- ===== src/Api/Search.antt =====
-- crates/precall-api/src/routes.rs: `search`. An error and a note are their kinds, without their
-- text.
pub mod Rank
pub mod Request
pub mod Handler
pub mod Sums
pub mod Sound
pub mod Filtered
pub mod Results
use pre_call.Prelude.{
  ℕ, ◌+◌, ◌*◌, Text, codes, Bool, true, false, not, ◌||◌, ◌&&◌, List, [], ◌∷◌, ◌++◌, Option, none,
  some, Result, ok, err, ◌>>=◌, any, map, filter, take, length, bytes_eq, ◌==◌, ltb, if◌then◌else◌,
  trim,
}
use pre_call.Prelude.Int.{ℤ, pos, negsuc, ltb_ℤ, leb_ℤ}
use pre_call.Store.Sql.{order_rows}
use pre_call.Store.Semantic.{SemanticIndex, SemanticError, capture_id_for_item}
use pre_call.Store.Semantic.Search.{EmbeddingHit}
use pre_call.Store.Semantic.Search
use pre_call.Store.Ukg.Tables.{Ukg}
use pre_call.Store.Ukg.Timeline.{capture_ids_matching_filters}
use pre_call.Store.Ukg.Hits.{SearchHit, captures_by_ids}
use pre_call.Api.Embed.{EmbedOutcome, embedded, disabled, rejected, retry}
use pre_call.Api.Enrich.{space_mismatch}

pub data ApiError : Type 0 where
  bad_request not_found unavailable : ApiError
  semantic_error : SemanticError → ApiError

pub data Leg : Type 0 where
  fts text_semantic image_semantic image_text : Leg

pub data Note : Type 0 where
  -- the length of the embedding
  wrong_width : Leg → ℕ → Note
  other_space no_embedder no_answer : Leg → Note

-- FUSION_POOL_FACTOR: each leg offers four times the final count, at most 500; the lower bound of
-- `clamp` never binds.
unfoldable pub fusion_pool : ℕ → ℕ
fusion_pool limit = if ltb 500 (limit * 4) then 500 else limit * 4

-- `limit.unwrap_or(20).clamp(1, 200)`
unfoldable pub search_limit : Option ℤ → ℕ
search_limit none = 20
search_limit (some (negsuc n)) = 1
search_limit (some (pos n)) = if n == 0 then 1 else if ltb 200 n then 200 else n

-- The variables of the handler.
pub record SearchState (Score : Type 0) : Type 0 where
  pub hits : List (SearchHit Score)
  pub leg_ranks : List (List ℕ)
  pub fts_ids : List ℕ
  pub legs : List Leg
  pub notes : List Note

unfoldable pub has_hit : {Score : Type 0} → ℕ → List (SearchHit Score) → Bool
has_hit id hits = any (λ h. h.window_capture_id == id) hits

-- `hits.entry(id).or_insert`
unfoldable pub insert_if_absent :
    {Score : Type 0} → SearchHit Score → List (SearchHit Score) → List (SearchHit Score)
unfolding has_hit
insert_if_absent h hits = if has_hit h.window_capture_id hits then hits else hits ++ (h ∷ [])

-- `hits.insert`
unfoldable pub put_hit :
    {Score : Type 0} → SearchHit Score → List (SearchHit Score) → List (SearchHit Score)
put_hit h [] = h ∷ []
put_hit h (x ∷ xs) =
    let rest = put_hit h xs in
    if x.window_capture_id == h.window_capture_id then h ∷ xs else x ∷ rest

unfoldable pub put_hits :
    {Score : Type 0} → List (SearchHit Score) → List (SearchHit Score) → List (SearchHit Score)
unfolding put_hit
put_hits [] hits = hits
put_hits (h ∷ hs) hits = put_hits hs (put_hit h hits)

unfoldable pub push_once : Option ℕ → List ℕ → List ℕ
push_once none ids = ids
push_once (some id) ids = if any (λ i. i == id) ids then ids else ids ++ (id ∷ [])

module _ {Score : Type 0} (is_positive : Score → Bool) where
  -- The loop of `semantic_candidates`.
  unfoldable pub candidate_ids : List (EmbeddingHit Score) → List ℕ → List ℕ
  unfolding push_once capture_id_for_item
  candidate_ids [] ids = ids
  candidate_ids (h ∷ hs) ids =
      let next = push_once (capture_id_for_item h.item_id) ids in
      candidate_ids hs (if is_positive h.score then next else ids)

-- `meta.get(id)`
unfoldable pub hit_for : {Score : Type 0} → ℕ → List (SearchHit Score) → Option (SearchHit Score)
hit_for id [] = none
hit_for id (h ∷ hs) = let rest = hit_for id hs in if h.window_capture_id == id then some h else rest

unfoldable pub add_hit :
    {Score : Type 0} → Option (SearchHit Score) → List (SearchHit Score) → List (SearchHit Score)
unfolding insert_if_absent
add_hit none hits = hits
add_hit (some h) hits = insert_if_absent h hits

unfoldable pub add_hits :
    {Score : Type 0}
    → List ℕ
    → List (SearchHit Score)
    → List (SearchHit Score)
    → List (SearchHit Score)
unfolding add_hit hit_for
add_hits [] meta hits = hits
add_hits (id ∷ ids) meta hits = add_hits ids meta (add_hit (hit_for id meta) hits)

unfoldable pub note : {Score : Type 0} → Note → SearchState Score → SearchState Score
note n s = record s { notes = s.notes ++ (n ∷ []) }

unfoldable pub is_known_mode : Text → Bool
is_known_mode mode =
    bytes_eq mode (codes "hybrid")
    || (bytes_eq mode (codes "fts")
        || (bytes_eq mode (codes "semantic") || bytes_eq mode (codes "image")))

abbrev pub is_nothing : {A : Type 0} → Option A → Bool
is_nothing none = true
is_nothing (some x) = false

-- The checks of a request: its mode, whether it has a query, and its image.
unfoldable pub validate : {A : Type 0} → Text → Bool → Option A → Option ApiError
unfolding is_known_mode
validate mode has_query image =
    if not has_query && is_nothing image
    then some bad_request
    else if not (is_known_mode mode)
    then some bad_request
    else if bytes_eq mode (codes "image") && is_nothing image
    then some bad_request
    else if bytes_eq mode (codes "fts") && not (is_nothing image)
    then some bad_request
    else none
