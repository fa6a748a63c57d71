-- ===== src/Api/Search/Handler.antt =====
-- The legs of a search and the handler.
use pre_call.Prelude.{
  ℕ, Text, codes, Bool, true, false, not, ◌&&◌, List, [], ◌∷◌, ◌++◌, Option, none, some, Result, ok,
  err, ◌>>=◌, map, take, length, any, ◌==◌, if◌then◌else◌, trim,
}
use pre_call.Prelude.Int.{pos, leb_ℤ}
use pre_call.Store.Sql.{order_rows}
use pre_call.Store.Semantic.{SemanticIndex, SemanticError}
use pre_call.Store.Semantic.Search.{EmbeddingHit}
use pre_call.Store.Semantic.Search
use pre_call.Store.Ukg.Timeline.{capture_ids_matching_filters}
use pre_call.Store.Ukg.Hits.{SearchHit, captures_by_ids, search_fts, fts_escape}
use pre_call.Api.Embed.{EmbedOutcome, embedded, disabled, rejected, retry}
use pre_call.Api.Enrich.{space_mismatch}
use pre_call.Api.Enrich.Texts.{is_empty_text}
use pre_call.Api.Search.Rank.{Fused, reciprocal_rank_fusion, fused_score}
use pre_call.Api.Search.{
  ApiError, bad_request, unavailable, semantic_error, Leg, fts, text_semantic, image_semantic,
  image_text, wrong_width, other_space, no_embedder, no_answer, fusion_pool, search_limit,
  SearchState, put_hits, candidate_ids, add_hits, note, validate,
}
use pre_call.Api.Search.Request.{SearchBody, SearchEnv, base64_part, image_query, mode_of, one_of}

module _ {Sim Score : Type 0} (env : SearchEnv Sim Score) where
  unfoldable pub decoded : Option Text → Result ApiError (List ℕ)
  unfolding trim
  decoded none = err bad_request
  decoded (some b64) = elim (env.decode_base64 (trim b64)) [
    | some raw ↦ ok raw
    | none ↦ err bad_request
  ]

  unfoldable pub decode_image_query : Text → Result ApiError (List ℕ)
  unfolding decoded base64_part trim
  decode_image_query s = decoded (base64_part (trim s))

  unfoldable pub absorb_semantic_leg :
      Leg → List (EmbeddingHit Sim) → SearchState Score → SearchState Score
  unfolding candidate_ids captures_by_ids add_hits
  absorb_semantic_leg leg found s =
      let ids = candidate_ids env.is_positive found [] in
      record s {
        hits = add_hits ids (captures_by_ids env.f64.nothing ids env.db) s.hits;
        leg_ranks = s.leg_ranks ++ (ids ∷ []);
        legs = s.legs ++ (leg ∷ []);
      }

  unfoldable pub absorb_found :
      Leg
      → Result SemanticError (List (EmbeddingHit Sim))
      → SearchState Score
      → Result ApiError (SearchState Score)
  unfolding absorb_semantic_leg
  absorb_found leg (ok found) s = ok (absorb_semantic_leg leg found s)
  absorb_found leg (err e) s = err (semantic_error e)

  unfoldable pub search_index :
      Leg
      → SemanticIndex
      → List ℕ
      → ℕ
      → Option (List ℕ)
      → SearchState Score
      → Result ApiError (SearchState Score)
  unfolding absorb_found Search.search
  search_index leg idx embedding pool allowed s =
      absorb_found leg (Search.search env.cosine env.greater_sim embedding pool allowed idx) s

  -- The leg of a text query, in the text space or in the image space.
  unfoldable pub text_query_leg :
      Leg
      → SemanticIndex
      → ℕ
      → Option (List ℕ)
      → EmbedOutcome
      → SearchState Score
      → Result ApiError (SearchState Score)
  unfolding note space_mismatch search_index
  text_query_leg leg idx pool allowed (embedded embedding space) s =
      if space_mismatch idx space
      then ok (note (other_space leg) s)
      else if not (length embedding == env.dim)
      then ok (note (wrong_width leg (length embedding)) s)
      else search_index leg idx embedding pool allowed s
  text_query_leg leg idx pool allowed disabled s = ok (note (no_embedder leg) s)
  text_query_leg leg idx pool allowed rejected s = ok (note (no_answer leg) s)
  text_query_leg leg idx pool allowed retry s = ok (note (no_answer leg) s)

  unfoldable pub image_query_leg :
      ℕ → Option (List ℕ) → EmbedOutcome → SearchState Score → Result ApiError (SearchState Score)
  unfolding note space_mismatch search_index
  image_query_leg pool allowed (embedded embedding space) s =
      if space_mismatch env.images space
      then ok (note (other_space image_semantic) s)
      else if not (length embedding == env.dim)
      then err unavailable
      else search_index image_semantic env.images embedding pool allowed s
  image_query_leg pool allowed disabled s = err bad_request
  image_query_leg pool allowed rejected s = err bad_request
  image_query_leg pool allowed retry s = err unavailable

  -- The bytes of the image are not empty.
  unfoldable pub embed_query_image :
      ℕ → Option (List ℕ) → List ℕ → SearchState Score → Result ApiError (SearchState Score)
  unfolding image_query_leg
  embed_query_image pool allowed [] s = err bad_request
  embed_query_image pool allowed (b ∷ bs) s =
      image_query_leg pool allowed (env.embed_image (b ∷ bs)) s

  unfoldable pub image_part :
      Option Text → ℕ → Option (List ℕ) → SearchState Score → Result ApiError (SearchState Score)
  unfolding decode_image_query embed_query_image
  image_part none pool allowed s = ok s
  image_part (some b64) pool allowed s = do
    raw ← decode_image_query b64
    embed_query_image pool allowed raw s

  unfoldable pub text_part :
      Bool
      → Leg
      → SemanticIndex
      → ℕ
      → Option (List ℕ)
      → EmbedOutcome
      → SearchState Score
      → Result ApiError (SearchState Score)
  unfolding text_query_leg
  text_part false leg idx pool allowed outcome s = ok s
  text_part true leg idx pool allowed outcome s = text_query_leg leg idx pool allowed outcome s

  unfoldable pub fts_part : Bool → SearchBody → ℕ → SearchState Score → SearchState Score
  unfolding search_fts fts_escape put_hits
  fts_part false body pool s = s
  fts_part true body pool s =
      let found =
        search_fts env.fts_match env.lower env.negate (fts_escape body.query) body.start body.end
          body.app_filter (some (pos pool)) env.db in
      let ids = map (λ (h : SearchHit Score). h.window_capture_id) found in
      record s {
        hits = put_hits found s.hits;
        leg_ranks = s.leg_ranks ++ (ids ∷ []);
        fts_ids = s.fts_ids ++ ids;
        legs = s.legs ++ (fts ∷ []);
      }

  -- The legs in their order.
  unfoldable pub all_legs :
      SearchBody
      → Text
      → Bool
      → Option Text
      → ℕ
      → SearchState Score
      → Result ApiError (SearchState Score)
  unfolding fts_part text_part image_part capture_ids_matching_filters
  all_legs body mode has_query image pool s =
      let allowed = capture_ids_matching_filters body.start body.end body.app_filter env.db in
      let lexical = one_of (codes "hybrid") (codes "fts") mode && has_query in
      let by_text = one_of (codes "hybrid") (codes "semantic") mode && has_query in
      do
        s' ←
            text_part by_text text_semantic env.texts pool allowed (env.embed_text body.query)
              (fts_part lexical body pool s)
        s'' ← image_part image pool allowed s'
        text_part by_text image_text env.images pool allowed (env.embed_image_text body.query) s''

  -- The hits that a leg has ranked, each with its fused score.
  unfoldable pub with_score :
      Option Score → SearchHit Score → List (SearchHit Score) → List (SearchHit Score)
  with_score none h rest = rest
  with_score (some x) h rest = record h { score = x } ∷ rest

  unfoldable pub scored : List (Fused Score) → List (SearchHit Score) → List (SearchHit Score)
  unfolding with_score fused_score
  scored fused [] = []
  scored fused (h ∷ hs) = with_score (fused_score h.window_capture_id fused) h (scored fused hs)

  -- The comparison of `sort_by`: the score, then the lexical leg, then the time.
  unfoldable pub comes_first : List ℕ → SearchHit Score → SearchHit Score → Bool
  comes_first fts_ids a b =
      let a_lexical = any (λ i. i == a.window_capture_id) fts_ids in
      let b_lexical = any (λ i. i == b.window_capture_id) fts_ids in
      if env.f64.greater a.score b.score
      then true
      else if env.f64.greater b.score a.score
      then false
      else if a_lexical && not b_lexical
      then true
      else if b_lexical && not a_lexical
      then false
      else leb_ℤ b.timestamp_100ns a.timestamp_100ns

  unfoldable pub finish : ℕ → SearchState Score → List (SearchHit Score)
  unfolding reciprocal_rank_fusion scored comes_first order_rows
  finish limit s = take limit (
      order_rows (comes_first s.fts_ids)
        (env.arrange (scored (reciprocal_rank_fusion env.f64 s.leg_ranks) s.hits)))

  abbrev pub no_hits : SearchState Score
  no_hits = record { hits = []; leg_ranks = []; fts_ids = []; legs = []; notes = [] }

  -- The legs that ran, the notes, and the results.
  unfoldable pub run_legs :
      Option ApiError
      → SearchBody
      → Text
      → Bool
      → Option Text
      → Result ApiError (List (SearchHit Score) × SearchState Score)
  unfolding all_legs finish fusion_pool search_limit
  run_legs (some e) body mode has_query image = err e
  run_legs none body mode has_query image = do
    s ← all_legs body mode has_query image (fusion_pool (search_limit body.limit)) no_hits
    ok (finish (search_limit body.limit) s, s)

  unfoldable pub search : SearchBody → Result ApiError (List (SearchHit Score) × SearchState Score)
  unfolding run_legs validate mode_of image_query trim is_empty_text
  search body =
      let mode = mode_of body.mode in
      let has_query = not (is_empty_text (trim body.query)) in
      let image = image_query body.image in
      run_legs (validate mode has_query image) body mode has_query image
