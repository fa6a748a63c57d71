-- ===== src/Api/Enrich/Pass.antt =====
-- `enrich_client` and `enrich_once`.
use pre_call.Prelude.{
  ℕ, ◌+◌, Text, codes, Bool, true, false, not, ◌||◌, ◌&&◌, List, [], ◌∷◌, Option, none, some,
  Result, ok, err, ◌>>=◌, if◌then◌else◌,
}
use pre_call.Prelude.Int.{pos}
use pre_call.Store.Ukg.Tables.{CaptureRow, skipped, if_null}
use pre_call.Store.Ukg.Rows.{set_config}
use pre_call.Store.Ukg.Queues.{
  touch_enrich_attempt, captures_needing_image_embedding, captures_pending_enrichment,
  mark_processed, mark_all_unprocessed, reset_image_embedding_states,
}
use pre_call.Api.Enrich.{
  EnrichState, EnrichEnv, EnrichStats, no_stats, absorb, ImageLeg, image_done, image_terminal,
  image_retry, image_unavailable, note_state, write_ukg, flag_set, text_unavailable,
  image_unavailable_key, batch, retry_backoff_ticks,
}
use pre_call.Api.Enrich.Image.{image_leg, rebuilt_images, labelled_images, count_skipped}
use pre_call.Api.Enrich.Texts.{text_leg, rebuilt_texts, labelled_texts}

-- A flag that is set is taken back, and what it held up is queued again.
unfoldable pub requeue_texts : EnrichState → EnrichState
unfolding flag_set set_config mark_all_unprocessed
requeue_texts s =
    if flag_set text_unavailable s.ukg
    then record s { ukg = mark_all_unprocessed (set_config text_unavailable (codes "0") s.ukg) }
    else s

unfoldable pub requeue_images : EnrichState → EnrichState
unfolding flag_set set_config reset_image_embedding_states
requeue_images s =
    if flag_set image_unavailable_key s.ukg
    then record s {
      ukg = reset_image_embedding_states (set_config image_unavailable_key (codes "0") s.ukg);
    }
    else s

-- What is done before the queues are read.
unfoldable pub adopt_spaces : Option (Text × Text) → EnrichState → EnrichState
unfolding rebuilt_texts labelled_texts rebuilt_images labelled_images requeue_texts requeue_images
adopt_spaces none s = s
adopt_spaces (some (text_space, image_space)) s = requeue_images (
    requeue_texts (
      labelled_images image_space
        (rebuilt_images image_space (labelled_texts text_space (rebuilt_texts text_space s)))))

-- Does the leg stop the queue?
unfoldable pub stops : ImageLeg → Bool
stops image_unavailable = true
stops _ = false

-- Is the leg to be retried?
unfoldable pub retries : ImageLeg → Bool
retries image_retry = true
retries _ = false

unfoldable pub count_backfilled : ImageLeg → EnrichState → EnrichState
count_backfilled image_done s = record s {
  stats = record s.stats { backfilled = s.stats.backfilled + 1 };
}
count_backfilled _ s = s

-- Only a capture with nothing left to retry leaves the queue.
unfoldable pub finish_one : ℕ → Bool → ImageLeg → EnrichState → EnrichState
unfolding retries mark_processed
finish_one id text_retry leg s =
    if not text_retry && not (retries leg) then record s { ukg = mark_processed id s.ukg } else s

module _ (env : EnrichEnv) where
  -- The WHERE of the queue has seen to it that there is a token.
  unfoldable pub backfill_one :
      CaptureRow → EnrichState → Result EnrichState (ImageLeg × EnrichState)
  unfolding touch_enrich_attempt write_ukg image_leg count_backfilled
  backfill_one w s = do
    s' ← write_ukg (touch_enrich_attempt w.id env.now s.ukg) s
    (leg, s'') ← image_leg env w.id (some w.time_stamp) (if_null w.image_token) s'
    ok (leg, count_backfilled leg s'')

  -- `stop_images`, and the stores.
  unfoldable pub backfill_loop :
      List CaptureRow → EnrichState → Result EnrichState (Bool × EnrichState)
  unfolding backfill_one stops
  backfill_loop [] s = ok (false, s)
  backfill_loop (w ∷ ws) s = do
    (leg, s') ← backfill_one w s
    if stops leg then ok (true, s') else backfill_loop ws s'

  unfoldable pub fresh_image :
      Bool → CaptureRow → EnrichState → Result EnrichState (ImageLeg × EnrichState)
  unfolding image_leg note_state count_skipped
  fresh_image true w s = ok (image_unavailable, s)
  fresh_image false w s = elim w.image_token [
    | some token ↦ image_leg env w.id (some w.time_stamp) token s
    | none ↦ do
      s' ← note_state w.id skipped (pos 1) (some (codes "no image token")) env.now s
      ok (image_terminal, count_skipped s')
  ]

  unfoldable pub fresh_one :
      Bool → CaptureRow → EnrichState → Result EnrichState (ImageLeg × EnrichState)
  unfolding touch_enrich_attempt write_ukg text_leg fresh_image finish_one
  fresh_one stop_images w s = do
    s' ← write_ukg (touch_enrich_attempt w.id env.now s.ukg) s
    (text_retry, s'') ← text_leg env w.id s'
    (leg, s''') ← fresh_image stop_images w s''
    ok (leg, finish_one w.id text_retry leg s''')

  unfoldable pub fresh_loop : List CaptureRow → Bool → EnrichState → Result EnrichState EnrichState
  unfolding fresh_one stops
  fresh_loop [] stop_images s = ok s
  fresh_loop (w ∷ ws) stop_images s = do
    (leg, s') ← fresh_one stop_images w s
    fresh_loop ws (stop_images || stops leg) s'

  unfoldable pub both_loops :
      List CaptureRow → List CaptureRow → EnrichState → Result EnrichState EnrichState
  unfolding backfill_loop fresh_loop
  both_loops backfill fresh s = do
    (stop_images, s') ← backfill_loop backfill s
    fresh_loop fresh stop_images s'

  -- The counters start at zero. With both queues empty the two loops do nothing.
  unfoldable pub enrich_client : Option (Text × Text) → EnrichState → Result EnrichState EnrichState
  unfolding adopt_spaces captures_needing_image_embedding captures_pending_enrichment both_loops
  enrich_client spaces s =
      let ready = adopt_spaces spaces (record s { stats = no_stats }) in
      both_loops (captures_needing_image_embedding batch env.now retry_backoff_ticks ready.ukg)
        (captures_pending_enrichment batch env.now retry_backoff_ticks ready.ukg) ready

-- The counters of a client whose pass failed are lost.
unfoldable pub stores_after : Result EnrichState EnrichState → EnrichState
stores_after (ok s) = s
stores_after (err s) = s

unfoldable pub stats_after : Result EnrichState EnrichState → EnrichStats
stats_after (ok s) = s.stats
stats_after (err s) = no_stats

-- The clients of one pass in the order of the directory.
unfoldable pub enrich_once :
    Option (Text × Text)
    → EnrichStats
    → List (EnrichEnv × EnrichState)
    → EnrichStats × List EnrichState
unfolding enrich_client stores_after stats_after absorb
enrich_once spaces stats [] = (stats, [])
enrich_once spaces stats ((env, s) ∷ rest) =
    let done = enrich_client env spaces s in
    let (total, stores) = enrich_once spaces (absorb stats (stats_after done)) rest in
    (total, stores_after done ∷ stores)
