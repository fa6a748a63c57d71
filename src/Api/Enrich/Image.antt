-- ===== src/Api/Enrich/Image.antt =====
-- The image leg: `image_step` and `image_record`.
use pre_call.Prelude.{
  ℕ, ◌+◌, Text, codes, Bool, true, false, not, List, Option, none, some, Result, ok, err, ◌>>=◌,
  if◌then◌else◌,
}
use pre_call.Prelude.Int.{ℤ, pos, ◌+ℤ◌}
use pre_call.Store.Objects.{
  ObjectKey, ObjectError, io, not_found, crypto, key_path, ymd_from_filetime, exists, get,
}
use pre_call.Store.Ukg.Tables.{EmbeddingState, pending, done, skipped}
use pre_call.Store.Ukg.Rows.{set_config}
use pre_call.Store.Ukg.Queues.{image_embedding_state, reset_image_embedding_states}
use pre_call.Store.Semantic.{
  SemanticIndex, SemanticError, item_id_for_capture, has_item, insert, clear, set_space_id,
}
use pre_call.Api.Embed.{EmbedOutcome, embedded, disabled, rejected, retry}
use pre_call.Api.Enrich.{
  EnrichState, EnrichEnv, ImageLeg, image_done, image_terminal, image_retry, image_unavailable,
  ImageStep, embed_jpeg, settled, note_state, usable, space_mismatch, image_unavailable_key,
}

abbrev Prior : Type 0
Prior = Option (EmbeddingState × ℤ × Option Text)

unfoldable pub attempts_of : Prior → ℤ
attempts_of none = pos 0
attempts_of (some (state, attempts, last_error)) = attempts

unfoldable pub was_done : Prior → Bool
was_done none = false
was_done (some (state, attempts, last_error)) = elim state [ done ↦ true | _ ↦ false ]

unfoldable pub was_skipped : Prior → Bool
was_skipped none = false
was_skipped (some (state, attempts, last_error)) = elim state [ skipped ↦ true | _ ↦ false ]

unfoldable pub count_skipped : EnrichState → EnrichState
count_skipped s = record s {
  stats = record s.stats { images_skipped = s.stats.images_skipped + 1 };
}

unfoldable pub count_pending : EnrichState → EnrichState
count_pending s = record s {
  stats = record s.stats { images_pending = s.stats.images_pending + 1 };
}

-- "skipped" with the reason: given up for good.
unfoldable pub give_up :
    ℕ → ℤ → Text → ℤ → EnrichState → Result EnrichState (ImageLeg × EnrichState)
unfolding note_state count_skipped
give_up id attempts why now s = do
  s' ← note_state id skipped (attempts +ℤ pos 1) (some why) now s
  ok (image_terminal, count_skipped s')

-- "pending" with the reason: to be tried again.
unfoldable pub put_off :
    ℕ → ℤ → Text → ℤ → EnrichState → Result EnrichState (ImageLeg × EnrichState)
unfolding note_state count_pending
put_off id attempts why now s = do
  s' ← note_state id pending (attempts +ℤ pos 1) (some why) now s
  ok (image_retry, count_pending s')

unfoldable pub settle :
    Result EnrichState (ImageLeg × EnrichState) → Result EnrichState (ImageStep × EnrichState)
settle (ok (leg, s)) = ok (settled leg, s)
settle (err s) = err s

-- The rows of another space go, and with them the recorded states.
unfoldable pub rebuilt_images : Text → EnrichState → EnrichState
unfolding space_mismatch clear reset_image_embedding_states
rebuilt_images space s =
    if space_mismatch s.images space
    then record s { images = clear s.images; ukg = reset_image_embedding_states s.ukg }
    else s

unfoldable pub labelled_images : Text → EnrichState → EnrichState
unfolding set_space_id
labelled_images space s = record s { images = set_space_id space s.images }

unfoldable pub insert_image :
    Result SemanticError (ℕ × SemanticIndex) → EnrichState → Result EnrichState EnrichState
insert_image (ok (embedding_id, images)) s = ok (record s { images = images })
insert_image (err e) s = err s

module _ (env : EnrichEnv) where
  -- The embedding is in the index: the row is written if it does not say so.
  unfoldable pub step_present :
      ℕ → Prior → EnrichState → Result EnrichState (ImageLeg × EnrichState)
  unfolding was_done attempts_of note_state
  step_present id prior s = if was_done prior then ok (image_done, s) else do
    s' ← note_state id done (attempts_of prior) none (env.step_clock id) s
    ok (image_done, s')

  -- There is no JPEG object.
  unfoldable pub step_no_jpeg :
      ℕ → ℤ → ObjectKey → EnrichState → Result EnrichState (ImageLeg × EnrichState)
  unfolding exists give_up put_off
  step_no_jpeg id attempts raw s =
      if exists raw env.objects
      then give_up id attempts (codes "non-JPEG frame") (env.step_clock id) s
      else put_off id attempts (codes "object missing") (env.step_clock id) s

  unfoldable pub step_read :
      ℕ
      → ℤ
      → Result ObjectError (List ℕ)
      → EnrichState
      → Result EnrichState (ImageStep × EnrichState)
  unfolding give_up put_off settle
  step_read id attempts (ok jpeg) s = ok (embed_jpeg jpeg attempts, s)
  step_read id attempts (err (crypto e)) s =
      settle (give_up id attempts (env.describe (crypto e)) (env.step_clock id) s)
  step_read id attempts (err io) s =
      settle (put_off id attempts (env.describe io) (env.step_clock id) s)
  step_read id attempts (err not_found) s =
      settle (put_off id attempts (env.describe not_found) (env.step_clock id) s)

  unfoldable pub step_object :
      ℕ → ℤ → Text → ℤ → EnrichState → Result EnrichState (ImageStep × EnrichState)
  unfolding key_path exists get step_read step_no_jpeg settle
  step_object id ts token attempts s =
      let rel =
        key_path env.is_alphanumeric env.client (ymd_from_filetime ts) token (codes "jpg") in
      let raw =
        key_path env.is_alphanumeric env.client (ymd_from_filetime ts) token (codes "raw") in
      let read =
        get env.is_alphanumeric env.encrypt env.decrypt env.is_under env.client rel token
          env.objects in
      if not (exists rel env.objects)
      then settle (step_no_jpeg id attempts raw s)
      else step_read id attempts read s

  -- The embedding is not in the index.
  unfoldable pub step_absent :
      ℕ → Option ℤ → Text → Prior → EnrichState → Result EnrichState (ImageStep × EnrichState)
  unfolding was_skipped attempts_of count_skipped give_up settle step_object
  step_absent id ts token prior s =
      if was_skipped prior then ok (settled image_terminal, count_skipped s) else elim ts [
        | none ↦
            settle (give_up id (attempts_of prior) (codes "no timestamp") (env.step_clock id) s)
        | some t ↦ step_object id t token (attempts_of prior) s
      ]

  unfoldable pub step_on :
      Result SemanticError Bool
      → ℕ
      → Option ℤ
      → Text
      → EnrichState
      → Result EnrichState (ImageStep × EnrichState)
  unfolding step_present step_absent image_embedding_state settle
  step_on (err e) id ts token s = err s
  step_on (ok true) id ts token s = settle (step_present id (image_embedding_state id s.ukg) s)
  step_on (ok false) id ts token s = step_absent id ts token (image_embedding_state id s.ukg) s

  unfoldable pub image_step :
      ℕ → Option ℤ → Text → EnrichState → Result EnrichState (ImageStep × EnrichState)
  unfolding step_on
  image_step id ts token s = step_on (has_item (item_id_for_capture id) s.images) id ts token s

  unfoldable pub record_done : ℕ → ℤ → EnrichState → Result EnrichState (ImageLeg × EnrichState)
  unfolding note_state
  record_done id attempts s = do
    s' ← note_state id done (attempts +ℤ pos 1) none (env.record_clock id) s
    ok (
      image_done,
      record s' { stats = record s'.stats { image_embeddings = s'.stats.image_embeddings + 1 } },
    )

  unfoldable pub record_embedded :
      ℕ → ℤ → List ℕ → Text → EnrichState → Result EnrichState (ImageLeg × EnrichState)
  unfolding rebuilt_images labelled_images insert_image record_done
  record_embedded id attempts embedding space s =
      let ready = labelled_images space (rebuilt_images space s) in
      do
        s' ← insert_image (insert (item_id_for_capture id) none none embedding ready.images) ready
        record_done id attempts s'

  unfoldable pub image_record :
      ℕ → ℤ → EmbedOutcome → EnrichState → Result EnrichState (ImageLeg × EnrichState)
  unfolding usable give_up put_off record_embedded count_skipped set_config
  image_record id attempts (embedded embedding space) s =
      if not (usable embedding env.dim)
      then give_up id attempts (codes "embedder returned a wrong-width vector")
          (env.record_clock id) s
      else record_embedded id attempts embedding space s
  image_record id attempts disabled s = ok (
    image_unavailable,
    count_skipped (record s { ukg = set_config image_unavailable_key (codes "1") s.ukg }),
  )
  image_record id attempts rejected s =
      give_up id attempts (codes "embedder refused input") (env.record_clock id) s
  image_record id attempts retry s =
      put_off id attempts (codes "embedder unavailable") (env.record_clock id) s

  unfoldable pub embed_on :
      ℕ → ImageStep → EnrichState → Result EnrichState (ImageLeg × EnrichState)
  unfolding image_record
  embed_on id (embed_jpeg jpeg attempts) s = image_record id attempts (env.embed_image id jpeg) s
  embed_on id (settled leg) s = ok (leg, s)

  -- The two with the call of the embedder between them.
  unfoldable pub image_leg :
      ℕ → Option ℤ → Text → EnrichState → Result EnrichState (ImageLeg × EnrichState)
  unfolding image_step embed_on
  image_leg id ts token s = do (step, s') ← image_step id ts token s; embed_on id step s'
