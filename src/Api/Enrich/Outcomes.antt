-- ===== src/Api/Enrich/Outcomes.antt =====
-- What the image leg of one capture leaves behind.
use pre_call.Prelude.{
  ℕ, ◌≡◌, refl, ap, Text, true, List, [], ◌∷◌, Option, some, Result, ok, if◌then◌else◌, ◌==◌,
  ==_iff, length, arith,
}
use pre_call.Prelude.Int.{ℤ, pos, ◌+ℤ◌}
use pre_call.Store.Ukg.Tables.{EmbeddingState, pending, skipped, ImageEmbeddingRow}
use pre_call.Store.Ukg.Queues.{
  has_capture, embedding_of, put_embedding, set_image_embedding_state, state_of,
  image_embedding_state, lacks_embedding,
}
use pre_call.Store.Semantic.{item_id_for_capture, le_bytes, has_item}
use pre_call.Api.Embed.{EmbedOutcome, embedded, disabled, rejected, retry}
use pre_call.Api.Enrich.{
  EnrichState, ImageLeg, image_done, image_terminal, image_retry, image_unavailable, note_state,
  write_ukg, image_unavailable_key, flag_set,
}
use pre_call.Api.Enrich.Image.{
  was_done, was_skipped, give_up, put_off, count_skipped, count_pending,
}

embedding_of-put_embedding :
    (new : ImageEmbeddingRow) (rows : List ImageEmbeddingRow)
    → embedding_of new.capture_id (put_embedding new rows) ≡ some new
unfolding embedding_of put_embedding
embedding_of-put_embedding new [] = rw ((==_iff new.capture_id new.capture_id).1 refl) refl
embedding_of-put_embedding new (e ∷ rest) =
    ground
      (arith, embedding_of-put_embedding new rest, (==_iff new.capture_id new.capture_id).1 refl)

-- A state that is noted for a capture that is there.
abbrev pub noted : ℕ → EmbeddingState → ℤ → Option Text → ℤ → EnrichState → EnrichState
noted id state attempts last_error now s = record s {
  ukg = record s.ukg {
    image_embeddings =
        put_embedding
          (record {
            capture_id = id;
            state = state;
            attempts = attempts;
            last_error = last_error;
            updated_at = now;
          })
          s.ukg.image_embeddings;
  };
}

pub note_state-noted :
    (id : ℕ) (state : EmbeddingState) (attempts : ℤ) (last_error : Option Text) (now : ℤ)
    (s : EnrichState)
    → has_capture id s.ukg ≡ true
    → note_state id state attempts last_error now s ≡ ok (noted id state attempts last_error now s)
unfolding note_state write_ukg set_image_embedding_state
note_state-noted id state attempts last_error now s h = rw h refl

pub image_embedding_state-noted :
    (id : ℕ) (state : EmbeddingState) (attempts : ℤ) (last_error : Option Text) (now : ℤ)
    (s : EnrichState)
    → image_embedding_state id (noted id state attempts last_error now s).ukg
      ≡ some (state, attempts, last_error)
unfolding image_embedding_state
image_embedding_state-noted id state attempts last_error now s = ap state_of (
    embedding_of-put_embedding
      (record {
        capture_id = id;
        state = state;
        attempts = attempts;
        last_error = last_error;
        updated_at = now;
      })
      s.ukg.image_embeddings)

-- How the leg ends for each answer of the embedder.
unfoldable pub verdict : ℕ → EmbedOutcome → ImageLeg
verdict dim (embedded embedding space) =
    if length embedding == dim then image_done else image_terminal
verdict dim disabled = image_unavailable
verdict dim rejected = image_terminal
verdict dim retry = image_retry

-- What each end of the leg leaves behind: an embedding in the index and the state "done"; the
-- state "skipped"; the state "pending", with which the backfill takes the capture again; or the
-- flag.
abbrev pub Leaves : ℕ → EnrichState → EnrichState → ImageLeg → Type 0
Leaves id s s' image_done =
    (has_item (item_id_for_capture id) s'.images ≡ ok true)
    × (was_done (image_embedding_state id s'.ukg) ≡ true)
Leaves id s s' image_terminal =
    (s'.images ≡ s.images) × (was_skipped (image_embedding_state id s'.ukg) ≡ true)
Leaves id s s' image_retry =
    (s'.images ≡ s.images) × (lacks_embedding (embedding_of id s'.ukg.image_embeddings) ≡ true)
Leaves id s s' image_unavailable =
    (s'.images ≡ s.images) × (flag_set image_unavailable_key s'.ukg ≡ true)

pub length-item_id_for_capture : (id : ℕ) → length (item_id_for_capture id) ≡ 16
unfolding item_id_for_capture le_bytes
length-item_id_for_capture id = refl

-- No capture goes missing, the text index is as it was and the image index as wide.
abbrev pub Keeps : EnrichState → EnrichState → Type 0
Keeps s s' =
    ((id : ℕ) → has_capture id s'.ukg ≡ has_capture id s.ukg)
    × (s'.texts ≡ s.texts)
    × (s'.images.dim ≡ s.images.dim)

abbrev pub After : ℕ → EnrichState → ImageLeg → Result EnrichState (ImageLeg × EnrichState) → Type 0
After id s leg r = (s' : EnrichState) × (r ≡ ok (leg, s')) × Leaves id s s' leg × Keeps s s'

pub give_up-Leaves :
    (id : ℕ) (attempts : ℤ) (why : Text) (now : ℤ) (s : EnrichState)
    → has_capture id s.ukg ≡ true
    → After id s image_terminal (give_up id attempts why now s)
unfolding give_up count_skipped was_skipped has_capture
give_up-Leaves id attempts why now s h = (
  count_skipped (noted id skipped (attempts +ℤ pos 1) (some why) now s),
  rw (note_state-noted id skipped (attempts +ℤ pos 1) (some why) now s h) refl,
  (
    refl,
    ap was_skipped (image_embedding_state-noted id skipped (attempts +ℤ pos 1) (some why) now s),
  ),
  (λ i. refl, refl, refl),
)

pub put_off-Leaves :
    (id : ℕ) (attempts : ℤ) (why : Text) (now : ℤ) (s : EnrichState)
    → has_capture id s.ukg ≡ true
    → After id s image_retry (put_off id attempts why now s)
unfolding put_off count_pending lacks_embedding has_capture
put_off-Leaves id attempts why now s h = (
  count_pending (noted id pending (attempts +ℤ pos 1) (some why) now s),
  rw (note_state-noted id pending (attempts +ℤ pos 1) (some why) now s h) refl,
  (
    refl,
    ap lacks_embedding (
        embedding_of-put_embedding
          (record {
            capture_id = id;
            state = pending;
            attempts = attempts +ℤ pos 1;
            last_error = some why;
            updated_at = now;
          })
          s.ukg.image_embeddings),
  ),
  (λ i. refl, refl, refl),
)
