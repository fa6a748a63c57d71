-- ===== src/Store/Ukg/Queues.antt =====
-- crates/precall-store/src/ukg.rs: the two queues of the enrichment loop, and the state that they
-- read.
pub mod Fair
pub mod Pacing
use pre_call.Prelude.{
  ℕ, Text, Bool, true, false, not, ◌&&◌, ◌||◌, List, [], ◌∷◌, ◌++◌, Option, none, some, any, map,
  ◌==◌, ltb, leb, if◌then◌else◌,
}
use pre_call.Prelude.Int.{ℤ, pos, ◌-ℤ◌, leb_ℤ, ltb_ℤ, eqb_ℤ}
use pre_call.Store.Sql.{select_rows}
use pre_call.Store.Ukg.Tables.{
  CaptureRow, EmbeddingState, pending, EnrichAttemptRow, ImageEmbeddingRow, Ukg,
}

unfoldable pub attempt_of : ℕ → List EnrichAttemptRow → Option ℤ
attempt_of id [] = none
attempt_of id (a ∷ rest) =
    let later = attempt_of id rest in if a.capture_id == id then some a.updated_at else later

unfoldable pub embedding_of : ℕ → List ImageEmbeddingRow → Option ImageEmbeddingRow
embedding_of id [] = none
embedding_of id (e ∷ rest) =
    let later = embedding_of id rest in if e.capture_id == id then some e else later

-- COALESCE(a."UpdatedAt", 0)
unfoldable pub coalesce_0 : Option ℤ → ℤ
coalesce_0 none = pos 0
coalesce_0 (some t) = t

-- a."UpdatedAt" IS NULL OR a."UpdatedAt" <= ?
unfoldable pub is_rested : ℤ → Option ℤ → Bool
is_rested since none = true
is_rested since (some t) = leb_ℤ t since

-- e."State" IS NULL OR e."State" = 'pending'
unfoldable pub lacks_embedding : Option ImageEmbeddingRow → Bool
lacks_embedding none = true
lacks_embedding (some e) = elim e.state [ pending ↦ true | _ ↦ false ]

unfoldable pub has_token : Option Text → Bool
has_token none = false
has_token (some t) = true

-- ORDER BY COALESCE(a."UpdatedAt", 0) ASC, w."Id" ASC
unfoldable pub precedes : Ukg → CaptureRow → CaptureRow → Bool
unfolding attempt_of coalesce_0
precedes db w v =
    let t = coalesce_0 (attempt_of w.id db.enrich_attempts) in
    let u = coalesce_0 (attempt_of v.id db.enrich_attempts) in
    ltb_ℤ t u || (eqb_ℤ t u && leb w.id v.id)

-- The WHERE of the backfill queue.
unfoldable pub needs_image : ℤ → Ukg → CaptureRow → Bool
unfolding has_token lacks_embedding embedding_of is_rested attempt_of
needs_image since db w =
    has_token w.image_token
    && (w.is_processed
        && (lacks_embedding (embedding_of w.id db.image_embeddings)
            && is_rested since (attempt_of w.id db.enrich_attempts)))

-- The WHERE of the fresh queue.
unfoldable pub is_fresh : ℤ → Ukg → CaptureRow → Bool
unfolding is_rested attempt_of
is_fresh since db w = not w.is_processed && is_rested since (attempt_of w.id db.enrich_attempts)

-- The rows of the two queues; the source passes on the id, the time stamp and the token of each.
unfoldable pub captures_needing_image_embedding : ℤ → ℤ → ℤ → Ukg → List CaptureRow
unfolding select_rows precedes needs_image
captures_needing_image_embedding limit now backoff db =
    select_rows (precedes db) (needs_image (now -ℤ backoff) db) limit db.captures

unfoldable pub captures_pending_enrichment : ℤ → ℤ → ℤ → Ukg → List CaptureRow
unfolding select_rows precedes is_fresh
captures_pending_enrichment limit now backoff db =
    select_rows (precedes db) (is_fresh (now -ℤ backoff) db) limit db.captures

-- FOREIGN KEY("WindowCaptureId"): a statement for a capture that is not there fails.
unfoldable pub has_capture : ℕ → Ukg → Bool
has_capture id db = any (λ w. w.id == id) db.captures

-- INSERT … ON CONFLICT("WindowCaptureId") DO UPDATE
unfoldable pub put_attempt : ℕ → ℤ → List EnrichAttemptRow → List EnrichAttemptRow
put_attempt id now [] = record { capture_id = id; updated_at = now } ∷ []
put_attempt id now (a ∷ rest) =
    let later = put_attempt id now rest in
    if a.capture_id == id then record a { updated_at = now } ∷ rest else a ∷ later

unfoldable pub touch_enrich_attempt : ℕ → ℤ → Ukg → Option Ukg
unfolding has_capture put_attempt
touch_enrich_attempt id now db =
    if has_capture id db
    then some (record db { enrich_attempts = put_attempt id now db.enrich_attempts })
    else none

unfoldable pub put_embedding : ImageEmbeddingRow → List ImageEmbeddingRow → List ImageEmbeddingRow
put_embedding new [] = new ∷ []
put_embedding new (e ∷ rest) =
    let later = put_embedding new rest in
    if e.capture_id == new.capture_id then new ∷ rest else e ∷ later

unfoldable pub set_image_embedding_state :
    ℕ → EmbeddingState → ℤ → Option Text → ℤ → Ukg → Option Ukg
unfolding has_capture put_embedding
set_image_embedding_state id state attempts last_error now db =
    let new : ImageEmbeddingRow = record {
      capture_id = id;
      state = state;
      attempts = attempts;
      last_error = last_error;
      updated_at = now;
    } in
    if has_capture id db
    then some (record db { image_embeddings = put_embedding new db.image_embeddings })
    else none

abbrev pub state_of : Option ImageEmbeddingRow → Option (EmbeddingState × ℤ × Option Text)
state_of none = none
state_of (some e) = some (e.state, e.attempts, e.last_error)

unfoldable pub image_embedding_state : ℕ → Ukg → Option (EmbeddingState × ℤ × Option Text)
unfolding embedding_of
image_embedding_state id db = state_of (embedding_of id db.image_embeddings)

unfoldable pub set_processed : ℕ → List CaptureRow → List CaptureRow
set_processed id [] = []
set_processed id (w ∷ rest) =
    (if w.id == id then record w { is_processed = true } else w) ∷ set_processed id rest

unfoldable pub mark_processed : ℕ → Ukg → Ukg
unfolding set_processed
mark_processed id db = record db { captures = set_processed id db.captures }

unfoldable pub mark_all_unprocessed : Ukg → Ukg
mark_all_unprocessed db = record db {
  captures =
      map {A = CaptureRow} {B = CaptureRow} (λ w. record w { is_processed = false }) db.captures;
}

unfoldable pub reset_image_embedding_states : Ukg → Ukg
reset_image_embedding_states db = record db { image_embeddings = [] }
