-- ===== src/Store/Ukg/Queues/Pacing.antt =====
-- An attempt that is noted keeps its capture out of both queues until the backoff is over.
use pre_call.Prelude.{
  All, All-tabulate, true-false, ℕ, ◌≡◌, ◌≢◌, sym, ◌∙◌, true, false, List, [], ◌∷◌, some, arith,
}
use pre_call.Prelude.Int.{ℤ, ◌-ℤ◌, ltb_ℤ}
use pre_call.Store.Sql.Laws.{mem-select_rows}
use pre_call.Store.Ukg.Tables.{CaptureRow, EnrichAttemptRow, Ukg}
use pre_call.Store.Ukg.Queues.{
  attempt_of, is_rested, needs_image, is_fresh, precedes, put_attempt, touch_enrich_attempt,
  captures_needing_image_embedding, captures_pending_enrichment,
}

attempt_of-put_attempt :
    (id : ℕ) (now : ℤ) (rows : List EnrichAttemptRow)
    → attempt_of id (put_attempt id now rows) ≡ some now
unfolding attempt_of put_attempt
attempt_of-put_attempt id now [] = ground arith
attempt_of-put_attempt id now (a ∷ rest) = ground (arith, attempt_of-put_attempt id now rest)

attempt_of-touch :
    (id : ℕ) (now : ℤ) (db db' : Ukg)
    → touch_enrich_attempt id now db ≡ some db'
    → attempt_of id db'.enrich_attempts ≡ some now
unfolding touch_enrich_attempt
attempt_of-touch id now db db' h = ground (arith, attempt_of-put_attempt id now db.enrich_attempts)

not-needs_image :
    (since t : ℤ) (db : Ukg) (w : CaptureRow)
    → attempt_of w.id db.enrich_attempts ≡ some t
    → ltb_ℤ since t ≡ true
    → needs_image since db w ≡ false
unfolding needs_image is_rested
not-needs_image since t db w e h = ground arith

not-is_fresh :
    (since t : ℤ) (db : Ukg) (w : CaptureRow)
    → attempt_of w.id db.enrich_attempts ≡ some t
    → ltb_ℤ since t ≡ true
    → is_fresh since db w ≡ false
unfolding is_fresh is_rested
not-is_fresh since t db w e h = ground arith

-- After an attempt at the time `now`, neither queue returns the capture at a time less than
-- `backoff` later.
pub touch_enrich_attempt-pacing :
    (id : ℕ) (now later backoff limit : ℤ) (db db' : Ukg)
    → touch_enrich_attempt id now db ≡ some db'
    → ltb_ℤ (later -ℤ backoff) now ≡ true
    → All (λ w. w.id ≢ id) (captures_needing_image_embedding limit later backoff db')
      × All (λ w. w.id ≢ id) (captures_pending_enrichment limit later backoff db')
unfolding captures_needing_image_embedding captures_pending_enrichment
touch_enrich_attempt-pacing id now later backoff limit db db' h k =
    let noted = attempt_of-touch id now db db' h in
    let image = needs_image (later -ℤ backoff) db' in
    let fresh = is_fresh (later -ℤ backoff) db' in
    (
      All-tabulate _ _ (λ w m e. true-false (
          sym (mem-select_rows (precedes db') image limit db'.captures w m).1
          ∙ not-needs_image (later -ℤ backoff) now db' w (rw e noted) k)),
      All-tabulate _ _ (λ w m e. true-false (
          sym (mem-select_rows (precedes db') fresh limit db'.captures w m).1
          ∙ not-is_fresh (later -ℤ backoff) now db' w (rw e noted) k)),
    )
