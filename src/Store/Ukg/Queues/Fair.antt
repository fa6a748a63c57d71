-- ===== src/Store/Ukg/Queues/Fair.antt =====
-- The order of the two queues: no capture starves behind another.
use pre_call.Prelude.{
  All-tabulate, All-lookup, ℕ, ◌≡◌, ◌≢◌, ◌↔◌, ◌≤◌, refl, sym, true, false, List, Option, none, some,
  Text, ◌⊎◌, inl, inr, length, All, ◌∈◌, arith, Bool-cases, true-false, none-some,
}
use pre_call.Prelude.Int.{ℤ, pos, ◌-ℤ◌, ltb_ℤ, ◌≤ℤ◌, ◌<ℤ◌}
use pre_call.Store.Sql.Laws.{
  IsSortedBy, IsOrdered-IsSortedBy, select_rows-IsOrdered, mem-select_rows, mem_select_rows,
}
use pre_call.Store.Ukg.Tables.{
  CaptureRow, EmbeddingState, pending, done, skipped, ImageEmbeddingRow, Ukg,
}
use pre_call.Store.Ukg.Queues.{
  attempt_of, embedding_of, coalesce_0, is_rested, lacks_embedding, has_token, precedes,
  needs_image, is_fresh, captures_needing_image_embedding, captures_pending_enrichment,
}

precedes_total : (db : Ukg) (w v : CaptureRow) → precedes db w v ≡ false → precedes db v w ≡ true
unfolding precedes
precedes_total db w v h = ground arith

precedes_trans :
    (db : Ukg) (w v u : CaptureRow)
    → precedes db w v ≡ true
    → precedes db v u ≡ true
    → precedes db w u ≡ true
unfolding precedes
precedes_trans db w v u h k = ground arith

-- `v` was last attempted before `w`, or at the same time and has the lower id. A capture without
-- an attempt counts as attempted at 0.
abbrev pub IsBefore : Ukg → CaptureRow → CaptureRow → Type 0
IsBefore db v w =
    (coalesce_0 (attempt_of v.id db.enrich_attempts)
      <ℤ coalesce_0 (attempt_of w.id db.enrich_attempts))
    ⊎ ((coalesce_0 (attempt_of v.id db.enrich_attempts)
          ≤ℤ coalesce_0 (attempt_of w.id db.enrich_attempts))
        × (v.id ≤ w.id))

-- No attempt is noted, or one that is not after this time.
abbrev pub IsRested : ℤ → Option ℤ → Type 0
IsRested since none = Unit
IsRested since (some t) = t ≤ℤ since

-- No state is noted, or the state is pending.
abbrev pub IsMissing : Option ImageEmbeddingRow → Type 0
IsMissing none = Unit
IsMissing (some e) = e.state ≡ pending

-- A processed capture with a token, whose image embedding is missing or pending, and that was not
-- attempted after `since`.
abbrev pub IsDue : ℤ → Ukg → CaptureRow → Type 0
IsDue since db w =
    (w.image_token ≢ none)
    × (w.is_processed ≡ true)
    × IsMissing (embedding_of w.id db.image_embeddings)
    × IsRested since (attempt_of w.id db.enrich_attempts)

precedes-IsBefore : (db : Ukg) (v w : CaptureRow) → precedes db v w ≡ true → IsBefore db v w
unfolding precedes
precedes-IsBefore db v w h =
    let t = coalesce_0 (attempt_of v.id db.enrich_attempts) in
    let u = coalesce_0 (attempt_of w.id db.enrich_attempts) in
    elim (Bool-cases (ltb_ℤ t u)) [
      | inl e ↦ inl (ground arith)
      | inr e ↦ inr (ground arith, ground arith)
    ]

has_token_iff : (o : Option Text) → (has_token o ≡ true) ↔ (o ≢ none)
unfolding has_token
has_token_iff none = (λ h. absurd (true-false (sym h)), λ h. absurd (h refl))
has_token_iff (some t) = (λ h e. none-some (sym e), λ h. refl)

lacks_embedding_iff : (o : Option ImageEmbeddingRow) → (lacks_embedding o ≡ true) ↔ IsMissing o
unfolding lacks_embedding
lacks_embedding_iff none = (λ h. tt, λ h. refl)
lacks_embedding_iff (some e) = (is_pending e.state, λ h. rw h refl)
  where
    is_pending : (s : EmbeddingState) → elim s [ pending ↦ true | _ ↦ false ] ≡ true → s ≡ pending
    is_pending pending h = refl
    is_pending done h = absurd (true-false (sym h))
    is_pending skipped h = absurd (true-false (sym h))

is_rested_iff : (since : ℤ) (o : Option ℤ) → (is_rested since o ≡ true) ↔ IsRested since o
unfolding is_rested
is_rested_iff since none = (λ h. tt, λ h. refl)
is_rested_iff since (some t) = (λ h. ground arith, λ h. ground arith)

needs_image_iff :
    (since : ℤ) (db : Ukg) (w : CaptureRow) → (needs_image since db w ≡ true) ↔ IsDue since db w
unfolding needs_image
needs_image_iff since db w =
    let token = has_token_iff w.image_token in
    let state = lacks_embedding_iff (embedding_of w.id db.image_embeddings) in
    let attempt = is_rested_iff since (attempt_of w.id db.enrich_attempts) in
    (
      λ h. (
        token.0 (ground (arith, h)),
        ground (arith, h),
        state.0 (ground (arith, h)),
        attempt.0 (ground (arith, h)),
      ),
      λ (a, b, c, d). rw (token.1 a, b, state.1 c, attempt.1 d) refl,
    )

-- What a queue owes to a capture that it should return: the capture itself, or a full batch of
-- captures that all come before it.
abbrev pub IsServed : Ukg → CaptureRow → ℕ → List CaptureRow → Type 0
IsServed db w n batch = (w ∈ batch) ⊎ ((length batch ≡ n) × All (λ v. IsBefore db v w) batch)

served :
    (db : Ukg) (w : CaptureRow) (n : ℕ) (batch : List CaptureRow)
    → (w ∈ batch) ⊎ ((length batch ≡ n) × All (λ v. precedes db v w ≡ true) batch)
    → IsServed db w n batch
served db w n batch (inl m) = inl m
served db w n batch (inr (full, before)) = inr (
  full,
  All-tabulate _ batch
      (λ v i. precedes-IsBefore db v w (All-lookup (λ u. precedes db u w ≡ true) batch v before i)),
)

-- A stored capture that is processed, has a token, whose image embedding is missing or pending,
-- and that was not attempted within `backoff`, is in the batch of the backfill queue, or the
-- batch is full of captures attempted before it (or at the same time, with a lower id). The batch
-- is in that order too, and holds only stored captures with these conditions.
pub captures_needing_image_embedding-IsServed :
    (n : ℕ) (now backoff : ℤ) (db : Ukg) (w : CaptureRow)
    → w ∈ db.captures
    → IsDue (now -ℤ backoff) db w
    → IsServed db w n (captures_needing_image_embedding (pos n) now backoff db)
      × IsSortedBy (IsBefore db) (captures_needing_image_embedding (pos n) now backoff db)
      × All
          (λ v. (v ∈ db.captures) × IsDue (now -ℤ backoff) db v)
          (captures_needing_image_embedding (pos n) now backoff db)
unfolding captures_needing_image_embedding
captures_needing_image_embedding-IsServed n now backoff db w m h =
    let due = needs_image (now -ℤ backoff) db in
    (
      served db w n _ (
          mem_select_rows (precedes db) (precedes_total db) (precedes_trans db) due n db.captures w
            m ((needs_image_iff (now -ℤ backoff) db w).1 h)),
      IsOrdered-IsSortedBy (precedes db) (IsBefore db) _ (precedes-IsBefore db) (
          select_rows-IsOrdered (precedes db) (precedes_total db) (precedes_trans db) due (pos n)
            db.captures),
      All-tabulate _ _ (λ v i.
          let (stored, kept) = mem-select_rows (precedes db) due (pos n) db.captures v i in
          (stored, (needs_image_iff (now -ℤ backoff) db v).0 kept)),
    )

-- An unprocessed capture that was not attempted within `backoff` is in the batch of the fresh
-- queue, or the batch is full of captures attempted before it (or at the same time, with a lower
-- id).
pub captures_pending_enrichment-IsServed :
    (n : ℕ) (now backoff : ℤ) (db : Ukg) (w : CaptureRow)
    → w ∈ db.captures
    → is_fresh (now -ℤ backoff) db w ≡ true
    → IsServed db w n (captures_pending_enrichment (pos n) now backoff db)
unfolding captures_pending_enrichment
captures_pending_enrichment-IsServed n now backoff db w m h = served db w n _ (
    mem_select_rows (precedes db) (precedes_total db) (precedes_trans db)
      (is_fresh (now -ℤ backoff) db) n db.captures w m h)
