-- ===== src/Api/Enrich/Step.antt =====
-- `image_step` settles a leg or hands a JPEG on.
use pre_call.Prelude.{
  ℕ, ◌≡◌, refl, ap, Text, codes, Bool, true, false, List, Option, none, some, Result, ok, err, any,
  if◌then◌else◌, ==_iff, length, bytes_eq, Bool-cases, inl, inr,
}
use pre_call.Prelude.Int.{ℤ}
use pre_call.Store.Objects.{
  ObjectKey, ObjectError, io, not_found, crypto, key_path, ymd_from_filetime, exists, get,
}
use pre_call.Store.Ukg.Tables.{done}
use pre_call.Store.Ukg.Queues.{has_capture, image_embedding_state}
use pre_call.Store.Semantic.{SemanticIndex, item_id_for_capture, has_item, is_linked}
use pre_call.Api.Enrich.{
  EnrichState, EnrichEnv, ImageLeg, image_done, image_terminal, image_retry, ImageStep, embed_jpeg,
  settled,
}
use pre_call.Api.Enrich.Image.{
  was_done, was_skipped, attempts_of, give_up, count_skipped, step_present, step_no_jpeg, step_read,
  step_object, step_absent, step_on, image_step, settle,
}
use pre_call.Api.Enrich.Outcomes.{
  noted, note_state-noted, image_embedding_state-noted, Leaves, Keeps, After, give_up-Leaves,
  put_off-Leaves, length-item_id_for_capture,
}

abbrev pub Steps : ℕ → EnrichState → EnrichState → ImageStep → Type 0
Steps id s s' (embed_jpeg jpeg attempts) = s' ≡ s
Steps id s s' (settled leg) = (s'.images ≡ s.images) × Leaves id s s' leg × Keeps s s'

abbrev pub StepAfter : ℕ → EnrichState → Result EnrichState (ImageStep × EnrichState) → Type 0
StepAfter id s r =
    (step : ImageStep) × (s' : EnrichState) × (r ≡ ok (step, s')) × Steps id s s' step

abbrev SettledAfter : ℕ → EnrichState → Result EnrichState (ImageLeg × EnrichState) → Type 0
SettledAfter id s r =
    (leg : ImageLeg) × (s' : EnrichState) × (r ≡ ok (leg, s'))
    × (s'.images ≡ s.images)
    × Leaves id s s' leg
    × Keeps s s'

unchanged :
    (id : ℕ) (s : EnrichState) (r : Result EnrichState (ImageLeg × EnrichState))
    → After id s image_terminal r
    → SettledAfter id s r
unchanged id s r (s', e, left, kept) = (image_terminal, s', e, left.0, left, kept)

unchanged_retry :
    (id : ℕ) (s : EnrichState) (r : Result EnrichState (ImageLeg × EnrichState))
    → After id s image_retry r
    → SettledAfter id s r
unchanged_retry id s r (s', e, left, kept) = (image_retry, s', e, left.0, left, kept)

settle-After :
    (id : ℕ) (s : EnrichState) (r : Result EnrichState (ImageLeg × EnrichState))
    → SettledAfter id s r
    → StepAfter id s (settle r)
unfolding settle
settle-After id s r (leg, s', e, same, left, kept) =
    (settled leg, s', rw e refl, (same, left, kept))

pub has_item-ok :
    (id : ℕ) (idx : SemanticIndex) → (b : Bool) × (has_item (item_id_for_capture id) idx ≡ ok b)
unfolding has_item
has_item-ok id idx = (
  if any (bytes_eq (item_id_for_capture id)) idx.items
      then any (is_linked (item_id_for_capture id) idx) idx.metadata
      else false,
  rw ((==_iff (length (item_id_for_capture id)) 16).1 (length-item_id_for_capture id)) refl,
)

module _ (env : EnrichEnv) (id : ℕ) where
  step_present-After :
      (s : EnrichState)
      → has_capture id s.ukg ≡ true
      → has_item (item_id_for_capture id) s.images ≡ ok true
      → SettledAfter id s (step_present env id (image_embedding_state id s.ukg) s)
  unfolding step_present
  step_present-After s h found = elim (Bool-cases (was_done (image_embedding_state id s.ukg))) [
    | inl e ↦ (image_done, s, rw e refl, refl, (found, e), (λ i. refl, refl, refl))
    | inr e ↦ (
      image_done,
      noted id done (attempts_of (image_embedding_state id s.ukg)) none (env.step_clock id) s,
      rw
          (
            e,
            note_state-noted id done (attempts_of (image_embedding_state id s.ukg)) none
                (env.step_clock id) s h,
          )
          refl,
      refl,
      (
        found,
        ap was_done (
            image_embedding_state-noted id done (attempts_of (image_embedding_state id s.ukg)) none
              (env.step_clock id) s),
      ),
      (unfold has_capture in λ i. refl, refl, refl),
    )
  ]

  step_no_jpeg-After :
      (attempts : ℤ) (raw : ObjectKey) (s : EnrichState)
      → has_capture id s.ukg ≡ true
      → SettledAfter id s (step_no_jpeg env id attempts raw s)
  unfolding step_no_jpeg
  step_no_jpeg-After attempts raw s h = elim (Bool-cases (exists raw env.objects)) [
    | inl e ↦ rw e (
        unchanged id s _
          (give_up-Leaves id attempts (codes "non-JPEG frame") (env.step_clock id) s h))
    | inr e ↦ rw e (
        unchanged_retry id s _
          (put_off-Leaves id attempts (codes "object missing") (env.step_clock id) s h))
  ]

  step_read-After :
      (attempts : ℤ) (r : Result ObjectError (List ℕ)) (s : EnrichState)
      → has_capture id s.ukg ≡ true
      → StepAfter id s (step_read env id attempts r s)
  unfolding step_read
  step_read-After attempts (ok jpeg) s h = (embed_jpeg jpeg attempts, s, refl, refl)
  step_read-After attempts (err (crypto e)) s h = settle-After id s _ (
      unchanged id s _
        (give_up-Leaves id attempts (env.describe (crypto e)) (env.step_clock id) s h))
  step_read-After attempts (err io) s h = settle-After id s _ (
      unchanged_retry id s _ (put_off-Leaves id attempts (env.describe io) (env.step_clock id) s h))
  step_read-After attempts (err not_found) s h = settle-After id s _ (
      unchanged_retry id s _
        (put_off-Leaves id attempts (env.describe not_found) (env.step_clock id) s h))

  step_object-After :
      (ts : ℤ) (token : Text) (attempts : ℤ) (s : EnrichState)
      → has_capture id s.ukg ≡ true
      → StepAfter id s (step_object env id ts token attempts s)
  unfolding step_object
  step_object-After ts token attempts s h =
      let rel =
        key_path env.is_alphanumeric env.client (ymd_from_filetime ts) token (codes "jpg") in
      let raw =
        key_path env.is_alphanumeric env.client (ymd_from_filetime ts) token (codes "raw") in
      let read =
        get env.is_alphanumeric env.encrypt env.decrypt env.is_under env.client rel token
          env.objects in
      elim (Bool-cases (exists rel env.objects)) [
        | inl e ↦ rw e (step_read-After attempts read s h)
        | inr e ↦ rw e (
            settle-After id s (step_no_jpeg env id attempts raw s)
              (step_no_jpeg-After attempts raw s h))
      ]

  step_absent-After :
      (ts : Option ℤ) (token : Text) (s : EnrichState)
      → has_capture id s.ukg ≡ true
      → StepAfter id s (step_absent env id ts token (image_embedding_state id s.ukg) s)
  unfolding step_absent
  step_absent-After ts token s h =
      elim (Bool-cases (was_skipped (image_embedding_state id s.ukg))) [
        | inl e ↦ (
          settled image_terminal,
          count_skipped s,
          rw e refl,
          (unfold count_skipped in (refl, (refl, e), (λ i. refl, refl, refl))),
        )
        | inr e ↦ rw e (timed ts)
      ]
    where
      timed :
          (ts : Option ℤ)
          → StepAfter id s (elim ts [
            | none ↦ settle (
                give_up id
                  (attempts_of (image_embedding_state id s.ukg))
                  (codes "no timestamp")
                  (env.step_clock id)
                  s)
            | some t ↦ step_object env id t token (attempts_of (image_embedding_state id s.ukg)) s
          ])
      timed none = settle-After id s _ (
          unchanged id s _ (
            give_up-Leaves id (attempts_of (image_embedding_state id s.ukg)) (codes "no timestamp")
              (env.step_clock id) s h))
      timed (some t) = step_object-After t token (attempts_of (image_embedding_state id s.ukg)) s h

  pub image_step-After :
      (ts : Option ℤ) (token : Text) (s : EnrichState)
      → has_capture id s.ukg ≡ true
      → StepAfter id s (image_step env id ts token s)
  unfolding image_step step_on
  image_step-After ts token s h = known (has_item-ok id s.images)
    where
      known :
          (b : Bool) × (has_item (item_id_for_capture id) s.images ≡ ok b)
          → StepAfter id s (step_on env (has_item (item_id_for_capture id) s.images) id ts token s)
      known (true, e) = rw e (
          settle-After id s (step_present env id (image_embedding_state id s.ukg) s)
            (step_present-After s h e))
      known (false, e) = rw e (step_absent-After ts token s h)
