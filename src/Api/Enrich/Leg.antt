-- ===== src/Api/Enrich/Leg.antt =====
-- The whole image leg of a capture, and the leg again.
use pre_call.Prelude.{ℕ, ◌≡◌, refl, sym, ◌∙◌, subst, Text, true, Option, Result, ok}
use pre_call.Prelude.Int.{ℤ}
use pre_call.Store.Ukg.Queues.{has_capture}
use pre_call.Api.Enrich.{
  EnrichState, EnrichEnv, ImageLeg, image_done, ImageStep, embed_jpeg, settled,
}
use pre_call.Api.Enrich.Image.{
  step_present, step_on, image_step, image_record, embed_on, image_leg, settle,
}
use pre_call.Api.Enrich.Outcomes.{verdict, Leaves, Keeps, After}
use pre_call.Api.Enrich.Records.{image_record-Leaves}
use pre_call.Api.Enrich.Step.{Steps, image_step-After}

abbrev SomeAfter : ℕ → EnrichState → Result EnrichState (ImageLeg × EnrichState) → Type 0
SomeAfter id s r = (leg : ImageLeg) × After id s leg r

module _ (env : EnrichEnv) (id : ℕ) where
  embed_on-After :
      (step : ImageStep) (s s' : EnrichState)
      → has_capture id s.ukg ≡ true
      → s.images.dim ≡ env.dim
      → Steps id s s' step
      → SomeAfter id s (embed_on env id step s')
  unfolding embed_on
  embed_on-After (settled leg) s s' h k (same, left, kept) = (leg, (s', refl, left, kept))
  embed_on-After (embed_jpeg jpeg attempts) s s' h k same =
      subst (λ t. SomeAfter id s (image_record env id attempts (env.embed_image id jpeg) t))
        (sym same)
        (
          verdict env.dim (env.embed_image id jpeg),
          image_record-Leaves env id attempts (env.embed_image id jpeg) s h k,
        )

  -- The image leg of a capture that is in the metadata ends without an error, whatever the
  -- objects, the recorded state and the embedder: its embedding is in the index and marked done,
  -- or the index is as it was and the capture is given up, stays in the queue, or the flag is
  -- set. No capture is lost, and the text index and the width of the image index stay. The index
  -- is as wide as the embedder.
  pub image_leg-Leaves :
      (ts : Option ℤ) (token : Text) (s : EnrichState)
      → has_capture id s.ukg ≡ true
      → s.images.dim ≡ env.dim
      → (leg : ImageLeg) × (s' : EnrichState) × (image_leg env id ts token s ≡ ok (leg, s'))
        × Leaves id s s' leg
        × Keeps s s'
  unfolding image_leg
  image_leg-Leaves ts token s h k =
      let (step, s1, e, went) = image_step-After env id ts token s h in
      let (leg, (s2, e', left, kept)) = embed_on-After step s s1 h k went in
      (leg, s2, rw e e', left, kept)

  ok-inj : {A : Type 0} (a b : A) → ◌≡◌ {A = Result EnrichState A} (ok a) (ok b) → a ≡ b
  ok-inj a b e = cc

  done-again :
      (ts : Option ℤ) (token : Text) (s s' : EnrichState)
      → Leaves id s s' image_done
      → image_leg env id ts token s' ≡ ok (image_done, s')
  unfolding image_leg image_step step_on step_present settle embed_on
  done-again ts token s s' (found, marked) = rw (found, marked) refl

-- The leg of a capture that is in the metadata has ended as done, under an image index as wide as
-- the embedder. Run again from that state, with any embedder and object store in place of the
-- first ones (as after a restart), whatever they would answer, it ends as done and not a row
-- changes.
pub image_leg-once :
    (env env' : EnrichEnv) (id : ℕ) (ts ts' : Option ℤ) (token token' : Text) (s s' : EnrichState)
    → has_capture id s.ukg ≡ true
    → s.images.dim ≡ env.dim
    → image_leg env id ts token s ≡ ok (image_done, s')
    → image_leg env' id ts' token' s' ≡ ok (image_done, s')
image_leg-once env env' id ts ts' token token' s s' h k e =
    let (leg, s'', q, left, kept) = image_leg-Leaves env id ts token s h k in
    let same = ok-inj env id (leg, s'') (image_done, s') (sym q ∙ e) in
    done-again env' id ts' token' s s'
      (subst (λ (p : ImageLeg × EnrichState). Leaves id s p.1 p.0) same left)
