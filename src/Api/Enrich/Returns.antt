-- ===== src/Api/Enrich/Returns.antt =====
-- A whole pass over a client.
use pre_call.Prelude.{
  ℕ, ◌≡◌, refl, sym, ◌∙◌, subst, Text, codes, Bool, true, false, not, ◌||◌, ◌&&◌, List, [], ◌∷◌,
  Option, none, some, Result, ok, ◌>>=◌, All, Bool-cases, inl, inr,
}
use pre_call.Prelude.Int.{pos}
use pre_call.Store.Ukg.Tables.{CaptureRow, skipped, if_null}
use pre_call.Store.Ukg.Rows.{set_config}
use pre_call.Store.Ukg.Queues.{has_capture}
use pre_call.Store.Semantic.Search.{Entry}
use pre_call.Api.Enrich.{
  EnrichState, EnrichEnv, note_state, no_stats, ImageLeg, image_done, image_terminal, image_retry,
  image_unavailable, flag_set, text_unavailable, image_unavailable_key, batch, retry_backoff_ticks,
}
use pre_call.Api.Enrich.Image.{image_leg, rebuilt_images, labelled_images, count_skipped}
use pre_call.Api.Enrich.Texts.{rebuilt_texts, labelled_texts}
use pre_call.Api.Enrich.Pass.{
  requeue_texts, requeue_images, adopt_spaces, stops, count_backfilled, finish_one, backfill_one,
  backfill_loop, fresh_image, fresh_one, fresh_loop, both_loops, enrich_client, retries,
}
use pre_call.Api.Enrich.Outcomes.{noted, note_state-noted}
use pre_call.Api.Enrich.Records.{has_capture-ready, texts-ready}
use pre_call.Api.Enrich.Spaces.{IsSound, readied-IsSound}
use pre_call.Api.Enrich.Captures.{
  touch-Written, queues-captures, mark_processed-captures, mark_all_unprocessed-captures,
  set_config-captures, reset-captures,
}
use pre_call.Api.Enrich.Sound.{IsHonest, IsGood, image_leg-Good, ready_images-readied}
use pre_call.Api.Enrich.TextSound.{text_leg-Good, ready_texts}

module _ (env : EnrichEnv) (TextFrom ImageFrom : Text → Entry → Type 0)
    (honest_text : (id : ℕ) (text : Text) → IsHonest TextFrom id (env.embed_text id text))
    (honest_image : (id : ℕ) (jpeg : List ℕ)
      → IsHonest ImageFrom id (env.embed_image id jpeg)) where
  -- The state of a pass over a client with the captures `known`.
  abbrev Fine : (ℕ → Bool) → EnrichState → Type 0
  Fine known s = IsGood env TextFrom ImageFrom honest_text honest_image known s

  abbrev Returns : (ℕ → Bool) → {A : Type 0} → Result EnrichState (A × EnrichState) → Type 0
  Returns known {A} r = (a : A) × (s' : EnrichState) × (r ≡ ok (a, s')) × Fine known s'

  requeue_texts-Fine :
      (known : ℕ → Bool) (s : EnrichState) → Fine known s → Fine known (requeue_texts s)
  unfolding requeue_texts
  requeue_texts-Fine known s (caps, texts, images) =
      elim (Bool-cases (flag_set text_unavailable s.ukg)) [
        | inr e ↦ rw e (caps, texts, images)
        | inl e ↦ rw e (
          λ i.
              mark_all_unprocessed-captures (set_config text_unavailable (codes "0") s.ukg) i
              ∙ (set_config-captures text_unavailable (codes "0") s.ukg i ∙ caps i),
          texts,
          images,
        )
      ]

  requeue_images-Fine :
      (known : ℕ → Bool) (s : EnrichState) → Fine known s → Fine known (requeue_images s)
  unfolding requeue_images
  requeue_images-Fine known s (caps, texts, images) =
      elim (Bool-cases (flag_set image_unavailable_key s.ukg)) [
        | inr e ↦ rw e (caps, texts, images)
        | inl e ↦ rw e (
          λ i.
              reset-captures (set_config image_unavailable_key (codes "0") s.ukg) i
              ∙ (set_config-captures image_unavailable_key (codes "0") s.ukg i ∙ caps i),
          texts,
          images,
        )
      ]

  relabel_texts-Fine :
      (known : ℕ → Bool) (space : Text) (s : EnrichState)
      → Fine known s
      → Fine known (labelled_texts space (rebuilt_texts space s))
  relabel_texts-Fine known space s (caps, texts, images) =
      let (kept, same_images, same) = ready_texts space s in
      (
        λ i. kept i ∙ caps i,
        subst (IsSound TextFrom env.dim) (sym same)
            (readied-IsSound TextFrom env.dim space s.texts texts),
        subst (IsSound ImageFrom env.dim) (sym same_images) images,
      )

  relabel_images-Fine :
      (known : ℕ → Bool) (space : Text) (s : EnrichState)
      → Fine known s
      → Fine known (labelled_images space (rebuilt_images space s))
  relabel_images-Fine known space s (caps, texts, images) = (
    λ i. has_capture-ready space s i ∙ caps i,
    subst (IsSound TextFrom env.dim) (sym (texts-ready space s)) texts,
    subst (IsSound ImageFrom env.dim) (sym (ready_images-readied space s))
        (readied-IsSound ImageFrom env.dim space s.images images),
  )

  adopt_spaces-Fine :
      (known : ℕ → Bool) (spaces : Option (Text × Text)) (s : EnrichState)
      → Fine known s
      → Fine known (adopt_spaces spaces s)
  unfolding adopt_spaces
  adopt_spaces-Fine known none s g = g
  adopt_spaces-Fine known (some (text_space, image_space)) s g = requeue_images-Fine known _ (
      requeue_texts-Fine known _ (
        relabel_images-Fine known image_space
          (labelled_texts text_space (rebuilt_texts text_space s))
          (relabel_texts-Fine known text_space s g)))

  count_backfilled-Fine :
      (known : ℕ → Bool) (leg : ImageLeg) (s : EnrichState)
      → Fine known s
      → Fine known (count_backfilled leg s)
  unfolding count_backfilled
  count_backfilled-Fine known image_done s g = g
  count_backfilled-Fine known image_terminal s g = g
  count_backfilled-Fine known image_retry s g = g
  count_backfilled-Fine known image_unavailable s g = g

  backfill_one-Returns :
      (known : ℕ → Bool) (w : CaptureRow) (s : EnrichState)
      → known w.id ≡ true
      → Fine known s
      → Returns known (backfill_one env w s)
  unfolding backfill_one
  backfill_one-Returns known w s k (caps, texts, images) =
      let (db, e, same) = touch-Written w.id env.now s (caps w.id ∙ k) in
      let (leg, s2, e2, g2) =
        image_leg-Good env TextFrom ImageFrom honest_text honest_image known w.id
          (some w.time_stamp) (if_null w.image_token) (record s { ukg = db }) k
          (λ i. same i ∙ caps i, texts, images) in
      (leg, count_backfilled leg s2, rw (e, e2) refl, count_backfilled-Fine known leg s2 g2)

  backfill_loop-Returns :
      (known : ℕ → Bool) (ws : List CaptureRow) (s : EnrichState)
      → All (λ w. known w.id ≡ true) ws
      → Fine known s
      → Returns known (backfill_loop env ws s)
  unfolding backfill_loop
  backfill_loop-Returns known [] s ks g = (false, s, refl, g)
  backfill_loop-Returns known (w ∷ ws) s (k, ks) g =
      let (leg, s1, e, g1) = backfill_one-Returns known w s k g in
      elim (Bool-cases (stops leg)) [
        | inl t ↦ (true, s1, rw e (rw t refl), g1)
        | inr t ↦
            let (b, s2, e2, g2) = backfill_loop-Returns known ws s1 ks g1 in
            (b, s2, rw e (rw t e2), g2)
      ]

  fresh_image-Returns :
      (known : ℕ → Bool) (stop : Bool) (w : CaptureRow) (s : EnrichState)
      → known w.id ≡ true
      → Fine known s
      → Returns known (fresh_image env stop w s)
  unfolding fresh_image
  fresh_image-Returns known true w s k g = (image_unavailable, s, refl, g)
  fresh_image-Returns known false w s k (caps, texts, images) = taken w.image_token
    where
      taken :
          (token : Option Text)
          → Returns known (elim token [
            | some t ↦ image_leg env w.id (some w.time_stamp) t s
            | none ↦ do
              s' ← note_state w.id skipped (pos 1) (some (codes "no image token")) env.now s
              ok (image_terminal, count_skipped s')
          ])
      taken (some t) =
          image_leg-Good env TextFrom ImageFrom honest_text honest_image known w.id
            (some w.time_stamp) t s k (caps, texts, images)
      taken none = (
        image_terminal,
        count_skipped (noted w.id skipped (pos 1) (some (codes "no image token")) env.now s),
        rw
            (note_state-noted w.id skipped (pos 1) (some (codes "no image token")) env.now s
              (caps w.id ∙ k))
            refl,
        (unfold count_skipped in unfold has_capture in (caps, texts, images)),
      )

  finish_one-Fine :
      (known : ℕ → Bool) (id : ℕ) (text_retry : Bool) (leg : ImageLeg) (s : EnrichState)
      → Fine known s
      → Fine known (finish_one id text_retry leg s)
  unfolding finish_one
  finish_one-Fine known id text_retry leg s (caps, texts, images) =
      elim (Bool-cases (not text_retry && not (retries leg))) [
        | inl e ↦ rw e (λ i. mark_processed-captures id s.ukg i ∙ caps i, texts, images)
        | inr e ↦ rw e (caps, texts, images)
      ]

  fresh_one-Returns :
      (known : ℕ → Bool) (stop : Bool) (w : CaptureRow) (s : EnrichState)
      → known w.id ≡ true
      → Fine known s
      → Returns known (fresh_one env stop w s)
  unfolding fresh_one
  fresh_one-Returns known stop w s k (caps, texts, images) =
      let (db, e, same) = touch-Written w.id env.now s (caps w.id ∙ k) in
      let (text_retry, s2, e2, g2) =
        text_leg-Good env TextFrom ImageFrom honest_text honest_image known w.id
          (record s { ukg = db }) k (λ i. same i ∙ caps i, texts, images) in
      let (leg, s3, e3, g3) = fresh_image-Returns known stop w s2 k g2 in
      (
        leg,
        finish_one w.id text_retry leg s3,
        rw (e, e2, e3) refl,
        finish_one-Fine known w.id text_retry leg s3 g3,
      )

  fresh_loop-Returns :
      (known : ℕ → Bool) (ws : List CaptureRow) (stop : Bool) (s : EnrichState)
      → All (λ w. known w.id ≡ true) ws
      → Fine known s
      → (s' : EnrichState) × (fresh_loop env ws stop s ≡ ok s') × Fine known s'
  unfolding fresh_loop
  fresh_loop-Returns known [] stop s ks g = (s, refl, g)
  fresh_loop-Returns known (w ∷ ws) stop s (k, ks) g =
      let (leg, s1, e, g1) = fresh_one-Returns known stop w s k g in
      let (s2, e2, g2) = fresh_loop-Returns known ws (stop || stops leg) s1 ks g1 in
      (s2, rw e e2, g2)

  -- A pass over a client always comes to its end, whatever the objects hold and the embedder
  -- answers. It loses no capture, and both indexes stay sound: of the embedder's width, with
  -- linked tables, and with embeddings of the space on their label only, also when the embedder
  -- has changed in the meantime. The embedder names the space of each embedding truthfully and
  -- never "unknown".
  pub enrich_client-returns :
      (spaces : Option (Text × Text)) (s : EnrichState)
      → IsSound TextFrom env.dim s.texts
      → IsSound ImageFrom env.dim s.images
      → (s' : EnrichState) × (enrich_client env spaces s ≡ ok s')
        × ((id : ℕ) → has_capture id s'.ukg ≡ has_capture id s.ukg)
        × IsSound TextFrom env.dim s'.texts
        × IsSound ImageFrom env.dim s'.images
  unfolding enrich_client both_loops
  enrich_client-returns spaces s texts images =
      let known : ℕ → Bool = λ i. has_capture i s.ukg in
      let ready = adopt_spaces spaces (record s { stats = no_stats }) in
      let g =
        adopt_spaces-Fine known spaces (record s { stats = no_stats }) (λ i. refl, texts, images) in
      let (backfill, fresh) =
        queues-captures batch env.now retry_backoff_ticks ready.ukg known g.0 in
      let (stop, s1, e1, g1) = backfill_loop-Returns known _ ready backfill g in
      let (s2, e2, (kept, texts', images')) = fresh_loop-Returns known _ stop s1 fresh g1 in
      (s2, rw e1 e2, kept, texts', images')
