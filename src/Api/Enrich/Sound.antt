-- ===== src/Api/Enrich/Sound.antt =====
-- The two legs of a capture keep both indexes sound.
use pre_call.Prelude.{
  ℕ, ◌+◌, ◌≡◌, refl, sym, ◌∙◌, subst, Text, codes, Bool, true, false, List, Option, none, Result,
  ok, if◌then◌else◌, ◌==◌, ==_iff, length, bytes_eq, Bool-cases, inl, inr, arith,
}
use pre_call.Prelude.Int.{ℤ, pos, ◌+ℤ◌}
use pre_call.Store.Ukg.Tables.{done}
use pre_call.Store.Ukg.Queues.{has_capture}
use pre_call.Store.Semantic.{
  SemanticIndex, item_id_for_capture, insert, inserted, set_space_id, clear,
}
use pre_call.Store.Semantic.Search.{Entry}
use pre_call.Store.Semantic.View.{entry}
use pre_call.Api.Embed.{EmbedOutcome, embedded, disabled, rejected, retry}
use pre_call.Api.Enrich.{
  EnrichState, EnrichEnv, ImageLeg, image_done, image_terminal, image_retry, image_unavailable,
  ImageStep, embed_jpeg, settled, usable, space_mismatch,
}
use pre_call.Api.Enrich.Image.{
  image_record, embed_on, image_leg, rebuilt_images, labelled_images, record_embedded, insert_image,
  record_done,
}
use pre_call.Api.Enrich.Outcomes.{
  verdict, Keeps, length-item_id_for_capture, noted, note_state-noted,
}
use pre_call.Api.Enrich.Records.{
  image_record-Leaves, ready_images, dim-ready_images, has_capture-ready, texts-ready,
}
use pre_call.Api.Enrich.Step.{Steps, image_step-After}
use pre_call.Api.Enrich.Spaces.{IsSound, insert-IsSound}

-- What the embedder answers is of the space that it names, and that is never "unknown".
abbrev pub IsHonest : (Text → Entry → Type 0) → ℕ → EmbedOutcome → Type 0
IsHonest IsFrom id (embedded embedding space) =
    (bytes_eq space (codes "unknown") ≡ false)
    × IsFrom space (entry (item_id_for_capture id) none embedding)
IsHonest IsFrom id disabled = Unit
IsHonest IsFrom id rejected = Unit
IsHonest IsFrom id retry = Unit

pub ready_images-readied :
    (space : Text) (s : EnrichState)
    → ready_images space s
      ≡ set_space_id space (if space_mismatch s.images space then clear s.images else s.images)
unfolding labelled_images rebuilt_images
ready_images-readied space s = ground arith

pub insert_ok :
    (item_id embedding : List ℕ) (db : SemanticIndex)
    → length embedding ≡ db.dim
    → length item_id ≡ 16
    → insert item_id none none embedding db
      ≡ ok (db.next_graph, inserted item_id none none embedding db)
unfolding insert
insert_ok item_id embedding db h k =
    rw ((==_iff (length embedding) db.dim).1 h, (==_iff (length item_id) 16).1 k) refl

module _ (env : EnrichEnv) (TextFrom ImageFrom : Text → Entry → Type 0)
    (honest_text : (id : ℕ) (text : Text) → IsHonest TextFrom id (env.embed_text id text))
    (honest_image : (id : ℕ) (jpeg : List ℕ) → IsHonest ImageFrom id (env.embed_image id jpeg))
    (known : ℕ → Bool) where
  -- The captures are the known ones, and both indexes are sound.
  abbrev pub IsGood : EnrichState → Type 0
  IsGood s =
      ((id : ℕ) → has_capture id s.ukg ≡ known id)
      × IsSound TextFrom env.dim s.texts
      × IsSound ImageFrom env.dim s.images

  abbrev pub Good : {A : Type 0} → Result EnrichState (A × EnrichState) → Type 0
  Good {A} r = (a : A) × (s' : EnrichState) × (r ≡ ok (a, s')) × IsGood s'

  record_embedded-Good :
      (id : ℕ) (attempts : ℤ) (embedding : List ℕ) (space : Text) (s : EnrichState)
      → known id ≡ true
      → IsHonest ImageFrom id (embedded embedding space)
      → IsGood s
      → length embedding ≡ env.dim
      → Good (record_embedded env id attempts embedding space s)
  unfolding record_embedded record_done insert_image
  record_embedded-Good id attempts embedding space s k (named, from) (caps, texts, images) width =
      let ready = labelled_images space (rebuilt_images space s) in
      let item = item_id_for_capture id in
      let r : ℕ × SemanticIndex =
        (ready.images.next_graph, inserted item none none embedding ready.images) in
      let fits : insert item none none embedding ready.images ≡ ok r =
        insert_ok item embedding ready.images (width ∙ sym (dim-ready_images space s ∙ images.0))
          (length-item_id_for_capture id) in
      let s1 : EnrichState = record ready { images = r.1 } in
      let noted_ok =
        note_state-noted id done (attempts +ℤ pos 1) none (env.record_clock id) s1
          (has_capture-ready space s id ∙ (caps id ∙ k)) in
      let s2 = noted id done (attempts +ℤ pos 1) none (env.record_clock id) s1 in
      (
        image_done,
        record s2 { stats = record s2.stats { image_embeddings = s2.stats.image_embeddings + 1 } },
        rw (fits, noted_ok) refl,
        (
          λ i. has_capture-ready space s i ∙ caps i,
          subst (IsSound TextFrom env.dim) (sym (texts-ready space s)) texts,
          insert-IsSound ImageFrom env.dim id space embedding s.images r images named from (
              subst (λ idx. insert item none none embedding idx ≡ ok r)
                (ready_images-readied space s) fits),
        ),
      )

  unchanged-Good :
      (leg : ImageLeg) (s s' : EnrichState) (r : Result EnrichState (ImageLeg × EnrichState))
      → IsGood s
      → r ≡ ok (leg, s')
      → s'.images ≡ s.images
      → Keeps s s'
      → Good r
  unchanged-Good leg s s' r (caps, texts, images) e same (kept, same_texts, width) =
      (leg, s', e, (λ i. kept i ∙ caps i, rw same_texts texts, rw same images))

  image_record-Good :
      (id : ℕ) (attempts : ℤ) (outcome : EmbedOutcome) (s : EnrichState)
      → known id ≡ true
      → IsHonest ImageFrom id outcome
      → IsGood s
      → Good (image_record env id attempts outcome s)
  unfolding verdict
  image_record-Good id attempts (embedded embedding space) s k honest g =
      let (s', e, left, kept) =
        image_record-Leaves env id attempts (embedded embedding space) s (g.0 id ∙ k) g.2.0 in
      elim (Bool-cases (length embedding == env.dim)) [
        | inl w ↦
            unfold image_record in
            unfold usable in
            rw w (
              record_embedded-Good id attempts embedding space s k honest g
                ((==_iff (length embedding) env.dim).0 w))
        | inr w ↦ unchanged-Good image_terminal s s' _ g (rw w at e) (rw w at left).0 kept
      ]
  image_record-Good id attempts disabled s k honest g =
      let (s', e, left, kept) = image_record-Leaves env id attempts disabled s (g.0 id ∙ k) g.2.0 in
      unchanged-Good image_unavailable s s' _ g e left.0 kept
  image_record-Good id attempts rejected s k honest g =
      let (s', e, left, kept) = image_record-Leaves env id attempts rejected s (g.0 id ∙ k) g.2.0 in
      unchanged-Good image_terminal s s' _ g e left.0 kept
  image_record-Good id attempts retry s k honest g =
      let (s', e, left, kept) = image_record-Leaves env id attempts retry s (g.0 id ∙ k) g.2.0 in
      unchanged-Good image_retry s s' _ g e left.0 kept

  embed_on-Good :
      (id : ℕ) (step : ImageStep) (s s' : EnrichState)
      → known id ≡ true
      → IsGood s
      → Steps id s s' step
      → Good (embed_on env id step s')
  unfolding embed_on
  embed_on-Good id (settled leg) s s' k g (same, left, kept) =
      unchanged-Good leg s s' _ g refl same kept
  embed_on-Good id (embed_jpeg jpeg attempts) s s' k g same =
      subst (λ t. Good (image_record env id attempts (env.embed_image id jpeg) t)) (sym same)
        (image_record-Good id attempts (env.embed_image id jpeg) s k (honest_image id jpeg) g)

  pub image_leg-Good :
      (id : ℕ) (ts : Option ℤ) (token : Text) (s : EnrichState)
      → known id ≡ true
      → IsGood s
      → Good (image_leg env id ts token s)
  unfolding image_leg
  image_leg-Good id ts token s k g =
      let (step, s1, e, went) = image_step-After env id ts token s (g.0 id ∙ k) in
      let (leg, s2, e', g') = embed_on-Good id step s s1 k g went in (leg, s2, rw e e', g')
