-- ===== src/Api/Enrich/TextSound.antt =====
-- The text leg of a capture keeps both indexes sound.
use pre_call.Prelude.{
  ℕ, ◌+◌, ◌≡◌, refl, sym, ap, ◌∙◌, subst, Text, codes, Bool, true, false, List, [], ◌∷◌, none,
  Result, ok, if◌then◌else◌, ◌==◌, ==_iff, length, Bool-cases, inl, inr,
}
use pre_call.Store.Ukg.Rows.{set_config, regions_of}
use pre_call.Store.Ukg.Queues.{has_capture}
use pre_call.Store.Semantic.{
  SemanticIndex, item_id_for_capture, has_item, insert, inserted, set_space_id, clear,
}
use pre_call.Store.Semantic.Search.{Entry}
use pre_call.Api.Embed.{EmbedOutcome, embedded, disabled, rejected, retry}
use pre_call.Api.Enrich.{EnrichState, EnrichEnv, usable, space_mismatch, text_unavailable}
use pre_call.Api.Enrich.Texts.{
  attach_topics, rebuilt_texts, labelled_texts, insert_text, text_record, topics_after,
  embed_if_absent, text_leg, join_ocr, is_empty_text,
}
use pre_call.Api.Enrich.Outcomes.{length-item_id_for_capture}
use pre_call.Api.Enrich.Step.{has_item-ok}
use pre_call.Api.Enrich.Spaces.{readied-IsSound, insert-IsSound}
use pre_call.Api.Enrich.Captures.{
  attach_topic-Written, set_config-captures, mark_all_unprocessed-captures,
}
use pre_call.Api.Enrich.Sound.{IsHonest, IsGood, Good, insert_ok}

-- The captures, the image index and the text index before an insertion of a text.
pub ready_texts :
    (space : Text) (s : EnrichState)
    → ((id : ℕ)
        → has_capture id (labelled_texts space (rebuilt_texts space s)).ukg ≡ has_capture id s.ukg)
      × ((labelled_texts space (rebuilt_texts space s)).images ≡ s.images)
      × ((labelled_texts space (rebuilt_texts space s)).texts
          ≡ set_space_id space (if space_mismatch s.texts space then clear s.texts else s.texts))
unfolding labelled_texts rebuilt_texts
ready_texts space s = elim (Bool-cases (space_mismatch s.texts space)) [
  | inl e ↦ rw e (mark_all_unprocessed-captures s.ukg, refl, refl)
  | inr e ↦ rw e (λ i. refl, refl, refl)
]

module _ (env : EnrichEnv) (TextFrom ImageFrom : Text → Entry → Type 0)
    (honest_text : (id : ℕ) (text : Text) → IsHonest TextFrom id (env.embed_text id text))
    (honest_image : (id : ℕ) (jpeg : List ℕ) → IsHonest ImageFrom id (env.embed_image id jpeg))
    (known : ℕ → Bool) where
  abbrev Fine : EnrichState → Type 0
  Fine s = IsGood env TextFrom ImageFrom honest_text honest_image known s

  abbrev Ends : {A : Type 0} → Result EnrichState (A × EnrichState) → Type 0
  Ends r = Good env TextFrom ImageFrom honest_text honest_image known r

  attach_topics-Good :
      (id : ℕ) (ts : List (Text × Text)) (s : EnrichState)
      → known id ≡ true
      → Fine s
      → (s' : EnrichState) × (attach_topics id ts s ≡ ok s') × Fine s'
  unfolding attach_topics
  attach_topics-Good id [] s k g = (s, refl, g)
  attach_topics-Good id ((label, score) ∷ rest) s k (caps, texts, images) =
      let (db, e, same) = attach_topic-Written id label score s (caps id ∙ k) in
      let (s', e', g') =
        attach_topics-Good id rest (record s { ukg = db }) k
          (λ i. same i ∙ caps i, texts, images) in
      (s', rw e e', g')

  text_embedded-Good :
      (id : ℕ) (embedding : List ℕ) (space : Text) (s : EnrichState)
      → IsHonest TextFrom id (embedded embedding space)
      → Fine s
      → length embedding ≡ env.dim
      → Ends (text_record env id (embedded embedding space) s)
  unfolding text_record usable insert_text
  text_embedded-Good id embedding space s (named, from) (caps, texts, images) width =
      let ready = labelled_texts space (rebuilt_texts space s) in
      let item = item_id_for_capture id in
      let (kept, same_images, same) = ready_texts space s in
      let r : ℕ × SemanticIndex =
        (ready.texts.next_graph, inserted item none none embedding ready.texts) in
      let wide : length embedding ≡ ready.texts.dim =
        width
        ∙ sym (
            ap (λ (i : SemanticIndex). i.dim) same
            ∙ (readied-IsSound TextFrom env.dim space s.texts texts).0) in
      let fits : insert item none none embedding ready.texts ≡ ok r =
        insert_ok item embedding ready.texts wide (length-item_id_for_capture id) in
      (
        false,
        record ready {
          texts = r.1;
          stats = record ready.stats { text_embeddings = ready.stats.text_embeddings + 1 };
        },
        rw ((==_iff (length embedding) env.dim).1 width, fits) refl,
        (
          λ i. kept i ∙ caps i,
          insert-IsSound TextFrom env.dim id space embedding s.texts r texts named from
              (subst (λ idx. insert item none none embedding idx ≡ ok r) same fits),
          rw same_images images,
        ),
      )

  text_record-Good :
      (id : ℕ) (outcome : EmbedOutcome) (s : EnrichState)
      → IsHonest TextFrom id outcome
      → Fine s
      → Ends (text_record env id outcome s)
  unfolding text_record usable
  text_record-Good id (embedded embedding space) s honest g =
      elim (Bool-cases (length embedding == env.dim)) [
        | inl w ↦
            text_embedded-Good id embedding space s honest g
              ((==_iff (length embedding) env.dim).0 w)
        | inr w ↦ rw w (false, s, refl, g)
      ]
  text_record-Good id disabled s honest (caps, texts, images) = (
    false,
    record s { ukg = set_config text_unavailable (codes "1") s.ukg },
    refl,
    (λ i. set_config-captures text_unavailable (codes "1") s.ukg i ∙ caps i, texts, images),
  )
  text_record-Good id rejected s honest g = (false, s, refl, g)
  text_record-Good id retry s honest g = (
    true,
    record s { stats = record s.stats { texts_pending = s.stats.texts_pending + 1 } },
    refl,
    g,
  )

  topics_after-Good :
      (id : ℕ) (text : Text) (text_retry : Bool) (s : EnrichState)
      → known id ≡ true
      → Fine s
      → Ends (topics_after env id text text_retry s)
  unfolding topics_after
  topics_after-Good id text true s k g = (true, s, refl, g)
  topics_after-Good id text false s k g =
      let (s', e, g') = attach_topics-Good id (env.topics id text) s k g in
      (false, s', rw e refl, g')

  pub text_leg-Good :
      (id : ℕ) (s : EnrichState) → known id ≡ true → Fine s → Ends (text_leg env id s)
  unfolding text_leg
  text_leg-Good id s k g =
      let text = join_ocr (regions_of id s.ukg) in
      elim (Bool-cases (is_empty_text text)) [
        | inl e ↦ rw e (false, s, refl, g)
        | inr e ↦ rw e (asked text (has_item-ok id s.texts))
      ]
    where
      asked :
          (text : Text)
          → (b : Bool) × (has_item (item_id_for_capture id) s.texts ≡ ok b)
          → Ends (embed_if_absent env (has_item (item_id_for_capture id) s.texts) id text s)
      asked text (true, e) = rw e (unfold embed_if_absent in (false, s, refl, g))
      asked text (false, e) =
          let (text_retry, s1, e1, g1) =
            text_record-Good id (env.embed_text id text) s (honest_text id text) g in
          let (b, s2, e2, g2) = topics_after-Good id text text_retry s1 k g1 in
          (b, s2, rw e (unfold embed_if_absent in rw e1 e2), g2)
