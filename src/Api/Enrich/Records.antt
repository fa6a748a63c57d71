-- ===== src/Api/Enrich/Records.antt =====
-- What `image_record` leaves behind.
use pre_call.Prelude.{
  ℕ, ◌+◌, ◌≡◌, refl, sym, ap, ◌∙◌, Text, codes, true, List, Option, none, ok, ◌==◌, ==_iff, length,
  bytes_eq, Bool-cases, inl, inr, arith,
}
use pre_call.Prelude.Int.{ℤ, pos, ◌+ℤ◌}
use pre_call.Store.Ukg.Tables.{done}
use pre_call.Store.Ukg.Rows.{set_config}
use pre_call.Store.Ukg.Rows.Laws.{get_config-set_config}
use pre_call.Store.Ukg.Queues.{has_capture, reset_image_embedding_states}
use pre_call.Store.Semantic.{
  SemanticIndex, item_id_for_capture, insert, inserted, clear, set_space_id, ensure_info,
}
use pre_call.Store.Semantic.Items.{has_item-insert}
use pre_call.Api.Embed.{EmbedOutcome, embedded, disabled, rejected, retry}
use pre_call.Api.Enrich.{
  EnrichState, EnrichEnv, image_done, usable, image_unavailable_key, flag_set, is_one,
}
use pre_call.Api.Enrich.Image.{
  was_done, count_skipped, rebuilt_images, labelled_images, insert_image, record_done,
  record_embedded, image_record,
}
use pre_call.Api.Enrich.Outcomes.{
  noted, note_state-noted, image_embedding_state-noted, verdict, Leaves, Keeps, After,
  give_up-Leaves, put_off-Leaves, length-item_id_for_capture,
}

-- The index before the insertion: the one there was, or an empty one if its space is another.
abbrev pub ready_images : Text → EnrichState → SemanticIndex
ready_images space s = (labelled_images space (rebuilt_images space s)).images

pub dim-ready_images : (space : Text) (s : EnrichState) → (ready_images space s).dim ≡ s.images.dim
unfolding labelled_images rebuilt_images clear set_space_id ensure_info
dim-ready_images space s = ground arith

pub has_capture-ready :
    (space : Text) (s : EnrichState) (id : ℕ)
    → has_capture id (labelled_images space (rebuilt_images space s)).ukg ≡ has_capture id s.ukg
unfolding labelled_images rebuilt_images reset_image_embedding_states has_capture
has_capture-ready space s id = ground arith

pub texts-ready :
    (space : Text) (s : EnrichState)
    → (labelled_images space (rebuilt_images space s)).texts ≡ s.texts
unfolding labelled_images rebuilt_images
texts-ready space s = ground arith

pub dim-insert :
    (item_id : List ℕ) (region metadata : Option Text) (embedding : List ℕ) (db : SemanticIndex)
    (r : ℕ × SemanticIndex)
    → insert item_id region metadata embedding db ≡ ok r
    → r.1.dim ≡ db.dim
unfolding insert inserted
dim-insert item_id region metadata embedding db r h = ground arith

record_embedded-Leaves :
    (env : EnrichEnv) (id : ℕ) (attempts : ℤ) (embedding : List ℕ) (space : Text) (s : EnrichState)
    → has_capture id s.ukg ≡ true
    → length embedding ≡ s.images.dim
    → After id s image_done (record_embedded env id attempts embedding space s)
unfolding record_embedded record_done insert_image was_done
record_embedded-Leaves env id attempts embedding space s h k =
    let ready = labelled_images space (rebuilt_images space s) in
    let (r, inserted_ok, found) =
      has_item-insert (item_id_for_capture id) none none embedding ready.images
        (k ∙ sym (dim-ready_images space s)) (length-item_id_for_capture id) in
    let s' : EnrichState = record ready { images = r.1 } in
    let noted_ok =
      note_state-noted id done (attempts +ℤ pos 1) none (env.record_clock id) s'
        (has_capture-ready space s id ∙ h) in
    let s'' = noted id done (attempts +ℤ pos 1) none (env.record_clock id) s' in
    (
      record s'' { stats = record s''.stats { image_embeddings = s''.stats.image_embeddings + 1 } },
      rw (inserted_ok, noted_ok) refl,
      (
        found,
        ap was_done
            (image_embedding_state-noted id done (attempts +ℤ pos 1) none (env.record_clock id) s'),
      ),
      (
        has_capture-ready space s,
        texts-ready space s,
        dim-insert (item_id_for_capture id) none none embedding ready.images r inserted_ok
            ∙ dim-ready_images space s,
      ),
    )

count_disabled-Keeps :
    (s : EnrichState)
    → Keeps s
        (count_skipped (record s { ukg = set_config image_unavailable_key (codes "1") s.ukg }))
unfolding count_skipped set_config has_capture
count_disabled-Keeps s = (λ i. refl, refl, refl)

pub image_record-Leaves :
    (env : EnrichEnv) (id : ℕ) (attempts : ℤ) (outcome : EmbedOutcome) (s : EnrichState)
    → has_capture id s.ukg ≡ true
    → s.images.dim ≡ env.dim
    → (s' : EnrichState) × (image_record env id attempts outcome s
        ≡ ok (verdict env.dim outcome, s'))
      × Leaves id s s' (verdict env.dim outcome)
      × Keeps s s'
unfolding image_record verdict usable count_skipped flag_set bytes_eq
image_record-Leaves env id attempts (embedded embedding space) s h k =
    elim (Bool-cases (length embedding == env.dim)) [
      | inl e ↦ rw e (
          record_embedded-Leaves env id attempts embedding space s h
            ((==_iff (length embedding) env.dim).0 e ∙ sym k))
      | inr e ↦ rw e (
          give_up-Leaves id attempts (codes "embedder returned a wrong-width vector")
            (env.record_clock id) s h)
    ]
image_record-Leaves env id attempts disabled s h k = (
  count_skipped (record s { ukg = set_config image_unavailable_key (codes "1") s.ukg }),
  refl,
  (
    refl,
    ap is_one (get_config-set_config image_unavailable_key image_unavailable_key (codes "1") s.ukg),
  ),
  count_disabled-Keeps s,
)
image_record-Leaves env id attempts rejected s h k =
    give_up-Leaves id attempts (codes "embedder refused input") (env.record_clock id) s h
image_record-Leaves env id attempts retry s h k =
    put_off-Leaves id attempts (codes "embedder unavailable") (env.record_clock id) s h
