-- ===== src/Api/Enrich/Texts.antt =====
-- The text leg.
use pre_call.Prelude.{
  ℕ, ◌+◌, Text, codes, Bool, true, false, not, List, [], ◌∷◌, ◌++◌, none, some, Result, ok, err,
  ◌>>=◌, if◌then◌else◌,
}
use pre_call.Store.Ukg.Tables.{RegionRow}
use pre_call.Store.Ukg.Rows.{set_config, attach_topic, regions_of}
use pre_call.Store.Ukg.Queues.{mark_all_unprocessed}
use pre_call.Store.Semantic.{
  SemanticIndex, SemanticError, item_id_for_capture, has_item, insert, clear, set_space_id,
}
use pre_call.Api.Embed.{EmbedOutcome, embedded, disabled, rejected, retry}
use pre_call.Api.Enrich.{
  EnrichState, EnrichEnv, usable, space_mismatch, text_unavailable, write_ukg,
}

-- The texts that are there, with a blank between them: of these, the first is read already.
unfoldable pub join_from : Text → List RegionRow → Text
join_from text [] = text
join_from text (r ∷ rest) = elim r.ocr_text [
  | none ↦ join_from text rest
  | some t ↦ join_from (text ++ (0x20 ∷ t)) rest
]

unfoldable pub join_ocr : List RegionRow → Text
unfolding join_from
join_ocr [] = []
join_ocr (r ∷ rest) = elim r.ocr_text [ none ↦ join_ocr rest | some t ↦ join_from t rest ]

unfoldable pub is_empty_text : Text → Bool
is_empty_text [] = true
is_empty_text (c ∷ cs) = false

unfoldable pub attach_topics : ℕ → List (Text × Text) → EnrichState → Result EnrichState EnrichState
unfolding attach_topic write_ukg
attach_topics id [] s = ok s
attach_topics id ((label, score) ∷ rest) s = do
  s' ← write_ukg (attach_topic id label score s.ukg) s
  attach_topics id rest s'

unfoldable pub rebuilt_texts : Text → EnrichState → EnrichState
unfolding space_mismatch clear mark_all_unprocessed
rebuilt_texts space s =
    if space_mismatch s.texts space
    then record s { texts = clear s.texts; ukg = mark_all_unprocessed s.ukg }
    else s

unfoldable pub labelled_texts : Text → EnrichState → EnrichState
unfolding set_space_id
labelled_texts space s = record s { texts = set_space_id space s.texts }

unfoldable pub insert_text :
    Result SemanticError (ℕ × SemanticIndex) → EnrichState → Result EnrichState EnrichState
insert_text (ok (embedding_id, texts)) s = ok (record s {
  texts = texts;
  stats = record s.stats { text_embeddings = s.stats.text_embeddings + 1 };
})
insert_text (err e) s = err s

module _ (env : EnrichEnv) where
  -- Is the text to be retried?
  unfoldable pub text_record :
      ℕ → EmbedOutcome → EnrichState → Result EnrichState (Bool × EnrichState)
  unfolding usable rebuilt_texts labelled_texts insert_text set_config
  text_record id (embedded embedding space) s =
      let ready = labelled_texts space (rebuilt_texts space s) in
      if not (usable embedding env.dim) then ok (false, s) else do
        s' ← insert_text (insert (item_id_for_capture id) none none embedding ready.texts) ready
        ok (false, s')
  text_record id disabled s =
      ok (false, record s { ukg = set_config text_unavailable (codes "1") s.ukg })
  text_record id rejected s = ok (false, s)
  text_record id retry s =
      ok (true, record s { stats = record s.stats { texts_pending = s.stats.texts_pending + 1 } })

  -- Topics are attached unless the text is to be retried.
  unfoldable pub topics_after :
      ℕ → Text → Bool → EnrichState → Result EnrichState (Bool × EnrichState)
  unfolding attach_topics
  topics_after id text true s = ok (true, s)
  topics_after id text false s = do s' ← attach_topics id (env.topics id text) s; ok (false, s')

  unfoldable pub embed_if_absent :
      Result SemanticError Bool → ℕ → Text → EnrichState → Result EnrichState (Bool × EnrichState)
  unfolding text_record topics_after
  embed_if_absent (err e) id text s = err s
  embed_if_absent (ok true) id text s = ok (false, s)
  embed_if_absent (ok false) id text s = do
    (text_retry, s') ← text_record id (env.embed_text id text) s
    topics_after id text text_retry s'

  unfoldable pub text_leg : ℕ → EnrichState → Result EnrichState (Bool × EnrichState)
  unfolding join_ocr is_empty_text embed_if_absent
  text_leg id s =
      let text = join_ocr (regions_of id s.ukg) in
      if is_empty_text text
      then ok (false, s)
      else embed_if_absent (has_item (item_id_for_capture id) s.texts) id text s
