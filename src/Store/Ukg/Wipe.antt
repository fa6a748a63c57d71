-- ===== src/Store/Ukg/Wipe.antt =====
-- crates/precall-store/src/ukg.rs: `purge_all`, the panic button. The table "PrecallSyncState",
-- which it empties too, is written by no code of the repository.
use pre_call.Prelude.{ℕ, ◌≡◌, refl, ap, Text, Bool, true, List, [], Option, none, map}
use pre_call.Prelude.Int.{ℤ, pos, ltb_ℤ, ◌-ℤ◌}
use pre_call.Store.Ukg.Tables.{CaptureRow, TextIndexRow, Ukg}
use pre_call.Store.Ukg.Queues.{
  captures_needing_image_embedding, captures_pending_enrichment, image_embedding_state,
  embedding_of, precedes, needs_image, is_fresh,
}
use pre_call.Store.Ukg.Timeline.{
  timeline_entry, linked_apps, capture_app_names, timeline, timeline_rows, is_newer, before_or_max,
}
use pre_call.Store.Ukg.Listings.{starts_later, app_dwell_rows, web_dwell_rows, app_entries}
use pre_call.Store.Ukg.Hits.{fts_limit, fts_hit, matched_rows, is_ranked_before, search_fts}
use pre_call.Store.Sql.{select_rows}
use pre_call.Store.Sql.Laws.{select_rows-nil}
use pre_call.Store.Ukg.Ingest.{find_token}
use pre_call.Store.Ukg.Rows.{regions_of, get_config}

unfoldable pub purge_all : Ukg → Ukg
purge_all db = record db {
  topic_relations = [];
  apps = record db.apps { relations = [] };
  files = record db.files { relations = [] };
  webs = record db.webs { relations = [] };
  regions = [];
  text_index = [];
  captures = [];
  app_dwell = [];
  web_dwell = [];
  image_embeddings = [];
  enrich_attempts = [];
}

-- No table has a row that belongs to a capture or to the time spent on something.
abbrev pub IsForgotten : Ukg → Type 0
IsForgotten db =
    (db.captures ≡ [])
    × (db.text_index ≡ [])
    × (db.regions ≡ [])
    × (db.apps.relations ≡ [])
    × (db.files.relations ≡ [])
    × (db.webs.relations ≡ [])
    × (db.topic_relations ≡ [])
    × (db.app_dwell ≡ [])
    × (db.web_dwell ≡ [])
    × (db.image_embeddings ≡ [])
    × (db.enrich_attempts ≡ [])

-- After `purge_all` no table has a row that belongs to a capture or to a dwell time: neither
-- queue, no page of the timeline, no full-text search, no list of dwell times, no token, no
-- region, no application of a capture and no embedding state shows one, whatever the arguments.
-- The list of the applications, the sites and the configuration are as before.
pub purge_all-forgets :
    {Score : Type 0} (fts_match : Text → TextIndexRow → Option (Text × Score))
    (lower : Score → Score → Bool) (negate : Score → Score) (query : Text)
    (start end before : Option ℤ) (app_filter : List Text) (count : Option ℤ) (db : Ukg)
    (limit now backoff : ℤ) (token key : Text) (id : ℕ)
    → IsForgotten (purge_all db)
      × (captures_needing_image_embedding limit now backoff (purge_all db) ≡ [])
      × (captures_pending_enrichment limit now backoff (purge_all db) ≡ [])
      × (timeline before limit (purge_all db) ≡ [])
      × (search_fts fts_match lower negate query start end app_filter count (purge_all db) ≡ [])
      × (app_dwell_rows (purge_all db) ≡ [])
      × (web_dwell_rows (purge_all db) ≡ [])
      × (find_token token (purge_all db).captures ≡ none)
      × (regions_of id (purge_all db) ≡ [])
      × (capture_app_names id (purge_all db) ≡ [])
      × (image_embedding_state id (purge_all db) ≡ none)
      × (app_entries (purge_all db) ≡ app_entries db)
      × ((purge_all db).webs.rows ≡ db.webs.rows)
      × (get_config key (purge_all db) ≡ get_config key db)
unfolding purge_all captures_needing_image_embedding captures_pending_enrichment timeline
    timeline_rows find_token regions_of image_embedding_state embedding_of search_fts matched_rows
    app_dwell_rows web_dwell_rows capture_app_names linked_apps app_entries get_config select_rows
purge_all-forgets fts_match lower negate query start end before app_filter count db limit now
      backoff token key id =
    (
      (refl, refl, refl, refl, refl, refl, refl, refl, refl, refl, refl),
      select_rows-nil (precedes (purge_all db)) (needs_image (now -ℤ backoff) (purge_all db)) limit,
      select_rows-nil (precedes (purge_all db)) (is_fresh (now -ℤ backoff) (purge_all db)) limit,
      ap (map (timeline_entry (purge_all db))) (
          select_rows-nil {A = CaptureRow} is_newer
            (λ (w : CaptureRow). ltb_ℤ w.time_stamp (before_or_max before)) limit),
      ap (map (fts_hit fts_match lower negate (purge_all db)))
          (select_rows-nil (is_ranked_before fts_match lower negate) (λ r. true) (fts_limit count)),
      select_rows-nil starts_later (λ r. true) (pos 10000),
      select_rows-nil starts_later (λ r. true) (pos 10000),
      refl,
      refl,
      refl,
      refl,
      refl,
      refl,
      refl,
    )
