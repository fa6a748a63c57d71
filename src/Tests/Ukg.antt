-- ===== src/Tests/Ukg.antt =====
-- The metadata database at concrete rows.
use pre_call.Prelude.{
  ℕ, ◌≡◌, ◌≢◌, ◌↔◌, refl, inl, codes, Bool, true, false, List, [], ◌∷◌, none, some, Text, Option,
  ltb, All, ◌∈◌, ◌⊎◌, length, none-some, sym, arith,
}
use pre_call.Prelude.Int.{pos, ◌-ℤ◌, ◌≤ℤ◌}
use pre_call.Proto.Metadata.{WindowCaptureRecord}
use pre_call.Store.Sql.Laws.{IsSortedBy}
use pre_call.Store.Ukg.Tables.{TextIndexRow, CaptureRow, Ukg, empty}
use pre_call.Store.Ukg.Ingest.{find_token, insert_capture}
use pre_call.Store.Ukg.Ingest.Idempotent.{insert_capture_idem}
use pre_call.Store.Ukg.Queues.{
  attempt_of, embedding_of, captures_needing_image_embedding, captures_pending_enrichment,
  touch_enrich_attempt, image_embedding_state,
}
use pre_call.Store.Ukg.Queues.Fair.{
  IsBefore, IsDue, IsServed, captures_needing_image_embedding-IsServed,
}
use pre_call.Store.Ukg.Queues.Pacing.{touch_enrich_attempt-pacing}
use pre_call.Store.Ukg.Timeline.{
  capture_app_names, timeline, timeline_rows, capture_ids_matching_filters, passes,
}
use pre_call.Store.Ukg.Timeline.Page.{IsOlder, timeline_rows-IsPage}
use pre_call.Store.Ukg.Timeline.Filters.{IsAllowed, capture_ids_matching_filters_iff}
use pre_call.Store.Ukg.Rows.{regions_of, get_config}
use pre_call.Store.Ukg.Listings.{app_dwell_rows, web_dwell_rows, app_entries}
use pre_call.Store.Ukg.Hits.{search_fts}
use pre_call.Store.Ukg.Wipe.{IsForgotten, purge_all, purge_all-forgets}

abbrev pub notepad : WindowCaptureRecord
notepad = record {
  name = codes "notepad.exe (7)";
  image_token = codes "tok-1";
  is_foreground = true;
  window_id = pos 11;
  window_bounds = codes "0,0,640,480";
  window_title = codes "notes";
  properties = none;
  timestamp_100ns = 133000000000000000;
  activation_uri = none;
  activity_id = none;
  fallback_uri = none;
  apps =
      record {
        windows_app_id = none;
        icon_uri = none;
        name = codes "notepad.exe";
        path = none;
        properties = none;
      }
      ∷ [];
  files = [];
  webs = [];
  regions = [];
}

abbrev row : ℕ → Bool → ℕ → CaptureRow
row id processed t = record {
  id = id;
  name = [];
  image_token = some (id ∷ []);
  is_foreground = true;
  window_id = pos 1;
  window_bounds = [];
  window_title = [];
  properties = none;
  time_stamp = pos t;
  is_processed = processed;
  activation_uri = none;
  activity_id = none;
  fallback_uri = none;
}

-- Two processed captures and a fresh one; the first processed one was attempted at 100.
abbrev three : Ukg
three = record empty {
  captures = row 1 true 10 ∷ row 2 true 20 ∷ row 3 false 20 ∷ [];
  next_capture = 4;
  enrich_attempts = record { capture_id = 1; updated_at = pos 100 } ∷ [];
}

queue_order :
    captures_needing_image_embedding (pos 64) (pos 500) (pos 60) three
    ≡ row 2 true 20 ∷ row 1 true 10 ∷ []
unfolding captures_needing_image_embedding ◌-ℤ◌
queue_order = refl

insert_capture_idem_example :
    insert_capture notepad (insert_capture notepad three).1 ≡ insert_capture notepad three
insert_capture_idem_example = insert_capture_idem notepad three

captures_needing_image_embedding-IsServed_example :
    IsServed three
      (row 1 true 10)
      1
      (captures_needing_image_embedding (pos 1) (pos 500) (pos 60) three)
    × IsSortedBy
        (IsBefore three)
        (captures_needing_image_embedding (pos 1) (pos 500) (pos 60) three)
    × All
        (λ v. (v ∈ three.captures) × IsDue (pos 500 -ℤ pos 60) three v)
        (captures_needing_image_embedding (pos 1) (pos 500) (pos 60) three)
unfolding ◌-ℤ◌ embedding_of attempt_of
captures_needing_image_embedding-IsServed_example =
    captures_needing_image_embedding-IsServed 1 (pos 500) (pos 60) three (row 1 true 10) (inl refl)
      (λ e. none-some (sym e), refl, omega arith, omega arith)

abbrev noted : Ukg
noted = record three { enrich_attempts = record { capture_id = 1; updated_at = pos 500 } ∷ [] }

touch_enrich_attempt-pacing_example :
    All (λ w. w.id ≢ 1) (captures_needing_image_embedding (pos 64) (pos 510) (pos 60) noted)
    × All (λ w. w.id ≢ 1) (captures_pending_enrichment (pos 64) (pos 510) (pos 60) noted)
touch_enrich_attempt-pacing_example =
    touch_enrich_attempt-pacing 1 (pos 500) (pos 510) (pos 60) (pos 64) three noted
      (unfold touch_enrich_attempt in refl) (unfold ◌-ℤ◌ in refl)

timeline_rows-IsPage_example :
    IsSortedBy (λ u v. v.time_stamp ≤ℤ u.time_stamp) (timeline_rows none (pos 2) three)
    × All (λ v. (v ∈ three.captures) × IsOlder none v) (timeline_rows none (pos 2) three)
    × ((row 1 true 10 ∈ timeline_rows none (pos 2) three)
        ⊎ ((length (timeline_rows none (pos 2) three) ≡ 2)
            × All (λ v. pos 10 ≤ℤ v.time_stamp) (timeline_rows none (pos 2) three)))
timeline_rows-IsPage_example =
    timeline_rows-IsPage none 2 three (row 1 true 10) (inl refl) (omega arith)

abbrev late : List ℕ
late = 2 ∷ 3 ∷ []

capture_ids_matching_filters_iff_example :
    ◌∈◌ {A = ℕ} 3 late ↔ IsAllowed (some (pos 15)) none [] three 3
capture_ids_matching_filters_iff_example =
    capture_ids_matching_filters_iff (some (pos 15)) none [] three late 3
      (unfold capture_ids_matching_filters passes in refl)

-- Every row of the text index matches.
abbrev any_match : Text → TextIndexRow → Option (Text × ℕ)
any_match query row = some (query, 1)

purge_all-forgets_example :
    IsForgotten (purge_all three)
    × (captures_needing_image_embedding (pos 64) (pos 500) (pos 60) (purge_all three) ≡ [])
    × (captures_pending_enrichment (pos 64) (pos 500) (pos 60) (purge_all three) ≡ [])
    × (timeline none (pos 64) (purge_all three) ≡ [])
    × (search_fts any_match ltb (λ x. x) (codes "a") none none [] none (purge_all three) ≡ [])
    × (app_dwell_rows (purge_all three) ≡ [])
    × (web_dwell_rows (purge_all three) ≡ [])
    × (find_token (1 ∷ []) (purge_all three).captures ≡ none)
    × (regions_of 1 (purge_all three) ≡ [])
    × (capture_app_names 1 (purge_all three) ≡ [])
    × (image_embedding_state 1 (purge_all three) ≡ none)
    × (app_entries (purge_all three) ≡ app_entries three)
    × ((purge_all three).webs.rows ≡ three.webs.rows)
    × (get_config (codes "k") (purge_all three) ≡ get_config (codes "k") three)
purge_all-forgets_example =
    purge_all-forgets any_match ltb (λ x. x) (codes "a") none none none [] none three (pos 64)
      (pos 500) (pos 60) (1 ∷ []) (codes "k") 1
