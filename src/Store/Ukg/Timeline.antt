-- ===== src/Store/Ukg/Timeline.antt =====
-- crates/precall-store/src/ukg.rs: the timeline page and the filter of the semantic searches. Of
-- rows with one time stamp the timeline returns the earlier inserted first here; SQL leaves that
-- open.
pub mod Page
pub mod Apps
pub mod Filters
use pre_call.Prelude.{
  ℕ, Text, Bool, true, false, ◌&&◌, ◌||◌, List, [], ◌∷◌, ◌++◌, Option, none, some, map, filter, any,
  ◌==◌, leb, ltb, bytes_eq, if◌then◌else◌,
}
use pre_call.Prelude.Int.{ℤ, pos, leb_ℤ, ltb_ℤ}
use pre_call.Proto.Metadata.{AppRecord}
use pre_call.Store.Sql.{select_rows}
use pre_call.Store.Ukg.Tables.{CaptureRow, Linked, Relation, Stored, Ukg}

pub record TimelineEntry : Type 0 where
  pub id : ℕ
  pub name : Option Text
  pub image_token : Option Text
  pub window_title : Option Text
  pub window_bounds : Option Text
  pub timestamp_100ns : ℤ
  pub activation_uri : Option Text
  pub fallback_uri : Option Text
  pub apps : List Text

-- The join of the relations of one capture with "App".
unfoldable pub linked_apps : List Relation → ℕ → List (Stored AppRecord) → List AppRecord
linked_apps [] wc_id rows = []
linked_apps (r ∷ rest) wc_id rows =
    let later = linked_apps rest wc_id rows in
    if r.capture_id == wc_id
    then map (λ (a : Stored AppRecord). a.content)
        (filter (λ (a : Stored AppRecord). a.id == r.other_id) rows)
      ++ later
    else later

unfoldable pub capture_app_names : ℕ → Ukg → List Text
unfolding linked_apps
capture_app_names wc_id db =
    map (λ (a : AppRecord). a.name) (linked_apps db.apps.relations wc_id db.apps.rows)

unfoldable pub timeline_entry : Ukg → CaptureRow → TimelineEntry
unfolding capture_app_names
timeline_entry db w = record {
  id = w.id;
  name = some w.name;
  image_token = w.image_token;
  window_title = some w.window_title;
  window_bounds = some w.window_bounds;
  timestamp_100ns = w.time_stamp;
  activation_uri = w.activation_uri;
  fallback_uri = w.fallback_uri;
  apps = capture_app_names w.id db;
}

abbrev pub i64_max : ℤ
i64_max = pos 9223372036854775807

unfoldable pub before_or_max : Option ℤ → ℤ
before_or_max none = i64_max
before_or_max (some t) = t

-- ORDER BY "TimeStamp" DESC
unfoldable pub is_newer : CaptureRow → CaptureRow → Bool
is_newer w v = leb_ℤ v.time_stamp w.time_stamp

unfoldable pub timeline_rows : Option ℤ → ℤ → Ukg → List CaptureRow
unfolding select_rows is_newer before_or_max
timeline_rows before_100ns limit db =
    select_rows is_newer (λ (w : CaptureRow). ltb_ℤ w.time_stamp (before_or_max before_100ns)) limit
      db.captures

unfoldable pub timeline : Option ℤ → ℤ → Ukg → List TimelineEntry
unfolding timeline_rows timeline_entry
timeline before_100ns limit db = map (timeline_entry db) (timeline_rows before_100ns limit db)

unfoldable pub is_from : Option ℤ → ℤ → Bool
is_from none t = true
is_from (some s) t = leb_ℤ s t

unfoldable pub is_until : Option ℤ → ℤ → Bool
is_until none t = true
is_until (some e) t = leb_ℤ t e

-- a."Path" IN (…) OR a."Name" IN (…)
unfoldable pub is_app_of : List Text → AppRecord → Bool
is_app_of app_filter a =
    (elim a.path [ none ↦ false | some p ↦ any (bytes_eq p) app_filter ])
    || any (bytes_eq a.name) app_filter

unfoldable pub uses_app : List Text → Ukg → ℕ → Bool
unfolding linked_apps is_app_of
uses_app [] db wc_id = true
uses_app (f ∷ fs) db wc_id =
    any (is_app_of (f ∷ fs)) (linked_apps db.apps.relations wc_id db.apps.rows)

unfoldable pub passes : Option ℤ → Option ℤ → List Text → Ukg → CaptureRow → Bool
unfolding is_from is_until uses_app
passes start_100ns end_100ns app_filter db w =
    is_from start_100ns w.time_stamp
    && (is_until end_100ns w.time_stamp && uses_app app_filter db w.id)

-- The set of the ids, as their list.
unfoldable pub capture_ids_matching_filters :
    Option ℤ → Option ℤ → List Text → Ukg → Option (List ℕ)
unfolding passes
capture_ids_matching_filters none none [] db = none
capture_ids_matching_filters start_100ns end_100ns app_filter db = some (
    map (λ (w : CaptureRow). w.id)
      (filter (passes start_100ns end_100ns app_filter db) db.captures))
