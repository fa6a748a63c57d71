-- ===== src/Api/Routes.antt =====
-- crates/precall-api/src/routes.rs: the routes but `search`. The answers are the values that
-- their JSON is made from; an error is its kind. A time stamp is never NULL.
pub mod Snapshot
pub mod Live
pub mod Export
use pre_call.Prelude.{
  ℕ, zero, suc, Text, codes, Bool, true, false, not, ◌||◌, ◌&&◌, List, [], ◌∷◌, ◌++◌, Option, none,
  some, Result, ok, err, ◌>>=◌, map, filter, any, bytes_eq, ◌==◌, leb, ltb, length, if◌then◌else◌,
}
use pre_call.Prelude.Int.{ℤ, pos, ltb_ℤ}
use pre_call.Store.Sql.{select_rows}
use pre_call.Store.Objects.{
  ObjectStore, ObjectKey, ObjectError, key_path, ymd_from_filetime, exists, get, purge_client,
}
use pre_call.Store.Ukg.Tables.{Ukg, CaptureRow, RegionRow, DwellRow, ClientRow}
use pre_call.Store.Ukg.Rows.{find_capture, capture_timestamp, regions_of}
use pre_call.Store.Ukg.Timeline.{TimelineEntry, timeline}
use pre_call.Store.Ukg.Listings.{AppEntry, app_entries, app_dwell_rows, web_dwell_rows, client_rows}
use pre_call.Store.Ukg.Wipe.{purge_all}

pub data RouteError : Type 0 where
  bad_client not_found internal : RouteError
  object_error : ObjectError → RouteError

-- What the data directory holds of a client.
pub record ClientStores : Type 0 where
  pub db : Ukg
  pub objects : ObjectStore

pub record Directory : Type 0 where
  -- the hyphenated form of the id
  pub name : Text
  pub stores : ClientStores

-- The UUID parser, with the hyphenated form of what it reads, and what the object store is given.
pub record RouteEnv : Type 0 where
  pub parse_uuid : Text → Option Text
  pub is_alphanumeric : ℕ → Bool
  pub encrypt : List ℕ → List ℕ → List ℕ → List ℕ → List ℕ
  pub decrypt : List ℕ → List ℕ → List ℕ → List ℕ → Option (List ℕ)
  pub is_under : Text → Text → Bool
  pub object_key : List ℕ

unfoldable pub find_directory : Text → List Directory → Result RouteError ClientStores
find_directory name [] = err not_found
find_directory name (d ∷ ds) =
    let later = find_directory name ds in if bytes_eq d.name name then ok d.stores else later

-- `limit.unwrap_or(50).clamp(1, 500)`
unfoldable pub page_limit : Option ℤ → ℤ
page_limit none = pos 50
page_limit (some n) = if ltb_ℤ n (pos 1) then pos 1 else if ltb_ℤ (pos 500) n then pos 500 else n

-- `query_row` with `optional`: no row is no token, and NULL is an error of the column's type.
abbrev pub not_null : Option Text → Result RouteError Text
not_null none = err internal
not_null (some token) = ok token

unfoldable pub token_of : Option CaptureRow → Result RouteError Text
token_of none = err not_found
token_of (some w) = not_null w.image_token

unfoldable pub time_of : Option ℤ → Result RouteError ℤ
time_of none = err not_found
time_of (some t) = ok t

-- Some URI of a capture that is there.
unfoldable pub uris_of : Option CaptureRow → Result RouteError (Option Text × Option Text)
uris_of none = err not_found
uris_of (some w) = elim w.activation_uri [
  | some a ↦ ok (some a, w.fallback_uri)
  | none ↦ elim w.fallback_uri [ some f ↦ ok (none, some f) | none ↦ err not_found ]
]

unfoldable pub last_time : TimelineEntry → List TimelineEntry → ℤ
last_time e [] = e.timestamp_100ns
last_time e (f ∷ fs) = last_time f fs

-- The pages of the export until one is empty, each below the last time stamp of the one before.
-- Fuel: one round for each capture and one more.
unfoldable pub add_page :
    Ukg
    → List TimelineEntry
    → Option (List (TimelineEntry × List RegionRow))
    → Option (List (TimelineEntry × List RegionRow))
unfolding regions_of
add_page db page none = none
add_page db page (some rest) =
    some (map (λ (x : TimelineEntry). (x, regions_of x.id db)) page ++ rest)

unfoldable pub export_page :
    Ukg
    → List TimelineEntry
    → (Option ℤ → Option (List (TimelineEntry × List RegionRow)))
    → Option (List (TimelineEntry × List RegionRow))
unfolding add_page last_time
export_page db [] next = some []
export_page db (e ∷ es) next = add_page db (e ∷ es) (next (some (last_time e es)))

unfoldable pub export_from : ℕ → Option ℤ → Ukg → Option (List (TimelineEntry × List RegionRow))
unfolding export_page timeline
export_from zero before db = none
export_from (suc fuel) before db =
    export_page db (timeline before (pos 500) db) (λ cursor. export_from fuel cursor db)

unfoldable pub export : Ukg → Option (List (TimelineEntry × List RegionRow))
unfolding export_from
export db = export_from (suc (length db.captures)) none db

-- The clients in server.db.
unfoldable pub clients : Ukg → List ClientRow
unfolding client_rows
clients server = client_rows server

module _ (env : RouteEnv) where
  unfoldable pub client_of : Option Text → List Directory → Result RouteError ClientStores
  unfolding find_directory
  client_of none root = err bad_client
  client_of (some name) root = find_directory name root

  -- `client_db` and `client_dir`
  unfoldable pub client_stores : Text → List Directory → Result RouteError ClientStores
  unfolding client_of
  client_stores client root = client_of (env.parse_uuid client) root

  unfoldable pub timeline_route :
      Text → Option ℤ → Option ℤ → List Directory → Result RouteError (List TimelineEntry)
  unfolding client_stores page_limit timeline
  timeline_route client before limit root = do
    s ← client_stores client root
    ok (timeline before (page_limit limit) s.db)

  unfoldable pub regions_route : Text → ℕ → List Directory → Result RouteError (List RegionRow)
  unfolding client_stores regions_of
  regions_route client id root = do s ← client_stores client root; ok (regions_of id s.db)

  unfoldable pub apps_route :
      Text → List Directory → Result RouteError (List AppEntry × List DwellRow)
  unfolding client_stores app_entries app_dwell_rows
  apps_route client root = do
    s ← client_stores client root
    ok (app_entries s.db, app_dwell_rows s.db)

  unfoldable pub web_route : Text → List Directory → Result RouteError (List DwellRow)
  unfolding client_stores web_dwell_rows
  web_route client root = do s ← client_stores client root; ok (web_dwell_rows s.db)

  unfoldable pub relaunch :
      Text → ℕ → List Directory → Result RouteError (Option Text × Option Text)
  unfolding client_stores uris_of find_capture
  relaunch client id root = do
    s ← client_stores client root
    uris_of (find_capture id s.db.captures)

  unfoldable pub served : Bool → Result ObjectError (List ℕ) → Result RouteError (Bool × List ℕ)
  served is_jpeg (ok bytes) = ok (is_jpeg, bytes)
  served is_jpeg (err e) = err (object_error e)

  -- The loop over the two extensions; the answer says whether it is a JPEG.
  unfoldable pub serve_object : Text → ℤ → Text → ObjectStore → Result RouteError (Bool × List ℕ)
  serve_object client ts token objects =
      let jpg = key_path env.is_alphanumeric client (ymd_from_filetime ts) token (codes "jpg") in
      let raw = key_path env.is_alphanumeric client (ymd_from_filetime ts) token (codes "raw") in
      if exists jpg objects
      then served true
          (get env.is_alphanumeric env.encrypt env.decrypt env.is_under client jpg token objects)
      else if exists raw objects
      then served false
          (get env.is_alphanumeric env.encrypt env.decrypt env.is_under client raw token objects)
      else err not_found

  -- `ObjectStore::encrypted` on the directory: the files that are there, with the API's own key,
  -- whether or not the broker has encrypted them.
  unfoldable pub encrypted : ObjectStore → ObjectStore
  encrypted objects = record objects { cipher = some env.object_key }

  unfoldable pub snapshot : Text → ℕ → List Directory → Result RouteError (Bool × List ℕ)
  unfolding encrypted
  snapshot client id root = do
    s ← client_stores client root
    token ← token_of (find_capture id s.db.captures)
    ts ← time_of (capture_timestamp id s.db)
    serve_object client ts token (encrypted s.objects)

  unfoldable pub put_stores : Text → ClientStores → List Directory → List Directory
  put_stores name stores [] = []
  put_stores name stores (d ∷ ds) =
      let later = put_stores name stores ds in
      if bytes_eq d.name name then record d { stores = stores } ∷ ds else d ∷ later

  unfoldable pub wiped_stores : Text → ClientStores → ClientStores
  unfolding purge_client purge_all encrypted
  wiped_stores client s = record {
    db = purge_all s.db;
    objects = record s.objects { objects = (purge_client client (encrypted s.objects)).objects };
  }

  unfoldable pub wipe_on : Option Text → Text → List Directory → Result RouteError (List Directory)
  unfolding find_directory wiped_stores put_stores
  wipe_on none client root = err bad_client
  wipe_on (some name) client root = do
    s ← find_directory name root
    ok (put_stores name (wiped_stores client s) root)

  -- The objects below the directory named as in the request, and the rows of the client's
  -- database.
  unfoldable pub wipe_client : Text → List Directory → Result RouteError (List Directory)
  unfolding wipe_on
  wipe_client client root = wipe_on (env.parse_uuid client) client root
