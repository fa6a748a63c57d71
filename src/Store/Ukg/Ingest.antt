-- ===== src/Store/Ukg/Ingest.antt =====
-- `insert_capture` with the upserts it makes.
pub mod Keys
pub mod Idempotent
use pre_call.Prelude.{
  ℕ, ◌+◌, ◌%◌, ◌^◌, Text, Bool, true, false, ◌&&◌, ◌||◌, List, [], ◌∷◌, ◌++◌, Option, none, some,
  any, ◌==◌, bytes_eq, trim, if◌then◌else◌,
}
use pre_call.Prelude.Int.{ℤ, pos, negsuc, ◌-ℤ◌, sub_ℕ}
use pre_call.Prelude.{ltb, ◌-◌}
use pre_call.Proto.Metadata.{
  AppRecord, FileRecord, WebRecord, ScreenRegionRecord, WindowCaptureRecord,
}
use pre_call.Store.Ukg.Tables.{
  CaptureRow, Stored, Linked, Relation, RegionRow, TextIndexRow, Ukg, text_is, if_null,
}

-- `u64 as i64`.
unfoldable pub as_i64 : ℕ → ℤ
as_i64 n = if ltb (n % 2 ^ 64) (2 ^ 63) then pos (n % 2 ^ 64) else negsuc (2 ^ 64 - n % 2 ^ 64 - 1)

-- SELECT "Id" … WHERE "ImageToken" = ?
unfoldable pub find_token : Text → List CaptureRow → Option ℕ
unfolding text_is
find_token t [] = none
find_token t (r ∷ rs) = if text_is r.image_token t then some r.id else find_token t rs

-- INSERT OR IGNORE INTO a relation table, UNIQUE in its two columns.
unfoldable pub relate : ℕ → ℕ → List Relation → List Relation
relate c o rs =
    if any (λ r. r.capture_id == c && r.other_id == o) rs
    then rs
    else rs ++ (record { capture_id = c; other_id = o } ∷ [])

-- The row of a table that is found again: INSERT OR IGNORE adds one if there is none, and the
-- SELECT behind it reads the key.
module _ {R : Type 0} (same : R → R → Bool) where
  unfoldable pub find_row : R → List (Stored R) → Option ℕ
  find_row x [] = none
  find_row x (r ∷ rs) = if same r.content x then some r.id else find_row x rs

  upsert_on : Option ℕ → R → Linked R → ℕ × Linked R
  upsert_on (some id) x t = (id, t)
  upsert_on none x t = (
    t.next_id,
    record t {
      rows = t.rows ++ (record { id = t.next_id; content = x } ∷ []);
      next_id = t.next_id + 1;
    },
  )

  unfoldable pub upsert : R → Linked R → ℕ × Linked R
  unfolding find_row upsert_on
  upsert x t = upsert_on (find_row x t.rows) x t

  -- The loop over the associations of one capture.
  unfoldable pub insert_all : ℕ → List R → Linked R → Linked R
  unfolding upsert relate
  insert_all wc_id [] t = t
  insert_all wc_id (x ∷ rest) t =
      let (id, t') = upsert x t in
      insert_all wc_id rest (record t' { relations = relate wc_id id t'.relations })

-- The unique index of "App" is on the name and the path, NULL read as '', that of "File" on the
-- path and that of "Web" on the URI.
unfoldable pub same_app : AppRecord → AppRecord → Bool
same_app r a = bytes_eq r.name a.name && bytes_eq (if_null r.path) (if_null a.path)

unfoldable pub same_file : FileRecord → FileRecord → Bool
same_file r f = bytes_eq r.path f.path

unfoldable pub same_web : WebRecord → WebRecord → Bool
same_web r w = bytes_eq r.uri w.uri

abbrev pub upsert_app : AppRecord → Linked AppRecord → ℕ × Linked AppRecord
upsert_app = upsert same_app

abbrev pub upsert_file : FileRecord → Linked FileRecord → ℕ × Linked FileRecord
upsert_file = upsert same_file

abbrev pub upsert_web : WebRecord → Linked WebRecord → ℕ × Linked WebRecord
upsert_web = upsert same_web

unfoldable pub push_region : ℕ → ScreenRegionRecord → Ukg → Ukg
push_region wc_id r db = record db {
  regions =
      db.regions
      ++ (record {
        id = db.next_region;
        capture_id = wc_id;
        region_kind = r.region_kind;
        ocr_text = r.ocr_text;
        bounds = r.bounds;
      }
          ∷ []);
  next_region = db.next_region + 1;
}

unfoldable pub insert_regions : ℕ → List ScreenRegionRecord → Ukg → Ukg
unfolding push_region
insert_regions wc_id [] db = db
insert_regions wc_id (r ∷ rest) db = insert_regions wc_id rest (push_region wc_id r db)

-- `all_ocr`: each text with a blank behind it.
unfoldable pub all_ocr : List ScreenRegionRecord → Text
all_ocr [] = []
all_ocr (r ∷ rest) = elim r.ocr_text [ none ↦ all_ocr rest | some t ↦ t ++ (0x20 ∷ all_ocr rest) ]

unfoldable pub capture_row : ℕ → WindowCaptureRecord → CaptureRow
unfolding as_i64
capture_row id rec = record {
  id = id;
  name = rec.name;
  image_token = some rec.image_token;
  is_foreground = rec.is_foreground;
  window_id = rec.window_id;
  window_bounds = rec.window_bounds;
  window_title = rec.window_title;
  properties = rec.properties;
  time_stamp = as_i64 rec.timestamp_100ns;
  is_processed = false;
  activation_uri = rec.activation_uri;
  activity_id = rec.activity_id;
  fallback_uri = rec.fallback_uri;
}

unfoldable pub index_text : ℕ → WindowCaptureRecord → Ukg → Ukg
unfolding all_ocr
index_text wc_id rec db = record db {
  text_index =
      db.text_index
      ++ (record {
        rowid = wc_id;
        name = rec.name;
        window_title = rec.window_title;
        ocr_text = trim (all_ocr rec.regions);
      }
          ∷ []);
}

-- The statements of `insert_capture` for a token that is not there.
unfoldable pub insert_new : WindowCaptureRecord → Ukg → Ukg
unfolding capture_row insert_all insert_regions index_text same_app same_file same_web
insert_new rec db =
    let wc_id = db.next_capture in
    let row = capture_row wc_id rec in
    index_text wc_id rec (
      insert_regions wc_id rec.regions (record db {
        captures = db.captures ++ (row ∷ []);
        next_capture = wc_id + 1;
        apps = insert_all same_app wc_id rec.apps db.apps;
        files = insert_all same_file wc_id rec.files db.files;
        webs = insert_all same_web wc_id rec.webs db.webs;
      }))

insert_on : Option ℕ → WindowCaptureRecord → Ukg → ℕ × Ukg
unfolding insert_new
insert_on (some id) rec db = (id, db)
insert_on none rec db = (db.next_capture, insert_new rec db)

unfoldable pub insert_capture : WindowCaptureRecord → Ukg → ℕ × Ukg
unfolding find_token insert_on
insert_capture rec db = insert_on (find_token rec.image_token db.captures) rec db
