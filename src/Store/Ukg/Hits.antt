-- ===== src/Store/Ukg/Hits.antt =====
-- crates/precall-store/src/ukg.rs: the full-text search and the metadata of search hits. What
-- FTS5 finds is a parameter: for a row, if it matches, its bm25 and its snippet.
use pre_call.Prelude.{
  ◌||◌, take, drop, length, bytes_eq, ℕ, Text, Bool, true, false, ◌&&◌, List, [], ◌∷◌, ◌++◌, Option,
  none, some, map, filter, any, ◌==◌, if◌then◌else◌, split_whitespace,
}
use pre_call.Prelude.Int.{ℤ, pos, ltb_ℤ}
use pre_call.Store.Sql.{order_rows, limit_rows}
use pre_call.Store.Ukg.Tables.{CaptureRow, TextIndexRow, Ukg}
use pre_call.Proto.Metadata.{AppRecord}
use pre_call.Store.Ukg.Timeline.{linked_apps, is_from, is_until, capture_app_names}

pub record SearchHit (Score : Type 0) : Type 0 where
  pub window_capture_id : ℕ
  pub timestamp_100ns : ℤ
  pub window_title : Option Text
  pub app_name : Option Text
  pub image_token : Option Text
  pub ocr_preview : Option Text
  pub score : Score
  pub activation_uri : Option Text

-- `t.replace('"', "\"\"")` between quotation marks.
unfoldable pub double_quotes : Text → Text
double_quotes [] = []
double_quotes (c ∷ cs) = let rest = double_quotes cs in if c == 0x22 then c ∷ c ∷ rest else c ∷ rest

unfoldable pub quoted : Text → Text
unfolding double_quotes
quoted t = 0x22 ∷ (double_quotes t ++ (0x22 ∷ []))

-- The words in quotation marks, with a blank between them.
unfoldable pub join_quoted : List Text → Text
unfolding quoted
join_quoted [] = []
join_quoted (t ∷ []) = quoted t
join_quoted (t ∷ u ∷ ts) = quoted t ++ (0x20 ∷ join_quoted (u ∷ ts))

unfoldable pub fts_escape : Text → Text
unfolding join_quoted split_whitespace
fts_escape query = join_quoted (split_whitespace query)

unfoldable pub first_of : List Text → Option Text
first_of [] = none
first_of (t ∷ ts) = some t

-- `limit.unwrap_or(50).clamp(1, 500)`
unfoldable pub fts_limit : Option ℤ → ℤ
fts_limit none = pos 50
fts_limit (some n) = if ltb_ℤ n (pos 1) then pos 1 else if ltb_ℤ (pos 500) n then pos 500 else n

module _ {Score : Type 0} (zero_score : Score) where
  unfoldable pub meta_hit : CaptureRow → SearchHit Score
  meta_hit w = record {
    window_capture_id = w.id;
    timestamp_100ns = w.time_stamp;
    window_title = some w.window_title;
    app_name = none;
    image_token = w.image_token;
    ocr_preview = some w.name;
    score = zero_score;
    activation_uri = w.activation_uri;
  }

  -- The map from ids to hits, as the list of its values.
  unfoldable pub captures_by_ids : List ℕ → Ukg → List (SearchHit Score)
  unfolding meta_hit
  captures_by_ids ids db =
      map meta_hit (filter (λ (w : CaptureRow). any (λ i. i == w.id) ids) db.captures)

-- The parameters that the loop over `app_filter` pushes: each application twice in a row.
unfoldable pub pushed_params : List Text → List Text
pushed_params [] = []
pushed_params (app ∷ apps) = app ∷ app ∷ pushed_params apps

-- a."Path" IN (…) takes the first half of the parameters, a."Name" IN (…) the second.
unfoldable pub is_fts_app : List Text → AppRecord → Bool
unfolding pushed_params
is_fts_app app_filter a =
    (elim a.path [
      | none ↦ false
      | some p ↦ any (bytes_eq p) (take (length app_filter) (pushed_params app_filter))
    ])
    || any (bytes_eq a.name) (drop (length app_filter) (pushed_params app_filter))

unfoldable pub fts_uses_app : List Text → Ukg → ℕ → Bool
unfolding linked_apps is_fts_app
fts_uses_app [] db wc_id = true
fts_uses_app (f ∷ fs) db wc_id =
    any (is_fts_app (f ∷ fs)) (linked_apps db.apps.relations wc_id db.apps.rows)

-- The WHERE of the query behind MATCH.
unfoldable pub fts_passes : Option ℤ → Option ℤ → List Text → Ukg → CaptureRow → Bool
unfolding is_from is_until fts_uses_app
fts_passes start_100ns end_100ns app_filter db w =
    is_from start_100ns w.time_stamp
    && (is_until end_100ns w.time_stamp && fts_uses_app app_filter db w.id)

-- A row of the result of the query: the capture, the snippet and the rank.
pub record FtsRow (Score : Type 0) : Type 0 where
  pub capture : CaptureRow
  pub snippet : Text
  pub rank : Score

module _ {Score : Type 0} (fts_match : Text → TextIndexRow → Option (Text × Score))
    (lower : Score → Score → Bool) (negate : Score → Score) where
  unfoldable pub rows_of : Option (Text × Score) → List CaptureRow → List (FtsRow Score)
  rows_of none ws = []
  rows_of (some (snippet, rank)) ws =
      map (λ w. record { capture = w; snippet = snippet; rank = rank }) ws

  -- "WindowCaptureTextIndex" MATCH ?, joined with "WindowCapture" under the filters.
  unfoldable pub matched_rows :
      Text → (CaptureRow → Bool) → List CaptureRow → List TextIndexRow → List (FtsRow Score)
  unfolding rows_of
  matched_rows query wanted ws [] = []
  matched_rows query wanted ws (t ∷ ts) =
      rows_of (fts_match query t) (filter (λ (w : CaptureRow). w.id == t.rowid && wanted w) ws)
      ++ matched_rows query wanted ws ts

  unfoldable pub is_ranked_before : FtsRow Score → FtsRow Score → Bool
  is_ranked_before a b = if lower b.rank a.rank then false else true

  unfoldable pub fts_hit : Ukg → FtsRow Score → SearchHit Score
  unfolding capture_app_names first_of
  fts_hit db r = record {
    window_capture_id = r.capture.id;
    timestamp_100ns = r.capture.time_stamp;
    window_title = some r.capture.window_title;
    app_name = first_of (capture_app_names r.capture.id db);
    image_token = r.capture.image_token;
    ocr_preview = some r.snippet;
    score = negate r.rank;
    activation_uri = r.capture.activation_uri;
  }

  unfoldable pub search_fts :
      Text → Option ℤ → Option ℤ → List Text → Option ℤ → Ukg → List (SearchHit Score)
  unfolding fts_limit order_rows limit_rows matched_rows is_ranked_before fts_hit fts_passes
  search_fts query start_100ns end_100ns app_filter limit db = map (fts_hit db) (
      limit_rows (fts_limit limit) (
        order_rows is_ranked_before (
          matched_rows query (fts_passes start_100ns end_100ns app_filter db) db.captures
            db.text_index)))
