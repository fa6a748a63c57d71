-- ===== src/Api/Routes/Export.antt =====
-- The loop of the export comes to its end.
use pre_call.Prelude.{
  ℕ, zero, suc, ◌<◌, ◌≤◌, ◌≡◌, refl, ap, ◌∙◌, Bool, true, List, [], ◌∷◌, ◌++◌, Option, none, some,
  none-some, map, filter, length, inl, inr, ◌∈◌, arith,
}
use pre_call.Prelude.Int.{ℤ, pos, ltb_ℤ}
use pre_call.Store.Sql.Laws.{mem-select_rows}
use pre_call.Store.Ukg.Tables.{Ukg, CaptureRow, RegionRow}
use pre_call.Store.Ukg.Rows.{regions_of}
use pre_call.Store.Ukg.Timeline.{
  TimelineEntry, timeline, timeline_rows, timeline_entry, is_newer, before_or_max,
}
use pre_call.Api.Routes.{last_time, add_page, export_page, export_from, export}

-- The captures below the cursor.
abbrev is_below : ℤ → CaptureRow → Bool
is_below t w = ltb_ℤ w.time_stamp t

filter-le :
    (t u : ℤ) (ws : List CaptureRow)
    → ltb_ℤ t u ≡ true
    → length (filter (is_below t) ws) ≤ length (filter (is_below u) ws)
filter-le t u [] h = omega arith
filter-le t u (w ∷ ws) h = ground (arith, filter-le t u ws h)

filter-lt :
    (u : ℤ) (w : CaptureRow) (ws : List CaptureRow)
    → w ∈ ws
    → is_below u w ≡ true
    → length (filter (is_below w.time_stamp) ws) < length (filter (is_below u) ws)
filter-lt u w [] m h = absurd m.1
filter-lt u w (v ∷ vs) (inl e) h =
    let same : w.time_stamp ≡ v.time_stamp = ap (λ (x : CaptureRow). x.time_stamp) e in
    ground (arith, filter-le w.time_stamp u vs h, same)
filter-lt u w (v ∷ vs) (inr m) h = ground (arith, filter-lt u w vs m h)

length-filter : (u : ℤ) (ws : List CaptureRow) → length (filter (is_below u) ws) ≤ length ws
length-filter u [] = omega arith
length-filter u (w ∷ ws) = ground (arith, length-filter u ws)

-- The last time stamp of a page is that of one of its rows.
last_time-mem :
    (db : Ukg) (w : CaptureRow) (ws : List CaptureRow)
    → (v : CaptureRow) × (v ∈ (w ∷ ws))
      × (last_time (timeline_entry db w) (map (timeline_entry db) ws) ≡ v.time_stamp)
unfolding last_time timeline_entry
last_time-mem db w [] = (w, inl refl, refl)
last_time-mem db w (x ∷ xs) = let (v, m, e) = last_time-mem db x xs in (v, inr m, e)

add_page-some :
    (db : Ukg) (page : List TimelineEntry) (rest : Option (List (TimelineEntry × List RegionRow)))
    → (out : List (TimelineEntry × List RegionRow)) × (rest ≡ some out)
    → (out : List (TimelineEntry × List RegionRow)) × (add_page db page rest ≡ some out)
unfolding add_page
add_page-some db page none (out, e) = absurd (none-some e)
add_page-some db page (some r) h =
    (map (λ (x : TimelineEntry). (x, regions_of x.id db)) page ++ r, refl)

abbrev Export : Type 0
Export = Option (List (TimelineEntry × List RegionRow))

export_page-some :
    (db : Ukg) (rows : List CaptureRow) (next : Option ℤ → Export)
    → ((v : CaptureRow)
        → v ∈ rows
        → (out : List (TimelineEntry × List RegionRow)) × (next (some v.time_stamp) ≡ some out))
    → (out : List (TimelineEntry × List RegionRow)) × (export_page db
          (map (timeline_entry db) rows)
          next
        ≡ some out)
unfolding export_page
export_page-some db [] next h = ([], refl)
export_page-some db (w ∷ ws) next h =
    let (v, m, e) = last_time-mem db w ws in
    let (out, q) = h v m in
    add_page-some db (timeline_entry db w ∷ map (timeline_entry db) ws)
      (next (some (last_time (timeline_entry db w) (map (timeline_entry db) ws))))
      (out, ap (λ t. next (some t)) e ∙ q)

export_from-some :
    (fuel : ℕ) (before : Option ℤ) (db : Ukg)
    → length (filter (is_below (before_or_max before)) db.captures) < fuel
    → (out : List (TimelineEntry × List RegionRow)) × (export_from fuel before db ≡ some out)
unfolding export_from timeline timeline_rows
export_from-some zero before db h = absurd (omega (arith, h))
export_from-some (suc fuel) before db h =
    export_page-some db (timeline_rows before (pos 500) db) (λ cursor. export_from fuel cursor db)
      (λ v m.
        let (stored, below) =
          mem-select_rows is_newer (λ (w : CaptureRow). ltb_ℤ w.time_stamp (before_or_max before))
            (pos 500) db.captures v m in
        export_from-some fuel (some v.time_stamp) db (
          unfold before_or_max in
          omega (arith, h, filter-lt (before_or_max before) v db.captures stored below)))

-- The export returns: each page that is not empty moves the cursor below a capture that was not
-- below it, so one round for each capture and one more are enough.
pub export-returns :
    (db : Ukg) → (out : List (TimelineEntry × List RegionRow)) × (export db ≡ some out)
unfolding export
export-returns db =
    export_from-some (suc (length db.captures)) none db
      (omega (arith, length-filter (before_or_max none) db.captures))
