-- ===== src/Store/Ukg/Timeline/Page.antt =====
-- A page of the timeline.
use pre_call.Prelude.{
  All-lookup, inl, inr, none, some, All-tabulate, ℕ, ◌≡◌, ◌↔◌, Bool, true, false, Option, ◌⊎◌,
  length, All, ◌∈◌, arith,
}
use pre_call.Prelude.Int.{ℤ, pos, ltb_ℤ, ◌≤ℤ◌, ◌<ℤ◌}
use pre_call.Store.Sql.Laws.{
  IsSortedBy, IsOrdered-IsSortedBy, select_rows-IsOrdered, mem-select_rows, mem_select_rows,
}
use pre_call.Store.Ukg.Tables.{CaptureRow, Ukg}
use pre_call.Store.Ukg.Timeline.{i64_max, is_newer, before_or_max, timeline_rows}

is_newer_total : (w v : CaptureRow) → is_newer w v ≡ false → is_newer v w ≡ true
unfolding is_newer
is_newer_total w v h = ground arith

is_newer_trans :
    (w v u : CaptureRow) → is_newer w v ≡ true → is_newer v u ≡ true → is_newer w u ≡ true
unfolding is_newer
is_newer_trans w v u h k = ground arith

-- Older than the cursor, which is the greatest i64 if none is given.
abbrev pub IsOlder : Option ℤ → CaptureRow → Type 0
IsOlder none w = w.time_stamp <ℤ i64_max
IsOlder (some t) w = w.time_stamp <ℤ t

IsOlder-iff :
    (before_100ns : Option ℤ) (w : CaptureRow)
    → (ltb_ℤ w.time_stamp (before_or_max before_100ns) ≡ true) ↔ IsOlder before_100ns w
unfolding before_or_max
IsOlder-iff none w = (λ h. ground arith, λ h. ground arith)
IsOlder-iff (some t) w = (λ h. ground arith, λ h. ground arith)

is_newer-le : (w v : CaptureRow) → is_newer w v ≡ true → v.time_stamp ≤ℤ w.time_stamp
unfolding is_newer
is_newer-le w v h = ground arith

-- A page of at most `n` rows goes from new to old and holds only stored captures older than the
-- cursor. Any stored capture older than the cursor is on the page, or the page is full and no row
-- of it is older than the capture: paging back leaves no gap but among captures of one time.
pub timeline_rows-IsPage :
    (before_100ns : Option ℤ) (n : ℕ) (db : Ukg) (w : CaptureRow)
    → w ∈ db.captures
    → IsOlder before_100ns w
    → IsSortedBy (λ u v. v.time_stamp ≤ℤ u.time_stamp) (timeline_rows before_100ns (pos n) db)
      × All
          (λ v. (v ∈ db.captures) × IsOlder before_100ns v)
          (timeline_rows before_100ns (pos n) db)
      × ((w ∈ timeline_rows before_100ns (pos n) db)
          ⊎ ((length (timeline_rows before_100ns (pos n) db) ≡ n)
              × All (λ v. w.time_stamp ≤ℤ v.time_stamp) (timeline_rows before_100ns (pos n) db)))
unfolding timeline_rows
timeline_rows-IsPage before_100ns n db w m h =
    let wanted : CaptureRow → Bool = λ v. ltb_ℤ v.time_stamp (before_or_max before_100ns) in
    (
      IsOrdered-IsSortedBy is_newer (λ u v. v.time_stamp ≤ℤ u.time_stamp) _ is_newer-le
          (select_rows-IsOrdered is_newer is_newer_total is_newer_trans wanted (pos n) db.captures),
      All-tabulate _ _ (λ v i.
          let (stored, older) = mem-select_rows is_newer wanted (pos n) db.captures v i in
          (stored, (IsOlder-iff before_100ns v).0 older)),
      elim (mem_select_rows is_newer is_newer_total is_newer_trans wanted n db.captures w m
          ((IsOlder-iff before_100ns w).1 h)) [
            | inl i ↦ inl i
            | inr (full, newer) ↦ inr (
              full,
              All-tabulate _ _
                  (λ v i. is_newer-le v w (All-lookup (λ u. is_newer u w ≡ true) _ v newer i)),
            )
          ],
    )
