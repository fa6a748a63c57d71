-- ===== src/Store/Objects/Dates.antt =====
-- The dates of the object paths.
use pre_call.Prelude.{ℕ, ◌+◌, ◌-◌, ◌*◌, ◌/◌, ◌≤◌, ◌<◌, ltb, if◌then◌else◌, arith}
use pre_call.Prelude.Int.{ℤ, pos, negsuc, ◌+ℤ◌, ◌-ℤ◌}
use pre_call.Store.Ukg.Dwell.{div_euclid, rem_euclid}
use pre_call.Store.Objects.{civil_from_days, ymd_from_filetime}

doy_bound :
    (doe : ℕ)
    → doe < 146097
    → let yoe = (doe - doe / 1460 + doe / 36524 - doe / 146096) / 365 in
      doe - (365 * yoe + yoe / 4 - yoe / 100) ≤ 365
doy_bound doe h = omega arith

month_bound : (doy : ℕ) → doy ≤ 365 → (5 * doy + 2) / 153 ≤ 11
month_bound doy h = omega arith

day_bound : (doy : ℕ) → doy - (153 * ((5 * doy + 2) / 153) + 2) / 5 + 1 ≤ 31
day_bound doy = omega arith

rem_bound : (z : ℤ) → rem_euclid z 146097 < 146097
unfolding rem_euclid
rem_bound (pos n) = omega arith
rem_bound (negsuc n) = omega arith

month_range :
    (mp : ℕ)
    → mp ≤ 11
    → (1 ≤ (if ltb mp 10 then mp + 3 else mp - 9)) × ((if ltb mp 10 then mp + 3 else mp - 9) ≤ 12)
month_range mp h = ground arith

-- Every time stamp gives a month from 1 to 12 and a day from 1 to 31.
pub ymd_from_filetime-IsDate :
    (ticks : ℤ)
    → let date = ymd_from_filetime ticks in
      ((1 ≤ date.1) × (date.1 ≤ 12)) × ((1 ≤ date.2) × (date.2 ≤ 31))
unfolding ymd_from_filetime civil_from_days
ymd_from_filetime-IsDate ticks =
    let z = div_euclid (ticks -ℤ pos 116444736000000000) 86400000000000 +ℤ pos 719468 in
    let doe = rem_euclid z 146097 in
    let yoe = (doe - doe / 1460 + doe / 36524 - doe / 146096) / 365 in
    let doy = doe - (365 * yoe + yoe / 4 - yoe / 100) in
    (
      month_range ((5 * doy + 2) / 153) (month_bound doy (doy_bound doe (rem_bound z))),
      (omega arith, day_bound doy),
    )
