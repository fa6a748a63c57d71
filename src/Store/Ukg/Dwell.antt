-- ===== src/Store/Ukg/Dwell.antt =====
-- crates/precall-store/src/ukg.rs: the hour buckets and the tables of dwell times.
pub mod Bucket
pub mod Sums
use pre_call.Prelude.{
  ℕ, ◌+◌, ◌-◌, ◌*◌, ◌/◌, ◌%◌, Text, ◌&&◌, ◌||◌, List, [], ◌∷◌, if◌then◌else◌, ltb, leb, ◌==◌,
  bytes_eq,
}
use pre_call.Prelude.Int.{ℤ, pos, negsuc, ◌+ℤ◌, ◌-ℤ◌, ◌*ℤ◌, eqb_ℤ}
use pre_call.Store.Ukg.Tables.{DwellRow, Ukg}

-- The three integer divisions of Rust by a positive divisor: `/` rounds to zero, `div_euclid` and
-- `rem_euclid` round down.
unfoldable pub div_trunc : ℤ → ℕ → ℤ
div_trunc (pos n) d = pos (n / d)
div_trunc (negsuc n) d = pos 0 -ℤ pos ((n + 1) / d)

unfoldable pub div_euclid : ℤ → ℕ → ℤ
div_euclid (pos n) d = pos (n / d)
div_euclid (negsuc n) d = negsuc (n / d)

unfoldable pub rem_euclid : ℤ → ℕ → ℕ
rem_euclid (pos n) d = n % d
rem_euclid (negsuc n) d = d - 1 - n % d

abbrev pub ticks_per_sec : ℕ
ticks_per_sec = 10000000

abbrev pub ticks_per_hour : ℕ
ticks_per_hour = 36000000000

abbrev pub filetime_unix_delta : ℤ
filetime_unix_delta = pos 116444736000000000

-- Hour of the day, day of the week and start of the hour, from the seconds since 1970.
unfoldable pub bucket_of : ℤ → ℕ × ℕ × ℤ
unfolding div_euclid rem_euclid
bucket_of unix_secs =
    let days = div_euclid unix_secs 86400 in
    let hour = rem_euclid unix_secs 86400 / 3600 in
    let dow = rem_euclid (days +ℤ pos 4) 7 in
    (hour, dow, filetime_unix_delta +ℤ (days *ℤ pos 24 +ℤ pos hour) *ℤ pos ticks_per_hour)

unfoldable pub hour_bucket : ℤ → ℕ × ℕ × ℤ
unfolding div_trunc bucket_of
hour_bucket ts_100ns = bucket_of (div_trunc (ts_100ns -ℤ filetime_unix_delta) ticks_per_sec)

-- INSERT … ON CONFLICT(subject, "HourStartTimestamp") DO UPDATE: the dwell time is added.
unfoldable pub add_dwell : DwellRow → List DwellRow → List DwellRow
add_dwell new [] = new ∷ []
add_dwell new (r ∷ rest) =
    let later = add_dwell new rest in
    if bytes_eq r.subject new.subject && eqb_ℤ r.hour_start new.hour_start
    then record r { dwell_time = r.dwell_time +ℤ new.dwell_time } ∷ rest
    else r ∷ later

unfoldable pub dwell_row : Text → ℤ → ℤ → DwellRow
unfolding hour_bucket
dwell_row subject ts_100ns dwell_ms =
    let (hour, dow, bucket) = hour_bucket ts_100ns in
    record {
      subject = subject;
      hour_of_day = pos hour;
      day_of_week = pos dow;
      hour_start = bucket;
      dwell_time = dwell_ms;
    }

unfoldable pub add_app_dwell : Text → ℤ → ℤ → Ukg → Ukg
unfolding dwell_row add_dwell
add_app_dwell windows_app_id ts_100ns dwell_ms db = record db {
  app_dwell = add_dwell (dwell_row windows_app_id ts_100ns dwell_ms) db.app_dwell;
}

unfoldable pub add_web_dwell : Text → ℤ → ℤ → Ukg → Ukg
unfolding dwell_row add_dwell
add_web_dwell domain ts_100ns dwell_ms db = record db {
  web_dwell = add_dwell (dwell_row domain ts_100ns dwell_ms) db.web_dwell;
}
