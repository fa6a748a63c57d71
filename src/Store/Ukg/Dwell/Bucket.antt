-- ===== src/Store/Ukg/Dwell/Bucket.antt =====
-- The hour bucket of a time stamp.
use pre_call.Prelude.{refl, ℕ, ◌+◌, ◌*◌, ◌/◌, ◌%◌, ◌≡◌, arith}
use pre_call.Prelude.Int.{pos, ◌+ℤ◌, ◌-ℤ◌, ◌*ℤ◌, -ℤ_parts, eq_of_parts}
use pre_call.Store.Ukg.Dwell.{
  div_trunc, div_euclid, rem_euclid, bucket_of, hour_bucket, filetime_unix_delta, ticks_per_hour,
  ticks_per_sec,
}

-ℤ_delta : (t : ℕ) → pos (116444736000000000 + t) -ℤ filetime_unix_delta ≡ pos t
-ℤ_delta t =
    eq_of_parts _ _ (omega (arith, -ℤ_parts (pos (116444736000000000 + t)) filetime_unix_delta))

+ℤ_pos : (a b : ℕ) → pos a +ℤ pos b ≡ pos (a + b)
unfolding ◌+ℤ◌
+ℤ_pos a b = ground arith

*ℤ_pos : (a b : ℕ) → pos a *ℤ pos b ≡ pos (a * b)
unfolding ◌*ℤ◌
*ℤ_pos a b = ground arith

hours : (t : ℕ) → t / ticks_per_sec % 86400 / 3600 ≡ t / ticks_per_hour % 24
hours t = omega arith

days : (t : ℕ) → t / ticks_per_sec / 86400 ≡ t / ticks_per_hour / 24
days t = omega arith

hours_since : (h : ℕ) → h / 24 * 24 + h % 24 ≡ h
hours_since h = omega arith

-- For a time stamp `t` ticks after the start of 1970: the start of its bucket is the start of
-- 1970 plus the whole hours in `t`, the hour of the day counts these hours modulo 24, and the day
-- of the week counts the whole days modulo 7 with 1970-01-01 as day 4.
pub hour_bucket-IsHour :
    (t : ℕ)
    → let b = hour_bucket (pos (116444736000000000 + t)) in
      (b.0 ≡ t / ticks_per_hour % 24)
      × (b.1 ≡ (t / ticks_per_hour / 24 + 4) % 7)
      × (b.2 ≡ pos (116444736000000000 + t / ticks_per_hour * ticks_per_hour))
unfolding hour_bucket bucket_of div_trunc div_euclid rem_euclid
hour_bucket-IsHour t = rw (-ℤ_delta t) (
  hours t,
  rw (+ℤ_pos (t / ticks_per_sec / 86400) 4, days t),
  rw
      (
        *ℤ_pos (t / ticks_per_sec / 86400) 24,
        days t,
        hours t,
        +ℤ_pos (t / ticks_per_hour / 24 * 24) (t / ticks_per_hour % 24),
        hours_since (t / ticks_per_hour),
        *ℤ_pos (t / ticks_per_hour) ticks_per_hour,
        +ℤ_pos 116444736000000000 (t / ticks_per_hour * ticks_per_hour),
      )
      refl,
)
