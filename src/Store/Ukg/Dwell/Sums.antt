-- ===== src/Store/Ukg/Dwell/Sums.antt =====
-- No dwell time is lost or counted twice.
use pre_call.Prelude.{refl, Bool-cases, inl, inr, ◌≡◌, Text, List, [], ◌∷◌, ◌&&◌, bytes_eq, arith}
use pre_call.Prelude.Int.{ℤ, pos, ◌+ℤ◌, eqb_ℤ, +ℤ_parts, eq_of_parts}
use pre_call.Store.Ukg.Tables.{DwellRow, Ukg}
use pre_call.Store.Ukg.Dwell.{add_dwell, dwell_row, add_app_dwell, add_web_dwell}

unfoldable pub total_dwell : List DwellRow → ℤ
total_dwell [] = pos 0
total_dwell (r ∷ rest) = r.dwell_time +ℤ total_dwell rest

+ℤ_assoc : (a b c : ℤ) → (b +ℤ a) +ℤ c ≡ a +ℤ (b +ℤ c)
+ℤ_assoc a b c =
    eq_of_parts _ _
      (omega (arith, +ℤ_parts (b +ℤ a) c, +ℤ_parts b a, +ℤ_parts a (b +ℤ c), +ℤ_parts b c))

+ℤ_left_comm : (a b c : ℤ) → b +ℤ (a +ℤ c) ≡ a +ℤ (b +ℤ c)
+ℤ_left_comm a b c =
    eq_of_parts _ _
      (omega (arith, +ℤ_parts b (a +ℤ c), +ℤ_parts a c, +ℤ_parts a (b +ℤ c), +ℤ_parts b c))

total_dwell-add_dwell :
    (new : DwellRow) (rows : List DwellRow)
    → total_dwell (add_dwell new rows) ≡ new.dwell_time +ℤ total_dwell rows
unfolding total_dwell add_dwell
total_dwell-add_dwell new [] = refl
total_dwell-add_dwell new (r ∷ rest) =
    elim (Bool-cases (bytes_eq r.subject new.subject && eqb_ℤ r.hour_start new.hour_start)) [
      | inl e ↦ rw e (+ℤ_assoc new.dwell_time r.dwell_time (total_dwell rest))
      | inr e ↦
          rw (e, total_dwell-add_dwell new rest)
            (+ℤ_left_comm new.dwell_time r.dwell_time (total_dwell rest))
    ]

-- `add_app_dwell` and `add_web_dwell` add their dwell time to the sum over the table, whether the
-- hour has a row or not.
pub total_dwell-add :
    (subject : Text) (ts_100ns dwell_ms : ℤ) (db : Ukg)
    → (total_dwell (add_app_dwell subject ts_100ns dwell_ms db).app_dwell
        ≡ dwell_ms +ℤ total_dwell db.app_dwell)
      × (total_dwell (add_web_dwell subject ts_100ns dwell_ms db).web_dwell
          ≡ dwell_ms +ℤ total_dwell db.web_dwell)
unfolding add_app_dwell add_web_dwell dwell_row
total_dwell-add subject ts_100ns dwell_ms db =
    (total_dwell-add_dwell _ db.app_dwell, total_dwell-add_dwell _ db.web_dwell)
