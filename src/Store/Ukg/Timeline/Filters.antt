-- ===== src/Store/Ukg/Timeline/Filters.antt =====
-- What the filter of the semantic searches lets through.
use pre_call.Prelude.{
  none-some, some-inj, ℕ, ◌≡◌, ◌↔◌, refl, sym, Text, true, List, [], ◌∷◌, Option, none, some, ◌∈◌,
  map, filter, mem-filter, mem_filter, mem_map, mem-map, subst, arith,
}
use pre_call.Prelude.Int.{ℤ, ◌≤ℤ◌}
use pre_call.Store.Ukg.Tables.{CaptureRow, Ukg}
use pre_call.Store.Ukg.Timeline.{is_from, is_until, passes, capture_ids_matching_filters}
use pre_call.Store.Ukg.Timeline.Apps.{IsUsing, uses_app-IsUsing, IsUsing-uses_app}

-- Not before the start, if there is one.
abbrev pub IsFrom : Option ℤ → ℤ → Type 0
IsFrom none t = Unit
IsFrom (some s) t = s ≤ℤ t

-- Not after the end, if there is one.
abbrev pub IsUntil : Option ℤ → ℤ → Type 0
IsUntil none t = Unit
IsUntil (some e) t = t ≤ℤ e

-- A stored capture with this id is within the time window and of an application of the filter.
abbrev pub IsAllowed : Option ℤ → Option ℤ → List Text → Ukg → ℕ → Type 0
IsAllowed start_100ns end_100ns app_filter db id =
    (w : CaptureRow) × (w ∈ db.captures)
    × (w.id ≡ id)
    × IsFrom start_100ns w.time_stamp
    × IsUntil end_100ns w.time_stamp
    × IsUsing app_filter db id

is_from_iff : (s : Option ℤ) (t : ℤ) → (is_from s t ≡ true) ↔ IsFrom s t
unfolding is_from
is_from_iff none t = (λ e. tt, λ h. refl)
is_from_iff (some s) t = (λ e. ground arith, λ h. ground arith)

is_until_iff : (e : Option ℤ) (t : ℤ) → (is_until e t ≡ true) ↔ IsUntil e t
unfolding is_until
is_until_iff none t = (λ h. tt, λ h. refl)
is_until_iff (some e) t = (λ h. ground arith, λ h. ground arith)

-- The test of the filters is the time window and the link to an application.
pub passes_iff :
    (s e : Option ℤ) (apps : List Text) (db : Ukg) (w : CaptureRow)
    → (passes s e apps db w ≡ true)
      ↔ (IsFrom s w.time_stamp × IsUntil e w.time_stamp × IsUsing apps db w.id)
unfolding passes
passes_iff s e apps db w = (
  λ h. (
    (is_from_iff s w.time_stamp).0 (ground (arith, h)),
    (is_until_iff e w.time_stamp).0 (ground (arith, h)),
    uses_app-IsUsing apps db w.id (ground (arith, h)),
  ),
  λ (a, b, c).
      rw
        (
          (is_from_iff s w.time_stamp).1 a,
          (is_until_iff e w.time_stamp).1 b,
          IsUsing-uses_app apps db w.id c,
        )
        refl,
)

IsAllowed-iff :
    (s e : Option ℤ) (apps : List Text) (db : Ukg) (id : ℕ)
    → (id ∈ map (λ (w : CaptureRow). w.id) (filter (passes s e apps db) db.captures))
      ↔ IsAllowed s e apps db id
IsAllowed-iff s e apps db id = (
  λ m.
      let (w, k, q) = mem-map (λ (w : CaptureRow). w.id) _ id m in
      let (stored, passed) = mem-filter (passes s e apps db) db.captures w k in
      let (a, b, c) = (passes_iff s e apps db w).0 passed in
      (w, stored, sym q, a, b, subst (IsUsing apps db) (sym q) c),
  λ (w, stored, q, a, b, c).
      subst (λ j. j ∈ map (λ (v : CaptureRow). v.id) (filter (passes s e apps db) db.captures)) q
        (mem_map (λ (v : CaptureRow). v.id) _ w
          (mem_filter (passes s e apps db) db.captures w stored
            ((passes_iff s e apps db w).1 (a, b, subst (IsUsing apps db) (sym q) c)))),
)

-- When a filter is active the answer is the set of the ids of exactly the stored captures that
-- are not before the start, not after the end and, if applications are given, linked to a stored
-- application whose path or name is one of them.
pub capture_ids_matching_filters_iff :
    (start_100ns end_100ns : Option ℤ) (app_filter : List Text) (db : Ukg) (ids : List ℕ) (id : ℕ)
    → capture_ids_matching_filters start_100ns end_100ns app_filter db ≡ some ids
    → (id ∈ ids) ↔ IsAllowed start_100ns end_100ns app_filter db id
unfolding capture_ids_matching_filters
capture_ids_matching_filters_iff none none [] db ids id e = absurd (none-some e)
capture_ids_matching_filters_iff none none (f ∷ fs) db ids id e =
    subst (λ l. (id ∈ l) ↔ IsAllowed none none (f ∷ fs) db id) (some-inj e)
      (IsAllowed-iff none none (f ∷ fs) db id)
capture_ids_matching_filters_iff none (some t) apps db ids id e =
    subst (λ l. (id ∈ l) ↔ IsAllowed none (some t) apps db id) (some-inj e)
      (IsAllowed-iff none (some t) apps db id)
capture_ids_matching_filters_iff (some s) t apps db ids id e =
    subst (λ l. (id ∈ l) ↔ IsAllowed (some s) t apps db id) (some-inj e)
      (IsAllowed-iff (some s) t apps db id)
