-- ===== src/Store/Ukg/Timeline/Apps.antt =====
-- The filter by application, in terms of the stored relations and rows.
use pre_call.Prelude.{
  ◌⊎◌, inl, inr, ℕ, ◌≡◌, refl, sym, ap, ◌∙◌, subst, Text, true, List, [], ◌∷◌, ◌++◌, some, ◌∈◌, map,
  filter, any, ◌==◌, ==_iff, mem-filter, mem_filter, mem_map, mem-map, Bool-cases, Option-cases,
  true-false, bytes_eq, bytes_eq→eq, bytes_eq_refl, arith,
}
use pre_call.Proto.Metadata.{AppRecord}
use pre_call.Store.Ukg.Tables.{Relation, Stored, Ukg}
use pre_call.Store.Ukg.Timeline.{linked_apps, is_app_of, uses_app}

-- The path or the name of the application is one of these.
abbrev pub IsNamed : List Text → AppRecord → Type 0
IsNamed names a = ((p : Text) × (a.path ≡ some p) × (p ∈ names)) ⊎ (a.name ∈ names)

-- The capture is linked to an application of the filter, if there is a filter.
abbrev pub IsUsing : List Text → Ukg → ℕ → Type 0
IsUsing [] db id = Unit
IsUsing (f ∷ fs) db id =
    (r : Relation) × (a : Stored AppRecord) × (r ∈ db.apps.relations)
    × (r.capture_id ≡ id)
    × (a ∈ db.apps.rows)
    × (a.id ≡ r.other_id)
    × IsNamed (f ∷ fs) a.content

mem_append_left : {A : Type 0} (xs ys : List A) (x : A) → x ∈ xs → x ∈ (xs ++ ys)
mem_append_left [] ys x m = absurd m.1
mem_append_left (z ∷ zs) ys x (inl e) = inl e
mem_append_left (z ∷ zs) ys x (inr m) = inr (mem_append_left zs ys x m)

mem_append_right : {A : Type 0} (xs ys : List A) (x : A) → x ∈ ys → x ∈ (xs ++ ys)
mem_append_right [] ys x m = m
mem_append_right (z ∷ zs) ys x m = inr (mem_append_right zs ys x m)

mem-append : {A : Type 0} (xs ys : List A) (x : A) → x ∈ (xs ++ ys) → (x ∈ xs) ⊎ (x ∈ ys)
mem-append [] ys x m = inr m
mem-append (z ∷ zs) ys x (inl e) = inl (inl e)
mem-append (z ∷ zs) ys x (inr m) = elim (mem-append zs ys x m) [
  | inl k ↦ inl (inr k)
  | inr k ↦ inr k
]

pub mem-any_bytes : (p : Text) (fs : List Text) → any (bytes_eq p) fs ≡ true → p ∈ fs
mem-any_bytes p [] h = absurd (true-false (sym h))
mem-any_bytes p (f ∷ fs) h = elim (Bool-cases (bytes_eq p f)) [
  | inl e ↦ inl (bytes_eq→eq p f e)
  | inr e ↦ inr (mem-any_bytes p fs (rw e at h))
]

pub any_bytes-mem : (p : Text) (fs : List Text) → p ∈ fs → any (bytes_eq p) fs ≡ true
any_bytes-mem p [] m = absurd m.1
any_bytes-mem p (f ∷ fs) (inl e) = rw (sym (ap (bytes_eq p) e) ∙ bytes_eq_refl p) refl
any_bytes-mem p (f ∷ fs) (inr m) = ground (arith, any_bytes-mem p fs m)

is_app_of-IsNamed : (fs : List Text) (a : AppRecord) → is_app_of fs a ≡ true → IsNamed fs a
unfolding is_app_of
is_app_of-IsNamed fs a h = elim (Bool-cases (any (bytes_eq a.name) fs)) [
  | inl e ↦ inr (mem-any_bytes a.name fs e)
  | inr e ↦ elim (Option-cases a.path) [
    | inl n ↦ absurd (true-false (sym (rw (n, e) at h)))
    | inr (p, q) ↦ elim (Bool-cases (any (bytes_eq p) fs)) [
      | inl k ↦ inl (p, q, mem-any_bytes p fs k)
      | inr k ↦ absurd (true-false (sym (rw (q, k, e) at h)))
    ]
  ]
]

IsNamed-is_app_of : (fs : List Text) (a : AppRecord) → IsNamed fs a → is_app_of fs a ≡ true
unfolding is_app_of
IsNamed-is_app_of fs a (inl (p, q, m)) = rw (q, any_bytes-mem p fs m) refl
IsNamed-is_app_of fs a (inr m) = ground (arith, any_bytes-mem a.name fs m)

mem-linked_apps :
    (rs : List Relation) (id : ℕ) (rows : List (Stored AppRecord)) (c : AppRecord)
    → c ∈ linked_apps rs id rows
    → (r : Relation) × (a : Stored AppRecord) × (r ∈ rs)
      × (r.capture_id ≡ id)
      × (a ∈ rows)
      × (a.id ≡ r.other_id)
      × (c ≡ a.content)
unfolding linked_apps
mem-linked_apps [] id rows c m = absurd m.1
mem-linked_apps (r ∷ rs) id rows c m = elim (Bool-cases (r.capture_id == id)) [
  | inr e ↦
      let (r', a, i, k, j, l, q) = mem-linked_apps rs id rows c (rw e at m) in
      (r', a, inr i, k, j, l, q)
  | inl e ↦
      elim (mem-append
        (map (λ (a : Stored AppRecord). a.content)
          (filter (λ (a : Stored AppRecord). a.id == r.other_id) rows))
        _ c (rw e at m)) [
          | inr n ↦
              let (r', a, i, k, j, l, q) = mem-linked_apps rs id rows c n in
              (r', a, inr i, k, j, l, q)
          | inl n ↦
              let (a, i, q) = mem-map (λ (a : Stored AppRecord). a.content) _ c n in
              let (stored, same) =
                mem-filter (λ (a : Stored AppRecord). a.id == r.other_id) rows a i in
              (
                r,
                a,
                inl refl,
                (==_iff r.capture_id id).0 e,
                stored,
                (==_iff a.id r.other_id).0 same,
                q,
              )
        ]
]

mem_linked_apps :
    (rs : List Relation) (id : ℕ) (rows : List (Stored AppRecord)) (r : Relation)
    (a : Stored AppRecord)
    → r ∈ rs
    → r.capture_id ≡ id
    → a ∈ rows
    → a.id ≡ r.other_id
    → a.content ∈ linked_apps rs id rows
unfolding linked_apps
mem_linked_apps [] id rows r a m c i o = absurd m.1
mem_linked_apps (k ∷ rs) id rows r a (inl e) c i o =
    let here : (k.capture_id == id) ≡ true =
      (==_iff k.capture_id id).1 (sym (ap (λ (x : Relation). x.capture_id) e) ∙ c) in
    let same : (a.id == k.other_id) ≡ true =
      (==_iff a.id k.other_id).1 (o ∙ ap (λ (x : Relation). x.other_id) e) in
    rw here (
      mem_append_left
        (map (λ (a : Stored AppRecord). a.content)
          (filter (λ (a : Stored AppRecord). a.id == k.other_id) rows))
        _ a.content
        (mem_map (λ (a : Stored AppRecord). a.content) _ a
          (mem_filter (λ (a : Stored AppRecord). a.id == k.other_id) rows a i same)))
mem_linked_apps (k ∷ rs) id rows r a (inr m) c i o =
    let later = mem_linked_apps rs id rows r a m c i o in
    elim (Bool-cases (k.capture_id == id)) [
      | inr e ↦ rw e later
      | inl e ↦ rw e (
          mem_append_right
            (map (λ (a : Stored AppRecord). a.content)
              (filter (λ (a : Stored AppRecord). a.id == k.other_id) rows))
            _ a.content later)
    ]

any-mem_app :
    (fs : List Text) (cs : List AppRecord)
    → any (is_app_of fs) cs ≡ true
    → (c : AppRecord) × (c ∈ cs) × (is_app_of fs c ≡ true)
any-mem_app fs [] h = absurd (true-false (sym h))
any-mem_app fs (c ∷ cs) h = elim (Bool-cases (is_app_of fs c)) [
  | inl e ↦ (c, inl refl, e)
  | inr e ↦ let (d, m, k) = any-mem_app fs cs (rw e at h) in (d, inr m, k)
]

mem_app-any :
    (fs : List Text) (cs : List AppRecord) (c : AppRecord)
    → c ∈ cs
    → is_app_of fs c ≡ true
    → any (is_app_of fs) cs ≡ true
mem_app-any fs [] c m h = absurd m.1
mem_app-any fs (d ∷ ds) c (inl e) h = rw (ap (is_app_of fs) (sym e) ∙ h) refl
mem_app-any fs (d ∷ ds) c (inr m) h = ground (arith, mem_app-any fs ds c m h)

pub uses_app-IsUsing :
    (fs : List Text) (db : Ukg) (id : ℕ) → uses_app fs db id ≡ true → IsUsing fs db id
unfolding uses_app
uses_app-IsUsing [] db id h = tt
uses_app-IsUsing (f ∷ fs) db id h =
    let (c, m, n) = any-mem_app (f ∷ fs) (linked_apps db.apps.relations id db.apps.rows) h in
    let (r, a, i, k, j, l, q) = mem-linked_apps db.apps.relations id db.apps.rows c m in
    (r, a, i, k, j, l, subst (IsNamed (f ∷ fs)) q (is_app_of-IsNamed (f ∷ fs) c n))

pub IsUsing-uses_app :
    (fs : List Text) (db : Ukg) (id : ℕ) → IsUsing fs db id → uses_app fs db id ≡ true
unfolding uses_app
IsUsing-uses_app [] db id h = refl
IsUsing-uses_app (f ∷ fs) db id (r, a, i, k, j, l, n) =
    mem_app-any (f ∷ fs) (linked_apps db.apps.relations id db.apps.rows) a.content
      (mem_linked_apps db.apps.relations id db.apps.rows r a i k j l)
      (IsNamed-is_app_of (f ∷ fs) a.content n)
