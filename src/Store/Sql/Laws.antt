-- ===== src/Store/Sql/Laws.antt =====
-- What a SELECT with WHERE, ORDER BY and LIMIT returns.
use pre_call.Prelude.{
  ℕ, zero, suc, ◌≡◌, refl, ap, Bool, true, false, List, [], ◌∷◌, ◌⊎◌, inl, inr, take, length,
  filter, All, All-lookup, All-tabulate, ◌∈◌, mem-filter, mem_filter, Bool-cases,
}
use pre_call.Prelude.Int.{ℤ, pos, negsuc}
use pre_call.Store.Sql.{limit_rows, insert_row, order_rows, select_rows}

-- Each row stands before all behind it.
abbrev pub IsOrdered {ℓ} : {A : Type ℓ} → (A → A → Bool) → List A → Type ℓ
IsOrdered before [] = Unit
IsOrdered before (x ∷ xs) = All (λ y. before x y ≡ true) xs × IsOrdered before xs

module _ {ℓ} {A : Type ℓ} (before : A → A → Bool) where
  mem-insert_row : (x : A) (ys : List A) (z : A) → z ∈ insert_row before x ys → z ∈ (x ∷ ys)
  unfolding insert_row
  mem-insert_row x [] z = λ m. m
  mem-insert_row x (y ∷ ys) z = elim (Bool-cases (before x y)) [
    | inl e ↦ rw e (λ m. m)
    | inr e ↦ rw e (λ m. elim m [
      | inl k ↦ inr (inl k)
      | inr k ↦ elim (mem-insert_row x ys z k) [ inl j ↦ inl j | inr j ↦ inr (inr j) ]
    ])
  ]

  mem_insert_row : (x : A) (ys : List A) (z : A) → z ∈ (x ∷ ys) → z ∈ insert_row before x ys
  unfolding insert_row
  mem_insert_row x [] z m = m
  mem_insert_row x (y ∷ ys) z m = elim (Bool-cases (before x y)) [
    | inl e ↦ rw e m
    | inr e ↦ rw e (elim m [
      | inl k ↦ inr (mem_insert_row x ys z (inl k))
      | inr k ↦ elim k [ inl j ↦ inl j | inr j ↦ inr (mem_insert_row x ys z (inr j)) ]
    ])
  ]

  pub mem-order_rows : (xs : List A) (z : A) → z ∈ order_rows before xs → z ∈ xs
  unfolding order_rows
  mem-order_rows [] z m = m
  mem-order_rows (x ∷ xs) z m = elim (mem-insert_row x (order_rows before xs) z m) [
    | inl e ↦ inl e
    | inr k ↦ inr (mem-order_rows xs z k)
  ]

  pub mem_order_rows : (xs : List A) (z : A) → z ∈ xs → z ∈ order_rows before xs
  unfolding order_rows
  mem_order_rows [] z m = m
  mem_order_rows (x ∷ xs) z (inl e) = mem_insert_row x (order_rows before xs) z (inl e)
  mem_order_rows (x ∷ xs) z (inr m) =
      mem_insert_row x (order_rows before xs) z (inr (mem_order_rows xs z m))

module _ {ℓ} {A : Type ℓ} where
  pub mem-take : (n : ℕ) (xs : List A) (z : A) → z ∈ take n xs → z ∈ xs
  mem-take zero xs z m = absurd m.1
  mem-take (suc n) [] z m = m
  mem-take (suc n) (x ∷ xs) z (inl e) = inl e
  mem-take (suc n) (x ∷ xs) z (inr m) = inr (mem-take n xs z m)

  pub mem-limit_rows : (limit : ℤ) (xs : List A) (z : A) → z ∈ limit_rows limit xs → z ∈ xs
  unfolding limit_rows
  mem-limit_rows (pos n) xs z m = mem-take n xs z m
  mem-limit_rows (negsuc n) xs z m = m

  pub take-IsOrdered :
      (before : A → A → Bool) (n : ℕ) (xs : List A)
      → IsOrdered before xs
      → IsOrdered before (take n xs)
  take-IsOrdered before zero xs h = tt
  take-IsOrdered before (suc n) [] h = tt
  take-IsOrdered before (suc n) (x ∷ xs) h = (
    All-tabulate _ (take n xs) (λ z m. All-lookup _ xs z h.0 (mem-take n xs z m)),
    take-IsOrdered before n xs h.1,
  )

  -- An element that a cut leaves out stands behind all that it keeps, and the cut is full.
  pub mem_take :
      (before : A → A → Bool) (n : ℕ) (xs : List A) (z : A)
      → IsOrdered before xs
      → z ∈ xs
      → (z ∈ take n xs) ⊎ ((length (take n xs) ≡ n) × All (λ y. before y z ≡ true) (take n xs))
  mem_take before (suc n) [] z h m = absurd m.1
  mem_take before zero xs z h m = inr (refl, tt)
  mem_take before (suc n) (x ∷ xs) z h (inl e) = inl (inl e)
  mem_take before (suc n) (x ∷ xs) z h (inr m) = elim (mem_take before n xs z h.1 m) [
    | inl k ↦ inl (inr k)
    | inr (e, k) ↦ inr (ap suc e, (All-lookup _ xs z h.0 m, k))
  ]

module _ {ℓ} {A : Type ℓ} (before : A → A → Bool) where
  pub mem-select_rows :
      (wanted : A → Bool) (limit : ℤ) (rows : List A) (z : A)
      → z ∈ select_rows before wanted limit rows
      → (z ∈ rows) × (wanted z ≡ true)
  unfolding select_rows
  mem-select_rows wanted limit rows z m =
      mem-filter wanted rows z (mem-order_rows before _ z (mem-limit_rows limit _ z m))

module _ {ℓ} {A : Type ℓ} (before : A → A → Bool)
    (total : (x y : A) → before x y ≡ false → before y x ≡ true)
    (trans : (x y z : A) → before x y ≡ true → before y z ≡ true → before x z ≡ true) where
  insert_row-IsOrdered :
      (x : A) (ys : List A) → IsOrdered before ys → IsOrdered before (insert_row before x ys)
  unfolding insert_row
  insert_row-IsOrdered x [] h = (tt, tt)
  insert_row-IsOrdered x (y ∷ ys) h = elim (Bool-cases (before x y)) [
    | inl e ↦ rw e ((e, All-tabulate _ ys (λ z m. trans x y z e (All-lookup _ ys z h.0 m))), h)
    | inr e ↦ rw e (
      All-tabulate _ (insert_row before x ys) (λ z m. elim (mem-insert_row before x ys z m) [
        | inl k ↦ rw k (total x y e)
        | inr k ↦ All-lookup _ ys z h.0 k
      ]),
      insert_row-IsOrdered x ys h.1,
    )
  ]

  pub order_rows-IsOrdered : (xs : List A) → IsOrdered before (order_rows before xs)
  unfolding order_rows
  order_rows-IsOrdered [] = tt
  order_rows-IsOrdered (x ∷ xs) =
      insert_row-IsOrdered x (order_rows before xs) (order_rows-IsOrdered xs)

  pub select_rows-IsOrdered :
      (wanted : A → Bool) (limit : ℤ) (rows : List A)
      → IsOrdered before (select_rows before wanted limit rows)
  unfolding select_rows limit_rows
  select_rows-IsOrdered wanted (pos n) rows =
      take-IsOrdered before n _ (order_rows-IsOrdered (filter wanted rows))
  select_rows-IsOrdered wanted (negsuc n) rows = order_rows-IsOrdered (filter wanted rows)

  -- A wanted row is returned, or as many rows as asked for are, all of them before it.
  pub mem_select_rows :
      (wanted : A → Bool) (n : ℕ) (rows : List A) (z : A)
      → z ∈ rows
      → wanted z ≡ true
      → (z ∈ select_rows before wanted (pos n) rows)
        ⊎ ((length (select_rows before wanted (pos n) rows) ≡ n)
            × All (λ y. before y z ≡ true) (select_rows before wanted (pos n) rows))
  unfolding select_rows limit_rows
  mem_select_rows wanted n rows z m h =
      mem_take before n _ z (order_rows-IsOrdered (filter wanted rows))
        (mem_order_rows before _ z (mem_filter wanted rows z m h))

pub select_rows-nil {ℓ} :
    {A : Type ℓ} (before : A → A → Bool) (wanted : A → Bool) (limit : ℤ)
    → select_rows before wanted limit [] ≡ []
unfolding select_rows order_rows limit_rows
select_rows-nil before wanted (pos zero) = refl
select_rows-nil before wanted (pos (suc n)) = refl
select_rows-nil before wanted (negsuc n) = refl

-- Each element stands in the relation to all behind it.
abbrev pub IsSortedBy {ℓ} : {A : Type ℓ} → (A → A → Type 0) → List A → Type ℓ
IsSortedBy R [] = Unit
IsSortedBy R (x ∷ xs) = All (R x) xs × IsSortedBy R xs

pub IsOrdered-IsSortedBy {ℓ} :
    {A : Type ℓ} (before : A → A → Bool) (R : A → A → Type 0) (xs : List A)
    → ((x y : A) → before x y ≡ true → R x y)
    → IsOrdered before xs
    → IsSortedBy R xs
IsOrdered-IsSortedBy before R [] f h = tt
IsOrdered-IsSortedBy before R (x ∷ xs) f (h, hs) = (
  All-tabulate (R x) xs (λ y m. f x y (All-lookup (λ z. before x z ≡ true) xs y h m)),
  IsOrdered-IsSortedBy before R xs f hs,
)
