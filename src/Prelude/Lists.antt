-- ===== src/Prelude/Lists.antt =====
-- Lists measured and cut by native numbers, and bytes, under the library's names.
use Prim.Native.Nat.{ℕ, zero, suc, ◌+◌, ◌-◌, ◌≤◌, min}
use mathlib.Core.Path.{◌≡◌, refl, ap, sym, subst, ◌∙◌}
use mathlib.Core.Logic.{◌⊎◌, inl, inr}
use mathlib.Core.Bool.{Bool, true, false, ◌||◌, ◌&&◌}
use mathlib.Core.List.{List, [], ◌∷◌, ◌++◌, map, reverse, reverse-append}
use native.Mathlib.Omega.{arith}
use pre_call.Prelude.Tests.{◌==◌, if◌then◌else◌, Bool-cases}

module _ {ℓ} {A : Type ℓ} where
  abbrev pub length : List A → ℕ
  length [] = 0
  length (x ∷ xs) = suc (length xs)

  abbrev pub take : ℕ → List A → List A
  take zero xs = []
  take (suc n) [] = []
  take (suc n) (x ∷ xs) = x ∷ take n xs

  abbrev pub drop : ℕ → List A → List A
  drop zero xs = xs
  drop (suc n) [] = []
  drop (suc n) (x ∷ xs) = drop n xs

  abbrev pub All {κ} : (A → Type κ) → List A → Type κ
  All P [] = Unit {κ}
  All P (x ∷ xs) = P x × All P xs

  -- `iter().any(p)`
  abbrev pub any : (A → Bool) → List A → Bool
  any p [] = false
  any p (x ∷ xs) = p x || any p xs

module _ {ℓ} {A : Type ℓ} where
  pub length-append : (xs ys : List A) → length (xs ++ ys) ≡ length xs + length ys
  length-append [] ys = omega arith
  length-append (x ∷ xs) ys = omega (arith, length-append xs ys)

  pub length-take : (n : ℕ) (xs : List A) → length (take n xs) ≡ min n (length xs)
  length-take zero xs = omega arith
  length-take (suc n) [] = omega arith
  length-take (suc n) (x ∷ xs) = omega (arith, length-take n xs)

  pub length-drop : (n : ℕ) (xs : List A) → length (drop n xs) ≡ length xs - n
  length-drop zero xs = omega arith
  length-drop (suc n) [] = omega arith
  length-drop (suc n) (x ∷ xs) = omega (arith, length-drop n xs)

  pub take-append-drop : (n : ℕ) (xs : List A) → take n xs ++ drop n xs ≡ xs
  take-append-drop zero xs = refl
  take-append-drop (suc n) [] = refl
  take-append-drop (suc n) (x ∷ xs) = rw (take-append-drop n xs)

  -- A cut at the length of the first part gives the two parts.
  pub take-append_self : (xs ys : List A) → take (length xs) (xs ++ ys) ≡ xs
  take-append_self [] ys = refl
  take-append_self (x ∷ xs) ys = ap (◌∷◌ x) (take-append_self xs ys)

  pub drop-append_self : (xs ys : List A) → drop (length xs) (xs ++ ys) ≡ ys
  drop-append_self [] ys = refl
  drop-append_self (x ∷ xs) ys = drop-append_self xs ys

  pub take-length : (xs : List A) → take (length xs) xs ≡ xs
  take-length [] = refl
  take-length (x ∷ xs) = ap (◌∷◌ x) (take-length xs)

  -- A cut inside the first part leaves the second alone.
  pub take-append_le : (n : ℕ) (xs ys : List A) → n ≤ length xs → take n (xs ++ ys) ≡ take n xs
  take-append_le zero xs ys h = refl
  take-append_le (suc n) [] ys h = absurd (omega arith)
  take-append_le (suc n) (x ∷ xs) ys h = ap (◌∷◌ x) (take-append_le n xs ys (omega arith))

  pub drop-append_le :
      (n : ℕ) (xs ys : List A) → n ≤ length xs → drop n (xs ++ ys) ≡ drop n xs ++ ys
  drop-append_le zero xs ys h = refl
  drop-append_le (suc n) [] ys h = absurd (omega arith)
  drop-append_le (suc n) (x ∷ xs) ys h = drop-append_le n xs ys (omega arith)

-- Equality of byte strings.
unfoldable pub bytes_eq : List ℕ → List ℕ → Bool
bytes_eq [] [] = true
bytes_eq (x ∷ xs) (y ∷ ys) = x == y && bytes_eq xs ys
bytes_eq [] (y ∷ ys) = false
bytes_eq (x ∷ xs) [] = false

pub bytes_eq→eq : (xs ys : List ℕ) → bytes_eq xs ys ≡ true → xs ≡ ys
unfolding bytes_eq
bytes_eq→eq [] [] h = refl
bytes_eq→eq (x ∷ xs) (y ∷ ys) h = ground (arith, bytes_eq→eq xs ys)
bytes_eq→eq [] (y ∷ ys) h = cc
bytes_eq→eq (x ∷ xs) [] h = cc

pub bytes_eq_refl : (xs : List ℕ) → bytes_eq xs xs ≡ true
unfolding bytes_eq
bytes_eq_refl [] = refl
bytes_eq_refl (x ∷ xs) = ground (arith, bytes_eq_refl xs)

module _ {ℓ} {A : Type ℓ} where
  infix 50 ◌∈◌
  -- An element stands in a list.
  abbrev pub ◌∈◌ : A → List A → Type ℓ
  x ∈ [] = Unit × ⊥
  x ∈ (y ∷ ys) = (x ≡ y) ⊎ (x ∈ ys)

  abbrev pub filter : (A → Bool) → List A → List A
  filter p [] = []
  filter p (x ∷ xs) = let rest = filter p xs in if p x then x ∷ rest else rest

  pub All-lookup {κ} : (P : A → Type κ) (xs : List A) (x : A) → All P xs → x ∈ xs → P x
  All-lookup P [] x h m = absurd m.1
  All-lookup P (y ∷ ys) x h (inl e) = subst P (sym e) h.0
  All-lookup P (y ∷ ys) x h (inr m) = All-lookup P ys x h.1 m

  pub All-snoc {κ} :
      (P : A → Type κ) (xs : List A) (x : A) → All P xs → P x → All P (xs ++ (x ∷ []))
  All-snoc P [] x h k = (k, tt)
  All-snoc P (y ∷ ys) x h k = (h.0, All-snoc P ys x h.1 k)

  pub All-reverse {κ} : (P : A → Type κ) (xs : List A) → All P xs → All P (reverse xs)
  All-reverse P [] h = tt
  All-reverse P (x ∷ xs) h =
      subst (All P) (sym (reverse-append (x ∷ []) xs))
        (All-snoc P (reverse xs) x (All-reverse P xs h.1) h.0)

  pub All-tabulate {κ} : (P : A → Type κ) (xs : List A) → ((x : A) → x ∈ xs → P x) → All P xs
  All-tabulate P [] f = tt
  All-tabulate P (y ∷ ys) f = (f y (inl refl), All-tabulate P ys (λ x m. f x (inr m)))

  pub mem-filter : (p : A → Bool) (xs : List A) (x : A) → x ∈ filter p xs → (x ∈ xs) × (p x ≡ true)
  mem-filter p [] x = λ m. absurd m.1
  mem-filter p (y ∷ ys) x = elim (Bool-cases (p y)) [
    | inl e ↦ rw e (λ m. elim m [
      | inl k ↦ (inl k, ap p k ∙ e)
      | inr k ↦ let later = mem-filter p ys x k in (inr later.0, later.1)
    ])
    | inr e ↦ rw e (λ m. let later = mem-filter p ys x m in (inr later.0, later.1))
  ]

  pub mem_filter : (p : A → Bool) (xs : List A) (x : A) → x ∈ xs → p x ≡ true → x ∈ filter p xs
  mem_filter p [] x m h = m
  mem_filter p (y ∷ ys) x (inl e) h = rw (sym (ap p e) ∙ h) (inl e)
  mem_filter p (y ∷ ys) x (inr m) h = elim (Bool-cases (p y)) [
    | inl e ↦ rw e (inr (mem_filter p ys x m h))
    | inr e ↦ rw e (mem_filter p ys x m h)
  ]

module _ {ℓ κ} {A : Type ℓ} {B : Type κ} (f : A → B) where
  pub mem_map : (xs : List A) (x : A) → x ∈ xs → f x ∈ map f xs
  mem_map [] x m = absurd m.1
  mem_map (y ∷ ys) x (inl e) = inl (ap f e)
  mem_map (y ∷ ys) x (inr m) = inr (mem_map ys x m)

  pub mem-map : (xs : List A) (z : B) → z ∈ map f xs → (x : A) × (x ∈ xs) × (z ≡ f x)
  mem-map [] z m = absurd m.1
  mem-map (y ∷ ys) z (inl e) = (y, inl refl, e)
  mem-map (y ∷ ys) z (inr m) = let (x, k, e) = mem-map ys z m in (x, inr k, e)
