-- ===== src/Prelude/Print.antt =====
-- Texts cut at a character, searched and printed, as the standard library of Rust does it.
use Prim.Native.Nat.{ℕ, zero, suc, ◌+◌, ◌/◌, ◌%◌}
use mathlib.Core.Bool.{Bool, true, false, ◌||◌}
use mathlib.Core.Option.{Option, none, some}
use mathlib.Core.List.{[], ◌∷◌, reverse}
use pre_call.Prelude.Tests.{ltb, ◌==◌, if◌then◌else◌}
use pre_call.Prelude.Strings.{Text, strip_prefix}
use pre_call.Prelude.Int.{ℤ, pos, negsuc}

abbrev is_some {ℓ} : {A : Type ℓ} → Option A → Bool
is_some none = false
is_some (some a) = true

-- `str::starts_with`, the prefix last.
unfoldable pub starts_with : Text → Text → Bool
unfolding strip_prefix
starts_with s p = is_some (strip_prefix p s)

-- `str::contains` of a text.
unfoldable pub contains : Text → Text → Bool
unfolding starts_with
contains [] p = starts_with [] p
contains (c ∷ cs) p = starts_with (c ∷ cs) p || contains cs p

-- The first part of `split`.
unfoldable pub until : (ℕ → Bool) → Text → Text
until p [] = []
until p (c ∷ cs) = let rest = until p cs in if p c then [] else c ∷ rest

-- The first part of `rsplit`.
unfoldable pub after_last : (ℕ → Bool) → Text → Text
unfolding until
after_last p s = reverse (until p (reverse s))

-- `rsplit_once`, the second part: the text is read from its end.
unfoldable pub rest_after : ℕ → Text → Text → Option Text
rest_after c [] read = none
rest_after c (d ∷ ds) read =
    let more = rest_after c ds (d ∷ read) in if d == c then some read else more

unfoldable pub rsplit_once : ℕ → Text → Option Text
unfolding rest_after
rsplit_once c s = rest_after c (reverse s) []

-- `str::replace` of one character.
unfoldable pub replace : ℕ → ℕ → Text → Text
replace from to [] = []
replace from to (c ∷ cs) = (if c == from then to else c) ∷ replace from to cs

-- `trim_end_matches` of one character.
unfoldable pub drop_while_eq : ℕ → Text → Text
drop_while_eq c [] = []
drop_while_eq c (d ∷ ds) = let rest = drop_while_eq c ds in if d == c then rest else d ∷ ds

unfoldable pub trim_end_matches : ℕ → Text → Text
unfolding drop_while_eq
trim_end_matches c s = reverse (drop_while_eq c (reverse s))

-- The decimal digits of a number, with a round for each digit at least.
unfoldable pub digits : ℕ → ℕ → Text → Text
digits zero n read = read
digits (suc fuel) n read = elim (ltb n 10) [
  | true ↦ (b'0' + n) ∷ read
  | false ↦ digits fuel (n / 10) ((b'0' + n % 10) ∷ read)
]

unfoldable pub decimal : ℕ → Text
unfolding digits
decimal n = digits (suc n) n []

unfoldable pub decimal_ℤ : ℤ → Text
unfolding decimal
decimal_ℤ (pos n) = decimal n
decimal_ℤ (negsuc n) = b'-' ∷ decimal (suc n)
