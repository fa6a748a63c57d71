-- ===== src/Prelude/Digest.antt =====
-- SHA-256 digests as lists of 32 bytes, and the comparison `ct_eq` that the broker and the API
-- define alike (crates/precall-broker/src/auth.rs, crates/precall-api/src/auth.rs).
use Prim.Native.Nat.{ℕ, zero, suc, ◌<◌, ◌/◌, bit_or, bit_xor}
use mathlib.Core.Path.{◌≡◌, refl}
use mathlib.Core.Bool.{Bool, true, false, ◌&&◌}
use mathlib.Core.Logic.{◌↔◌, ◌⊎◌}
use mathlib.Core.List.{List, [], ◌∷◌, map}
use native.Mathlib.Omega.{arith}
use pre_call.Prelude.Tests.{◌==◌, ==_iff, if◌then◌else◌}
use pre_call.Prelude.Lists.{length, All, any}

-- The loop over `a.iter().zip(b.iter())`.
abbrev pub ct_loop : ℕ → List ℕ → List ℕ → ℕ
ct_loop acc (x ∷ xs) (y ∷ ys) = ct_loop (bit_or acc (bit_xor x y)) xs ys
ct_loop acc [] ys = acc
ct_loop acc (x ∷ xs) [] = acc

unfoldable pub ct_eq : List ℕ → List ℕ → Bool
ct_eq a b = ct_loop 0 a b == 0

abbrev pub IsDigest : List ℕ → Type 0
IsDigest d = (length d ≡ 32) × All (λ b. b < 256) d

-- Every byte below `n` passes the test.
check_to : (ℕ → Bool) → ℕ → Bool
check_to test zero = true
check_to test (suc n) = if test n then check_to test n else false

check_to→holds :
    (test : ℕ → Bool) (n : ℕ) → check_to test n ≡ true → (b : ℕ) → b < n → test b ≡ true
unfolding check_to
check_to→holds test zero e b k = absurd (omega arith)
check_to→holds test (suc n) e b k = ground (arith, check_to→holds test n (ground arith) b)

same : Bool → Bool → Bool
same true b = b
same false true = false
same false false = true

same→eq : (a b : Bool) → same a b ≡ true → a ≡ b
unfolding same
same→eq true true h = refl
same→eq true false h = cc
same→eq false true h = cc
same→eq false false h = refl

xor_table : check_to (λ x. check_to (λ y. same (bit_xor x y == 0) (x == y)) 256) 256 ≡ true
unfolding check_to same
xor_table = refl

xor_range : check_to (λ x. check_to (λ y. bit_xor x y / 256 == 0) 256) 256 ≡ true
unfolding check_to
xor_range = refl

or_table : check_to (λ x. check_to (λ y. same (bit_or x y == 0) (x == 0 && y == 0)) 256) 256 ≡ true
unfolding check_to same
or_table = refl

or_range : check_to (λ x. check_to (λ y. bit_or x y / 256 == 0) 256) 256 ≡ true
unfolding check_to
or_range = refl

at_byte :
    (p : ℕ → ℕ → Bool) (x y : ℕ)
    → check_to (λ x. check_to (p x) 256) 256 ≡ true
    → x < 256
    → y < 256
    → p x y ≡ true
at_byte p x y t hx hy =
    check_to→holds (p x) 256 (check_to→holds (λ x. check_to (p x) 256) 256 t x hx) y hy

xor-lt : (x y : ℕ) → x < 256 → y < 256 → bit_xor x y < 256
xor-lt x y hx hy = omega (
  arith,
  (==_iff (bit_xor x y / 256) 0).0 (at_byte (λ x y. bit_xor x y / 256 == 0) x y xor_range hx hy),
)

or-lt : (x y : ℕ) → x < 256 → y < 256 → bit_or x y < 256
or-lt x y hx hy = omega (
  arith,
  (==_iff (bit_or x y / 256) 0).0 (at_byte (λ x y. bit_or x y / 256 == 0) x y or_range hx hy),
)

xor-eq_zero : (x y : ℕ) → x < 256 → y < 256 → (bit_xor x y == 0) ≡ (x == y)
xor-eq_zero x y hx hy =
    same→eq (bit_xor x y == 0) (x == y)
      (at_byte (λ x y. same (bit_xor x y == 0) (x == y)) x y xor_table hx hy)

or-eq_zero : (x y : ℕ) → x < 256 → y < 256 → (bit_or x y == 0) ≡ (x == 0 && y == 0)
or-eq_zero x y hx hy =
    same→eq (bit_or x y == 0) (x == 0 && y == 0)
      (at_byte (λ x y. same (bit_or x y == 0) (x == 0 && y == 0)) x y or_table hx hy)

ct_loop-eq_zero :
    (acc : ℕ) (a b : List ℕ)
    → acc < 256
    → length a ≡ length b
    → All (λ x. x < 256) a
    → All (λ x. x < 256) b
    → ct_loop acc a b ≡ 0
    → (acc ≡ 0) × (a ≡ b)
ct_loop-eq_zero acc [] [] h e ha hb z = (z, refl)
ct_loop-eq_zero acc [] (y ∷ ys) h e ha hb z = absurd (omega arith)
ct_loop-eq_zero acc (x ∷ xs) [] h e ha hb z = absurd (omega arith)
ct_loop-eq_zero acc (x ∷ xs) (y ∷ ys) h e (hx, ha) (hy, hb) z =
    let rest =
      ct_loop-eq_zero (bit_or acc (bit_xor x y)) xs ys
        (or-lt acc (bit_xor x y) h (xor-lt x y hx hy)) (omega arith) ha hb z in
    ground (arith, rest, or-eq_zero acc (bit_xor x y) h (xor-lt x y hx hy), xor-eq_zero x y hx hy)

ct_loop_self : (a : List ℕ) → All (λ x. x < 256) a → ct_loop 0 a a ≡ 0
ct_loop_self [] h = refl
ct_loop_self (x ∷ xs) (hx, h) = rw zero_step (ct_loop_self xs h)
  where
    zero_step : bit_or 0 (bit_xor x x) ≡ 0
    zero_step =
        ground (
          arith,
          or-eq_zero 0 (bit_xor x x) (omega arith) (xor-lt x x hx hx),
          xor-eq_zero x x hx hx,
        )

-- `ct_eq` on two digests holds exactly when they are equal.
pub ct_eq_iff : (a b : List ℕ) → IsDigest a → IsDigest b → (ct_eq a b ≡ true) ↔ (a ≡ b)
unfolding ct_eq
ct_eq_iff a b (la, ha) (lb, hb) = (
  λ e. (ct_loop-eq_zero 0 a b (omega arith) (omega arith) ha hb ((==_iff (ct_loop 0 a b) 0).0 e)).1,
  λ e. rw (← e, ct_loop_self a ha),
)

-- Some element has the same image as `x`.
abbrev pub SomeSame : (List ℕ → List ℕ) → List ℕ → List (List ℕ) → Type 0
SomeSame f x [] = ⊥
SomeSame f x (y ∷ ys) = (f y ≡ f x) ⊎ SomeSame f x ys

-- The search through the digests of the configured tokens.
pub any-ct_eq :
    (sha256 : List ℕ → List ℕ) (digests : (x : List ℕ) → IsDigest (sha256 x)) (token : List ℕ)
    (tokens : List (List ℕ))
    → (any (λ d. ct_eq d (sha256 token)) (map sha256 tokens) ≡ true) ↔ SomeSame sha256 token tokens
any-ct_eq sha256 digests token [] = (λ e. cc, λ h. absurd h)
any-ct_eq sha256 digests token (t ∷ ts) =
    let here = ct_eq_iff (sha256 t) (sha256 token) (digests t) (digests token) in
    let later = any-ct_eq sha256 digests token ts in
    (λ e. ground (arith, here, later), λ h. ground (arith, here, later))
