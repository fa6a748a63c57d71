-- ===== src/Client/Run/Backoff.antt =====
-- crates/precall-client/src/run.rs: the outer loop of `run`, its connection attempts and the
-- waits between them, in milliseconds.
use native.Mathlib.Omega.{pow_step}
use pre_call.Prelude.{
  ℕ, zero, suc, ◌*◌, ◌^◌, ◌≤◌, ◌≡◌, refl, sym, ap, ◌∙◌, Bool, true, false, List, [], ◌∷◌, min, All,
  arith,
}

-- An attempt: it fails and the wait ends or is cut short by the stop signal; or it succeeds, and
-- the session ends with the stop signal seen or not.
pub data Attempt : Type 0 where
  failed : Bool → Attempt
  connected : Bool → Attempt

abbrev pub first_backoff : ℕ
first_backoff = 500

abbrev pub max_backoff : ℕ
max_backoff = 30000

-- The waits of the outer loop, from the present backoff on.
unfoldable pub waits : List Attempt → ℕ → List ℕ
waits [] backoff = []
waits (failed stopped ∷ rest) backoff = elim stopped [
  | true ↦ backoff ∷ []
  | false ↦ backoff ∷ waits rest (min (backoff * 2) max_backoff)
]
waits (connected stopped ∷ rest) backoff = elim stopped [
  | true ↦ []
  | false ↦ waits rest first_backoff
]

-- The n-th wait after a success.
unfoldable pub wait_after : ℕ → ℕ
wait_after n = min (first_backoff * 2 ^ n) max_backoff

abbrev pub failures : ℕ → List Attempt
failures zero = []
failures (suc n) = failed false ∷ failures n

unfoldable pub waits_from : ℕ → ℕ → List ℕ
waits_from from zero = []
waits_from from (suc n) = wait_after from ∷ waits_from (suc from) n

capped : (p : ℕ) → min (min (500 * p) 30000 * 2) 30000 ≡ min (500 * (2 * p)) 30000
capped p = omega arith

wait_after-suc : (n : ℕ) → min (wait_after n * 2) max_backoff ≡ wait_after (suc n)
unfolding wait_after
wait_after-suc n = capped (2 ^ n) ∙ ap (λ t. min (500 * t) 30000) (sym (pow_step 2 n))

waits-failures_from : (n from : ℕ) → waits (failures n) (wait_after from) ≡ waits_from from n
unfolding waits waits_from
waits-failures_from zero from = refl
waits-failures_from (suc n) from =
    ap (λ b. wait_after from ∷ waits (failures n) b) (wait_after-suc from)
    ∙ ap (◌∷◌ (wait_after from)) (waits-failures_from n (suc from))

abbrev pub IsWait : ℕ → Type 0
IsWait w = (first_backoff ≤ w) × (w ≤ max_backoff)

waits-AreWaits : (attempts : List Attempt) (b : ℕ) → IsWait b → All IsWait (waits attempts b)
unfolding waits wait_after
waits-AreWaits [] b h = tt
waits-AreWaits (failed true ∷ rest) b h = (h, tt)
waits-AreWaits (failed false ∷ rest) b h =
    (h, waits-AreWaits rest (min (b * 2) max_backoff) (omega arith))
waits-AreWaits (connected true ∷ rest) b h = tt
waits-AreWaits (connected false ∷ rest) b h = waits-AreWaits rest first_backoff (omega arith)

-- The present backoff is between half a second and thirty seconds. Then, however the attempts of
-- a client end, it waits between half a second and thirty seconds after each that fails; and
-- after a success that is followed by n failures, the k-th wait, from zero on, is 500 * 2 ^ k
-- milliseconds or thirty seconds, whichever is less.
pub waits-eq :
    (attempts : List Attempt) (n b : ℕ)
    → IsWait b
    → All IsWait (waits attempts b) × (waits (connected false ∷ failures n) b ≡ waits_from 0 n)
unfolding waits wait_after
waits-eq attempts n b h = (waits-AreWaits attempts b h, waits-failures_from n 0)
