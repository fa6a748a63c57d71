-- ===== src/Broker/Connect/Count.antt =====
-- The count of the sessions of crates/precall-broker/src/ingest.rs: `fetch_add` before the check,
-- and `fetch_sub` on rejection and by `SessionGuard`. Connections interleave at each of these.
use pre_call.Prelude.{ℕ, suc, ◌+◌, ◌-◌, ◌≤◌, ◌<◌, ◌≡◌, arith}

-- The counter, the sessions that passed the check, and the connections between a failed check and
-- their `fetch_sub`.
pub record Sessions : Type 0 where
  pub counter : ℕ
  pub active : ℕ
  pub refused : ℕ

pub data Step (max_clients : ℕ) : Sessions → Sessions → Type 0 where
  -- fetch_add finds fewer than max_clients
  enter :
      (s : Sessions)
      → s.counter < max_clients
      → Step max_clients s
          (record { counter = suc s.counter; active = suc s.active; refused = s.refused })
  -- fetch_add finds max_clients or more
  refuse :
      (s : Sessions)
      → max_clients ≤ s.counter
      → Step max_clients s
          (record { counter = suc s.counter; active = s.active; refused = suc s.refused })
  -- fetch_sub behind a failed check
  back_out :
      (s : Sessions)
      → 1 ≤ s.refused
      → Step max_clients s
          (record { counter = s.counter - 1; active = s.active; refused = s.refused - 1 })
  -- the guard of a session is dropped
  leave :
      (s : Sessions)
      → 1 ≤ s.active
      → Step max_clients s
          (record { counter = s.counter - 1; active = s.active - 1; refused = s.refused })

pub data Steps (max_clients : ℕ) : Sessions → Sessions → Type 0 where
  done : (s : Sessions) → Steps max_clients s s
  then : (s t u : Sessions) → Steps max_clients s t → Step max_clients t u → Steps max_clients s u

abbrev pub no_sessions : Sessions
no_sessions = record { counter = 0; active = 0; refused = 0 }

abbrev pub IsCounted : ℕ → Sessions → Type 0
IsCounted max_clients s = (s.counter ≡ s.active + s.refused) × (s.active ≤ max_clients)

Step-IsCounted :
    (max_clients : ℕ) (s t : Sessions)
    → Step max_clients s t
    → IsCounted max_clients s
    → IsCounted max_clients t
Step-IsCounted max_clients s t (enter _ h) (e, b) = (omega arith, omega arith)
Step-IsCounted max_clients s t (refuse _ h) (e, b) = (omega arith, b)
Step-IsCounted max_clients s t (back_out _ h) (e, b) = (omega arith, b)
Step-IsCounted max_clients s t (leave _ h) (e, b) = (omega arith, omega arith)

-- However connections come, are refused and go, the counter is the number of the sessions plus
-- the refused ones that have not backed out yet, and there are never more than `max_clients`
-- sessions.
pub steps-IsCounted :
    (max_clients : ℕ) (s : Sessions) → Steps max_clients no_sessions s → IsCounted max_clients s
steps-IsCounted max_clients s (done _) = (omega arith, omega arith)
steps-IsCounted max_clients s (then _ t _ before last) =
    Step-IsCounted max_clients t s last (steps-IsCounted max_clients t before)
