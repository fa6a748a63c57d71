-- ===== src/Api/Auth.antt =====
-- crates/precall-api/src/auth.rs. A header is its text, `none` if it is absent or not visible
-- ASCII; SHA-256 is a parameter.
pub mod Laws
use pre_call.Prelude.{
  ℕ, String, Bool, true, false, not, List, [], ◌∷◌, map, any, Option, none, some, trim,
  strip_prefix, codes, if◌then◌else◌,
}
use mathlib.Core.Option
use pre_call.Prelude.Digest.{ct_eq}

-- `warned` is behind an atomic.
pub record ApiAuth : Type 0 where
  pub token_digests : List (List ℕ)
  pub warned : Bool

unfoldable pub is_configured : ApiAuth → Bool
is_configured self = elim self.token_digests [ [] ↦ false | _ ↦ true ]

-- `note_open_mode`: warns once; the log line is left out.
unfoldable pub note_open_mode : ApiAuth → ApiAuth
unfolding is_configured
note_open_mode self = if is_configured self then self else record self { warned = true }

-- The answer of the middleware: the request goes on, or 401.
pub data Verdict : Type 0 where
  run_next unauthorized : Verdict

-- `headers().get(AUTHORIZATION)…strip_prefix("Bearer ").map(str::trim)`.
unfoldable pub bearer : Option (List ℕ) → Option (List ℕ)
bearer none = none
bearer (some v) = Option.map trim (strip_prefix (codes "Bearer ") v)

module _ (sha256 : List ℕ → List ℕ) where
  unfoldable pub new : List (List ℕ) → ApiAuth
  new tokens = record { token_digests = map sha256 tokens; warned = false }

  token_known : List (List ℕ) → Option (List ℕ) → Bool
  token_known token_digests none = false
  token_known token_digests (some t) =
      let digest = sha256 t in any (λ d. ct_eq d digest) token_digests

  unfoldable pub allows : ApiAuth → Option (List ℕ) → Bool → Bool
  unfolding token_known is_configured
  allows self header_token loopback_only_hint =
      if not (is_configured self)
      then loopback_only_hint
      else token_known self.token_digests header_token

  unfoldable pub require_auth : ApiAuth → Option (List ℕ) → ApiAuth × Verdict
  unfolding is_configured note_open_mode allows bearer
  require_auth auth authorization =
      if not (is_configured auth)
      then (note_open_mode auth, run_next)
      else (auth, if allows auth (bearer authorization) true then run_next else unauthorized)
