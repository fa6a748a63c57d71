-- ===== src/Api/Auth/Laws.antt =====
-- Which requests the middleware lets through, in terms of the configured tokens.
use pre_call.Prelude.{
  ℕ, ◌≡◌, ◌↔◌, ◌⊎◌, inl, inr, refl, true, List, [], ◌∷◌, ◌++◌, map, Option, none, some,
  Option-cases, trim, strip_prefix, strip_prefix_iff, codes, arith,
}
use pre_call.Prelude.Digest.{IsDigest, SomeSame, any-ct_eq}
use pre_call.Api.Auth.{run_next, new, require_auth, bearer, token_known}

module _ (sha256 : List ℕ → List ℕ) (digests : (x : List ℕ) → IsDigest (sha256 x)) where
  -- The header is `Bearer ` and a token with the digest of a configured one, blanks round it
  -- aside.
  abbrev pub ShowsToken : List (List ℕ) → Option (List ℕ) → Type 0
  ShowsToken tokens none = ⊥
  ShowsToken tokens (some v) =
      (t : List ℕ) × (v ≡ codes "Bearer " ++ t) × SomeSame sha256 (trim t) tokens

  token_known_iff :
      (tokens : List (List ℕ)) (header : Option (List ℕ))
      → (token_known sha256 (map sha256 tokens) (bearer header) ≡ true) ↔ ShowsToken tokens header
  unfolding token_known bearer
  token_known_iff tokens none = (λ e. cc, λ h. absurd h)
  token_known_iff tokens (some v) = elim (Option-cases (strip_prefix (codes "Bearer ") v)) [
    | inl e ↦
        (λ h. ground (arith, e), λ (t, q, k). cc ((strip_prefix_iff (codes "Bearer ") v t).1 q, e))
    | inr (t, e) ↦ (
      λ h. (
        t,
        (strip_prefix_iff (codes "Bearer ") v t).0 e,
        (any-ct_eq sha256 digests (trim t) tokens).0 (rw e at h),
      ),
      λ (u, q, k).
          rw ((strip_prefix_iff (codes "Bearer ") v u).1 q)
            ((any-ct_eq sha256 digests (trim u) tokens).1 k),
    )
  ]

  -- A request passes exactly when no token is configured at all, whatever peer sent it, or when
  -- its header shows a configured token.
  pub require_auth_iff :
      (tokens : List (List ℕ)) (header : Option (List ℕ))
      → ((require_auth sha256 (new sha256 tokens) header).1 ≡ run_next)
        ↔ ((tokens ≡ []) ⊎ ShowsToken tokens header)
  unfolding require_auth new
  require_auth_iff [] header = (λ h. inl refl, λ h. refl)
  require_auth_iff (t ∷ ts) header =
      let known = token_known_iff (t ∷ ts) header in
      (
        λ h. inr (known.0 (ground arith)),
        λ h. elim h [ inl e ↦ cc | inr shown ↦ rw (known.1 shown) ],
      )
