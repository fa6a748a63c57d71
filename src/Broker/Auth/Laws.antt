-- ===== src/Broker/Auth/Laws.antt =====
-- Whom the broker lets in, in terms of its configuration.
use pre_call.Prelude.{
  sym, ap, ◌∙◌, ℕ, ◌≡◌, ◌↔◌, Bool, true, List, [], ◌∷◌, ◌++◌, map, any, take, bytes_eq, bytes_eq→eq,
  bytes_eq_refl, codes, arith,
}
use pre_call.Prelude.Digest.{IsDigest, SomeSame, any-ct_eq}
use pre_call.Proto.Handshake.{AuthMethod, psk, certificate, ntlm}
use pre_call.Broker.Auth.{AuthDecision, allow, new, authenticate}

module _ (sha256 lowercase : List ℕ → List ℕ) (digests : (x : List ℕ) → IsDigest (sha256 x)) where
  -- What the configuration grants.
  abbrev pub Granted : List (List ℕ) → List (List ℕ) → Bool → AuthMethod → Type 0
  Granted tokens certs ntlm_on (psk token) = SomeSame sha256 token tokens
  Granted tokens certs ntlm_on (certificate fp) = SomeSame lowercase fp certs
  Granted tokens certs ntlm_on (ntlm user response) = ntlm_on ≡ true

  -- The name that goes to the audit log.
  abbrev pub principal : AuthMethod → List ℕ → List ℕ
  principal (psk token) client_id = codes "psk:" ++ take 8 client_id
  principal (certificate fp) client_id = codes "cert:" ++ lowercase fp
  principal (ntlm user response) client_id = codes "ntlm:" ++ user

  any-bytes_eq :
      (fp : List ℕ) (certs : List (List ℕ))
      → (any (λ e. bytes_eq e (lowercase fp)) (map lowercase certs) ≡ true)
        ↔ SomeSame lowercase fp certs
  any-bytes_eq fp [] = (λ e. cc, λ h. absurd h)
  any-bytes_eq fp (c ∷ cs) =
      let there = bytes_eq→eq (lowercase c) (lowercase fp) in
      let back : lowercase c ≡ lowercase fp → bytes_eq (lowercase c) (lowercase fp) ≡ true =
        λ e. rw e (bytes_eq_refl (lowercase fp)) in
      let later = any-bytes_eq fp cs in
      (λ e. ground (arith, there, later), λ h. ground (arith, back, later))

  pub authenticate-Granted :
      (tokens certs : List (List ℕ)) (ntlm_on any_client : Bool) (m : AuthMethod)
      (client_id : List ℕ)
      → (authenticate sha256 lowercase
            (new sha256 lowercase tokens certs ntlm_on any_client)
            m
            client_id
          ≡ allow (principal m client_id))
        ↔ Granted tokens certs ntlm_on m
  unfolding authenticate new
  authenticate-Granted [] certs ntlm_on any_client (psk token) client_id =
      (λ e. ground arith, λ h. absurd h)
  authenticate-Granted (t ∷ ts) certs ntlm_on any_client (psk token) client_id =
      let known = any-ct_eq sha256 digests token (t ∷ ts) in
      (λ e. ground (arith, known), λ h. ground (arith, known))
  authenticate-Granted tokens certs ntlm_on any_client (certificate fp) client_id =
      let known = any-bytes_eq fp certs in (λ e. ground (arith, known), λ h. ground (arith, known))
  authenticate-Granted tokens certs ntlm_on any_client (ntlm user response) client_id =
      (λ e. ground arith, λ h. ground arith)

  allow_inj : (p q : List ℕ) → allow p ≡ allow q → p ≡ q
  allow_inj p q e = ap principal_of e
    where
      principal_of : AuthDecision → List ℕ
      principal_of (allow r) = r
      principal_of _ = []

  allowed_as :
      (tokens certs : List (List ℕ)) (ntlm_on any_client : Bool) (m : AuthMethod)
      (client_id p : List ℕ)
      → authenticate sha256 lowercase
          (new sha256 lowercase tokens certs ntlm_on any_client)
          m
          client_id
        ≡ allow p
      → p ≡ principal m client_id
  unfolding authenticate new
  allowed_as [] certs ntlm_on any_client (psk token) client_id p e = ground arith
  allowed_as (t ∷ ts) certs ntlm_on any_client (psk token) client_id p e = ground arith
  allowed_as tokens certs ntlm_on any_client (certificate fp) client_id p e = ground arith
  allowed_as tokens certs ntlm_on any_client (ntlm user response) client_id p e = ground arith

  -- A client is let in, and under a principal `p`, exactly when the configuration grants it and
  -- `p` is its name: some configured token has the digest of the one it shows, some enrolled
  -- fingerprint is the same up to letter case, or NTLM is switched on. `allow_any_client` and the
  -- client's id do not decide; the id only names the principal of a token.
  pub authenticate_iff :
      (tokens certs : List (List ℕ)) (ntlm_on any_client : Bool) (m : AuthMethod)
      (client_id p : List ℕ)
      → (authenticate sha256 lowercase
            (new sha256 lowercase tokens certs ntlm_on any_client)
            m
            client_id
          ≡ allow p)
        ↔ (Granted tokens certs ntlm_on m × (p ≡ principal m client_id))
  authenticate_iff tokens certs ntlm_on any_client m client_id p =
      let granted = authenticate-Granted tokens certs ntlm_on any_client m client_id in
      (
        λ e.
            let q = allowed_as tokens certs ntlm_on any_client m client_id p e in
            (granted.0 (e ∙ ap allow q), q),
        λ (g, q). granted.1 g ∙ ap allow (sym q),
      )
