-- ===== src/Broker/Auth.antt =====
-- crates/precall-broker/src/auth.rs. SHA-256 and `to_lowercase` come from outside the repository
-- and are parameters; a text is the list of its bytes.
pub mod Laws
use pre_call.Prelude.{
  ℕ, String, Bool, true, false, not, ◌&&◌, List, [], ◌∷◌, ◌++◌, map, any, take, bytes_eq, codes,
  if◌then◌else◌,
}
use pre_call.Prelude.Digest.{ct_eq}
use pre_call.Proto.Handshake.{AuthMethod, psk, certificate, ntlm}

pub data AuthDecision : Type 0 where
  -- principal
  allow : List ℕ → AuthDecision
  -- reason
  reject : String → AuthDecision

pub record Authenticator : Type 0 where
  pub psk_digests : List (List ℕ)
  pub enrolled_certs : List (List ℕ)
  pub allow_ntlm : Bool
  pub allow_any_client : Bool

unfoldable pub is_empty : List (List ℕ) → Bool
is_empty [] = true
is_empty (x ∷ xs) = false

module _ (sha256 lowercase : List ℕ → List ℕ) where
  unfoldable pub new : List (List ℕ) → List (List ℕ) → Bool → Bool → Authenticator
  new psk_tokens enrolled_certs allow_ntlm allow_any_client = record {
    psk_digests = map sha256 psk_tokens;
    enrolled_certs = map lowercase enrolled_certs;
    allow_ntlm = allow_ntlm;
    allow_any_client = allow_any_client;
  }

  -- `client_id` is the text of the UUID.
  unfoldable pub authenticate : Authenticator → AuthMethod → List ℕ → AuthDecision
  unfolding is_empty
  authenticate self (psk token) client_id =
      if not self.allow_any_client && is_empty self.psk_digests
      then reject "psk auth disabled"
      else let digest = sha256 token in
        if any (λ d. ct_eq d digest) self.psk_digests
        then allow (codes "psk:" ++ take 8 client_id)
        else reject "unknown pre-shared key"
  authenticate self (certificate fingerprint) client_id =
      let fp = lowercase fingerprint in
      if any (λ e. bytes_eq e fp) self.enrolled_certs
      then allow (codes "cert:" ++ fp)
      else reject "certificate not enrolled"
  authenticate self (ntlm user _) client_id =
      if self.allow_ntlm
      then allow (codes "ntlm:" ++ user)
      else reject "ntlm disabled; use psk or certificate"
