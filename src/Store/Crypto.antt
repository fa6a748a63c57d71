-- ===== src/Store/Crypto.antt =====
-- crates/precall-store/src/crypto.rs: the envelope `nonce(12) || ciphertext`. AES-256-GCM comes
-- from outside the repository and is a parameter, and so is the nonce, which the source draws at
-- random.
pub mod RoundTrip
use pre_call.Prelude.{
  ℕ, List, ◌++◌, Option, none, some, Result, ok, err, ltb, length, take, drop, if◌then◌else◌,
}

pub data CryptoError : Type 0 where
  truncated decrypt_failed : CryptoError

module _ (encrypt : List ℕ → List ℕ → List ℕ → List ℕ → List ℕ)
    (decrypt : List ℕ → List ℕ → List ℕ → List ℕ → Option (List ℕ)) where
  unfoldable pub seal : List ℕ → List ℕ → List ℕ → List ℕ → List ℕ
  seal key nonce aad plaintext = nonce ++ encrypt key nonce aad plaintext

  unfoldable pub open_sealed : List ℕ → List ℕ → List ℕ → Result CryptoError (List ℕ)
  open_sealed key aad sealed =
      if ltb (length sealed) 28
      then err truncated
      else elim (decrypt key (take 12 sealed) aad (drop 12 sealed)) [
        | some plaintext ↦ ok plaintext
        | none ↦ err decrypt_failed
      ]
