-- ===== src/Store/Crypto/RoundTrip.antt =====
-- A sealed object opens again.
use pre_call.Prelude.{
  ltb, ℕ, ◌+◌, ◌≡◌, subst, List, ◌++◌, Option, some, ok, length, length-append, take, drop,
  take-append_self, false, drop-append_self, ltb-false, arith, refl,
}
use pre_call.Store.Crypto.{seal, open_sealed}

module _ (encrypt : List ℕ → List ℕ → List ℕ → List ℕ → List ℕ)
    (decrypt : List ℕ → List ℕ → List ℕ → List ℕ → Option (List ℕ))
    (length-encrypt : (key nonce aad msg : List ℕ)
      → length (encrypt key nonce aad msg) ≡ length msg + 16)
    (decrypt-encrypt : (key nonce aad msg : List ℕ)
      → decrypt key nonce aad (encrypt key nonce aad msg) ≡ some msg) where
  -- What is sealed opens to the plaintext under the same key and associated data, for any nonce
  -- of twelve bytes. The hypotheses on the cipher: the tag is sixteen bytes, and decryption
  -- undoes encryption.
  pub open_sealed-seal :
      (key nonce aad plaintext : List ℕ)
      → length nonce ≡ 12
      → open_sealed encrypt decrypt key aad (seal encrypt decrypt key nonce aad plaintext)
        ≡ ok plaintext
  unfolding open_sealed seal
  open_sealed-seal key nonce aad plaintext h =
      rw (long_enough, first_12, behind_12, decrypt-encrypt key nonce aad plaintext) refl
    where
      long_enough : ltb (length (nonce ++ encrypt key nonce aad plaintext)) 28 ≡ false
      long_enough = ltb-false (length (nonce ++ encrypt key nonce aad plaintext)) 28 (
          omega (
            arith,
            length-append nonce (encrypt key nonce aad plaintext),
            length-encrypt key nonce aad plaintext,
            h,
          ))

      first_12 : take 12 (nonce ++ encrypt key nonce aad plaintext) ≡ nonce
      first_12 =
          subst (λ n. take n (nonce ++ encrypt key nonce aad plaintext) ≡ nonce) h
            (take-append_self nonce (encrypt key nonce aad plaintext))

      behind_12 :
          drop 12 (nonce ++ encrypt key nonce aad plaintext) ≡ encrypt key nonce aad plaintext
      behind_12 =
          subst
            (λ n.
              drop n (nonce ++ encrypt key nonce aad plaintext) ≡ encrypt key nonce aad plaintext)
            h (drop-append_self nonce (encrypt key nonce aad plaintext))
