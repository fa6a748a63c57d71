-- ===== src/Store/Objects/RoundTrip.antt =====
-- An object that was put is read back.
use pre_call.Prelude.{
  ℕ, ◌+◌, ◌≡◌, refl, Text, Bool, true, List, [], ◌∷◌, Option, none, some, ok, length, bytes_eq_refl,
  arith,
}
use pre_call.Prelude.Int.{ℤ}
use pre_call.Store.Crypto.RoundTrip.{open_sealed-seal}
use pre_call.Store.Objects.{
  ObjectKey, ObjectStore, StoredObject, same_key, write_file, read_file, sealed_with, opened_with,
  key_path, put, get,
}

pub same_key_refl : (k : ObjectKey) → same_key k k ≡ true
unfolding same_key
same_key_refl k = rw (bytes_eq_refl k.client, bytes_eq_refl k.file) (ground arith)

pub read_file-write_file :
    (key : ObjectKey) (bytes : List ℕ) (os : List StoredObject)
    → read_file key (write_file key bytes os) ≡ some bytes
unfolding read_file write_file
read_file-write_file key bytes [] = rw (same_key_refl key) refl
read_file-write_file key bytes (o ∷ rest) =
    ground (arith, read_file-write_file key bytes rest, same_key_refl key)

module _ (is_alphanumeric : ℕ → Bool) (encrypt : List ℕ → List ℕ → List ℕ → List ℕ → List ℕ)
    (decrypt : List ℕ → List ℕ → List ℕ → List ℕ → Option (List ℕ))
    (length-encrypt : (key nonce aad msg : List ℕ)
      → length (encrypt key nonce aad msg) ≡ length msg + 16)
    (decrypt-encrypt : (key nonce aad msg : List ℕ)
      → decrypt key nonce aad (encrypt key nonce aad msg) ≡ some msg) where
  pub opened_with-sealed_with :
      (cipher : Option (List ℕ)) (nonce token bytes : List ℕ)
      → length nonce ≡ 12
      → opened_with is_alphanumeric encrypt decrypt cipher token
          (sealed_with is_alphanumeric encrypt decrypt cipher nonce token bytes)
        ≡ ok bytes
  unfolding opened_with sealed_with
  opened_with-sealed_with none nonce token bytes h = refl
  opened_with-sealed_with (some key) nonce token bytes h =
      rw
        (
          opened_with,
          open_sealed-seal encrypt decrypt length-encrypt decrypt-encrypt key nonce token bytes h,
        )
        refl

  -- `get` returns what `put` last wrote under the key, with the cipher or without it, when the
  -- path of the key is below the directory of the client. The hypotheses on the cipher: the tag
  -- is sixteen bytes, and decryption undoes encryption.
  pub get-put :
      (is_under : Text → Text → Bool) (nonce client_id : Text) (date : ℤ × ℕ × ℕ)
      (token ext bytes : List ℕ) (os : ObjectStore)
      → length nonce ≡ 12
      → is_under (key_path is_alphanumeric client_id date token ext).client client_id ≡ true
      → let written = put is_alphanumeric encrypt decrypt nonce client_id date token ext bytes os in
        get is_alphanumeric encrypt decrypt is_under client_id written.0 token written.1 ≡ ok bytes
  unfolding get put
  get-put is_under nonce client_id date token ext bytes os h k =
      rw
        (
          k,
          read_file-write_file (key_path is_alphanumeric client_id date token ext) _ os.objects,
          opened_with-sealed_with os.cipher nonce token bytes h,
        )
        refl
