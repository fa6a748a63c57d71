-- ===== src/Api/Routes/Snapshot.antt =====
-- What the broker has stored is what the snapshot route returns.
use pre_call.Prelude.{
  ℕ, ◌+◌, ◌≡◌, refl, sym, ap, ◌∙◌, Text, codes, true, List, [], ◌∷◌, Option, some, ok, length, any,
  arith,
}
use pre_call.Prelude.Int.{ℤ}
use pre_call.Store.Objects.{
  ObjectStore, ObjectKey, StoredObject, key_path, ymd_from_filetime, exists, put, get, write_file,
  same_key,
}
use pre_call.Store.Objects.RoundTrip.{get-put, same_key_refl}
use pre_call.Store.Ukg.Tables.{Ukg, CaptureRow}
use pre_call.Store.Ukg.Rows.{find_capture, capture_timestamp, time_stamp_of}
use pre_call.Api.Routes.{
  RouteEnv, ClientStores, Directory, client_stores, token_of, not_null, time_of, served,
  serve_object, encrypted, snapshot,
}

any-write_file :
    (key : ObjectKey) (bytes : List ℕ) (os : List StoredObject)
    → any (λ (o : StoredObject). same_key o.key key) (write_file key bytes os) ≡ true
unfolding write_file
any-write_file key bytes [] = rw (same_key_refl key) refl
any-write_file key bytes (o ∷ rest) =
    ground (arith, any-write_file key bytes rest, same_key_refl key)

token_of-found :
    (o : Option CaptureRow) (w : CaptureRow) (token : Text)
    → o ≡ some w
    → w.image_token ≡ some token
    → token_of o ≡ ok token
unfolding token_of
token_of-found o w token e q = ap token_of e ∙ ap not_null q

time_of-found :
    (id : ℕ) (db : Ukg) (w : CaptureRow)
    → find_capture id db.captures ≡ some w
    → time_of (capture_timestamp id db) ≡ ok w.time_stamp
unfolding capture_timestamp time_of
time_of-found id db w e = ap (λ o. time_of (time_stamp_of o)) e

module _ (env : RouteEnv)
    (length-encrypt : (key nonce aad msg : List ℕ)
      → length (env.encrypt key nonce aad msg) ≡ length msg + 16)
    (decrypt-encrypt : (key nonce aad msg : List ℕ)
      → env.decrypt key nonce aad (env.encrypt key nonce aad msg) ≡ some msg) where
  serve_object-put :
      (client token nonce bytes : List ℕ) (ts : ℤ) (os : ObjectStore)
      → length nonce ≡ 12
      → env.is_under
          (key_path env.is_alphanumeric client (ymd_from_filetime ts) token (codes "jpg")).client
          client
        ≡ true
      → serve_object env client ts token
          (put env.is_alphanumeric env.encrypt env.decrypt nonce client
            (ymd_from_filetime ts)
            token
            (codes "jpg")
            bytes
            os).1
        ≡ ok (true, bytes)
  unfolding serve_object
  serve_object-put client token nonce bytes ts os fresh under =
      let rel = key_path env.is_alphanumeric client (ymd_from_filetime ts) token (codes "jpg") in
      let written =
        put env.is_alphanumeric env.encrypt env.decrypt nonce client (ymd_from_filetime ts) token
          (codes "jpg") bytes os in
      let there : exists rel written.1 ≡ true =
        (unfold exists in unfold put in any-write_file rel _ os.objects) in
      let read : get env.is_alphanumeric env.encrypt env.decrypt env.is_under client rel token
            written.1
          ≡ ok bytes =
        (unfold put in
          get-put env.is_alphanumeric env.encrypt env.decrypt length-encrypt decrypt-encrypt
            env.is_under nonce client (ymd_from_filetime ts) token (codes "jpg") bytes os fresh
            under) in
      rw (there, read) (unfold served in refl)

  encrypted-same : (os : ObjectStore) → os.cipher ≡ some env.object_key → encrypted env os ≡ os
  unfolding encrypted
  encrypted-same os e = ap (λ c. record os { cipher = c }) (sym e)

  put-cipher :
      (client token nonce bytes : List ℕ) (ts : ℤ) (os : ObjectStore)
      → (put env.is_alphanumeric env.encrypt env.decrypt nonce client
          (ymd_from_filetime ts)
          token
          (codes "jpg")
          bytes
          os).1.cipher
        ≡ os.cipher
  unfolding put
  put-cipher client token nonce bytes ts os = refl

  -- The screenshot that the broker has put under the token and the time of a capture is what the
  -- snapshot route returns for it, as a JPEG. The broker's store is encrypted, with the key of
  -- the API; the nonce has 12 bytes; the request spells the client as the broker did, and the
  -- client part of the key path is under the client's prefix. The hypotheses on the cipher: the
  -- tag is sixteen bytes, and decryption undoes encryption.
  pub snapshot-put :
      (client token nonce bytes : List ℕ) (id : ℕ) (w : CaptureRow) (s : ClientStores)
      (os : ObjectStore) (root : List Directory)
      → client_stores env client root ≡ ok s
      → find_capture id s.db.captures ≡ some w
      → w.image_token ≡ some token
      → s.objects
        ≡ (put env.is_alphanumeric env.encrypt env.decrypt nonce client
            (ymd_from_filetime w.time_stamp)
            token
            (codes "jpg")
            bytes
            os).1
      → os.cipher ≡ some env.object_key
      → length nonce ≡ 12
      → env.is_under
          (key_path env.is_alphanumeric client
            (ymd_from_filetime w.time_stamp)
            token
            (codes "jpg")).client
          client
        ≡ true
      → snapshot env client id root ≡ ok (true, bytes)
  unfolding snapshot
  snapshot-put client token nonce bytes id w s os root opened found named stored keyed fresh under =
      let tok = token_of-found (find_capture id s.db.captures) w token found named in
      let time = time_of-found id s.db w found in
      let same : encrypted env s.objects ≡ s.objects = encrypted-same s.objects (
        ap (λ (o : ObjectStore). o.cipher) stored
        ∙ (put-cipher client token nonce bytes w.time_stamp os ∙ keyed)) in
      let served_ok : serve_object env client w.time_stamp token (encrypted env s.objects)
          ≡ ok (true, bytes) =
        ap (serve_object env client w.time_stamp token) (same ∙ stored)
        ∙ serve_object-put client token nonce bytes w.time_stamp os fresh under in
      rw (opened, tok, time) served_ok
