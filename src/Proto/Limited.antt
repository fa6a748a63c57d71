-- ===== src/Proto/Limited.antt =====
-- crates/precall-proto/src/codec.rs: the JSON messages of the handshake, a length and the bytes.
-- serde is a parameter; a reader is the bytes that are to come, and it fails where these end.
use pre_call.Prelude.{
  ℕ, ◌*◌, ◌≤◌, ◌≡◌, refl, ap, ◌∙◌, false, List, [], ◌∷◌, ◌++◌, Option, none, some, Result, ok, err,
  ok-inj, err-ok, subst, ltb, length, take, drop, take-append_self, drop-append_self, length-append,
  if◌then◌else◌, Bool-cases, inl, inr, arith,
}
use pre_call.Proto.Error.{ProtoError, payload_too_large, json, io}
use pre_call.Proto.Bytes.{put_u32_le, get_u32_le, get-put_u32}

abbrev pub max_handshake_payload : ℕ
max_handshake_payload = 1024 * 1024

unfoldable pub write_body : Option (List ℕ) → List ℕ → Result ProtoError (List ℕ)
write_body none writer = err json
write_body (some body) writer =
    if ltb max_handshake_payload (length body)
    then err (payload_too_large (length body))
    else ok (writer ++ (put_u32_le (length body) ++ body))

module _ {A : Type 0} (to_vec : A → Option (List ℕ)) (from_slice : List ℕ → Option A) where
  unfoldable pub write_limited_json : A → List ℕ → Result ProtoError (List ℕ)
  unfolding write_body
  write_limited_json value writer = write_body (to_vec value) writer

  unfoldable pub parsed : Option A → List ℕ → Result ProtoError (A × List ℕ)
  parsed none reader = err json
  parsed (some value) reader = ok (value, reader)

  unfoldable pub read_body : ℕ → List ℕ → Result ProtoError (A × List ℕ)
  unfolding parsed
  read_body len reader =
      if ltb max_handshake_payload len
      then err (payload_too_large len)
      else if ltb (length reader) len
      then err io
      else parsed (from_slice (take len reader)) (drop len reader)

  unfoldable pub read_limited_json : List ℕ → Result ProtoError (A × List ℕ)
  unfolding read_body
  read_limited_json (a ∷ b ∷ c ∷ d ∷ reader) = read_body (get_u32_le a b c d) reader
  read_limited_json _ = err io

  read_body-append :
      (body rest : List ℕ)
      → ltb max_handshake_payload (length body) ≡ false
      → read_body (length body) (body ++ rest) ≡ parsed (from_slice body) rest
  unfolding read_body
  read_body-append body rest h =
      let enough : ltb (length (body ++ rest)) (length body) ≡ false =
        ground (arith, length-append body rest) in
      rw (h, enough, take-append_self body rest, drop-append_self body rest) refl

  read_framed :
      (value : A) (body rest : List ℕ)
      → from_slice body ≡ some value
      → ltb max_handshake_payload (length body) ≡ false
      → read_limited_json ((put_u32_le (length body) ++ body) ++ rest) ≡ ok (value, rest)
  unfolding read_limited_json parsed
  read_framed value body rest known t =
      let small : length body ≤ 1048576 = ground (arith, t) in
      rw (get-put_u32 (length body) (omega (arith, small)))
        (read_body-append body rest t ∙ ap (λ o. parsed o rest) known)

  read_written :
      (value : A) (o : Option (List ℕ)) (rest wire : List ℕ)
      → ((body : List ℕ) → o ≡ some body → from_slice body ≡ some value)
      → write_body o [] ≡ ok wire
      → read_limited_json (wire ++ rest) ≡ ok (value, rest)
  unfolding write_body
  read_written value none rest wire serde q = absurd (err-ok q)
  read_written value (some body) rest wire serde q =
      elim (Bool-cases (ltb max_handshake_payload (length body))) [
        | inl t ↦ absurd (err-ok (rw t at q))
        | inr t ↦
            subst (λ w. read_limited_json (w ++ rest) ≡ ok (value, rest)) (ok-inj (rw t at q))
              (read_framed value body rest (serde body refl) t)
      ]

  -- What `write_limited_json` puts on an empty wire, `read_limited_json` reads back, and it
  -- leaves what comes behind untouched: all that is written is within the limit of the reader.
  -- The hypothesis on serde: it reads what it has written.
  pub read_limited_json-write :
      (value : A) (rest wire : List ℕ)
      → ((v : A) (body : List ℕ) → to_vec v ≡ some body → from_slice body ≡ some v)
      → write_limited_json value [] ≡ ok wire
      → read_limited_json (wire ++ rest) ≡ ok (value, rest)
  unfolding write_limited_json
  read_limited_json-write value rest wire serde h =
      read_written value (to_vec value) rest wire (serde value) h
