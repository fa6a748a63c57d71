-- ===== src/Proto/Gfx/Iter.antt =====
-- The loop `for pdu in GfxPduIter::new(payload) { let pdu = pdu?; … }` over a state.
use pre_call.Prelude.{
  ℕ, zero, suc, ◌+◌, ◌≤◌, ◌<◌, ◌≡◌, ◌≢◌, ◌⊎◌, refl, List, [], ◌∷◌, ◌++◌, Option, none, some, Result,
  ok, err, arith, length, drop, length-drop, All, append-nil, append_assoc, Result-cases, inl, inr,
  ◌∙◌, drop-append_self, subst,
}
use pre_call.Proto.Error.{ProtoError}
use pre_call.Proto.Gfx.{GfxPdu, next, decode, encode, encoded_len}
use pre_call.Proto.Gfx.Decode.{decode_consumes}
use pre_call.Proto.Gfx.RoundTrip.{
  PduFits, gfx_decode-encode, length-encode, header_len-le-encoded_len,
}

-- The PDUs stand one behind the other in the buffer, and then the buffer ends, or the next one
-- does not decode.
abbrev pub Parses : List ℕ → List GfxPdu → Result ProtoError (Unit {0}) → Type 0
Parses buf [] r =
    ((buf ≡ []) × (r ≡ ok tt))
    ⊎ ((x : ProtoError) × (buf ≢ []) × (decode buf ≡ err x) × (r ≡ err x))
Parses buf (p ∷ ps) r = (n : ℕ) × (decode buf ≡ ok (p, n)) × Parses (drop n buf) ps r

cons-nil : {b : ℕ} {bs : List ℕ} → b ∷ bs ≢ []
cons-nil e = cc

module _ {S : Type 0} (step : GfxPdu → S → S) where
  -- The first item that is an error ends the loop; the state keeps what was done before.
  for_on :
      Option (Result ProtoError GfxPdu × List ℕ)
      → S
      → (List ℕ → S → Option (Result ProtoError (Unit {0}) × S))
      → Option (Result ProtoError (Unit {0}) × S)
  for_on none s more = some (ok tt, s)
  for_on (some (ok pdu, rest)) s more = more rest (step pdu s)
  for_on (some (err e, rest)) s more = some (err e, s)

  -- `none`: the fuel ran out.
  unfoldable pub for_each : ℕ → List ℕ → S → Option (Result ProtoError (Unit {0}) × S)
  unfolding for_on
  for_each zero rest s = none
  for_each (suc fuel) rest s = for_on (next rest) s (for_each fuel)

  unfoldable pub steps : List GfxPdu → S → S
  steps [] s = s
  steps (p ∷ ps) s = steps ps (step p s)

  -- One round for each byte is enough, on every input.
  pub for_each-Parses :
      (fuel : ℕ) (buf : List ℕ) (s : S)
      → length buf < fuel
      → (pdus : List GfxPdu) × (r : Result ProtoError (Unit {0})) × Parses buf pdus r
        × (for_each fuel buf s ≡ some (r, steps pdus s))
  unfolding for_each next steps
  for_each-Parses zero buf s h = absurd (omega arith)
  for_each-Parses (suc fuel) [] s h = ([], ok tt, inl (refl, refl), refl)
  for_each-Parses (suc fuel) (b ∷ bs) s h = elim (Result-cases (decode (b ∷ bs))) [
    | inl ((p, n), e) ↦
        let (ps, r, parsed, done) =
          for_each-Parses fuel (drop n (b ∷ bs)) (step p s)
            (omega (arith, decode_consumes (b ∷ bs) p n e, length-drop n (b ∷ bs))) in
        (p ∷ ps, r, (n, e, parsed), rw e done)
    | inr (x, e) ↦ ([], err x, inr (x, (λ q. cons-nil q), e, refl), rw e refl)
  ]

  next-decode :
      (buf rest : List ℕ) (p : GfxPdu) (n : ℕ)
      → decode buf ≡ ok (p, n)
      → drop n buf ≡ rest
      → next buf ≡ some (ok p, rest)
  unfolding next
  next-decode [] rest p n e d = unfold decode in cc
  next-decode (b ∷ bs) rest p n e d = rw (e, d)

  for_each_next :
      (fuel : ℕ) (p : GfxPdu) (rest : List ℕ) (s : S)
      → PduFits p
      → for_each (suc fuel) (encode p [] ++ rest) s ≡ for_each fuel rest (step p s)
  unfolding for_each
  for_each_next fuel p rest s h =
      rw (
        next-decode (encode p [] ++ rest) rest p (encoded_len p) (gfx_decode-encode p rest h).0 cut)
    where
      cut : drop (encoded_len p) (encode p [] ++ rest) ≡ rest
      cut = rw (← (gfx_decode-encode p rest h).1) (drop-append_self (encode p []) rest)

  pub for_each_error :
      (fuel : ℕ) (buf : List ℕ) (s : S) (x : ProtoError)
      → buf ≢ []
      → decode buf ≡ err x
      → for_each (suc fuel) buf s ≡ some (err x, s)
  unfolding for_each next
  for_each_error fuel [] s x h e = absurd (h refl)
  for_each_error fuel (b ∷ bs) s x h e = rw e

-- The buffer that is filled by encoding the PDUs one after the other.
unfoldable pub encode_pdus : List GfxPdu → List ℕ → List ℕ
encode_pdus [] dst = dst
encode_pdus (p ∷ ps) dst = encode_pdus ps (encode p dst)

pub length-encode_pdus :
    (ps : List GfxPdu) (dst : List ℕ) → length dst + length ps ≤ length (encode_pdus ps dst)
unfolding encode_pdus
length-encode_pdus [] dst = omega arith
length-encode_pdus (p ∷ ps) dst =
    omega (
      arith,
      length-encode_pdus ps (encode p dst),
      length-encode p dst,
      header_len-le-encoded_len p,
    )

abbrev wires : List GfxPdu → List ℕ
wires [] = []
wires (p ∷ ps) = encode p [] ++ wires ps

encode_pdus-eq-wires : (ps : List GfxPdu) (dst : List ℕ) → encode_pdus ps dst ≡ dst ++ wires ps
unfolding encode_pdus
encode_pdus-eq-wires [] dst = rw append-nil
encode_pdus-eq-wires (p ∷ ps) dst =
    encode_pdus-eq-wires ps (encode p dst)
    ∙ (unfold encode in append_assoc dst (encode p []) (wires ps))

module _ {S : Type 0} (step : GfxPdu → S → S) where
  for_each-wires :
      (fuel : ℕ) (ps : List GfxPdu) (s : S)
      → All PduFits ps
      → length ps < fuel
      → for_each step fuel (wires ps) s ≡ some (ok tt, steps step ps s)
  unfolding steps
  for_each-wires zero ps s h k = absurd (omega arith)
  for_each-wires (suc fuel) [] s h k = unfold for_each next in refl
  for_each-wires (suc fuel) (p ∷ ps) s (hp, hps) k =
      for_each_next step fuel p (wires ps) s hp
      ∙ for_each-wires fuel ps (step p s) hps (omega arith)

  -- Over a buffer of encoded PDUs the loop takes each PDU once, in order, and ends without an
  -- error.
  pub for_each-encode_pdus :
      (fuel : ℕ) (ps : List GfxPdu) (s : S)
      → All PduFits ps
      → length ps < fuel
      → for_each step fuel (encode_pdus ps []) s ≡ some (ok tt, steps step ps s)
  for_each-encode_pdus fuel ps s h k = rw encode_pdus-eq-wires (for_each-wires fuel ps s h k)

module _ {S : Type 0} (step : GfxPdu → S → S) (P : S → Type 0)
    (keep : (p : GfxPdu) (s : S) → P s → P (step p s)) where
  -- What every PDU keeps the loop keeps, also when it ends with an error.
  pub for_each_inv :
      (fuel : ℕ) (buf : List ℕ) (s : S) (r : Result ProtoError (Unit {0})) (s' : S)
      → P s
      → for_each step fuel buf s ≡ some (r, s')
      → P s'
  unfolding for_each next
  for_each_inv zero buf s r s' h e = cc
  for_each_inv (suc fuel) [] s r s' h e = subst P (cc) h
  for_each_inv (suc fuel) (b ∷ bs) s r s' h e = elim (Result-cases (decode (b ∷ bs))) [
    | inl ((p, n), d) ↦ for_each_inv fuel (drop n (b ∷ bs)) (step p s) r s' (keep p s h) (rw d at e)
    | inr (x, d) ↦ subst P (same x (rw d at e)) h
  ]
    where
      same :
          (x : ProtoError)
          → ◌≡◌ {A = Option (Result ProtoError (Unit {0}) × S)} (some (err x, s)) (some (r, s'))
          → s ≡ s'
      same x q = cc
