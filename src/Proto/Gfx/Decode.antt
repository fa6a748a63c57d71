-- ===== src/Proto/Gfx/Decode.antt =====
-- `decode` on any input: what it consumes.
use pre_call.Prelude.{ℕ, ◌+◌, ◌≤◌, ◌<◌, ◌≡◌, List, [], ◌∷◌, ok, err, length, arith}
use pre_call.Proto.Error.{truncated}
use pre_call.Proto.Gfx.{GfxPdu, header_len, decode_sized, decode}
use pre_call.Proto.Bytes.{get_u16_le, get_u32_le}

decode_sized_consumes :
    (cmd len n : ℕ) (rest : List ℕ) (p : GfxPdu)
    → decode_sized cmd len rest ≡ ok (p, n)
    → (header_len ≤ n) × (n ≤ header_len + length rest)
unfolding decode_sized
decode_sized_consumes cmd len n rest p e = ground arith

-- A decoded PDU takes its eight header bytes at least, and never more bytes than there are.
pub decode_consumes :
    (buf : List ℕ) (p : GfxPdu) (n : ℕ)
    → decode buf ≡ ok (p, n)
    → (header_len ≤ n) × (n ≤ length buf)
unfolding decode
decode_consumes (c0 ∷ c1 ∷ _ ∷ _ ∷ l0 ∷ l1 ∷ l2 ∷ l3 ∷ rest) p n e =
    omega (arith, decode_sized_consumes (get_u16_le c0 c1) (get_u32_le l0 l1 l2 l3) n rest p e)
decode_consumes [] p n e = cc
decode_consumes (_ ∷ []) p n e = cc
decode_consumes (_ ∷ _ ∷ []) p n e = cc
decode_consumes (_ ∷ _ ∷ _ ∷ []) p n e = cc
decode_consumes (_ ∷ _ ∷ _ ∷ _ ∷ []) p n e = cc
decode_consumes (_ ∷ _ ∷ _ ∷ _ ∷ _ ∷ []) p n e = cc
decode_consumes (_ ∷ _ ∷ _ ∷ _ ∷ _ ∷ _ ∷ []) p n e = cc
decode_consumes (_ ∷ _ ∷ _ ∷ _ ∷ _ ∷ _ ∷ _ ∷ []) p n e = cc

-- A length field that is larger than the buffer is answered with `Truncated`, whatever the rest.
pub decode_truncated :
    (c0 c1 f0 f1 l0 l1 l2 l3 n : ℕ) (rest : List ℕ)
    → header_len ≤ get_u32_le l0 l1 l2 l3
    → length (c0 ∷ c1 ∷ f0 ∷ f1 ∷ l0 ∷ l1 ∷ l2 ∷ l3 ∷ rest) ≡ n
    → n < get_u32_le l0 l1 l2 l3
    → decode (c0 ∷ c1 ∷ f0 ∷ f1 ∷ l0 ∷ l1 ∷ l2 ∷ l3 ∷ rest)
      ≡ err (truncated (get_u32_le l0 l1 l2 l3) n)
unfolding decode decode_sized
decode_truncated c0 c1 f0 f1 l0 l1 l2 l3 n rest h e k = ground arith
