-- ===== src/Proto/Gfx/RoundTrip.antt =====
-- Decoding what `encode` wrote.
use pre_call.Prelude.{
  ℕ, ◌+◌, ◌-◌, ◌%◌, ◌≤◌, ◌≡◌, refl, List, [], ◌++◌, ok, ltb-false, length, take, arith,
  length-append, take-length, take-append_self,
}
use pre_call.Proto.Bytes.{IsByte, IsU16, IsU32, IsI16, get-put_u16, get-put_u32, get-put_i16}
use pre_call.Proto.Gfx.{
  GfxPdu, Rect, start_frame, end_frame, wire_to_surface_1, frame_acknowledge, header_len, cmd_id,
  encode_body, encode, encoded_len, decode_wire_to_surface_1, decode_pdu, decode_sized, decode,
}

pub record RectFits (r : Rect) : Type 0 where
  pub left : IsI16 r.left
  pub top : IsI16 r.top
  pub right : IsI16 r.right
  pub bottom : IsI16 r.bottom

-- The fields are in the range of their types, and the PDU's length is below 2 ^ 32.
abbrev pub PduFits : GfxPdu → Type 0
PduFits (start_frame frame_id timestamp) = IsU32 frame_id × IsU32 timestamp
PduFits (end_frame frame_id) = IsU32 frame_id
PduFits (wire_to_surface_1 surface_id codec_id pixel_format dest_rect bitmap_data) =
    IsU16 surface_id
    × IsU16 codec_id
    × IsByte pixel_format
    × RectFits dest_rect
    × IsU32 (25 + length bitmap_data)
PduFits (frame_acknowledge queue_depth frame_id total) =
    IsU32 queue_depth × IsU32 frame_id × IsU32 total

-- `encoded_len` is the number of bytes that `encode` appends.
pub length-encode : (p : GfxPdu) (dst : List ℕ) → length (encode p dst) ≡ length dst + encoded_len p
unfolding encode encoded_len
length-encode (start_frame f t) dst = rw length-append (omega arith)
length-encode (end_frame f) dst = rw length-append (omega arith)
length-encode (wire_to_surface_1 s c p r bits) dst =
    omega (arith, length-append dst (encode (wire_to_surface_1 s c p r bits) []))
length-encode (frame_acknowledge q f t) dst = rw length-append (omega arith)

decode_wire_to_surface_1-encode_body :
    (s c p : ℕ) (r : Rect) (bits : List ℕ)
    → PduFits (wire_to_surface_1 s c p r bits)
    → decode_wire_to_surface_1 (encode_body (wire_to_surface_1 s c p r bits))
      ≡ ok (wire_to_surface_1 s c p r bits)
unfolding decode_wire_to_surface_1 encode_body
decode_wire_to_surface_1-encode_body s c p r bits h = rw (
  get-put_u32 (length bits) (omega arith),
  ltb-false (17 + length bits) (17 + length bits) (omega arith),
  get-put_u16 s h.0,
  get-put_u16 c h.1,
  same_byte,
  get-put_i16 r.left rect.left,
  get-put_i16 r.top rect.top,
  get-put_i16 r.right rect.right,
  get-put_i16 r.bottom rect.bottom,
  take-length bits,
)
  where
    rect : RectFits r
    rect = h.3

    same_byte : p % 256 ≡ p
    same_byte = omega arith

decode_pdu-encode_body : (p : GfxPdu) → PduFits p → decode_pdu (cmd_id p) (encode_body p) ≡ ok p
unfolding decode_pdu cmd_id encode_body
decode_pdu-encode_body (start_frame f t) h = rw (get-put_u32 f h.0, get-put_u32 t h.1)
decode_pdu-encode_body (end_frame f) h = rw (get-put_u32 f h)
decode_pdu-encode_body (wire_to_surface_1 s c p r bits) h =
    decode_wire_to_surface_1-encode_body s c p r bits h
decode_pdu-encode_body (frame_acknowledge q f t) h =
    rw (get-put_u32 q h.0, get-put_u32 f h.1, get-put_u32 t h.2)

-- The length field that `encode` writes.
length-encode_body : (p : GfxPdu) → header_len + length (encode_body p) ≡ encoded_len p
unfolding encode_body encoded_len
length-encode_body (start_frame f t) = refl
length-encode_body (end_frame f) = refl
length-encode_body (wire_to_surface_1 s c p r bits) = omega arith
length-encode_body (frame_acknowledge q f t) = refl

pub header_len-le-encoded_len : (p : GfxPdu) → header_len ≤ encoded_len p
header_len-le-encoded_len p = omega (arith, length-encode_body p)

encoded_len-IsU32 : (p : GfxPdu) → PduFits p → IsU32 (encoded_len p)
unfolding encoded_len
encoded_len-IsU32 (start_frame f t) h = omega arith
encoded_len-IsU32 (end_frame f) h = omega arith
encoded_len-IsU32 (wire_to_surface_1 s c p r bits) h = omega arith
encoded_len-IsU32 (frame_acknowledge q f t) h = omega arith

cmd_id-IsU16 : (p : GfxPdu) → IsU16 (cmd_id p)
unfolding cmd_id
cmd_id-IsU16 (start_frame f t) = omega arith
cmd_id-IsU16 (end_frame f) = omega arith
cmd_id-IsU16 (wire_to_surface_1 s c p r bits) = omega arith
cmd_id-IsU16 (frame_acknowledge q f t) = omega arith

take_body :
    (p : GfxPdu) (more : List ℕ)
    → take (encoded_len p - header_len) (encode_body p ++ more) ≡ encode_body p
take_body p more =
    let e : encoded_len p - header_len ≡ length (encode_body p) =
      omega (arith, length-encode_body p) in
    rw e (take-append_self (encode_body p) more)

decode_sized-encode_body :
    (p : GfxPdu) (more : List ℕ)
    → PduFits p
    → decode_sized (cmd_id p) (encoded_len p) (encode_body p ++ more) ≡ ok (p, encoded_len p)
unfolding decode_sized
decode_sized-encode_body p more h = rw (
  ltb-false (encoded_len p) header_len (omega (arith, length-encode_body p)),
  ltb-false (header_len + length (encode_body p ++ more)) (encoded_len p)
      (omega (arith, length-encode_body p, length-append (encode_body p) more)),
  take_body p more,
  decode_pdu-encode_body p h,
)

decode-wire :
    (p : GfxPdu) (more : List ℕ) → PduFits p → decode (encode p [] ++ more) ≡ ok (p, encoded_len p)
unfolding decode encode
decode-wire p more h =
    rw
      (
        length-encode_body p,
        get-put_u16 (cmd_id p) (cmd_id-IsU16 p),
        get-put_u32 (encoded_len p) (encoded_len-IsU32 p h),
      )
      (decode_sized-encode_body p more h)

-- `decode` reads back every PDU that `encode` wrote, whatever follows it, and consumes
-- `encoded_len` bytes, which is the number of bytes written. The fields are in the range of their
-- types and the PDU is shorter than 2 ^ 32.
pub gfx_decode-encode :
    (p : GfxPdu) (more : List ℕ)
    → PduFits p
    → (decode (encode p [] ++ more) ≡ ok (p, encoded_len p))
      × (length (encode p []) ≡ encoded_len p)
gfx_decode-encode p more h = (decode-wire p more h, omega (arith, length-encode p []))
