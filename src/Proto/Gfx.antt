-- ===== src/Proto/Gfx.antt =====
-- crates/precall-proto/src/gfx.rs: RDPGFX PDUs. A `BytesMut` or a slice is the list of its bytes,
-- an i16 coordinate an integer; a write keeps the low bits, as the casts of the source do.
pub mod Decode
pub mod RoundTrip
pub mod Iter
use pre_call.Prelude.{
  ℕ, zero, suc, ◌+◌, ◌-◌, ◌%◌, String, List, [], ◌∷◌, ◌++◌, Option, none, some, Result, ok, err,
  ◌>>=◌, ltb, ◌==◌, length, take, drop, if◌then◌else◌,
}
use pre_call.Prelude.Int.{ℤ, ◌-ℤ◌}
use pre_call.Proto.Error.{ProtoError, truncated, unknown_cmd_id, malformed}
use pre_call.Proto.Bytes.{
  put_u16_le, put_u32_le, put_i16_le, get_u16_le, get_u32_le, get_i16_le, i16_bits, i16_of_bits,
}

abbrev pub cmdid_wiretosurface_1 : ℕ
cmdid_wiretosurface_1 = 0x0001

abbrev pub cmdid_start_frame : ℕ
cmdid_start_frame = 0x000b

abbrev pub cmdid_end_frame : ℕ
cmdid_end_frame = 0x000c

abbrev pub cmdid_frameacknowledge : ℕ
cmdid_frameacknowledge = 0x000d

abbrev pub codecid_uncompressed : ℕ
codecid_uncompressed = 0x0000

abbrev pub codecid_avc420 : ℕ
codecid_avc420 = 0x000e

abbrev pub codecid_avc444 : ℕ
codecid_avc444 = 0x000f

abbrev pub codecid_caprogressive_v2 : ℕ
codecid_caprogressive_v2 = 0x0013

abbrev pub codecid_jpeg : ℕ
codecid_jpeg = 0x00f1

abbrev pub pixel_format_xrgb_8888 : ℕ
pixel_format_xrgb_8888 = 0x20

abbrev pub pixel_format_argb_8888 : ℕ
pixel_format_argb_8888 = 0x21

abbrev pub header_len : ℕ
header_len = 8

pub record Rect : Type 0 where
  pub left : ℤ
  pub top : ℤ
  pub right : ℤ
  pub bottom : ℤ

-- `right - left` and `bottom - top` in i16, as a release build wraps them.
width : Rect → ℤ
width r = i16_of_bits (i16_bits (r.right -ℤ r.left))

height : Rect → ℤ
height r = i16_of_bits (i16_bits (r.bottom -ℤ r.top))

pub data GfxPdu : Type 0 where
  -- frame_id, timestamp
  start_frame : ℕ → ℕ → GfxPdu
  -- frame_id
  end_frame : ℕ → GfxPdu
  -- surface_id, codec_id, pixel_format, dest_rect, bitmap_data
  wire_to_surface_1 : ℕ → ℕ → ℕ → Rect → List ℕ → GfxPdu
  -- queue_depth, frame_id, total_frames_decoded
  frame_acknowledge : ℕ → ℕ → ℕ → GfxPdu

unfoldable pub cmd_id : GfxPdu → ℕ
cmd_id (start_frame _ _) = cmdid_start_frame
cmd_id (end_frame _) = cmdid_end_frame
cmd_id (wire_to_surface_1 _ _ _ _ _) = cmdid_wiretosurface_1
cmd_id (frame_acknowledge _ _ _) = cmdid_frameacknowledge

-- `body` of `encode`.
unfoldable pub encode_body : GfxPdu → List ℕ
encode_body (start_frame frame_id timestamp) = put_u32_le frame_id ++ put_u32_le timestamp
encode_body (end_frame frame_id) = put_u32_le frame_id
encode_body (wire_to_surface_1 surface_id codec_id pixel_format dest_rect bitmap_data) =
    put_u16_le surface_id
    ++ (put_u16_le codec_id
        ++ (pixel_format % 256
            ∷ (put_i16_le dest_rect.left
                ++ (put_i16_le dest_rect.top
                    ++ (put_i16_le dest_rect.right
                        ++ (put_i16_le dest_rect.bottom
                            ++ (put_u32_le (length bitmap_data) ++ bitmap_data)))))))
encode_body (frame_acknowledge queue_depth frame_id total_frames_decoded) =
    put_u32_le queue_depth ++ (put_u32_le frame_id ++ put_u32_le total_frames_decoded)

unfoldable pub encode : GfxPdu → List ℕ → List ℕ
unfolding cmd_id encode_body
encode pdu dst =
    let body = encode_body pdu in
    dst
    ++ (put_u16_le (cmd_id pdu)
        ++ (put_u16_le 0 ++ (put_u32_le (header_len + length body) ++ body)))

unfoldable pub encoded_len : GfxPdu → ℕ
encoded_len (start_frame _ _) = header_len + 8
encoded_len (end_frame _) = header_len + 4
encoded_len (wire_to_surface_1 _ _ _ _ bitmap_data) = header_len + (17 + length bitmap_data)
encoded_len (frame_acknowledge _ _ _) = header_len + 12

-- The arms of the match on `cmd_id`; a body that is too short falls through the first clause.
decode_start_frame : List ℕ → Result ProtoError GfxPdu
decode_start_frame (f0 ∷ f1 ∷ f2 ∷ f3 ∷ t0 ∷ t1 ∷ t2 ∷ t3 ∷ _) =
    ok (start_frame (get_u32_le f0 f1 f2 f3) (get_u32_le t0 t1 t2 t3))
decode_start_frame _ = err (malformed "START_FRAME body too short")

decode_end_frame : List ℕ → Result ProtoError GfxPdu
decode_end_frame (f0 ∷ f1 ∷ f2 ∷ f3 ∷ _) = ok (end_frame (get_u32_le f0 f1 f2 f3))
decode_end_frame _ = err (malformed "END_FRAME body too short")

decode_wire_to_surface_1 : List ℕ → Result ProtoError GfxPdu
decode_wire_to_surface_1
      (s0 ∷ s1 ∷ c0 ∷ c1 ∷ format ∷ l0 ∷ l1 ∷ t0 ∷ t1 ∷ r0 ∷ r1 ∷ b0 ∷ b1 ∷ n0 ∷ n1 ∷ n2 ∷ n3
        ∷ bits) =
    let bitmap_len = get_u32_le n0 n1 n2 n3 in
    if ltb (17 + length bits) (17 + bitmap_len)
    then err (malformed "WIRE_TO_SURFACE_1 bitmap truncated")
    else ok (
        wire_to_surface_1 (get_u16_le s0 s1) (get_u16_le c0 c1) format
          (record {
            left = get_i16_le l0 l1;
            top = get_i16_le t0 t1;
            right = get_i16_le r0 r1;
            bottom = get_i16_le b0 b1;
          })
          (take bitmap_len bits))
decode_wire_to_surface_1 _ = err (malformed "WIRE_TO_SURFACE_1 body too short")

decode_frame_acknowledge : List ℕ → Result ProtoError GfxPdu
decode_frame_acknowledge (q0 ∷ q1 ∷ q2 ∷ q3 ∷ f0 ∷ f1 ∷ f2 ∷ f3 ∷ t0 ∷ t1 ∷ t2 ∷ t3 ∷ _) =
    ok
      (frame_acknowledge (get_u32_le q0 q1 q2 q3) (get_u32_le f0 f1 f2 f3) (get_u32_le t0 t1 t2 t3))
decode_frame_acknowledge _ = err (malformed "FRAME_ACK body too short")

-- The match on `cmd_id`.
decode_pdu : ℕ → List ℕ → Result ProtoError GfxPdu
unfolding decode_start_frame decode_end_frame decode_wire_to_surface_1 decode_frame_acknowledge
decode_pdu cmd body =
    if cmd == cmdid_start_frame
    then decode_start_frame body
    else if cmd == cmdid_end_frame
    then decode_end_frame body
    else if cmd == cmdid_wiretosurface_1
    then decode_wire_to_surface_1 body
    else if cmd == cmdid_frameacknowledge
    then decode_frame_acknowledge body
    else err (unknown_cmd_id cmd)

-- `cmd_id` and `pdu_len` are read; `rest` is `buf[HEADER_LEN..]`.
decode_sized : ℕ → ℕ → List ℕ → Result ProtoError (GfxPdu × ℕ)
unfolding decode_pdu
decode_sized cmd pdu_len rest =
    if ltb pdu_len header_len
    then err (malformed "pduLength shorter than header")
    else if ltb (header_len + length rest) pdu_len
    then err (truncated pdu_len (header_len + length rest))
    else do pdu ← decode_pdu cmd (take (pdu_len - header_len) rest); ok (pdu, pdu_len)

unfoldable pub decode : List ℕ → Result ProtoError (GfxPdu × ℕ)
unfolding decode_sized
decode (c0 ∷ c1 ∷ _ ∷ _ ∷ l0 ∷ l1 ∷ l2 ∷ l3 ∷ rest) =
    decode_sized (get_u16_le c0 c1) (get_u32_le l0 l1 l2 l3) rest
decode buf = err (truncated header_len (length buf))

-- `GfxPduIter::next`: the item, and what `rest` becomes.
next_on : List ℕ → Result ProtoError (GfxPdu × ℕ) → Result ProtoError GfxPdu × List ℕ
next_on rest (ok (pdu, consumed)) = (ok pdu, drop consumed rest)
next_on rest (err e) = (err e, [])

unfoldable pub next : List ℕ → Option (Result ProtoError GfxPdu × List ℕ)
unfolding next_on
next [] = none
next (b ∷ bs) = some (next_on (b ∷ bs) (decode (b ∷ bs)))

unfoldable pub codec_name : ℕ → String
codec_name codec_id =
    if codec_id == codecid_uncompressed
    then "uncompressed"
    else if codec_id == codecid_avc420
    then "avc420"
    else if codec_id == codecid_avc444
    then "avc444"
    else if codec_id == codecid_caprogressive_v2
    then "caprogressive-v2"
    else if codec_id == codecid_jpeg
    then "jpeg-precall"
    else "unknown"
