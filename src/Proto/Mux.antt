-- ===== src/Proto/Mux.antt =====
-- crates/precall-proto/src/codec.rs: the mux framing. A `BytesMut` is the list of its bytes; a
-- call returns it as the call leaves it. `reserve` and `freeze` do not change the bytes.
pub mod RoundTrip
pub mod Stream
use pre_call.Prelude.{
  ℕ, ◌+◌, ◌*◌, List, [], ◌∷◌, ◌++◌, Option, none, some, Result, ok, err, ltb, length, take, drop,
  if◌then◌else◌, ◌==◌, zero, suc,
}
use pre_call.Proto.Error.{ProtoError, unknown_channel, payload_too_large}
use pre_call.Proto.Bytes.{put_u32_le, get_u32_le}
use pre_call.Proto.Channel.{ChannelId, from_u8, to_u8}

abbrev pub max_mux_payload : ℕ
max_mux_payload = 16 * 1024 * 1024

abbrev pub header_len : ℕ
header_len = 5

pub record MuxFrame : Type 0 where
  pub channel : ChannelId
  pub payload : List ℕ

abbrev pub Decoded : Type 0
Decoded = Result ProtoError (Option MuxFrame) × List ℕ

-- `ok_or(UnknownChannel)?`, then `advance` and `split_to`.
take_frame : ℕ → ℕ → List ℕ → Option ChannelId → Decoded
take_frame raw len src none = (err (unknown_channel raw), src)
take_frame raw len src (some c) =
    let body = drop header_len src in
    (ok (some (record { channel = c; payload = take len body })), drop len body)

-- The header is there: `channel_raw`, then the length.
decode_header : ℕ → ℕ → List ℕ → Decoded
unfolding take_frame
decode_header raw len src =
    if ltb max_mux_payload len
    then (err (payload_too_large len), src)
    else if ltb (length src) (header_len + len)
    then (ok none, src)
    else take_frame raw len src (from_u8 raw)

-- A buffer with no five bytes falls through the first clause: `src.len() < HEADER_LEN`.
unfoldable pub decode : List ℕ → Decoded
unfolding decode_header
decode (channel_raw ∷ b1 ∷ b2 ∷ b3 ∷ b4 ∷ rest) =
    decode_header channel_raw (get_u32_le b1 b2 b3 b4) (channel_raw ∷ b1 ∷ b2 ∷ b3 ∷ b4 ∷ rest)
decode src = (ok none, src)

unfoldable pub encode : MuxFrame → List ℕ → Result ProtoError (List ℕ)
encode item dst =
    if ltb max_mux_payload (length item.payload)
    then err (payload_too_large (length item.payload))
    else ok (dst ++ (to_u8 item.channel ∷ put_u32_le (length item.payload) ++ item.payload))
