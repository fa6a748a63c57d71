-- ===== src/Tests/Wire.antt =====
-- Frames and PDUs at concrete bytes.
use pre_call.Prelude.{ℕ, ◌+◌, ◌≡◌, refl, List, [], ◌∷◌, ◌++◌, none, some, ok, err, arith, length}
use pre_call.Prelude.Int.{pos, negsuc}
use pre_call.Proto.Error.{unknown_channel}
use pre_call.Proto.Channel.{
  gfx_rdp, pc_meta, pc_ctrl, from_u8, from_u8_iff, from_name, from_name_iff, name,
}
use pre_call.Proto.Channel
use pre_call.Proto.Mux
use pre_call.Proto.Mux.{MuxFrame}
use pre_call.Proto.Mux.RoundTrip.{mux_decode-encode}
use pre_call.Proto.Mux.Stream.{drain, encode_all, drain-encode_all}
use pre_call.Proto.Gfx
use pre_call.Proto.Gfx.{GfxPdu, start_frame, end_frame, wire_to_surface_1, codecid_jpeg, Rect}
use pre_call.Proto.Gfx.RoundTrip.{gfx_decode-encode}
use pre_call.Proto.Gfx.Iter.{for_each, for_each-encode_pdus, encode_pdus, steps}

abbrev hello : MuxFrame
hello = record { channel = pc_meta; payload = 1 ∷ 2 ∷ 3 ∷ [] }

abbrev beat : MuxFrame
beat = record { channel = pc_ctrl; payload = [] }

encode-hello : Mux.encode hello [] ≡ ok (2 ∷ 3 ∷ 0 ∷ 0 ∷ 0 ∷ 1 ∷ 2 ∷ 3 ∷ [])
unfolding Mux.encode Channel.to_u8
encode-hello = refl

decode_unknown_channel :
    Mux.decode (9 ∷ 0 ∷ 0 ∷ 0 ∷ 0 ∷ []) ≡ (err (unknown_channel 9), 9 ∷ 0 ∷ 0 ∷ 0 ∷ 0 ∷ [])
unfolding Mux.decode from_u8
decode_unknown_channel = refl

decode-hello : Mux.decode (2 ∷ 3 ∷ 0 ∷ 0 ∷ 0 ∷ 1 ∷ 2 ∷ 3 ∷ []) ≡ (ok (some hello), [])
unfolding Mux.decode from_u8
decode-hello = refl

mux_decode-encode_example :
    (buf : List ℕ) × (Mux.encode hello [] ≡ ok buf)
    × (Mux.decode (buf ++ (7 ∷ [])) ≡ (ok (some hello), 7 ∷ []))
mux_decode-encode_example = mux_decode-encode hello (7 ∷ []) (omega arith)

hello_settled : (Mux.decode (2 ∷ 3 ∷ 0 ∷ 0 ∷ 0 ∷ 1 ∷ 2 ∷ 3 ∷ [])).0 ≡ ok none → ⊥
hello_settled e = cc (decode-hello, e)

partial_waits : Mux.decode (2 ∷ 3 ∷ 0 ∷ []) ≡ (ok none, 2 ∷ 3 ∷ 0 ∷ [])
unfolding Mux.decode
partial_waits = refl

drain-encode_all_example :
    (buf : List ℕ) × (encode_all (hello ∷ beat ∷ []) [] ≡ ok buf)
    × (drain 3 (buf ++ (2 ∷ 3 ∷ 0 ∷ [])) ≡ (hello ∷ beat ∷ [], (ok none, 2 ∷ 3 ∷ 0 ∷ [])))
drain-encode_all_example =
    drain-encode_all (hello ∷ beat ∷ []) (2 ∷ 3 ∷ 0 ∷ []) 3 (omega arith) partial_waits
      (omega arith)

abbrev picture : GfxPdu
picture =
    wire_to_surface_1 1 codecid_jpeg 0x20
      (record { left = negsuc 9; top = pos 0; right = pos 100; bottom = pos 50 }) (0xff ∷ 0xd8 ∷ [])

gfx_decode-encode_example :
    (Gfx.decode (Gfx.encode picture [] ++ (5 ∷ [])) ≡ ok (picture, Gfx.encoded_len picture))
    × (length (Gfx.encode picture []) ≡ Gfx.encoded_len picture)
gfx_decode-encode_example = gfx_decode-encode picture (5 ∷ []) (omega arith)

decode_end_frame_run :
    Gfx.decode (12 ∷ 0 ∷ 0 ∷ 0 ∷ 12 ∷ 0 ∷ 0 ∷ 0 ∷ 7 ∷ 0 ∷ 0 ∷ 0 ∷ 9 ∷ []) ≡ ok (end_frame 7, 12)
unfolding Gfx.decode
decode_end_frame_run = refl

-- A step that counts the PDUs.
abbrev count : GfxPdu → ℕ → ℕ
count p n = n + 1

for_each-encode_pdus_example :
    for_each count 4 (encode_pdus (start_frame 1 5 ∷ picture ∷ end_frame 1 ∷ []) []) 0
    ≡ some (ok tt, steps count (start_frame 1 5 ∷ picture ∷ end_frame 1 ∷ []) 0)
for_each-encode_pdus_example =
    for_each-encode_pdus count 4 (start_frame 1 5 ∷ picture ∷ end_frame 1 ∷ []) 0 (omega arith)
      (omega arith)
