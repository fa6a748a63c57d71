-- ===== src/Broker/Frames/ClientFrame.antt =====
-- What `handle_gfx` makes of the frame that the Windows client sends.
use pre_call.Prelude.{ℕ, ◌+◌, ◌^◌, ◌%◌, ◌<◌, ◌≡◌, List, some, err, length, length-append, arith}
use pre_call.Proto.Error.{truncated}
use pre_call.Proto.Gfx
use pre_call.Proto.Gfx.{next}
use pre_call.Proto.Gfx.Decode.{decode_truncated}
use pre_call.Proto.Gfx.Iter.{for_each_error}
use pre_call.Client.Session.{Connection, frame_bytes, send_frame}
use pre_call.Broker.Frames.{GfxState, apply_pdu, handle_gfx}

length-frame_bytes :
    (fid surface w h ts : ℕ) (jpeg : List ℕ)
    → length (frame_bytes fid surface jpeg w h ts) ≡ 91 + length jpeg
unfolding frame_bytes
length-frame_bytes fid surface w h ts jpeg = omega (arith, length-append {0})

decode-frame_bytes :
    (fid surface w h ts : ℕ) (jpeg : List ℕ)
    → 91 + length jpeg < 786432
    → Gfx.decode (frame_bytes fid surface jpeg w h ts) ≡ err (truncated 786432 (91 + length jpeg))
decode-frame_bytes fid surface w h ts jpeg k =
    let e = length-frame_bytes fid surface w h ts jpeg in
    unfold frame_bytes in
    decode_truncated 0x0b 0 0 0 0 0 12 0 (91 + length jpeg) _ (omega arith) e k

-- A frame that the client sends is refused by the broker with `Truncated` when the JPEG is
-- shorter than 786341 bytes, whatever its contents: the START_FRAME header of `send_frame` has
-- ten bytes, so the length that is read is 12 * 65536. No frame becomes pending, and the error
-- ends the session.
pub handle_gfx-send_frame :
    (c : Connection) (jpeg : List ℕ) (w h ts : ℕ) (s : GfxState)
    → length jpeg < 786341
    → handle_gfx (send_frame c jpeg w h ts).1.payload s
      ≡ some (err (truncated 786432 (91 + length jpeg)), s)
unfolding handle_gfx send_frame
handle_gfx-send_frame c jpeg w h ts s k =
    for_each_error apply_pdu _ (send_frame c jpeg w h ts).1.payload s
      (truncated 786432 (91 + length jpeg)) (λ e. cc)
      (decode-frame_bytes ((c.frame_id + 1) % 2 ^ 32) c.surface_id w h ts jpeg (omega arith))
