-- ===== src/Tests/Frames.antt =====
-- Graphics payloads at concrete bytes.
use pre_call.Prelude.{List, ◌≡◌, refl, [], ◌∷◌, some, Result, ok, err, arith}
use pre_call.Prelude.Int.{pos}
use pre_call.Proto.Error.{ProtoError, truncated}
use pre_call.Proto.Gfx.{GfxPdu, Rect, codecid_jpeg}
use pre_call.Proto.Gfx.Iter.{Parses, steps, encode_pdus}
use pre_call.Client.Session.{Connection, send_frame}
use pre_call.Broker.Frames.{Region, GfxState, new, handle_gfx, apply_pdu}
use pre_call.Broker.Frames.Laws.{handle_gfx_total}
use pre_call.Broker.Frames.Snapshot.{frame_pdus, after_frame, handle_gfx_frame}
use pre_call.Broker.Frames.ClientFrame.{handle_gfx-send_frame}

abbrev idle : GfxState
idle = record { frames = new; pending = [] }

abbrev screen : Rect
screen = record { left = pos 0; top = pos 0; right = pos 640; bottom = pos 480 }

abbrev pub shot : Region
shot = record { codec = codecid_jpeg; rect = screen; bits = 0xff ∷ 0xd8 ∷ 0xff ∷ [] }

handle_gfx_frame_example :
    handle_gfx (encode_pdus (frame_pdus 3 5 1 0x20 (shot ∷ [])) []) idle
    ≡ some (ok tt, after_frame 5 (shot ∷ []) idle)
handle_gfx_frame_example = handle_gfx_frame 3 5 1 0x20 (shot ∷ []) idle (omega arith)

shot_pending :
    (after_frame 5 (shot ∷ []) idle).pending
    ≡ record { codec_id = codecid_jpeg; payload = 0xff ∷ 0xd8 ∷ 0xff ∷ [] } ∷ []
shot_pending = refl

handle_gfx_total_example :
    (pdus : List GfxPdu) × (r : Result ProtoError (Unit {0})) × Parses (1 ∷ 2 ∷ []) pdus r
    × (handle_gfx (1 ∷ 2 ∷ []) idle ≡ some (r, steps apply_pdu pdus idle))
handle_gfx_total_example = handle_gfx_total (1 ∷ 2 ∷ []) idle

abbrev link : Connection
link = record { client_id = []; seq = 0; frame_id = 0; surface_id = 1 }

handle_gfx-send_frame_example :
    handle_gfx (send_frame link (0xff ∷ 0xd8 ∷ 0xff ∷ []) 640 480 5).1.payload idle
    ≡ some (err (truncated 786432 94), idle)
handle_gfx-send_frame_example =
    handle_gfx-send_frame link (0xff ∷ 0xd8 ∷ 0xff ∷ []) 640 480 5 idle (omega arith)
