-- ===== src/Client/Session.antt =====
-- crates/precall-client/src/session.rs: what the sending methods of a connection write. JSON is
-- serde's and a parameter, and whether the network takes what is written is one.
pub mod Sent
use pre_call.Prelude.{
  ℕ, ◌+◌, ◌%◌, ◌^◌, ◌/◌, Text, Bool, true, false, List, [], ◌∷◌, ◌++◌, Option, none, some, Result,
  ok, err, length,
}
use pre_call.Prelude.Int.{ℤ}
use pre_call.Proto.Error.{ProtoError}
use pre_call.Proto.Metadata.{WindowCaptureRecord, CaptureBatch, ControlMessage}
use pre_call.Proto.Bytes.{put_u16_le, put_u32_le, put_i16_le}
use pre_call.Proto.Channel.{ChannelId, gfx_rdp, pc_meta, pc_audio, pc_ctrl}
use pre_call.Proto.Mux.{MuxFrame, encode}
use pre_call.Proto.Gfx.{
  cmdid_start_frame, cmdid_end_frame, cmdid_wiretosurface_1, cmdid_frameacknowledge, codecid_jpeg,
  pixel_format_xrgb_8888,
}

-- The fields of `Connection` that the sending methods change or read.
pub record Connection : Type 0 where
  pub client_id : List ℕ
  pub seq : ℕ
  pub frame_id : ℕ
  pub surface_id : ℕ

abbrev pub put_u64_le : ℕ → List ℕ
put_u64_le v = put_u32_le (v % 2 ^ 32) ++ put_u32_le (v / 2 ^ 32)

-- `out` of `send_frame`; the u32 sums wrap as in a release build.
unfoldable pub frame_bytes : ℕ → ℕ → List ℕ → ℕ → ℕ → ℕ → List ℕ
frame_bytes fid surface_id jpeg width height timestamp_100ns =
    let bl = length jpeg % 2 ^ 32 in
    let pdu_len = (8 + 2 + 2 + 1 + 8 + 4 + bl) % 2 ^ 32 in
    put_u16_le cmdid_start_frame
    ++ (put_u32_le 0
        ++ (put_u32_le 12
            ++ (put_u32_le fid
                ++ (put_u64_le timestamp_100ns
                    ++ (put_u16_le cmdid_wiretosurface_1
                        ++ (put_u16_le 0
                            ++ (put_u32_le pdu_len
                                ++ (put_u16_le surface_id
                                    ++ (put_u16_le codecid_jpeg
                                        ++ (pixel_format_xrgb_8888
                                            ∷ (put_u32_le 0
                                                ++ (put_u32_le 0
                                                    ++ (put_u32_le width
                                                        ++ (put_u32_le height
                                                            ++ (put_u32_le bl
                                                            ++ (jpeg
                                                            ++ (put_u16_le cmdid_end_frame
                                                            ++ (put_u32_le 0
                                                            ++ (put_u32_le 8
                                                            ++ (put_u32_le fid
                                                            ++ (put_u16_le cmdid_frameacknowledge
                                                            ++ (put_u32_le 0
                                                            ++ (put_u32_le 20
                                                            ++ (put_u32_le 0
                                                            ++ (put_u32_le fid
                                                            ++ put_u32_le 1)))))))))))))))))))))))))

-- The mux frame that is handed to `framed.send`, and the connection with the new frame id.
unfoldable pub send_frame : Connection → List ℕ → ℕ → ℕ → ℕ → Connection × MuxFrame
unfolding frame_bytes
send_frame c jpeg width height timestamp_100ns =
    let fid = (c.frame_id + 1) % 2 ^ 32 in
    (
      record c { frame_id = fid },
      record {
        channel = gfx_rdp;
        payload = frame_bytes fid c.surface_id jpeg width height timestamp_100ns;
      },
    )

pub data ClientError : Type 0 where
  proto : ProtoError → ClientError
  io json tls windows image : ClientError
  config : Text → ClientError

-- A connection and the bytes that were written to it, in order.
pub record Link : Type 0 where
  pub conn : Connection
  pub wire : List ℕ

-- The batch of one capture that `send_meta` makes, and the connection with the new number.
unfoldable pub batch_of : WindowCaptureRecord → Connection → Connection × CaptureBatch
batch_of cap c =
    let seq = (c.seq + 1) % 2 ^ 64 in
    (record c { seq = seq }, record { client_id = c.client_id; seq = seq; captures = cap ∷ [] })

unfoldable pub pcm_bytes : List ℤ → List ℕ
pcm_bytes [] = []
pcm_bytes (s ∷ rest) = put_i16_le s ++ pcm_bytes rest

-- `out` of `send_audio`.
unfoldable pub audio_bytes : List ℕ → List ℤ → List ℕ
unfolding pcm_bytes
audio_bytes head pcm = put_u16_le (length head % 65536) ++ (head ++ pcm_bytes pcm)

-- `flush` tells whether the transport takes what was written so far.
module _ (flush : List ℕ → Bool) where
  flushed : Connection → List ℕ → Bool → Result ClientError Link
  flushed c wire true = ok (record { conn = c; wire = wire })
  flushed c wire false = err io

  written : Connection → Result ProtoError (List ℕ) → Result ClientError Link
  unfolding flushed
  written c (err e) = err (proto e)
  written c (ok wire) = flushed c wire (flush wire)

  unfoldable pub send_mux : ChannelId → List ℕ → Connection → List ℕ → Result ClientError Link
  unfolding written encode
  send_mux channel payload c wire =
      written c (encode (record { channel = channel; payload = payload }) wire)

  -- `serde_json::to_vec(…)?`, then `send_mux`.
  send_json : ChannelId → Connection → List ℕ → Option (List ℕ) → Result ClientError Link
  unfolding send_mux
  send_json channel c wire none = err json
  send_json channel c wire (some payload) = send_mux channel payload c wire

  unfoldable pub transmit_frame : List ℕ → ℕ → ℕ → ℕ → Link → Result ClientError Link
  unfolding send_mux send_frame
  transmit_frame jpeg width height timestamp_100ns l =
      let (c, f) = send_frame l.conn jpeg width height timestamp_100ns in
      send_mux f.channel f.payload c l.wire

  unfoldable pub send_meta :
      (CaptureBatch → Option (List ℕ)) → WindowCaptureRecord → Link → Result ClientError Link
  unfolding send_json batch_of
  send_meta to_json cap l =
      let (c, batch) = batch_of cap l.conn in send_json pc_meta c l.wire (to_json batch)

  audio_with : List ℤ → Link → Option (List ℕ) → Result ClientError Link
  unfolding send_mux audio_bytes
  audio_with pcm l none = err json
  audio_with pcm l (some head) = send_mux pc_audio (audio_bytes head pcm) l.conn l.wire

  -- `to_json` prints the head with the given number of channels and sample rate.
  unfoldable pub send_audio :
      (ℕ → ℕ → Option (List ℕ)) → List ℤ → ℕ → ℕ → Link → Result ClientError Link
  unfolding audio_with
  send_audio to_json pcm channels rate l = audio_with pcm l (to_json channels rate)

  unfoldable pub send_ctrl :
      (ControlMessage → Option (List ℕ)) → ControlMessage → Link → Result ClientError Link
  unfolding send_json
  send_ctrl to_json msg l = send_json pc_ctrl l.conn l.wire (to_json msg)
