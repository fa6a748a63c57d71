-- ===== src/Mock.antt =====
-- crates/precall-mock/src/lib.rs: the client of the end-to-end tests. JSON is a parameter; the
-- image encoder and the network are left out.
pub mod Laws
use pre_call.Prelude.{
  ℕ, ◌+◌, ◌*◌, ◌%◌, ◌^◌, Text, codes, true, List, [], ◌∷◌, ◌++◌, Option, none, some, Result, ok,
  ◌>>=◌,
}
use pre_call.Prelude.Int.{pos}
use pre_call.Prelude.Print.{decimal}
use pre_call.Proto.Error.{ProtoError}
use pre_call.Proto.Channel.{all, gfx_rdp, pc_meta, pc_ctrl}
use pre_call.Proto.Mux.{MuxFrame, encode}
use pre_call.Proto.Gfx.{
  GfxPdu, Rect, start_frame, wire_to_surface_1, end_frame, codecid_jpeg, pixel_format_xrgb_8888,
}
use pre_call.Proto.Gfx.Iter.{encode_pdus}
use pre_call.Proto.Handshake.{AuthMethod, ClientHello, protocol_version}
use pre_call.Proto.Metadata.{WindowCaptureRecord, CaptureBatch, ControlMessage, heartbeat, goodbye}

pub record SyntheticFrame : Type 0 where
  pub jpeg : List ℕ
  pub meta : WindowCaptureRecord

-- A number behind a text.
numbered : Text → ℕ → Text → Text
unfolding decimal
numbered before n after = before ++ (decimal n ++ after)

unfoldable pub sample_meta : ℕ → Text → WindowCaptureRecord
unfolding numbered
sample_meta client_frame image_token = record {
  name = numbered (codes "Precall test page ") client_frame [];
  image_token = image_token;
  is_foreground = true;
  window_id = pos (0x1000 + client_frame);
  window_bounds = codes "0,0,1280,720";
  window_title = numbered (codes "Kerberos ticket ") client_frame (codes " - Precall mock");
  properties = none;
  timestamp_100ns = 133000000000000000 + client_frame * 5 * 10000000;
  activation_uri = some (numbered (codes "precall://relaunch/") client_frame []);
  activity_id = none;
  fallback_uri = none;
  apps =
      record {
        windows_app_id = none;
        icon_uri = none;
        name = codes "precall-mock.exe";
        path = some (codes "C:\\Precall\\precall-mock.exe");
        properties = none;
      }
      ∷ [];
  files =
      record {
        path = numbered (codes "C:\\docs\\spec-") client_frame (codes ".txt");
        name = numbered (codes "spec-") client_frame (codes ".txt");
        extension = some (codes "txt");
        kind = some (codes "document");
        file_type = none;
        properties = none;
        object_id = none;
        volume_id = none;
      }
      ∷ [];
  webs =
      record {
        domain = codes "example.test";
        uri = numbered (codes "https://example.test/page/") client_frame [];
        icon_uri = none;
        properties = none;
      }
      ∷ [];
  regions =
      record {
        region_kind = codes "text_block";
        ocr_text = some (
            numbered (codes "The Kerberos V5 protocol page ") client_frame
              (codes " mentions tickets and realms"));
        bounds = codes "0,0,1280,720";
      }
      ∷ [];
}

-- The hello that `Session::connect` sends.
unfoldable pub session_hello : AuthMethod → Text → Text → Text → ClientHello
session_hello auth client_id hostname build = record {
  version = protocol_version;
  client_id = client_id;
  hostname = hostname;
  auth = auth;
  capabilities = record {
    displays =
        record { surface_id = 0; width = 1280; height = 720; origin_x = pos 0; origin_y = pos 0 }
        ∷ [];
    channels = all;
    codec_ids = codecid_jpeg ∷ [];
    capture_interval_ms = 5000;
    client_build = build;
  };
}

-- `Session`, with the bytes that it wrote in place of the connection.
pub record MockSession : Type 0 where
  pub wire : List ℕ
  pub client_id : Text
  pub seq : ℕ
  pub frame_id : ℕ

abbrev pub screen : Rect
screen = record { left = pos 0; top = pos 0; right = pos 1280; bottom = pos 720 }

-- The mux frame of the screenshot with the given frame id.
unfoldable pub gfx_of : ℕ → SyntheticFrame → MuxFrame
gfx_of frame_id f = record {
  channel = gfx_rdp;
  payload =
      encode_pdus
        (start_frame frame_id (f.meta.timestamp_100ns % 2 ^ 32)
          ∷ wire_to_surface_1 0 codecid_jpeg pixel_format_xrgb_8888 screen f.jpeg
          ∷ end_frame frame_id
          ∷ [])
        [];
}

unfoldable pub batch_of : ℕ → Text → SyntheticFrame → CaptureBatch
batch_of seq client_id f = record { client_id = client_id; seq = seq; captures = f.meta ∷ [] }

unfoldable pub send_capture :
    (CaptureBatch → List ℕ) → SyntheticFrame → MockSession → Result ProtoError MockSession
unfolding gfx_of batch_of encode
send_capture to_json f s =
    let frame_id = (s.frame_id + 1) % 2 ^ 32 in
    let seq = (s.seq + 1) % 2 ^ 64 in
    do
      framed ← encode (gfx_of frame_id f) s.wire
      both ←
          encode (record { channel = pc_meta; payload = to_json (batch_of seq s.client_id f) })
            framed
      ok (record s { wire = both; seq = seq; frame_id = frame_id })

send_control :
    (ControlMessage → List ℕ) → ControlMessage → MockSession → Result ProtoError MockSession
unfolding encode
send_control to_json msg s = do
  written ← encode (record { channel = pc_ctrl; payload = to_json msg }) s.wire
  ok (record s { wire = written })

unfoldable pub send_heartbeat :
    (ControlMessage → List ℕ) → ℕ → ℕ → MockSession → Result ProtoError MockSession
unfolding send_control
send_heartbeat to_json sent queue s = send_control to_json (heartbeat sent 0 queue) s

unfoldable pub close : (ControlMessage → List ℕ) → MockSession → Result ProtoError MockSession
unfolding send_control
close to_json s = send_control to_json (goodbye (codes "done")) s
