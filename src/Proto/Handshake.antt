-- ===== src/Proto/Handshake.antt =====
-- crates/precall-proto/src/handshake.rs: the messages of the connection handshake.
use pre_call.Prelude.{ℕ, Text, List}
use pre_call.Prelude.Int.{ℤ}
use pre_call.Proto.Channel.{ChannelId}

abbrev pub protocol_version : ℕ
protocol_version = 1

pub data AuthMethod : Type 0 where
  -- token
  psk : Text → AuthMethod
  -- fingerprint
  certificate : Text → AuthMethod
  -- user, response_b64
  ntlm : Text → Text → AuthMethod

pub record DisplayInfo : Type 0 where
  pub surface_id : ℕ
  pub width : ℕ
  pub height : ℕ
  pub origin_x : ℤ
  pub origin_y : ℤ

pub record Capabilities : Type 0 where
  pub displays : List DisplayInfo
  pub channels : List ChannelId
  pub codec_ids : List ℕ
  pub capture_interval_ms : ℕ
  pub client_build : Text

pub record ClientHello : Type 0 where
  -- the version sent, a u16
  pub version : ℕ
  pub client_id : Text
  pub hostname : Text
  pub auth : AuthMethod
  pub capabilities : Capabilities

pub record ServerHello : Type 0 where
  pub session_id : Text
  pub accepted_channels : List ChannelId
  pub server_time_100ns : ℕ
  pub heartbeat_interval_ms : ℕ
  pub max_frame_bytes : ℕ

pub record ServerReject : Type 0 where
  pub reason : Text
