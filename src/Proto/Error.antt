-- ===== src/Proto/Error.antt =====
-- crates/precall-proto/src/error.rs. The payloads of `Json` and `Io` are third-party values and
-- are left out.
use pre_call.Prelude.{ℕ, String}

pub data ProtoError : Type 0 where
  truncated : ℕ → ℕ → ProtoError
  unknown_cmd_id : ℕ → ProtoError
  unknown_channel : ℕ → ProtoError
  invalid_pixel_format : ℕ → ProtoError
  malformed : String → ProtoError
  json : ProtoError
  io : ProtoError
  payload_too_large : ℕ → ProtoError
