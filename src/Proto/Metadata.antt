-- ===== src/Proto/Metadata.antt =====
-- crates/precall-proto/src/metadata.rs: the records of the PCMETA and PCCTRL channels. A text is
-- the list of its code points; the JSON forms are serde's and are not modelled.
use pre_call.Prelude.{ℕ, Text, Bool, List, Option}
use pre_call.Prelude.Int.{ℤ}

pub record AppRecord : Type 0 where
  pub windows_app_id : Option Text
  pub icon_uri : Option Text
  pub name : Text
  pub path : Option Text
  pub properties : Option Text

pub record FileRecord : Type 0 where
  pub path : Text
  pub name : Text
  pub extension : Option Text
  pub kind : Option Text
  pub file_type : Option Text
  pub properties : Option Text
  pub object_id : Option Text
  pub volume_id : Option Text

pub record WebRecord : Type 0 where
  pub domain : Text
  pub uri : Text
  pub icon_uri : Option Text
  pub properties : Option Text

pub record ScreenRegionRecord : Type 0 where
  pub region_kind : Text
  pub ocr_text : Option Text
  pub bounds : Text

pub record WindowCaptureRecord : Type 0 where
  pub name : Text
  pub image_token : Text
  pub is_foreground : Bool
  pub window_id : ℤ
  pub window_bounds : Text
  pub window_title : Text
  pub properties : Option Text
  -- u64
  pub timestamp_100ns : ℕ
  pub activation_uri : Option Text
  pub activity_id : Option Text
  pub fallback_uri : Option Text
  pub apps : List AppRecord
  pub files : List FileRecord
  pub webs : List WebRecord
  pub regions : List ScreenRegionRecord

-- The client id is the text of the UUID.
pub record CaptureBatch : Type 0 where
  pub client_id : Text
  pub seq : ℕ
  pub captures : List WindowCaptureRecord

pub data ControlMessage : Type 0 where
  pause : ControlMessage
  -- capture_interval_ms
  resume : Option ℕ → ControlMessage
  -- apps, domains
  set_exclusions : List Text → List Text → ControlMessage
  -- frames_sent, frames_skipped_unchanged, queue_depth
  heartbeat : ℕ → ℕ → ℕ → ControlMessage
  panic_wipe : ControlMessage
  -- reason
  goodbye : Text → ControlMessage
