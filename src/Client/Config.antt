-- ===== src/Client/Config.antt =====
-- crates/precall-client/src/config.rs: the configuration of the client and what the registry
-- keeps of it. A client id is the text of its UUID.
pub mod Registry
use pre_call.Prelude.{ℕ, Text, codes, Bool, true, false, List, [], ◌∷◌, Option, none}

pub record ClientConfig : Type 0 where
  pub server : Text
  pub server_name : Text
  pub fingerprint : Option Text
  pub psk : Option Text
  pub client_id : Option Text
  pub capture_interval_ms : ℕ
  pub enable_audio : Bool
  pub enable_ocr : Bool
  pub excluded_processes : List Text
  pub excluded_domains : List Text

abbrev pub default_server : Text
default_server = codes "127.0.0.1:8443"

abbrev pub default_server_name : Text
default_server_name = codes "precall-server"

-- `ClientConfig::default`
abbrev pub default : ClientConfig
default = record {
  server = default_server;
  server_name = default_server_name;
  fingerprint = none;
  psk = none;
  client_id = none;
  capture_interval_ms = 5000;
  enable_audio = false;
  enable_ocr = true;
  excluded_processes = codes "credential manager" ∷ codes "lockapp.exe" ∷ [];
  excluded_domains = [];
}
