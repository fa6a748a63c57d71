-- ===== src/Client/Config/Registry.antt =====
-- crates/precall-client/src/config.rs: `resolve` and `persist` over the values under
-- HKCU\Software\Precall. The registry is the list of its named values; the UUID parser, the draw
-- of a UUID and the environment are parameters, and so is whether Windows lets a value be set.
pub mod Laws
use pre_call.Prelude.{
  Text, codes, Bool, true, false, List, [], ◌∷◌, Option, none, some, Result, ok, err, ◌>>=◌,
  bytes_eq, if◌then◌else◌, ◌==◌,
}
use pre_call.Prelude.Print.{until}
use pre_call.Client.Config.{ClientConfig, default_server, default_server_name}

-- The value names and their texts; the newest stands first.
abbrev pub Registry : Type 0
Registry = List (Text × Text)

-- `reg::get`; an absent value is `none`, and a text ends at its first zero.
unfoldable pub get : Text → Registry → Option Text
unfolding until
get name [] = none
get name ((key, value) ∷ rest) =
    let other = get name rest in
    if bytes_eq key name then some (until (λ u. u == 0) value) else other

-- Why a configuration is not saved: the text of `ClientError::Config` is left out.
pub data Refused : Type 0 where
  refused : Refused

-- `reg::set`; `writable` tells whether the calls of Windows succeed for the name.
unfoldable pub set : (Text → Bool) → Text → Text → Registry → Result Refused Registry
set writable name value r = if writable name then ok ((name, value) ∷ r) else err refused

-- A field that still has its default takes the value of the registry.
unless_set : Text → Text → Option Text → Text
unless_set default field none = field
unless_set default field (some v) = if bytes_eq field default then v else field

abbrev pub or_else : Option Text → Option Text → Option Text
or_else none other = other
or_else (some t) other = some t

abbrev and_then : Option Text → (Text → Option Text) → Option Text
and_then none f = none
and_then (some t) f = f t

-- `if let Some(v) = field { reg::set(name, v)? }`
set_some : (Text → Bool) → Text → Option Text → Registry → Result Refused Registry
unfolding set
set_some writable name none r = ok r
set_some writable name (some v) r = set writable name v r

unfoldable pub persist : (Text → Bool) → ClientConfig → Registry → Result Refused Registry
unfolding set set_some
persist writable cfg r = do
  server ← set writable (codes "Server") cfg.server r
  named ← set writable (codes "ServerName") cfg.server_name server
  pinned ← set_some writable (codes "Fingerprint") cfg.fingerprint named
  keyed ← set_some writable (codes "Psk") cfg.psk pinned
  set_some writable (codes "ClientId") cfg.client_id keyed

-- The values that `resolve` fills in before it asks for an identity; `env_psk` is PRECALL_PSK.
unfoldable pub merge : (Text → Option Text) → Option Text → Registry → ClientConfig → ClientConfig
unfolding get unless_set
merge parse_uuid env_psk r cfg = record cfg {
  server = unless_set default_server cfg.server (get (codes "Server") r);
  server_name = unless_set default_server_name cfg.server_name (get (codes "ServerName") r);
  fingerprint = or_else cfg.fingerprint (get (codes "Fingerprint") r);
  psk = or_else cfg.psk (or_else (get (codes "Psk") r) env_psk);
  client_id = or_else cfg.client_id (and_then (get (codes "ClientId") r) parse_uuid);
}

-- The identity is drawn and written if there is none yet.
identify :
    (Text → Bool)
    → Text
    → Registry
    → ClientConfig
    → Option Text
    → Result Refused (ClientConfig × Registry)
unfolding set
identify writable fresh r cfg (some id) = ok (cfg, r)
identify writable fresh r cfg none = do
  written ← set writable (codes "ClientId") fresh r
  ok (record cfg { client_id = some fresh }, written)

unfoldable pub resolve :
    (Text → Bool)
    → (Text → Option Text)
    → Option Text
    → Text
    → ClientConfig
    → Registry
    → Result Refused (ClientConfig × Registry)
unfolding merge identify
resolve writable parse_uuid env_psk fresh cfg r =
    let merged = merge parse_uuid env_psk r cfg in identify writable fresh r merged merged.client_id
