-- ===== src/Client/Connect.antt =====
-- crates/precall-client/src/session.rs: `Connection::connect`. The network, TLS, the environment
-- and serde are parameters; a `Value` is what serde reads.
pub mod Laws
use pre_call.Prelude.{
  ℕ, ◌%◌, ◌^◌, Text, codes, Bool, true, false, List, [], ◌∷◌, ◌++◌, Option, none, some, Result, ok,
  err, ◌>>=◌,
}
use pre_call.Prelude.Int.{pos}
use pre_call.Proto.Channel.{gfx_rdp, pc_meta, pc_ctrl, pc_audio}
use pre_call.Proto.Gfx.{codecid_jpeg}
use pre_call.Proto.Handshake.{ClientHello, ServerHello, ServerReject, psk, protocol_version}
use pre_call.Proto.Pinning.{
  Parsed, bytes, bad_hex, wrong_length, panics, fingerprint_of, verify_server_cert,
}
use pre_call.Client.Config.{ClientConfig}
use pre_call.Client.Session.{ClientError, Connection, io, json, tls, config}

-- A connection that is set up, with the greeting of the server.
pub record Connected : Type 0 where
  pub conn : Connection
  pub hello : ServerHello

abbrev pub or_text : Option Text → Text → Text
or_text none other = other
or_text (some t) other = t

-- `COMPUTERNAME`, else `HOSTNAME`, else a fixed name.
unfoldable pub hostname_of : (Text → Option Text) → Text
hostname_of var =
    or_text (var (codes "COMPUTERNAME")) (or_text (var (codes "HOSTNAME")) (codes "precall-client"))

unfoldable pub client_hello : ClientConfig → Text → Text → Text → ClientHello
client_hello cfg client_id hostname build = record {
  version = protocol_version;
  client_id = client_id;
  hostname = hostname;
  auth = psk (or_text cfg.psk []);
  capabilities = record {
    displays =
        record { surface_id = 1; width = 0; height = 0; origin_x = pos 0; origin_y = pos 0 } ∷ [];
    channels = gfx_rdp ∷ pc_meta ∷ pc_ctrl ∷ pc_audio ∷ [];
    codec_ids = codecid_jpeg ∷ [];
    capture_interval_ms = cfg.capture_interval_ms % 2 ^ 32;
    client_build = build;
  };
}

-- What verifies the certificate of the server: a pinned digest, or the roots of the web.
pub data Trust : Type 0 where
  pinned : List ℕ → Trust
  web_roots : Trust

-- Why there is no connection: an error, or a panic of the parser.
pub data Failure : Type 0 where
  failed : ClientError → Failure
  panicked : Failure

trust_parsed : Parsed → Result Failure Trust
trust_parsed (bytes digest) = ok (pinned digest)
trust_parsed bad_hex = err (failed (config (codes "bad fingerprint hex")))
trust_parsed wrong_length =
    err (failed (config (codes "fingerprint must be 32 bytes (64 hex chars)")))
trust_parsed panics = err panicked

unfoldable pub trust_of : (Text → Text) → Option Text → Result Failure Trust
unfolding fingerprint_of trust_parsed
trust_of lowercase none = ok web_roots
trust_of lowercase (some fp) = trust_parsed (fingerprint_of lowercase fp)

-- What the outside does for one connection: the parser of socket addresses, the TCP connect, the
-- parser of server names, the TLS handshake with a verifier, the trust of WebPKI, and the
-- exchange of the hello for a value. `build` is the version of the package.
pub record Network (Value : Type 0) : Type 0 where
  pub is_address : Text → Bool
  pub is_reachable : Text → Bool
  pub is_server_name : Text → Bool
  pub tls_accepts : (List ℕ → Bool) → Bool
  pub is_in_web_roots : List ℕ → Bool
  pub exchange : ClientHello → Result Failure Value
  pub var : Text → Option Text
  pub build : Text

ensure : Bool → ClientError → Result Failure (Unit {0})
ensure true e = ok tt
ensure false e = err (failed e)

unfoldable pub verifier :
    {Value : Type 0} → (List ℕ → List ℕ) → Network Value → Trust → List ℕ → Bool
unfolding verify_server_cert
verifier sha256 net (pinned digest) cert = verify_server_cert sha256 digest cert
verifier sha256 net web_roots cert = net.is_in_web_roots cert

module _ {Value : Type 0} (sha256 lowercase : List ℕ → List ℕ)
    (as_hello : Value → Option ServerHello) (as_reject : Value → Option ServerReject) where
  reason_of : Option ServerReject → Text
  reason_of none = codes "unknown"
  reason_of (some r) = r.reason

  greeting : Value → Option ServerHello → Result Failure ServerHello
  unfolding reason_of
  greeting v none = err (failed (config (codes "rejected: " ++ reason_of (as_reject v))))
  greeting v (some hello) = ok hello

  -- The hello and its answer.
  greeted : Network Value → Text → ClientConfig → Result Failure Connected
  unfolding client_hello hostname_of greeting
  greeted net client_id cfg = do
    value ← net.exchange (client_hello cfg client_id (hostname_of net.var) net.build)
    hello ← greeting value (as_hello value)
    ok (record {
      conn = record { client_id = client_id; seq = 0; frame_id = 0; surface_id = 1 };
      hello = hello;
    })

  secured : Network Value → Text → ClientConfig → Trust → Result Failure Connected
  unfolding ensure verifier greeted
  secured net client_id cfg trust = do
    _ ← ensure (net.is_server_name cfg.server_name) (config (codes "bad server_name"))
    _ ← ensure (net.tls_accepts (verifier sha256 net trust)) tls
    greeted net client_id cfg

  -- `fresh` is the id that `Uuid::new_v4` would draw.
  unfoldable pub connect : Network Value → Text → ClientConfig → Result Failure Connected
  unfolding trust_of ensure secured
  connect net fresh cfg = do
    _ ← ensure (net.is_address cfg.server) (config (codes "bad server address"))
    _ ← ensure (net.is_reachable cfg.server) io
    trust ← trust_of lowercase cfg.fingerprint
    secured net (or_text cfg.client_id fresh) cfg trust
