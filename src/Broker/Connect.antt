-- ===== src/Broker/Connect.antt =====
-- crates/precall-broker/src/ingest.rs: `handle_conn` up to the session loop, and the count of the
-- sessions. A session id is drawn at random: a parameter, like the time, of which one reading
-- stands for two. The stores are opened before: their databases are given.
pub mod Laws
pub mod Count
use pre_call.Prelude.{
  ℕ, suc, Text, String, Bool, true, false, ◌||◌, List, [], ◌∷◌, filter, Result, ok, err, ◌==◌, not,
  if◌then◌else◌,
}
use pre_call.Prelude.Int.{ℤ}
use pre_call.Proto.Channel.{ChannelId, gfx_rdp, pc_meta, pc_audio, pc_ctrl, pc_query}
use pre_call.Proto.Handshake.{ClientHello, ServerHello, protocol_version}
use pre_call.Proto.Mux.{max_mux_payload}
use pre_call.Store.Ukg.Tables.{Ukg}
use pre_call.Store.Ukg.Ingest.{as_i64}
use pre_call.Store.Ukg.Rows.{touch_client}
use pre_call.Broker.Auth.{AuthDecision, Authenticator, allow, reject, authenticate}

-- The channels that the broker accepts.
unfoldable pub is_accepted : ChannelId → Bool
is_accepted gfx_rdp = true
is_accepted pc_meta = true
is_accepted pc_ctrl = true
is_accepted pc_audio = true
is_accepted pc_query = false

unfoldable pub accepted : List ChannelId → List ChannelId
unfolding is_accepted
accepted channels = filter is_accepted channels

-- The database of the client and the registry of the server.
pub record Registries : Type 0 where
  pub ukg : Ukg
  pub server_db : Ukg

unfoldable pub register : ClientHello → ℤ → Registries → Registries
unfolding touch_client
register hello now r = record {
  ukg = touch_client hello.client_id hello.hostname now r.ukg;
  server_db = touch_client hello.client_id hello.hostname now r.server_db;
}

module _ (sha256 lowercase : List ℕ → List ℕ) where
  greet :
      AuthDecision
      → ClientHello
      → Text
      → ℕ
      → ℕ
      → Registries
      → Result String (ServerHello × Registries)
  unfolding accepted register as_i64
  greet (reject reason) hello session_id now heartbeat_interval_ms r = err reason
  greet (allow principal) hello session_id now heartbeat_interval_ms r = ok (
    record {
      session_id = session_id;
      accepted_channels = accepted hello.capabilities.channels;
      server_time_100ns = now;
      heartbeat_interval_ms = heartbeat_interval_ms;
      max_frame_bytes = max_mux_payload;
    },
    register hello (as_i64 now) r,
  )

  -- The answer to a hello: the reason of a rejection, or the greeting and what was registered.
  unfoldable pub handshake :
      Authenticator
      → ClientHello
      → Text
      → ℕ
      → ℕ
      → Registries
      → Result String (ServerHello × Registries)
  unfolding authenticate greet
  handshake auth hello session_id now heartbeat_interval_ms r =
      if not (hello.version == protocol_version)
      then err "protocol version mismatch"
      else greet (authenticate sha256 lowercase auth hello.auth hello.client_id) hello session_id
          now heartbeat_interval_ms r
