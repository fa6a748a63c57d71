-- ===== src/Tests/Connect.antt =====
-- The client and the broker meet at concrete configurations.
use pre_call.Prelude.{
  ℕ, zero, suc, All, trim, bytes_eq, ◌≡◌, ◌↔◌, refl, ap, arith, Text, String, true, false, codes,
  List, [], ◌∷◌, Option, none, some, Result, ok, err, inl, map, ascii_lower, is_whitespace,
}
use pre_call.Proto.Channel.{gfx_rdp, pc_meta, pc_ctrl, pc_audio}
use pre_call.Proto.Handshake.{ServerHello, ServerReject}
use pre_call.Proto.Pinning.{bytes, fingerprint_of, verify_server_cert}
use pre_call.Proto.Pinning.Laws.{verify-fingerprint_iff, hex}
use pre_call.Store.Ukg.Tables.{empty}
use pre_call.Tests.Auth.{pad, digests}
use pre_call.Broker.Auth.{new}
use pre_call.Broker.Connect.{Registries, handshake}
use pre_call.Client.Config.{ClientConfig, default}
use pre_call.Client.Connect.{
  Network, Connected, Failure, web_roots, connect, verifier, trust_of, failed,
}
use pre_call.Client.Connect.Laws.{connect-IsPinned, connect-handshake}
use pre_call.Client.Session.{io}

abbrev zeros : List ℕ
zeros = pad 32 []

abbrev lower : Text → Text
lower t = map ascii_lower t

abbrev repeat : ℕ → ℕ → List ℕ
repeat zero c = []
repeat (suc n) c = c ∷ repeat n c

All-repeat {κ} : (P : ℕ → Type κ) (n c : ℕ) → P c → All P (repeat n c)
All-repeat P zero c h = tt
All-repeat P (suc n) c h = (h, All-repeat P n c h)

abbrev spelled : Text
spelled = repeat 64 b'0'

verify-fingerprint_iff_example :
    (fingerprint_of lower spelled ≡ bytes zeros)
    × ((verify_server_cert (pad 32) zeros (7 ∷ []) ≡ true) ↔ (pad 32 (7 ∷ []) ≡ zeros))
unfolding hex is_whitespace ascii_lower
verify-fingerprint_iff_example =
    verify-fingerprint_iff (pad 32) lower zeros spelled (7 ∷ []) (λ t h. refl) (digests [])
      (omega arith) (All-repeat (λ c. is_whitespace c ≡ false) 64 b'0' refl) refl

abbrev greeting : ServerHello
greeting = record {
  session_id = codes "s";
  accepted_channels = [];
  server_time_100ns = 0;
  heartbeat_interval_ms = 30000;
  max_frame_bytes = 0;
}

abbrev plain : Network ServerHello
plain = record {
  is_address = λ t. true;
  is_reachable = λ t. true;
  is_server_name = λ t. true;
  tls_accepts = λ verify. verify [];
  is_in_web_roots = λ cert. true;
  exchange = λ h. ok greeting;
  var = λ name. none;
  build = codes "0.1.0";
}

abbrev no_reject : ServerHello → Option ServerReject
no_reject h = none

abbrev pinning : ClientConfig
pinning = record default { fingerprint = some spelled }

connect-IsPinned_example : fingerprint_of lower spelled ≡ bytes (pad 32 [])
unfolding connect trim ascii_lower bytes_eq
connect-IsPinned_example =
    connect-IsPinned (pad 32) lower some no_reject plain (codes "v") pinning
      (record {
        conn = record { client_id = codes "v"; seq = 0; frame_id = 0; surface_id = 1 };
        hello = greeting;
      })
      spelled [] (λ verify h. h) refl refl

abbrev answer : Result String (ServerHello × Registries) → Result Failure ServerHello
answer (ok a) = ok a.0
answer (err reason) = err (failed io)

abbrev nothing_yet : Registries
nothing_yet = record { ukg = empty; server_db = empty }

abbrev to_broker : Network ServerHello
to_broker = record plain {
  exchange = λ h. answer (
      handshake (pad 32) lower (new (pad 32) lower (codes "key" ∷ []) [] false true) h (codes "s") 5
        30000 nothing_yet);
}

abbrev keyed : ClientConfig
keyed = record default { psk = some (codes "key") }

connect-handshake_example :
    (c : Connected) × (connect (pad 32) lower some no_reject to_broker (codes "v") keyed ≡ ok c)
    × (c.hello.accepted_channels ≡ gfx_rdp ∷ pc_meta ∷ pc_ctrl ∷ pc_audio ∷ [])
    × (c.conn ≡ record { client_id = codes "v"; seq = 0; frame_id = 0; surface_id = 1 })
unfolding trust_of verifier
connect-handshake_example =
    connect-handshake (pad 32) lower some no_reject to_broker (λ h. h) (codes "v") (codes "key")
      (codes "s") keyed web_roots (codes "key" ∷ []) [] false true 5 30000 nothing_yet digests refl
      (inl refl) refl (refl, refl, refl, refl) (λ h. refl) (λ h a e. ap answer e)
