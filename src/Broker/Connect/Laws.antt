-- ===== src/Broker/Connect/Laws.antt =====
-- Who gets a session, and with which channels.
use pre_call.Prelude.{
  ℕ, ◌≡◌, ◌≢◌, ◌↔◌, ◌⊎◌, refl, sym, ◌∙◌, Text, String, true, List, Result, ok, err, ◌==◌, ==_iff,
  ◌∈◌, mem-filter, mem_filter, Bool-cases, inl, inr, true-false,
}
use pre_call.Proto.Channel.{ChannelId}
use pre_call.Proto.Handshake.{ClientHello, ServerHello, protocol_version}
use pre_call.Broker.Auth.{AuthDecision, Authenticator, allow, reject, authenticate}
use pre_call.Broker.Connect.{is_accepted, accepted, Registries, register, greet, handshake}
use pre_call.Proto.Mux.{max_mux_payload}
use pre_call.Store.Ukg.Ingest.{as_i64}

-- The accepted channels are the offered ones that the broker serves.
pub accepted_iff :
    (channels : List ChannelId) (c : ChannelId)
    → (c ∈ accepted channels) ↔ ((c ∈ channels) × (is_accepted c ≡ true))
unfolding accepted
accepted_iff channels c =
    (mem-filter is_accepted channels c, λ t. mem_filter is_accepted channels c t.0 t.1)

AuthDecision-cases :
    (d : AuthDecision) → ((p : List ℕ) × (d ≡ allow p)) ⊎ ((r : String) × (d ≡ reject r))
AuthDecision-cases (allow p) = inl (p, refl)
AuthDecision-cases (reject r) = inr (r, refl)

err_ok : {E A : Type 0} {e : E} {a : A} → ◌≢◌ {A = Result E A} (err e) (ok a)
err_ok = λ k. cc

reject_allow : {r : String} {p : List ℕ} → reject r ≢ allow p
reject_allow = λ k. cc

module _ (sha256 lowercase : List ℕ → List ℕ) where
  -- A hello gets a session exactly if it has the protocol version of the broker and
  -- authenticates.
  pub handshake_iff :
      (auth : Authenticator) (hello : ClientHello) (session_id : Text) (now interval : ℕ)
      (r : Registries)
      → ((a : ServerHello × Registries) × (handshake sha256 lowercase auth hello session_id now
              interval r
            ≡ ok a))
        ↔ ((hello.version ≡ protocol_version)
            × (p : List ℕ) × (authenticate sha256 lowercase auth hello.auth hello.client_id
                ≡ allow p))
  unfolding handshake greet
  handshake_iff auth hello session_id now interval r =
      elim (Bool-cases (hello.version == protocol_version)) [
        | inr e ↦
            rw e (λ t. absurd (err_ok t.1), λ t. absurd (true-false (sym ((==_iff _ _).1 t.0) ∙ e)))
        | inl e ↦
            elim (AuthDecision-cases
              (authenticate sha256 lowercase auth hello.auth hello.client_id)) [
                | inl (p, d) ↦ rw (e, d) (λ t. ((==_iff _ _).0 e, p, refl), λ t. (_, refl))
                | inr (q, d) ↦ rw (e, d) (λ t. absurd (err_ok t.1), λ t. absurd (reject_allow t.2))
              ]
      ]

  -- The answer to a hello that authenticates.
  pub handshake_allowed :
      (auth : Authenticator) (hello : ClientHello) (p : List ℕ) (session_id : Text)
      (now interval : ℕ) (r : Registries)
      → hello.version ≡ protocol_version
      → authenticate sha256 lowercase auth hello.auth hello.client_id ≡ allow p
      → handshake sha256 lowercase auth hello session_id now interval r
        ≡ ok (
          record {
            session_id = session_id;
            accepted_channels = accepted hello.capabilities.channels;
            server_time_100ns = now;
            heartbeat_interval_ms = interval;
            max_frame_bytes = max_mux_payload;
          },
          register hello (as_i64 now) r,
        )
  unfolding handshake greet
  handshake_allowed auth hello p session_id now interval r v a =
      rw ((==_iff hello.version protocol_version).1 v, a) refl
