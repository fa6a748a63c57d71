-- ===== src/Client/Connect/Laws.antt =====
-- Whom the client connects to, and that the broker lets it in.
use pre_call.Prelude.{
  ℕ, ◌≡◌, refl, sym, ap, subst, Text, Bool, true, List, [], ◌∷◌, Option, some, ok, ◌>>=◌, err-ok,
  bytes_eq→eq, Bool-cases, inl, inr,
}
use pre_call.Prelude.Digest.{IsDigest, SomeSame}
use pre_call.Proto.Channel.{gfx_rdp, pc_meta, pc_ctrl, pc_audio}
use pre_call.Proto.Handshake.{ClientHello, ServerHello, ServerReject}
use pre_call.Proto.Pinning.{
  Parsed, bytes, bad_hex, wrong_length, panics, fingerprint_of, verify_server_cert,
}
use pre_call.Broker.Auth.{new}
use pre_call.Broker.Auth.Laws.{authenticate-Granted}
use pre_call.Broker.Connect.{Registries, accepted, handshake}
use pre_call.Broker.Connect.Laws.{handshake_allowed}
use pre_call.Client.Config.{ClientConfig}
use pre_call.Client.Connect.{
  Connected, Network, Trust, pinned, connect, greeted, secured, trust_of, trust_parsed, verifier,
  or_text, client_hello, hostname_of,
}

-- What `connect` returns.
abbrev connected : Text → ServerHello → Connected
connected id h = record {
  conn = record { client_id = id; seq = 0; frame_id = 0; surface_id = 1 };
  hello = h;
}

module _ {Value : Type 0} (sha256 lowercase : List ℕ → List ℕ)
    (as_hello : Value → Option ServerHello) (as_reject : Value → Option ServerReject) where
  secured-ok :
      (net : Network Value) (id : Text) (cfg : ClientConfig) (t : Trust) (c : Connected)
      → secured sha256 lowercase as_hello as_reject net id cfg t ≡ ok c
      → net.tls_accepts (verifier sha256 net t) ≡ true
  unfolding secured
  secured-ok net id cfg t c e = elim (Bool-cases (net.is_server_name cfg.server_name)) [
    | inr n ↦ absurd (err-ok (rw n at e))
    | inl n ↦ elim (Bool-cases (net.tls_accepts (verifier sha256 net t))) [
      | inl a ↦ a
      | inr a ↦ absurd (err-ok (rw (n, a) at e))
    ]
  ]

  -- What a fingerprint that is parsed trusts, with the rest of `connect`.
  parsed-ok :
      (net : Network Value) (id : Text) (cfg : ClientConfig) (p : Parsed) (c : Connected)
      (cert : List ℕ)
      → ((verify : List ℕ → Bool) → net.tls_accepts verify ≡ true → verify cert ≡ true)
      → (trust_parsed p >>= secured sha256 lowercase as_hello as_reject net id cfg) ≡ ok c
      → p ≡ bytes (sha256 cert)
  unfolding trust_parsed verifier verify_server_cert
  parsed-ok net id cfg (bytes d) c cert verified e = ap bytes (
      sym (
        bytes_eq→eq (sha256 cert) d
          (verified (verifier sha256 net (pinned d)) (secured-ok net id cfg (pinned d) c e))))
  parsed-ok net id cfg bad_hex c cert verified e = absurd (err-ok e)
  parsed-ok net id cfg wrong_length c cert verified e = absurd (err-ok e)
  parsed-ok net id cfg panics c cert verified e = absurd (err-ok e)

  -- A client with a fingerprint has a connection only to a server whose certificate has this
  -- fingerprint as its SHA-256 digest. The hypothesis on outside code: a TLS handshake succeeds
  -- only if its verifier accepts the certificate of the server.
  pub connect-IsPinned :
      (net : Network Value) (fresh : Text) (cfg : ClientConfig) (c : Connected) (fp : Text)
      (cert : List ℕ)
      → ((verify : List ℕ → Bool) → net.tls_accepts verify ≡ true → verify cert ≡ true)
      → cfg.fingerprint ≡ some fp
      → connect sha256 lowercase as_hello as_reject net fresh cfg ≡ ok c
      → fingerprint_of lowercase fp ≡ bytes (sha256 cert)
  unfolding connect trust_of
  connect-IsPinned net fresh cfg c fp cert verified given e =
      elim (Bool-cases (net.is_address cfg.server)) [
        | inr a ↦ absurd (err-ok (rw a at e))
        | inl a ↦ elim (Bool-cases (net.is_reachable cfg.server)) [
          | inr b ↦ absurd (err-ok (rw (a, b) at e))
          | inl b ↦
              parsed-ok net (or_text cfg.client_id fresh) cfg (fingerprint_of lowercase fp) c cert
                verified (rw (a, b, given) at e)
        ]
      ]

  connected_by :
      (net : Network Value) (to_value : ServerHello → Value) (fresh : Text) (cfg : ClientConfig)
      (trust : Trust) (h : ServerHello)
      → (net.is_address cfg.server ≡ true)
        × (net.is_reachable cfg.server ≡ true)
        × (net.is_server_name cfg.server_name ≡ true)
        × (net.tls_accepts (verifier sha256 net trust) ≡ true)
      → trust_of lowercase cfg.fingerprint ≡ ok trust
      → ((h : ServerHello) → as_hello (to_value h) ≡ some h)
      → net.exchange
          (client_hello cfg (or_text cfg.client_id fresh) (hostname_of net.var) net.build)
        ≡ ok (to_value h)
      → connect sha256 lowercase as_hello as_reject net fresh cfg
        ≡ ok (connected (or_text cfg.client_id fresh) h)
  unfolding connect secured greeted
  connected_by net to_value fresh cfg trust h (a, b, n, t) trusted reads sent =
      rw (a, b, trusted, n, t, sent, reads h) refl

  -- A client whose token has the digest of one of the broker's gets a session, with all four
  -- channels that it offers, a fresh sequence of frames and batches, and its own identity or the
  -- drawn one. The hypotheses on outside code: a digest has 32 bytes, the fingerprint if there is
  -- one is readable, the network reaches the broker and TLS accepts its certificate, and JSON
  -- carries the hello there and the broker's answer back unchanged.
  pub connect-handshake :
      (net : Network Value) (to_value : ServerHello → Value) (fresh token session_id : Text)
      (cfg : ClientConfig) (trust : Trust) (tokens certs : List (List ℕ))
      (ntlm_on any_client : Bool) (now interval : ℕ) (r : Registries)
      → ((x : List ℕ) → IsDigest (sha256 x))
      → cfg.psk ≡ some token
      → SomeSame sha256 token tokens
      → trust_of lowercase cfg.fingerprint ≡ ok trust
      → (net.is_address cfg.server ≡ true)
        × (net.is_reachable cfg.server ≡ true)
        × (net.is_server_name cfg.server_name ≡ true)
        × (net.tls_accepts (verifier sha256 net trust) ≡ true)
      → ((h : ServerHello) → as_hello (to_value h) ≡ some h)
      → ((h : ClientHello) (a : ServerHello × Registries)
          → handshake sha256 lowercase
              (new sha256 lowercase tokens certs ntlm_on any_client)
              h
              session_id
              now
              interval
              r
            ≡ ok a
          → net.exchange h ≡ ok (to_value a.0))
      → (c : Connected) × (connect sha256 lowercase as_hello as_reject net fresh cfg ≡ ok c)
        × (c.hello.accepted_channels ≡ gfx_rdp ∷ pc_meta ∷ pc_ctrl ∷ pc_audio ∷ [])
        × (c.conn ≡ record {
          client_id = or_text cfg.client_id fresh;
          seq = 0;
          frame_id = 0;
          surface_id = 1;
        })
  unfolding accepted client_hello
  connect-handshake net to_value fresh token session_id cfg trust tokens certs ntlm_on any_client
        now interval r digests given known trusted (a, b, n, t) reads answers =
      let id = or_text cfg.client_id fresh in
      let hello = client_hello cfg id (hostname_of net.var) net.build in
      let allowed =
        (authenticate-Granted sha256 lowercase digests tokens certs ntlm_on any_client hello.auth
            id).1
          (subst (λ o. SomeSame sha256 (or_text o []) tokens) (sym given) known) in
      let answer =
        handshake_allowed sha256 lowercase (new sha256 lowercase tokens certs ntlm_on any_client)
          hello _ session_id now interval r refl allowed in
      (
        connected id _,
        connected_by net to_value fresh cfg trust _ (a, b, n, t) trusted reads
            (answers hello _ answer),
        refl,
        refl,
      )
