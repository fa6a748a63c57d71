-- ===== src/Client/Config/Registry/Laws.antt =====
-- What is persisted is resolved again, and the identity is kept.
use pre_call.Prelude.{
  ◌<◌, arith, ◌≡◌, refl, sym, ap, ◌∙◌, subst, some-none, Text, codes, Bool, true, [], ◌∷◌, Option,
  none, some, ok, All, ◌==◌, Option-cases, Bool-cases, inl, inr, bytes_eq, ok-inj, err-ok,
}
use pre_call.Prelude.Print.{until}
use pre_call.Client.Config.{ClientConfig, default}
use pre_call.Client.Config.Registry.{
  Registry, get, set, persist, merge, identify, resolve, or_else, and_then, set_some,
}

-- A text without a zero.
abbrev pub IsPlain : Text → Type 0
IsPlain t = All (λ c. 0 < c) t

abbrev pub ArePlain : Option Text → Type 0
ArePlain none = Unit
ArePlain (some t) = IsPlain t

until_plain : (t : Text) → IsPlain t → until (λ u. u == 0) t ≡ t
unfolding until
until_plain [] h = refl
until_plain (c ∷ cs) h = ground (arith, h, until_plain cs h.1)

abbrev push_some : Text → Option Text → Registry → Registry
push_some name none r = r
push_some name (some v) r = (name, v) ∷ r

-- What `persist` leaves.
abbrev entries : ClientConfig → Option Text → Option Text → Text → Registry → Registry
entries cfg fingerprint psk id r =
    let named = (codes "ServerName", cfg.server_name) ∷ (codes "Server", cfg.server) ∷ r in
    (codes "ClientId", id)
    ∷ push_some (codes "Psk") psk (push_some (codes "Fingerprint") fingerprint named)

module _ (writable : Text → Bool) (parse_uuid : Text → Option Text) (env_psk : Option Text)
    (fresh : Text) where
  set_some-eq :
      (name : Text) (o : Option Text) (r : Registry)
      → ((name : Text) → writable name ≡ true)
      → set_some writable name o r ≡ ok (push_some name o r)
  unfolding set_some set
  set_some-eq name none r writes = refl
  set_some-eq name (some v) r writes = rw (writes name) refl

  persisted :
      (cfg : ClientConfig) (fingerprint psk : Option Text) (id : Text) (r : Registry)
      → ((name : Text) → writable name ≡ true)
      → persist writable
          (record cfg { fingerprint = fingerprint; psk = psk; client_id = some id })
          r
        ≡ ok (entries cfg fingerprint psk id r)
  unfolding persist set
  persisted cfg none none id r writes =
      rw (writes (codes "Server"), writes (codes "ServerName"), writes (codes "ClientId")) refl
  persisted cfg (some f) none id r writes =
      rw
        (
          writes (codes "Server"),
          writes (codes "ServerName"),
          writes (codes "Fingerprint"),
          writes (codes "ClientId"),
        )
        refl
  persisted cfg none (some p) id r writes =
      rw
        (
          writes (codes "Server"),
          writes (codes "ServerName"),
          writes (codes "Psk"),
          writes (codes "ClientId"),
        )
        refl
  persisted cfg (some f) (some p) id r writes =
      rw
        (
          writes (codes "Server"),
          writes (codes "ServerName"),
          writes (codes "Fingerprint"),
          writes (codes "Psk"),
          writes (codes "ClientId"),
        )
        refl

  merged :
      (cfg : ClientConfig) (fingerprint psk : Option Text) (id : Text) (r : Registry)
      → parse_uuid id ≡ some id
      → IsPlain cfg.server × IsPlain cfg.server_name × IsPlain id
      → ArePlain fingerprint
      → ArePlain psk
      → merge parse_uuid env_psk (entries cfg fingerprint psk id r) default ≡ record default {
        server = cfg.server;
        server_name = cfg.server_name;
        fingerprint = or_else fingerprint (get (codes "Fingerprint") r);
        psk = or_else psk (or_else (get (codes "Psk") r) env_psk);
        client_id = some id;
      }
  unfolding merge bytes_eq
  merged cfg none none id r reads (ps, pn, pi) pf pp =
      rw (until_plain cfg.server ps, until_plain cfg.server_name pn, until_plain id pi, reads) refl
  merged cfg (some f) none id r reads (ps, pn, pi) pf pp =
      rw
        (
          until_plain cfg.server ps,
          until_plain cfg.server_name pn,
          until_plain id pi,
          until_plain f pf,
          reads,
        )
        refl
  merged cfg none (some p) id r reads (ps, pn, pi) pf pp =
      rw
        (
          until_plain cfg.server ps,
          until_plain cfg.server_name pn,
          until_plain id pi,
          until_plain p pp,
          reads,
        )
        refl
  merged cfg (some f) (some p) id r reads (ps, pn, pi) pf pp =
      rw
        (
          until_plain cfg.server ps,
          until_plain cfg.server_name pn,
          until_plain id pi,
          until_plain f pf,
          until_plain p pp,
          reads,
        )
        refl

  -- What `persist` saves of a configuration with an identity, a client that starts without
  -- arguments resolves: the server, its name and the identity are the saved ones, the fingerprint
  -- and the token too if they were given. Else the fingerprint is what the registry held before,
  -- and the token that, or the one of the environment. The texts hold no zero, Windows lets the
  -- values be written, and the parser reads the identity.
  pub resolve-persist :
      (cfg : ClientConfig) (fingerprint psk : Option Text) (id : Text) (r : Registry)
      → ((name : Text) → writable name ≡ true)
      → parse_uuid id ≡ some id
      → IsPlain cfg.server × IsPlain cfg.server_name × IsPlain id
      → ArePlain fingerprint
      → ArePlain psk
      → let saved = record cfg { fingerprint = fingerprint; psk = psk; client_id = some id } in
        (r' : Registry) × (persist writable saved r ≡ ok r')
        × (resolve writable parse_uuid env_psk fresh default r'
            ≡ ok (
              record default {
                server = cfg.server;
                server_name = cfg.server_name;
                fingerprint = or_else fingerprint (get (codes "Fingerprint") r);
                psk = or_else psk (or_else (get (codes "Psk") r) env_psk);
                client_id = some id;
              },
              r',
            ))
  unfolding resolve
  resolve-persist cfg fingerprint psk id r writes reads plain pf pp = (
    entries cfg fingerprint psk id r,
    persisted cfg fingerprint psk id r writes,
    ap
        (λ (m : ClientConfig).
          identify writable fresh (entries cfg fingerprint psk id r) m m.client_id)
        (merged cfg fingerprint psk id r reads plain pf pp),
  )

  kept :
      (again : Text) (cfg : ClientConfig) (r : Registry) (first : ClientConfig × Registry)
      (id : Text)
      → (merge parse_uuid env_psk r cfg).client_id ≡ some id
      → resolve writable parse_uuid env_psk fresh cfg r ≡ ok first
      → resolve writable parse_uuid env_psk again cfg first.1 ≡ ok first
  unfolding resolve
  kept again cfg r first id k e =
      let m = merge parse_uuid env_psk r cfg in
      let same = ok-inj (sym (ap (identify writable fresh r m) k) ∙ e) in
      subst
        (λ (t : ClientConfig × Registry). resolve writable parse_uuid env_psk again cfg t.1 ≡ ok t)
        same (ap (identify writable again r m) k)

  -- The registry with the identity in front gives the same fields, and the identity.
  merged_drawn :
      (cfg : ClientConfig) (r : Registry)
      → parse_uuid fresh ≡ some fresh
      → IsPlain fresh
      → (merge parse_uuid env_psk r cfg).client_id ≡ none
      → merge parse_uuid env_psk ((codes "ClientId", fresh) ∷ r) cfg
        ≡ record (merge parse_uuid env_psk r cfg) { client_id = some fresh }
  unfolding merge bytes_eq
  merged_drawn cfg r reads plain k = elim (Option-cases cfg.client_id) [
    | inl none_given ↦ rw (none_given, until_plain fresh plain, reads) refl
    | inr (id, given) ↦ absurd (
        some-none
          (sym (ap (λ o. or_else o (and_then (get (codes "ClientId") r) parse_uuid)) given) ∙ k))
  ]

  drawn :
      (again : Text) (cfg : ClientConfig) (r : Registry) (first : ClientConfig × Registry)
      → parse_uuid fresh ≡ some fresh
      → IsPlain fresh
      → (merge parse_uuid env_psk r cfg).client_id ≡ none
      → resolve writable parse_uuid env_psk fresh cfg r ≡ ok first
      → resolve writable parse_uuid env_psk again cfg first.1 ≡ ok first
  unfolding resolve set
  drawn again cfg r first reads plain k e =
      let m = merge parse_uuid env_psk r cfg in
      let step = sym (ap (identify writable fresh r m) k) ∙ e in
      elim (Bool-cases (writable (codes "ClientId"))) [
        | inl w ↦
            subst
              (λ (t : ClientConfig × Registry).
                resolve writable parse_uuid env_psk again cfg t.1 ≡ ok t)
              (ok-inj (rw w at step))
              (ap
                (λ (n : ClientConfig).
                  identify writable again ((codes "ClientId", fresh) ∷ r) n n.client_id)
                (merged_drawn cfg r reads plain k))
        | inr w ↦ absurd (err-ok (rw w at step))
      ]

  -- A client that resolves its configuration a second time, with what it was given at first and
  -- the registry that the first time left, gets the same configuration and draws no new
  -- identity: the registry is left as it is. The parser reads a drawn identity, which holds no
  -- zero.
  pub resolve-resolve :
      (again : Text) (cfg : ClientConfig) (r : Registry) (first : ClientConfig × Registry)
      → parse_uuid fresh ≡ some fresh
      → IsPlain fresh
      → resolve writable parse_uuid env_psk fresh cfg r ≡ ok first
      → resolve writable parse_uuid env_psk again cfg first.1 ≡ ok first
  unfolding resolve
  resolve-resolve again cfg r first reads plain e =
      elim (Option-cases (merge parse_uuid env_psk r cfg).client_id) [
        | inr (id, k) ↦ kept again cfg r first id k e
        | inl k ↦ drawn again cfg r first reads plain k e
      ]
