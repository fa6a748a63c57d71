-- ===== src/Tests/Auth.antt =====
-- Decisions on credentials, with a toy digest in place of SHA-256.
use pre_call.Prelude.{
  ℕ, zero, suc, ◌<◌, ◌%◌, ◌≡◌, ◌↔◌, ◌⊎◌, refl, true, false, List, [], ◌∷◌, ◌++◌, map, some, arith,
  All, length, codes, take, ascii_lower,
}
use pre_call.Prelude.Digest.{IsDigest, SomeSame, ct_eq}
use pre_call.Broker.Auth
use pre_call.Proto.Handshake.{psk}
use pre_call.Broker.Auth.{allow}
use pre_call.Broker.Auth.Laws.{authenticate_iff}
use pre_call.Api.Auth as ApiAuth
use pre_call.Api.Auth.{run_next, unauthorized}
use pre_call.Api.Auth.Laws.{ShowsToken, require_auth_iff}

-- The first `n` bytes, filled up with zeros.
abbrev pub pad : ℕ → List ℕ → List ℕ
pad zero xs = []
pad (suc n) [] = 0 ∷ pad n []
pad (suc n) (x ∷ xs) = (x % 256) ∷ pad n xs

length-pad : (n : ℕ) (xs : List ℕ) → length (pad n xs) ≡ n
length-pad zero xs = refl
length-pad (suc n) [] = omega (arith, length-pad n [])
length-pad (suc n) (x ∷ xs) = omega (arith, length-pad n xs)

pad_bytes : (n : ℕ) (xs : List ℕ) → All (λ b. b < 256) (pad n xs)
pad_bytes zero xs = tt
pad_bytes (suc n) [] = (omega arith, pad_bytes n [])
pad_bytes (suc n) (x ∷ xs) = (omega arith, pad_bytes n xs)

pub digests : (x : List ℕ) → IsDigest (pad 32 x)
digests x = (length-pad 32 x, pad_bytes 32 x)

abbrev lower : List ℕ → List ℕ
lower = map ascii_lower

abbrev id_text : List ℕ
id_text = codes "6f9619ff-8b86-d011-b42d-00c04fc964ff"

authenticate_iff_example :
    (Auth.authenticate
        (pad 32)
        lower
        (Auth.new (pad 32) lower (codes "hunter2" ∷ []) [] false true)
        (psk (codes "hunter2"))
        id_text
      ≡ allow (codes "psk:" ++ take 8 id_text))
    ↔ (SomeSame (pad 32) (codes "hunter2") (codes "hunter2" ∷ [])
        × (codes "psk:" ++ take 8 id_text ≡ codes "psk:" ++ take 8 id_text))
authenticate_iff_example =
    authenticate_iff (pad 32) lower digests (codes "hunter2" ∷ []) [] false true
      (psk (codes "hunter2")) id_text (codes "psk:" ++ take 8 id_text)

authenticate_known :
    Auth.authenticate
      (pad 32)
      lower
      (Auth.new (pad 32) lower (codes "hunter2" ∷ []) [] false false)
      (psk (codes "hunter2"))
      id_text
    ≡ allow (codes "psk:6f9619ff")
unfolding Auth.authenticate Auth.new ct_eq
authenticate_known = refl

require_auth_iff_example :
    ((ApiAuth.require_auth
        (pad 32)
        (ApiAuth.new (pad 32) (codes "tok" ∷ []))
        (some (codes "Bearer tok"))).1
      ≡ run_next)
    ↔ ((codes "tok" ∷ [] ≡ [])
        ⊎ ShowsToken (pad 32) digests (codes "tok" ∷ []) (some (codes "Bearer tok")))
require_auth_iff_example =
    require_auth_iff (pad 32) digests (codes "tok" ∷ []) (some (codes "Bearer tok"))
