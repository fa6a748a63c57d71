-- ===== src/Proto/Pinning/Laws.antt =====
-- A fingerprint pins one digest.
use mathlib.Core.List.{reverse, reverse-reverse}
use pre_call.Prelude.{
  ℕ, ◌+◌, ◌-◌, ◌/◌, ◌%◌, ◌<◌, ◌≡◌, ◌↔◌, refl, sym, ap, ◌∙◌, Text, true, false, List, [], ◌∷◌, map,
  some, ltb, lt→ltb, ◌==◌, All, arith, trim, trim_start, is_whitespace, ascii_lower, bytes_eq,
  bytes_eq→eq, bytes_eq_refl, if◌then◌else◌, All-reverse,
}
use pre_call.Prelude.Digest.{IsDigest}
use pre_call.Proto.Pinning.{
  bytes, hex_digit, two_digits, after_sign, from_str_radix, push_byte, push_digit, hex_pairs, sized,
  fingerprint_of, verify_server_cert,
}

unfoldable hex_char : ℕ → ℕ
hex_char d = if ltb d 10 then b'0' + d else b'a' + (d - 10)

-- The lower-case hexadecimal digits of bytes.
unfoldable pub hex : List ℕ → Text
unfolding hex_char
hex [] = []
hex (b ∷ bs) = hex_char (b / 16) ∷ hex_char (b % 16) ∷ hex bs

hex_digit-hex_char : (d : ℕ) → d < 16 → hex_digit (hex_char d) ≡ some d
unfolding hex_digit hex_char
hex_digit-hex_char d h = ground arith

hex_char-lt : (d : ℕ) → d < 16 → hex_char d < 128
unfolding hex_char
hex_char-lt d h = ground arith

hex_char_unsigned : (d : ℕ) → d < 16 → (hex_char d == b'+') ≡ false
unfolding hex_char
hex_char_unsigned d h = ground arith

from_str_radix-hex :
    (b : ℕ) → b < 256 → from_str_radix (hex_char (b / 16)) (hex_char (b % 16)) ≡ some b
unfolding from_str_radix
from_str_radix-hex b h =
    ap (λ s. after_sign s (hex_digit (hex_char (b / 16))) (hex_digit (hex_char (b % 16))))
      (hex_char_unsigned (b / 16) (omega arith))
    ∙ ap (λ o. two_digits o (hex_digit (hex_char (b % 16))))
        (hex_digit-hex_char (b / 16) (omega arith))
    ∙ ap (two_digits (some (b / 16))) (hex_digit-hex_char (b % 16) (omega arith))
    ∙ ap some (omega arith)

-- Two ASCII characters are a slice.
hex_pairs-cons :
    (a b : ℕ) (rest : Text)
    → a < 128
    → b < 128
    → hex_pairs (a ∷ b ∷ rest) ≡ push_digit (from_str_radix a b) (hex_pairs rest)
unfolding hex_pairs
hex_pairs-cons a b rest h k = rw (lt→ltb a 128 h, lt→ltb b 128 k) refl

hex_pairs-hex : (d : List ℕ) → All (λ b. b < 256) d → hex_pairs (hex d) ≡ bytes d
unfolding hex hex_pairs
hex_pairs-hex [] h = refl
hex_pairs-hex (b ∷ bs) h =
    hex_pairs-cons (hex_char (b / 16)) (hex_char (b % 16)) (hex bs)
      (hex_char-lt (b / 16) (omega arith)) (hex_char-lt (b % 16) (omega arith))
    ∙ ap (λ o. push_digit o (hex_pairs (hex bs))) (from_str_radix-hex b h.0)
    ∙ ap (push_byte b) (hex_pairs-hex bs h.1)

trim_start_id : (s : Text) → All (λ c. is_whitespace c ≡ false) s → trim_start s ≡ s
unfolding trim_start
trim_start_id [] h = refl
trim_start_id (c ∷ cs) h = rw h.0 refl

trim_id : (s : Text) → All (λ c. is_whitespace c ≡ false) s → trim s ≡ s
unfolding trim
trim_id s h =
    ap (λ t. reverse (trim_start (reverse t))) (trim_start_id s h)
    ∙ ap reverse (trim_start_id (reverse s) (All-reverse _ s h))
    ∙ reverse-reverse s

-- A text of hexadecimal digits in upper or lower case, without white space, that spells a digest
-- is accepted as a fingerprint, and then exactly the certificates with this digest are accepted.
-- The hypothesis on outside code: `to_lowercase` of an ASCII text lowers each of its letters.
pub verify-fingerprint_iff :
    (sha256 lowercase : List ℕ → List ℕ) (digest : List ℕ) (text : Text) (cert : List ℕ)
    → ((t : Text) → All (λ c. c < 128) t → lowercase t ≡ map ascii_lower t)
    → IsDigest digest
    → All (λ c. c < 128) text
    → All (λ c. is_whitespace c ≡ false) text
    → map ascii_lower text ≡ hex digest
    → (fingerprint_of lowercase text ≡ bytes digest)
      × ((verify_server_cert sha256 digest cert ≡ true) ↔ (sha256 cert ≡ digest))
unfolding fingerprint_of verify_server_cert
verify-fingerprint_iff sha256 lowercase digest text cert lowers (size, small) ascii dense spells = (
  ap (λ t. sized (hex_pairs (lowercase t))) (trim_id text dense)
      ∙ ap (λ t. sized (hex_pairs t)) (lowers text ascii ∙ spells)
      ∙ ap sized (hex_pairs-hex digest small)
      ∙ sized_bytes,
  (
    bytes_eq→eq (sha256 cert) digest,
    λ e. ap (bytes_eq (sha256 cert)) (sym e) ∙ bytes_eq_refl (sha256 cert),
  ),
)
  where
    sized_bytes : sized (bytes digest) ≡ bytes digest
    sized_bytes = rw size refl
