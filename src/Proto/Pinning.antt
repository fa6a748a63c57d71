-- ===== src/Proto/Pinning.antt =====
-- crates/precall-proto/src/pinning.rs: the fingerprint of the broker's certificate. SHA-256 and
-- `to_lowercase` are parameters; the configuration of rustls around the verifier is left out.
pub mod Laws
use pre_call.Prelude.{
  ℕ, ◌+◌, ◌-◌, ◌*◌, Text, Bool, true, false, ◌&&◌, List, [], ◌∷◌, Option, none, some, ltb, leb,
  ◌==◌, length, bytes_eq, trim, if◌then◌else◌,
}

-- How a fingerprint is read: a slice that is out of range or cuts a character panics.
pub data Parsed : Type 0 where
  bytes : List ℕ → Parsed
  bad_hex wrong_length panics : Parsed

-- `char::to_digit(16)`
unfoldable pub hex_digit : ℕ → Option ℕ
hex_digit c =
    if leb b'0' c && leb c b'9'
    then some (c - b'0')
    else if leb b'a' c && leb c b'f'
    then some (c - b'a' + 10)
    else if leb b'A' c && leb c b'F'
    then some (c - b'A' + 10)
    else none

two_digits : Option ℕ → Option ℕ → Option ℕ
two_digits none low = none
two_digits (some high) none = none
two_digits (some high) (some low) = some (16 * high + low)

-- A plus sign in front is skipped.
after_sign : Bool → Option ℕ → Option ℕ → Option ℕ
unfolding two_digits
after_sign true high low = low
after_sign false high low = two_digits high low

-- `u8::from_str_radix(_, 16)` of two characters.
unfoldable pub from_str_radix : ℕ → ℕ → Option ℕ
unfolding hex_digit after_sign
from_str_radix a b = after_sign (a == b'+') (hex_digit a) (hex_digit b)

push_byte : ℕ → Parsed → Parsed
push_byte b (bytes bs) = bytes (b ∷ bs)
push_byte b bad_hex = bad_hex
push_byte b wrong_length = wrong_length
push_byte b panics = panics

-- The first error ends the reading, so what follows it is not sliced.
push_digit : Option ℕ → Parsed → Parsed
unfolding push_byte
push_digit none rest = bad_hex
push_digit (some b) rest = push_byte b rest

-- `&fp[i..i + 2]` for each second byte of the text in UTF-8. A character of two bytes is a slice
-- of its own and no number; one of three or four is cut.
unfoldable pub hex_pairs : Text → Parsed
unfolding from_str_radix push_digit
hex_pairs [] = bytes []
hex_pairs (a ∷ []) = if ltb a 128 then panics else if ltb a 0x800 then bad_hex else panics
hex_pairs (a ∷ b ∷ rest) =
    let more = hex_pairs rest in
    if ltb a 128
    then if ltb b 128 then push_digit (from_str_radix a b) more else panics
    else if ltb a 0x800
    then bad_hex
    else panics

-- `try_into` an array of 32 bytes.
sized : Parsed → Parsed
sized (bytes bs) = if length bs == 32 then bytes bs else wrong_length
sized bad_hex = bad_hex
sized wrong_length = wrong_length
sized panics = panics

unfoldable pub fingerprint_of : (Text → Text) → Text → Parsed
unfolding hex_pairs sized
fingerprint_of lowercase fingerprint_hex = sized (hex_pairs (lowercase (trim fingerprint_hex)))

unfoldable pub verify_server_cert : (List ℕ → List ℕ) → List ℕ → List ℕ → Bool
verify_server_cert sha256 fingerprint end_entity = bytes_eq (sha256 end_entity) fingerprint
