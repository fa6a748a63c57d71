-- ===== src/Store/Objects.antt =====
-- crates/precall-store/src/objects.rs: the object store. The files below its root are a list of
-- keys and contents; of the failures of the file system only a missing file is modelled.
-- `char::is_alphanumeric`, `Path::starts_with` and the cipher are parameters. A key keeps the
-- date as numbers, where the path has them in decimal.
pub mod RoundTrip
pub mod Dates
use pre_call.Prelude.{
  ℕ, ◌+◌, ◌-◌, ◌*◌, ◌/◌, ◌==◌, Text, Bool, true, false, not, ◌&&◌, ◌||◌, List, [], ◌∷◌, ◌++◌,
  Option, none, some, Result, ok, err, ltb, leb, bytes_eq, filter, any, if◌then◌else◌,
}
use pre_call.Prelude.Int.{ℤ, pos, ◌+ℤ◌, ◌-ℤ◌, ◌*ℤ◌, eqb_ℤ}
use pre_call.Store.Crypto.{CryptoError, seal, open_sealed}
use pre_call.Store.Ukg.Dwell.{div_euclid, rem_euclid}

-- Howard Hinnant's civil-from-days; the month is 1 to 12, the day 1 to 31.
unfoldable pub civil_from_days : ℤ → ℤ × ℕ × ℕ
unfolding div_euclid rem_euclid
civil_from_days days =
    let z = days +ℤ pos 719468 in
    let era = div_euclid z 146097 in
    let doe = rem_euclid z 146097 in
    let yoe = (doe - doe / 1460 + doe / 36524 - doe / 146096) / 365 in
    let y = pos yoe +ℤ era *ℤ pos 400 in
    let doy = doe - (365 * yoe + yoe / 4 - yoe / 100) in
    let mp = (5 * doy + 2) / 153 in
    let d = doy - (153 * mp + 2) / 5 + 1 in
    let m = (if ltb mp 10 then mp + 3 else mp - 9) in (if leb m 2 then y +ℤ pos 1 else y, m, d)

unfoldable pub ymd_from_filetime : ℤ → ℤ × ℕ × ℕ
unfolding div_euclid civil_from_days
ymd_from_filetime ticks =
    civil_from_days (div_euclid (ticks -ℤ pos 116444736000000000) 86400000000000)

pub data ObjectError : Type 0 where
  io not_found : ObjectError
  crypto : CryptoError → ObjectError

-- `{client_id}/{yyyy}/{mm}/{dd}/{token}.{ext}`
pub record ObjectKey : Type 0 where
  pub client : Text
  pub year : ℤ
  pub month : ℕ
  pub day : ℕ
  pub file : Text

pub record StoredObject : Type 0 where
  pub key : ObjectKey
  pub bytes : List ℕ

-- The cipher is the key of the envelope cipher.
pub record ObjectStore : Type 0 where
  pub objects : List StoredObject
  pub cipher : Option (List ℕ)

unfoldable pub same_key : ObjectKey → ObjectKey → Bool
same_key a b =
    bytes_eq a.client b.client
    && (eqb_ℤ a.year b.year && (a.month == b.month && (a.day == b.day && bytes_eq a.file b.file)))

-- `std::fs::write`
unfoldable pub write_file : ObjectKey → List ℕ → List StoredObject → List StoredObject
unfolding same_key
write_file key bytes [] = record { key = key; bytes = bytes } ∷ []
write_file key bytes (o ∷ rest) =
    let later = write_file key bytes rest in
    if same_key o.key key then record { key = key; bytes = bytes } ∷ rest else o ∷ later

-- `std::fs::read`
unfoldable pub read_file : ObjectKey → List StoredObject → Option (List ℕ)
unfolding same_key
read_file key [] = none
read_file key (o ∷ rest) =
    let later = read_file key rest in if same_key o.key key then some o.bytes else later

-- The directory of the client goes with all below it.
unfoldable pub purge_client : Text → ObjectStore → ObjectStore
purge_client client_id self = record self {
  objects = filter (λ (o : StoredObject). not (bytes_eq o.key.client client_id)) self.objects;
}

-- `is_file`
unfoldable pub exists : ObjectKey → ObjectStore → Bool
unfolding same_key
exists rel self = any (λ (o : StoredObject). same_key o.key rel) self.objects

module _ (is_alphanumeric : ℕ → Bool) where
  unfoldable pub is_clean : ℕ → Bool
  is_clean c = is_alphanumeric c || (c == b'-' || (c == b'_' || c == b'.'))

  unfoldable pub clean : Text → Text
  unfolding is_clean
  clean s = filter is_clean s

  unfoldable pub key_path : Text → ℤ × ℕ × ℕ → Text → Text → ObjectKey
  unfolding clean
  key_path client_id date token ext = record {
    client = clean client_id;
    year = date.0;
    month = date.1;
    day = date.2;
    file = clean token ++ (b'.' ∷ clean ext);
  }

module _ (is_alphanumeric : ℕ → Bool) (encrypt : List ℕ → List ℕ → List ℕ → List ℕ → List ℕ)
    (decrypt : List ℕ → List ℕ → List ℕ → List ℕ → Option (List ℕ)) where
  unfoldable pub sealed_with : Option (List ℕ) → List ℕ → Text → List ℕ → List ℕ
  unfolding seal
  sealed_with none nonce token bytes = bytes
  sealed_with (some key) nonce token bytes = seal encrypt decrypt key nonce token bytes

  unfoldable pub put :
      List ℕ → Text → ℤ × ℕ × ℕ → Text → Text → List ℕ → ObjectStore → ObjectKey × ObjectStore
  unfolding key_path sealed_with write_file
  put nonce client_id date token ext bytes self =
      let rel = key_path is_alphanumeric client_id date token ext in
      (
        rel,
        record self {
          objects = write_file rel (sealed_with self.cipher nonce token bytes) self.objects;
        },
      )

  unfoldable pub opened_with : Option (List ℕ) → Text → List ℕ → Result ObjectError (List ℕ)
  unfolding open_sealed
  opened_with none token raw = ok raw
  opened_with (some key) token raw = elim (open_sealed encrypt decrypt key token raw) [
    | ok bytes ↦ ok bytes
    | err e ↦ err (crypto e)
  ]

  -- `is_under` says whether a path whose first component below the root is the one text starts
  -- with the root joined with the other.
  unfoldable pub get :
      (Text → Text → Bool) → Text → ObjectKey → Text → ObjectStore → Result ObjectError (List ℕ)
  unfolding read_file opened_with
  get is_under client_id rel token self =
      if is_under rel.client client_id
      then elim (read_file rel self.objects) [
        | none ↦ err io
        | some raw ↦ opened_with self.cipher token raw
      ]
      else err not_found
