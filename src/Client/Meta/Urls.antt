-- ===== src/Client/Meta/Urls.antt =====
-- crates/precall-client/src/meta.rs: `browser_url` and `url_host`.
use pre_call.Prelude.{
  ℕ, Text, codes, Bool, ◌||◌, List, [], ◌∷◌, Option, none, some, strip_prefix, ◌==◌, if◌then◌else◌,
}
use pre_call.Prelude.Print.{starts_with, contains, until}
use pre_call.Proto.Metadata.{WebRecord}
use pre_call.Client.Meta.{Edit, Desktop}

text_or : Text → Option Text → Text
text_or t none = t
text_or t (some s) = s

unfoldable pub strip_scheme : Text → Text
unfolding strip_prefix text_or
strip_scheme url = elim (strip_prefix (codes "http://") url) [
  | some rest ↦ rest
  | none ↦ text_or url (strip_prefix (codes "https://") url)
]

unfoldable pub ends_host : ℕ → Bool
ends_host c = c == b'/' || (c == b'?' || (c == b'#' || c == b':'))

-- The names that an address bar has.
unfoldable pub is_address_bar : Text → Bool
unfolding contains
is_address_bar lname =
    contains lname (codes "address")
    || (contains lname (codes "url") || contains lname (codes "search"))

unfoldable pub looks_like_url : Text → Bool
unfolding starts_with contains
looks_like_url url =
    starts_with url (codes "http://")
    || (starts_with url (codes "https://") || contains url (codes "."))

web_of : Text → Text → Option WebRecord
web_of uri [] = none
web_of uri (c ∷ cs) =
    some (record { domain = c ∷ cs; uri = uri; icon_uri = none; properties = none })

found : Option WebRecord → List WebRecord → List WebRecord
found none rest = rest
found (some w) rest = w ∷ []

module _ (lowercase : Text → Text) where
  unfoldable pub url_host : Text → Text
  unfolding strip_scheme until ends_host
  url_host url = lowercase (until ends_host (strip_scheme url))

  value_record : Option Text → Option WebRecord
  unfolding url_host web_of looks_like_url
  value_record none = none
  value_record (some url) = if looks_like_url url then web_of url (url_host url) else none

  -- The body of the loop.
  unfoldable pub edit_record : Edit → Option WebRecord
  unfolding value_record is_address_bar text_or
  edit_record e =
      if is_address_bar (lowercase (text_or [] e.name)) then value_record e.value else none

  unfoldable pub first_hit : List (Option Edit) → List WebRecord
  unfolding edit_record found
  first_hit [] = []
  first_hit (none ∷ rest) = first_hit rest
  first_hit (some e ∷ rest) = found (edit_record e) (first_hit rest)

  from_edits : Option (List (Option Edit)) → List WebRecord
  unfolding first_hit
  from_edits none = []
  from_edits (some edits) = first_hit edits

  unfoldable pub browser_url : Desktop → List WebRecord
  unfolding from_edits
  browser_url d = from_edits d.edits
