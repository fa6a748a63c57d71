-- ===== src/Client/Meta.antt =====
-- crates/precall-client/src/meta.rs: the foreground window. What Windows answers is a value of
-- `Desktop`; UTF-16 decoding and `to_lowercase` are parameters.
pub mod Urls
pub mod Shell
pub mod Laws
use pre_call.Prelude.{
  ℕ, suc, Text, codes, Bool, true, false, not, ◌||◌, List, [], ◌∷◌, ◌++◌, map, Option, none, some,
  ltb, ◌==◌, if◌then◌else◌,
}
use pre_call.Prelude.Int.{ℤ, pos}
use pre_call.Prelude.Print.{after_last, until, replace, decimal}
use pre_call.Proto.Metadata.{AppRecord, FileRecord, WebRecord}

pub record WindowBounds : Type 0 where
  pub left : ℤ
  pub top : ℤ
  pub right : ℤ
  pub bottom : ℤ

pub record WindowMeta : Type 0 where
  pub hwnd : ℤ
  pub title : Text
  pub bounds : WindowBounds
  pub is_foreground : Bool
  pub process_name : Text
  pub process_path : Text
  pub pid : ℕ
  pub aumid : Option Text
  pub urls : List WebRecord
  pub files : List FileRecord

-- `WindowMeta::default`
abbrev pub blank : WindowMeta
blank = record {
  hwnd = pos 0;
  title = [];
  bounds = record { left = pos 0; top = pos 0; right = pos 0; bottom = pos 0 };
  is_foreground = false;
  process_name = [];
  process_path = [];
  pid = 0;
  aumid = none;
  urls = [];
  files = [];
}

-- `Name` column
unfoldable pub capture_name : WindowMeta → Text
unfolding decimal
capture_name m = m.process_name ++ (codes " (" ++ (decimal m.pid ++ codes ")"))

shell_uri : Text → Text
shell_uri a = codes "shell:AppsFolder\\" ++ a

map_option : (Text → Text) → Option Text → Option Text
map_option f none = none
map_option f (some t) = some (f t)

unfoldable pub activation_uri : WindowMeta → Option Text
unfolding shell_uri map_option
activation_uri m = map_option shell_uri m.aumid

path_uri : Text → Option Text
unfolding replace
path_uri [] = none
path_uri (c ∷ cs) = some (codes "file:///" ++ replace b'\\' b'/' (c ∷ cs))

unfoldable pub fallback_uri : WindowMeta → Option Text
unfolding path_uri
fallback_uri m = path_uri m.process_path

nonempty : Text → Option Text
nonempty [] = none
nonempty (c ∷ cs) = some (c ∷ cs)

app_of : Option Text → Text → Text → Option AppRecord
unfolding nonempty
app_of aumid path [] = none
app_of aumid path (c ∷ cs) = some (record {
  windows_app_id = aumid;
  icon_uri = none;
  name = c ∷ cs;
  path = nonempty path;
  properties = none;
})

unfoldable pub app_record : WindowMeta → Option AppRecord
unfolding app_of
app_record m = app_of m.aumid m.process_path m.process_name

-- What Windows answers about a process that `OpenProcess` opens: the name of its image, the
-- length that the first call of `GetApplicationUserModelId` gives, and the buffer that the second
-- fills, unless it fails.
pub record Process : Type 0 where
  pub image_name : Option (List ℕ)
  pub aumid_len : ℕ
  pub aumid_units : Option (List ℕ)

-- An edit control: its name, and its value if it has the value pattern and shows it.
pub record Edit : Type 0 where
  pub name : Option Text
  pub value : Option Text

-- The desktop as the calls of a capture tick see it. `window_aumid` is what the property store
-- gives, `affinity` the display affinity; `edits` and `shell_windows` are `none` if the calls
-- before the loop fail, and an entry is `none` if the loop skips it.
pub record Desktop : Type 0 where
  pub hwnd : ℤ
  pub title_units : List ℕ
  pub rect : Option WindowBounds
  pub pid : ℕ
  pub process : Option Process
  pub window_aumid : Option Text
  pub affinity : Option ℕ
  pub edits : Option (List (Option Edit))
  pub shell_windows : Option (List (Option Text))

rect_or_zero : Option WindowBounds → WindowBounds
rect_or_zero none = blank.bounds
rect_or_zero (some r) = r

unfoldable pub is_separator : ℕ → Bool
is_separator c = c == b'\\' || c == b'/'

or_else : Option Text → Option Text → Option Text
or_else none other = other
or_else (some t) other = some t

filled : Option Text → Option Text
unfolding nonempty
filled none = none
filled (some t) = nonempty t

unfoldable pub aumid_for_window : Desktop → Option Text
unfolding filled
aumid_for_window d = filled d.window_aumid

unfoldable pub is_protected_window : Desktop → Bool
is_protected_window d = elim d.affinity [ none ↦ false | some affinity ↦ not (affinity == 0) ]

module _ (lowercase utf16_lossy : List ℕ → Text) where
  -- The units before the first zero.
  decode_units : List ℕ → Option Text
  decode_units [] = none
  decode_units (u ∷ us) = some (utf16_lossy (u ∷ us))

  filled_units : Option (List ℕ) → Option Text
  unfolding decode_units until
  filled_units none = none
  filled_units (some units) = decode_units (until (λ u. u == 0) units)

  unfoldable pub aumid_for : Process → Option Text
  unfolding filled_units
  aumid_for p =
      if p.aumid_len == 0 || ltb 4096 p.aumid_len then none else filled_units p.aumid_units

  -- `process_path` and `process_name`.
  named : Option (List ℕ) → WindowMeta → WindowMeta
  unfolding after_last is_separator
  named none m = m
  named (some units) m =
      let path = utf16_lossy units in
      record m { process_path = path; process_name = lowercase (after_last is_separator path) }

  opened : Option Process → WindowMeta → WindowMeta
  unfolding named aumid_for
  opened none m = m
  opened (some p) m = record (named p.image_name m) { aumid = aumid_for p }

  unfoldable pub foreground_meta : Desktop → WindowMeta
  unfolding opened rect_or_zero aumid_for_window or_else
  foreground_meta d =
      let m = opened d.process (record blank {
        hwnd = d.hwnd;
        is_foreground = true;
        title = utf16_lossy d.title_units;
        bounds = rect_or_zero d.rect;
        pid = d.pid;
      }) in
      record m { aumid = or_else m.aumid (aumid_for_window d) }
