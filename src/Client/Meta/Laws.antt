-- ===== src/Client/Meta/Laws.antt =====
-- What a window's process and URL decide.
use mathlib.Core.List.{reverse, reverse-append, reverse-reverse}
use pre_call.Prelude.{
  ℕ, ◌≡◌, ◌≢◌, refl, sym, ap, ◌∙◌, Text, codes, Bool, true, false, List, [], ◌∷◌, ◌++◌, none, some,
  some-inj, All, All-reverse, ◌∈◌, inl, inr, arith, append_assoc, true-false, if◌then◌else◌,
  bytes_eq_refl, strip_prefix,
}
use pre_call.Prelude.Print.{until, after_last}
use pre_call.Client.Meta.{
  WindowMeta, Desktop, Process, is_separator, foreground_meta, opened, named,
}
use pre_call.Client.Meta.Urls.{ends_host, url_host, strip_scheme}
use pre_call.Client.Privacy.{process_excluded, is_process, new, check}
use pre_call.Client.Privacy.Laws.{check_iff}

until_stop :
    (p : ℕ → Bool) (s rest : Text) (c : ℕ)
    → All (λ d. p d ≡ false) s
    → p c ≡ true
    → until p (s ++ (c ∷ rest)) ≡ s
unfolding until
until_stop p [] rest c h k = rw k refl
until_stop p (d ∷ ds) rest c h k = rw (h.0, until_stop p ds rest c h.1 k) refl

after_last_stop :
    (p : ℕ → Bool) (before s : Text) (c : ℕ)
    → All (λ d. p d ≡ false) s
    → p c ≡ true
    → after_last p (before ++ (c ∷ s)) ≡ s
unfolding after_last
after_last_stop p before s c h k =
    ap (λ t. reverse (until p t)) (reverse-append before (c ∷ s))
    ∙ ap (λ t. reverse (until p (t ++ reverse before))) (reverse-append (c ∷ []) s)
    ∙ ap (λ t. reverse (until p t)) (append_assoc (reverse s) (c ∷ []) (reverse before))
    ∙ ap reverse (until_stop p (reverse s) (reverse before) c (All-reverse _ s h) k)
    ∙ reverse-reverse s

-- The URL ends with its host, or a character that ends the host follows.
abbrev pub IsRest : Text → Type 0
IsRest [] = Unit
IsRest (c ∷ cs) = ends_host c ≡ true

until_rest :
    (host rest : Text)
    → All (λ c. ends_host c ≡ false) host
    → IsRest rest
    → until ends_host (host ++ rest) ≡ host
unfolding until
until_rest host (c ∷ cs) h k = until_stop ends_host host cs c h k
until_rest [] [] h k = refl
until_rest (c ∷ cs) [] h k = rw (h.0, until_rest cs [] h.1 k) refl

-- The host of an http or https URL is what stands between the scheme and the first slash,
-- question mark, number sign or colon, in lower case.
pub url_host-eq :
    (lowercase : Text → Text) (is_tls : Bool) (host rest : Text)
    → All (λ c. ends_host c ≡ false) host
    → IsRest rest
    → url_host lowercase ((if is_tls then codes "https://" else codes "http://") ++ (host ++ rest))
      ≡ lowercase host
unfolding url_host strip_scheme strip_prefix
url_host-eq lowercase true host rest h k = ap lowercase (until_rest host rest h k)
url_host-eq lowercase false host rest h k = ap lowercase (until_rest host rest h k)

module _ (lowercase utf16_lossy : List ℕ → Text) where
  name_of_image :
      (d : Desktop) (p : Process) (units : List ℕ)
      → d.process ≡ some p
      → p.image_name ≡ some units
      → (foreground_meta lowercase utf16_lossy d).process_name
        ≡ lowercase (after_last is_separator (utf16_lossy units))
  unfolding foreground_meta opened named
  name_of_image d p units h k = rw (h, k) refl

  excluded_name :
      (names : List Text) (domains : List Text) (exe : Text)
      → ((t : Text) → lowercase (lowercase t) ≡ lowercase t)
      → exe ∈ names
      → process_excluded lowercase (new lowercase names domains) (lowercase exe) ≡ true
  unfolding process_excluded is_process new
  excluded_name (n ∷ ns) domains exe idem (inl e) =
      rw (idem exe, e, bytes_eq_refl (lowercase n)) refl
  excluded_name (n ∷ ns) domains exe idem (inr m) =
      ground (arith, excluded_name ns domains exe idem m)
  excluded_name [] domains exe idem m = absurd m.1

  -- A window is never kept if its process runs an image whose file name is one of the excluded
  -- processes, in whatever directory it is, whether the client is paused or not and whatever the
  -- other answers of Windows are. The hypothesis on outside code: `to_lowercase` changes nothing
  -- in a text that is in lower case.
  pub check-excluded_image :
      (d : Desktop) (p : Process) (units : List ℕ) (dir exe : Text) (separator : ℕ)
      (names domains : List Text) (is_paused protected : Bool)
      → ((t : Text) → lowercase (lowercase t) ≡ lowercase t)
      → d.process ≡ some p
      → p.image_name ≡ some units
      → utf16_lossy units ≡ dir ++ (separator ∷ exe)
      → is_separator separator ≡ true
      → All (λ c. is_separator c ≡ false) exe
      → exe ∈ names
      → check lowercase is_paused
          (some (foreground_meta lowercase utf16_lossy d))
          (new lowercase names domains)
          protected
        ≢ none
  check-excluded_image d p units dir exe separator names domains is_paused protected idem h k path
        sep inside listed kept =
      let named =
        name_of_image d p units h k
        ∙ ap lowercase (
            ap (after_last is_separator) path
            ∙ after_last_stop is_separator dir exe separator inside sep) in
      let (a, m, e, b, allowed, c) =
        (check_iff lowercase is_paused (some (foreground_meta lowercase utf16_lossy d))
            (new lowercase names domains) protected).0
          kept in
      true-false (
        sym (excluded_name names domains exe idem listed)
        ∙ ap (process_excluded lowercase (new lowercase names domains))
            (sym named ∙ ap (λ (w : WindowMeta). w.process_name) (some-inj e))
        ∙ allowed)
