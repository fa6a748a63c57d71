-- ===== src/Store/Ukg/Ingest/Keys.antt =====
-- The keys of the captures: AUTOINCREMENT never gives a key twice, and the token is a key too.
use pre_call.Prelude.{
  ℕ, ◌+◌, ◌<◌, ◌≡◌, ◌≢◌, refl, sym, Text, true, false, List, [], ◌∷◌, ◌++◌, Option, none, some,
  arith,
}
use pre_call.Proto.Metadata.{ScreenRegionRecord, WindowCaptureRecord}
use pre_call.Store.Ukg.Tables.{CaptureRow, RegionRow, Ukg, text_is}
use pre_call.Store.Ukg.Ingest.{
  find_token, capture_row, insert_regions, push_region, index_text, insert_new, insert_on,
  insert_capture,
}
use pre_call.Prelude.{All, All-snoc, subst, true-false, bytes_eq, bytes_eq_refl, ◌∙◌}

-- Each key is below the counter.
abbrev pub IsBelow : ℕ → List CaptureRow → Type 0
IsBelow n [] = Unit
IsBelow n (w ∷ rest) = (w.id < n) × IsBelow n rest

-- No two rows have one key or one token.
abbrev pub IsKeyed : List CaptureRow → Type 0
IsKeyed [] = Unit
IsKeyed (w ∷ rest) = All (λ v. (v.id ≢ w.id) × (v.image_token ≢ w.image_token)) rest × IsKeyed rest

-- Each region belongs to a capture whose key was given.
abbrev pub AreRegionsBelow : ℕ → List RegionRow → Type 0
AreRegionsBelow n [] = Unit
AreRegionsBelow n (r ∷ rest) = (r.capture_id < n) × AreRegionsBelow n rest

abbrev pub IsWellKeyed : Ukg → Type 0
IsWellKeyed db =
    IsBelow db.next_capture db.captures
    × IsKeyed db.captures
    × AreRegionsBelow db.next_capture db.regions

IsBelow-next : (n : ℕ) (rows : List CaptureRow) → IsBelow n rows → IsBelow (n + 1) rows
IsBelow-next n [] h = tt
IsBelow-next n (w ∷ rest) h = (omega (arith, h.0), IsBelow-next n rest h.1)

IsBelow-append :
    (n : ℕ) (rows : List CaptureRow) (r : CaptureRow)
    → IsBelow n rows
    → r.id < n
    → IsBelow n (rows ++ (r ∷ []))
IsBelow-append n [] r h k = (k, tt)
IsBelow-append n (w ∷ rest) r h k = (h.0, IsBelow-append n rest r h.1 k)

AreRegionsBelow-next :
    (n : ℕ) (rows : List RegionRow) → AreRegionsBelow n rows → AreRegionsBelow (n + 1) rows
AreRegionsBelow-next n [] h = tt
AreRegionsBelow-next n (w ∷ rest) h = (omega (arith, h.0), AreRegionsBelow-next n rest h.1)

AreRegionsBelow-append :
    (n : ℕ) (rows : List RegionRow) (r : RegionRow)
    → AreRegionsBelow n rows
    → r.capture_id < n
    → AreRegionsBelow n (rows ++ (r ∷ []))
AreRegionsBelow-append n [] r h k = (k, tt)
AreRegionsBelow-append n (w ∷ rest) r h k = (h.0, AreRegionsBelow-append n rest r h.1 k)

not-text_is : (o : Option Text) (t : Text) → text_is o t ≡ false → some t ≢ o
unfolding text_is
not-text_is none t h e = cc
not-text_is (some s) t h e =
    let same : s ≡ t = cc in
    absurd (true-false (sym (subst (λ u. bytes_eq u t ≡ true) (sym same) (bytes_eq_refl t)) ∙ h))

-- A new key and a token that is not found differ from those of each row.
new_key :
    (n : ℕ) (rec : WindowCaptureRecord) (rows : List CaptureRow)
    → IsBelow n rows
    → find_token rec.image_token rows ≡ none
    → All
        (λ w. ((capture_row n rec).id ≢ w.id) × ((capture_row n rec).image_token ≢ w.image_token))
        rows
unfolding find_token text_is capture_row
new_key n rec [] h e = tt
new_key n rec (w ∷ rest) h e = (
  (λ k. omega (arith, h.0, k), λ k. not-text_is w.image_token rec.image_token (ground arith) k),
  new_key n rec rest h.1 (ground arith),
)

IsKeyed-append :
    (rows : List CaptureRow) (r : CaptureRow)
    → IsKeyed rows
    → All (λ w. (r.id ≢ w.id) × (r.image_token ≢ w.image_token)) rows
    → IsKeyed (rows ++ (r ∷ []))
IsKeyed-append [] r h k = (tt, tt)
IsKeyed-append (w ∷ rest) r h k =
    (All-snoc _ rest r h.0 (k.0.0, k.0.1), IsKeyed-append rest r h.1 k.1)

insert_regions-keys :
    (wc : ℕ) (rs : List ScreenRegionRecord) (db : Ukg)
    → wc < db.next_capture
    → IsWellKeyed db
    → IsWellKeyed (insert_regions wc rs db)
unfolding insert_regions push_region
insert_regions-keys wc [] db h k = k
insert_regions-keys wc (r ∷ rs) db h (b, k, g) =
    insert_regions-keys wc rs (push_region wc r db) h
      (b, k, AreRegionsBelow-append db.next_capture db.regions _ g h)

insert_on-keys :
    (found : Option ℕ) (rec : WindowCaptureRecord) (db : Ukg)
    → find_token rec.image_token db.captures ≡ found
    → IsWellKeyed db
    → IsWellKeyed (insert_on found rec db).1
unfolding insert_on insert_new index_text
insert_on-keys (some id) rec db e h = h
insert_on-keys none rec db e (b, k, g) =
    insert_regions-keys db.next_capture rec.regions _ (omega arith) (
      IsBelow-append (db.next_capture + 1) db.captures (capture_row db.next_capture rec)
          (IsBelow-next db.next_capture db.captures b) (unfold capture_row in omega arith),
      IsKeyed-append db.captures (capture_row db.next_capture rec) k
          (new_key db.next_capture rec db.captures b e),
      AreRegionsBelow-next db.next_capture db.regions g,
    )

-- `insert_capture` keeps the keys in order: no two captures have one id or one token, each id is
-- below the counter, and each region belongs to a capture id that was given.
pub insert_capture-IsWellKeyed :
    (rec : WindowCaptureRecord) (db : Ukg) → IsWellKeyed db → IsWellKeyed (insert_capture rec db).1
unfolding insert_capture
insert_capture-IsWellKeyed rec db h =
    insert_on-keys (find_token rec.image_token db.captures) rec db refl h
