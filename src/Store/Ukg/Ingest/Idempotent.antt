-- ===== src/Store/Ukg/Ingest/Idempotent.antt =====
-- Inserting a capture, and inserting it again.
use pre_call.Prelude.{
  none-some, ℕ, ◌≡◌, refl, Text, List, [], ◌∷◌, ◌++◌, none, some, Option-cases, inl, inr,
  bytes_eq_refl, arith,
}
use pre_call.Proto.Metadata.{ScreenRegionRecord, WindowCaptureRecord}
use pre_call.Store.Ukg.Tables.{CaptureRow, Ukg, text_is}
use pre_call.Store.Ukg.Ingest.{
  find_token, capture_row, insert_regions, push_region, index_text, insert_new, insert_on,
  insert_capture,
}

captures-insert_regions :
    (wc : ℕ) (rs : List ScreenRegionRecord) (db : Ukg)
    → (insert_regions wc rs db).captures ≡ db.captures
unfolding insert_regions push_region
captures-insert_regions wc [] db = refl
captures-insert_regions wc (r ∷ rs) db = captures-insert_regions wc rs (push_region wc r db)

-- A new capture becomes the last row, and no other row changes.
pub captures-insert_new :
    (rec : WindowCaptureRecord) (db : Ukg)
    → (insert_new rec db).captures ≡ db.captures ++ (capture_row db.next_capture rec ∷ [])
unfolding insert_new index_text
captures-insert_new rec db = captures-insert_regions _ rec.regions _

find_token-append :
    (t : Text) (rs : List CaptureRow) (r : CaptureRow)
    → find_token t rs ≡ none
    → r.image_token ≡ some t
    → find_token t (rs ++ (r ∷ [])) ≡ some r.id
unfolding find_token text_is
find_token-append t [] r e k = rw (k, bytes_eq_refl t)
find_token-append t (x ∷ xs) r e k = ground (arith, find_token-append t xs r)

-- After `insert_capture` the capture's token is found, under the id that was returned.
pub find_token-insert_capture :
    (rec : WindowCaptureRecord) (db : Ukg)
    → find_token rec.image_token (insert_capture rec db).1.captures ≡ some (insert_capture rec db).0
unfolding insert_capture insert_on
find_token-insert_capture rec db = elim (Option-cases (find_token rec.image_token db.captures)) [
  | inl e ↦
      rw (e, captures-insert_new rec db)
        (find_token-append rec.image_token db.captures (capture_row db.next_capture rec) e
          (unfold capture_row in refl))
  | inr (id, e) ↦ rw e e
]

insert_capture_found :
    (rec : WindowCaptureRecord) (db : Ukg) (id : ℕ)
    → find_token rec.image_token db.captures ≡ some id
    → insert_capture rec db ≡ (id, db)
unfolding insert_capture insert_on
insert_capture_found rec db id e = rw e

-- Inserting the same capture again returns the same id and changes nothing.
pub insert_capture_idem :
    (rec : WindowCaptureRecord) (db : Ukg)
    → insert_capture rec (insert_capture rec db).1 ≡ insert_capture rec db
insert_capture_idem rec db = insert_capture_found rec _ _ (find_token-insert_capture rec db)

find_token-append_found :
    (t : Text) (rs : List CaptureRow) (r : CaptureRow) (id : ℕ)
    → find_token t rs ≡ some id
    → find_token t (rs ++ (r ∷ [])) ≡ some id
unfolding find_token
find_token-append_found t [] r id e = absurd (none-some e)
find_token-append_found t (x ∷ xs) r id e = ground (arith, find_token-append_found t xs r id)

-- A token that is found stays found, under its id.
pub find_token-stable :
    (t : Text) (rec : WindowCaptureRecord) (db : Ukg) (id : ℕ)
    → find_token t db.captures ≡ some id
    → find_token t (insert_capture rec db).1.captures ≡ some id
unfolding insert_capture insert_on
find_token-stable t rec db id h = elim (Option-cases (find_token rec.image_token db.captures)) [
  | inl e ↦ rw (e, captures-insert_new rec db) (find_token-append_found t db.captures _ id h)
  | inr (j, e) ↦ rw e h
]
