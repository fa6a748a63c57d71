-- ===== src/Client/Dxgi/Laws.antt =====
-- What a copied frame holds.
use pre_call.Prelude.{
  ℕ, ◌+◌, ◌≡◌, refl, ap, ◌∙◌, List, [], ◌∷◌, ◌++◌, All, length, take, drop, subst, append_assoc,
  arith, take-append_self, drop-append_self, length-append,
}
use pre_call.Client.Dxgi.{copy_rows}

-- A mapped row: its pixels and what pads it.
abbrev pub Row : Type 0
Row = List ℕ × List ℕ

abbrev padded : List Row → List ℕ
padded [] = []
padded ((pixels, padding) ∷ rows) = (pixels ++ padding) ++ padded rows

abbrev tight : List Row → List ℕ
tight [] = []
tight ((pixels, padding) ∷ rows) = pixels ++ tight rows

-- The copy of a mapped texture holds the pixels of all rows without their padding.
pub copy_rows-padded :
    (row_bytes extra : ℕ) (rows : List Row)
    → All (λ (r : Row). (length r.0 ≡ row_bytes) × (length r.1 ≡ extra)) rows
    → copy_rows row_bytes (row_bytes + extra) (length rows) (padded rows) ≡ tight rows
unfolding copy_rows
copy_rows-padded row_bytes extra [] h = refl
copy_rows-padded row_bytes extra ((pixels, padding) ∷ rows) ((lp, le), h) =
    let t =
      ap (take row_bytes) (append_assoc pixels padding (padded rows))
      ∙ subst (λ n. take n (pixels ++ (padding ++ padded rows)) ≡ pixels) lp
          (take-append_self pixels (padding ++ padded rows)) in
    let d =
      subst (λ n. drop n ((pixels ++ padding) ++ padded rows) ≡ padded rows)
        (omega (arith, length-append pixels padding, lp, le))
        (drop-append_self (pixels ++ padding) (padded rows)) in
    ap
      (λ x.
        x
        ++ copy_rows row_bytes (row_bytes + extra) (length rows)
            (drop (row_bytes + extra) ((pixels ++ padding) ++ padded rows)))
      t
    ∙ ap (λ x. pixels ++ copy_rows row_bytes (row_bytes + extra) (length rows) x) d
    ∙ ap (λ x. pixels ++ x) (copy_rows-padded row_bytes extra rows h)
