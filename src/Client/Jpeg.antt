-- ===== src/Client/Jpeg.antt =====
-- crates/precall-client/src/jpeg.rs: the pixels that the JPEG encoder gets. The encoder of the
-- `image` crate is a parameter; it returns nothing if it fails.
use pre_call.Prelude.{ℕ, List, [], ◌∷◌, Option}

-- `as_chunks::<4>().0`: bytes that do not fill a pixel are left out.
unfoldable pub rgb_of : List ℕ → List ℕ
rgb_of (b ∷ g ∷ r ∷ a ∷ rest) = r ∷ g ∷ b ∷ rgb_of rest
rgb_of rest = []

unfoldable pub encode_jpeg :
    (List ℕ → ℕ → ℕ → ℕ → Option (List ℕ)) → List ℕ → ℕ → ℕ → ℕ → Option (List ℕ)
unfolding rgb_of
encode_jpeg write_image bgra width height quality = write_image (rgb_of bgra) width height quality
