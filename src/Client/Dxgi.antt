-- ===== src/Client/Dxgi.antt =====
-- crates/precall-client/src/dxgi.rs: the copy of a mapped texture, and the capture thread over
-- the answers of Desktop Duplication, which are a parameter.
pub mod Laws
use pre_call.Prelude.{
  ℕ, zero, suc, ◌*◌, ◌%◌, ◌^◌, Bool, true, false, List, [], ◌∷◌, ◌++◌, Option, none, some, Result,
  ok, err, take, drop,
}
use pre_call.Client.Run.{CaptureFrame}

-- The loop over the rows: `row_bytes` from the start of each row of `pitch` bytes.
unfoldable pub copy_rows : ℕ → ℕ → ℕ → List ℕ → List ℕ
copy_rows row_bytes pitch zero src = []
copy_rows row_bytes pitch (suc height) src =
    take row_bytes src ++ copy_rows row_bytes pitch height (drop pitch src)

-- A frame that was acquired and mapped: the pitch of its rows, its bytes, and the size of the
-- metadata.
pub record Mapped : Type 0 where
  pub pitch : ℕ
  pub bytes : List ℕ
  pub total_metadata : ℕ

unfoldable pub frame_of : ℕ → ℕ → Mapped → CaptureFrame
unfolding copy_rows
frame_of width height m = record {
  bgra = copy_rows (width * 4 % 2 ^ 32) m.pitch height m.bytes;
  width = width;
  height = height;
  dirty_regions = m.total_metadata;
}

-- What `next_frame` answers in one round, and, where it fails, whether `Duplicator::new` gives a
-- duplicator again, with its width and height; the receiver may be gone when a frame is sent.
pub data Round : Type 0 where
  timed_out : Round
  acquired : Mapped → Bool → Round
  lost : Option (ℕ × ℕ) → Round

-- What the thread has sent, the error last.
pub data Sent : Type 0 where
  captured : CaptureFrame → Sent
  broken : Sent

unfoldable pub capture_loop : List Round → ℕ → ℕ → List Sent
unfolding frame_of
capture_loop [] width height = []
capture_loop (timed_out ∷ rest) width height = capture_loop rest width height
capture_loop (acquired m gone ∷ rest) width height = elim gone [
  | true ↦ []
  | false ↦ captured (frame_of width height m) ∷ capture_loop rest width height
]
capture_loop (lost none ∷ rest) width height = broken ∷ []
capture_loop (lost (some (width', height')) ∷ rest) width height = capture_loop rest width' height'

unfoldable pub spawn_capture : Option (ℕ × ℕ) → List Round → List Sent
unfolding capture_loop
spawn_capture none rounds = broken ∷ []
spawn_capture (some (width, height)) rounds = capture_loop rounds width height
