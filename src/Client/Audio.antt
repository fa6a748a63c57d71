-- ===== src/Client/Audio.antt =====
-- crates/precall-client/src/audio.rs: the samples of the packets that `pump` reads. The
-- conversion of an f32 is a parameter.
use pre_call.Prelude.{ℕ, Bool, not, ◌&&◌, List, [], ◌∷◌, ◌++◌, ◌==◌, if◌then◌else◌}
use pre_call.Prelude.Int.{ℤ}
use pre_call.Proto.Bytes.{get_i16_le}

-- The mix format of the endpoint.
pub record Format : Type 0 where
  pub bits : ℕ
  pub is_float : Bool

-- A packet of the capture client: its flags and its bytes, none if the pointer is null.
pub record Packet : Type 0 where
  pub flags : ℕ
  pub bytes : List ℕ

-- `as_chunks::<2>`
unfoldable pub pcm_samples : List ℕ → List ℤ
pcm_samples (a ∷ b ∷ rest) = get_i16_le a b ∷ pcm_samples rest
pcm_samples rest = []

-- `(v >> 16) as i16` of an i32 is its upper half.
unfoldable pub wide_samples : List ℕ → List ℤ
wide_samples (a ∷ b ∷ c ∷ d ∷ rest) = get_i16_le c d ∷ wide_samples rest
wide_samples rest = []

module _ (of_f32 : ℕ → ℕ → ℕ → ℕ → ℤ) where
  unfoldable pub float_samples : List ℕ → List ℤ
  float_samples (a ∷ b ∷ c ∷ d ∷ rest) = of_f32 a b c d ∷ float_samples rest
  float_samples rest = []

  unfoldable pub samples : Format → List ℕ → List ℤ
  unfolding float_samples pcm_samples wide_samples
  samples f src =
      if f.is_float && f.bits == 32
      then float_samples src
      else if f.bits == 16
      then pcm_samples src
      else if f.bits == 32 && not f.is_float
      then wide_samples src
      else []

  -- The packets that wait, in order; one with a flag is dropped.
  unfoldable pub pump : Format → List Packet → List ℤ
  unfolding samples
  pump f [] = []
  pump f (p ∷ rest) = (if p.flags == 0 then samples f p.bytes else []) ++ pump f rest
