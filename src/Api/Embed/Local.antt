-- ===== src/Api/Embed/Local.antt =====
-- crates/precall-api/src/embed.rs: the embeddings of the process itself. The arithmetic of f32 is
-- a parameter on bits.
use pre_call.Prelude.{
  split_whitespace, ℕ, zero, suc, ◌+◌, ◌%◌, ◌≡◌, refl, ap, ◌∙◌, Text, List, [], ◌∷◌, map, ◌==◌,
  length, take, drop, if◌then◌else◌,
}
use pre_call.Proto.Bytes.{get_u32_le}

abbrev pub embed_dim : ℕ
embed_dim = 384

pub record Float32 : Type 0 where
  pub add : ℕ → ℕ → ℕ
  pub sub : ℕ → ℕ → ℕ
  pub mul : ℕ → ℕ → ℕ
  pub div : ℕ → ℕ → ℕ
  pub max : ℕ → ℕ → ℕ
  pub sqrt : ℕ → ℕ
  -- `as f32`
  pub of_int : ℕ → ℕ

unfoldable pub byte_at : ℕ → List ℕ → ℕ
byte_at n [] = 0
byte_at zero (b ∷ bs) = b
byte_at (suc n) (b ∷ bs) = byte_at n bs

-- `v[idx] += x`
unfoldable pub update_at : (ℕ → ℕ) → ℕ → List ℕ → List ℕ
update_at f n [] = []
update_at f zero (x ∷ xs) = f x ∷ xs
update_at f (suc n) (x ∷ xs) = x ∷ update_at f n xs

unfoldable pub repeat : ℕ → ℕ → List ℕ
repeat zero x = []
repeat (suc n) x = x ∷ repeat n x

-- `(i..i + n).map(f)`
unfoldable pub map_range : (ℕ → ℕ) → ℕ → ℕ → List ℕ
map_range f i zero = []
map_range f i (suc n) = f i ∷ map_range f (suc i) n

module _ (f32 : Float32) where
  -- The sum from the left, behind the sum so far.
  unfoldable pub sum_squares : ℕ → List ℕ → ℕ
  sum_squares acc [] = acc
  sum_squares acc (x ∷ xs) = sum_squares (f32.add acc (f32.mul x x)) xs

  -- Each component by the norm, which is at least 1e-6.
  unfoldable pub normalised : List ℕ → List ℕ
  unfolding sum_squares
  normalised v = let n = f32.max (f32.sqrt (sum_squares 0 v)) 0x358637bd in map (λ x. f32.div x n) v

module _ (sha256 lowercase : List ℕ → List ℕ) (f32 : Float32) where
  -- One word, at its position.
  unfoldable pub add_word : ℕ → ℕ → Text → List ℕ → List ℕ
  unfolding update_at byte_at
  add_word dim pos word v =
      let h = sha256 (lowercase word) in
      let idx = get_u32_le (byte_at 0 h) (byte_at 1 h) (byte_at 2 h) (byte_at 3 h) % dim in
      let sign = (if byte_at 4 h % 2 == 1 then 0x3f800000 else 0xbf800000) in
      let weight = f32.div 0x3f800000 (f32.add 0x3f800000 (f32.mul (f32.of_int pos) 0x3d4ccccd)) in
      update_at (λ x. f32.add x (f32.mul sign weight)) idx v

  unfoldable pub add_words : ℕ → ℕ → List Text → List ℕ → List ℕ
  unfolding add_word
  add_words dim pos [] v = v
  add_words dim pos (w ∷ ws) v = add_words dim (suc pos) ws (add_word dim pos w v)

  unfoldable pub hash_embedding : Text → ℕ → List ℕ
  unfolding add_words split_whitespace normalised repeat
  hash_embedding text dim = normalised f32 (add_words dim 0 (split_whitespace text) (repeat dim 0))

-- `wrapping_add` of the bytes, as far as both lists go.
unfoldable pub add_bytes : List ℕ → List ℕ → List ℕ
add_bytes [] bs = []
add_bytes (a ∷ rest) [] = a ∷ rest
add_bytes (a ∷ rest) (b ∷ bs) = (a + b) % 256 ∷ add_bytes rest bs

module _ (sha256 : List ℕ → List ℕ) (f32 : Float32) where
  -- The loop over the chunks of 32 bytes, one round of fuel for each byte at most.
  unfoldable pub digest_chunks : ℕ → List ℕ → List ℕ → List ℕ
  unfolding add_bytes
  digest_chunks zero bytes acc = acc
  digest_chunks (suc fuel) [] acc = acc
  digest_chunks (suc fuel) (b ∷ bs) acc =
      digest_chunks fuel (drop 32 (b ∷ bs)) (add_bytes acc (sha256 (take 32 (b ∷ bs))))

  -- (acc[i % acc.len()] as f32) / 255.0 - 0.5
  unfoldable pub component : List ℕ → ℕ → ℕ
  unfolding byte_at
  component acc i =
      f32.sub (f32.div (f32.of_int (byte_at (i % length acc) acc)) 0x437f0000) 0x3f000000

  unfoldable pub hash_image : List ℕ → List ℕ
  unfolding digest_chunks normalised map_range component repeat
  hash_image jpeg =
      normalised f32
        (map_range (component (digest_chunks (length jpeg) jpeg (repeat 32 0))) 0 embed_dim)

length-map : (f : ℕ → ℕ) (xs : List ℕ) → length (map f xs) ≡ length xs
length-map f [] = refl
length-map f (x ∷ xs) = ap suc (length-map f xs)

length-update_at : (f : ℕ → ℕ) (n : ℕ) (xs : List ℕ) → length (update_at f n xs) ≡ length xs
unfolding update_at
length-update_at f n [] = refl
length-update_at f zero (x ∷ xs) = refl
length-update_at f (suc n) (x ∷ xs) = ap suc (length-update_at f n xs)

length-repeat : (n x : ℕ) → length (repeat n x) ≡ n
unfolding repeat
length-repeat zero x = refl
length-repeat (suc n) x = ap suc (length-repeat n x)

length-map_range : (f : ℕ → ℕ) (i n : ℕ) → length (map_range f i n) ≡ n
unfolding map_range
length-map_range f i zero = refl
length-map_range f i (suc n) = ap suc (length-map_range f (suc i) n)

module _ (sha256 lowercase : List ℕ → List ℕ) (f32 : Float32) where
  length-add_words :
      (dim pos : ℕ) (ws : List Text) (v : List ℕ)
      → length (add_words sha256 lowercase f32 dim pos ws v) ≡ length v
  unfolding add_words add_word
  length-add_words dim pos [] v = refl
  length-add_words dim pos (w ∷ ws) v =
      length-add_words dim (suc pos) ws (add_word sha256 lowercase f32 dim pos w v)
      ∙ length-update_at _ _ v

  length-normalised : (v : List ℕ) → length (normalised f32 v) ≡ length v
  unfolding normalised
  length-normalised v = length-map _ v

  -- The embeddings that the process makes itself are as wide as they are asked for, and the one
  -- of an image has 384 components, whatever the text, the image and the arithmetic of f32.
  pub length-hash_embedding :
      (text : Text) (dim : ℕ) (jpeg : List ℕ)
      → (length (hash_embedding sha256 lowercase f32 text dim) ≡ dim)
        × (length (hash_image sha256 f32 jpeg) ≡ embed_dim)
  unfolding hash_embedding hash_image
  length-hash_embedding text dim jpeg = (
    length-normalised (add_words sha256 lowercase f32 dim 0 (split_whitespace text) (repeat dim 0))
        ∙ (length-add_words dim 0 (split_whitespace text) (repeat dim 0) ∙ length-repeat dim 0),
    length-normalised (
          map_range
            (component sha256 f32 (digest_chunks sha256 f32 (length jpeg) jpeg (repeat 32 0))) 0
            embed_dim)
        ∙ length-map_range
            (component sha256 f32 (digest_chunks sha256 f32 (length jpeg) jpeg (repeat 32 0))) 0
            embed_dim,
  )
