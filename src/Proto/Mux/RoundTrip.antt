-- ===== src/Proto/Mux/RoundTrip.antt =====
-- Decoding what `encode` wrote, whole or cut short, and more bytes behind a decoded buffer.
use pre_call.Prelude.{
  ℕ, ◌+◌, ◌≤◌, ◌<◌, ◌≡◌, refl, ap, List, [], ◌∷◌, ◌++◌, none, some, ok, lt→ltb, ltb-false, length,
  length-append, take-append_self, drop-append_self, arith,
}
use pre_call.Proto.Bytes.{put_u32_le, get_u32_le, get-put_u32}
use pre_call.Proto.Channel.{ChannelId, to_u8, from_u8-to_u8}
use pre_call.Proto.Mux.{
  MuxFrame, max_mux_payload, header_len, take_frame, decode_header, decode, encode,
}

-- The bytes of a frame whose payload is not too large.
abbrev pub wire : MuxFrame → List ℕ
wire f = to_u8 f.channel ∷ put_u32_le (length f.payload) ++ f.payload

abbrev pub Fits : MuxFrame → Type 0
Fits f = length f.payload ≤ max_mux_payload

pub encode-eq-wire : (f : MuxFrame) (dst : List ℕ) → Fits f → encode f dst ≡ ok (dst ++ wire f)
unfolding encode
encode-eq-wire f dst h = rw (ltb-false max_mux_payload (length f.payload) h)

length_header :
    (raw b1 b2 b3 b4 : ℕ) (body more : List ℕ)
    → header_len + length body ≤ length (raw ∷ b1 ∷ b2 ∷ b3 ∷ b4 ∷ body ++ more)
length_header raw b1 b2 b3 b4 body more = omega (arith, length-append body more)

decode_header_fits :
    (c : ChannelId) (b1 b2 b3 b4 : ℕ) (body more : List ℕ)
    → length body ≤ max_mux_payload
    → decode_header (to_u8 c) (length body) (to_u8 c ∷ b1 ∷ b2 ∷ b3 ∷ b4 ∷ body ++ more)
      ≡ (ok (some (record { channel = c; payload = body })), more)
unfolding decode_header
decode_header_fits c b1 b2 b3 b4 body more h = rw (
  ltb-false max_mux_payload (length body) h,
  ltb-false _ (header_len + length body) (length_header (to_u8 c) b1 b2 b3 b4 body more),
  from_u8-to_u8 c,
  take_frame,
  take-append_self body more,
  drop-append_self body more,
)

pub decode-wire :
    (f : MuxFrame) (more : List ℕ) → Fits f → decode (wire f ++ more) ≡ (ok (some f), more)
unfolding decode
decode-wire f more h =
    rw (get-put_u32 (length f.payload) (omega arith))
      (decode_header_fits f.channel _ _ _ _ f.payload more h)

-- Decoding a buffer that starts with an encoded frame gives that frame and leaves what follows.
pub mux_decode-encode :
    (f : MuxFrame) (more : List ℕ)
    → Fits f
    → ((buf : List ℕ) × (encode f [] ≡ ok buf) × (decode (buf ++ more) ≡ (ok (some f), more)))
mux_decode-encode f more h = (wire f, encode-eq-wire f [] h, decode-wire f more h)

decode_header_short :
    (raw len : ℕ) (src : List ℕ)
    → len ≤ max_mux_payload
    → length src < header_len + len
    → decode_header raw len src ≡ (ok none, src)
unfolding decode_header
decode_header_short raw len src h k =
    rw (ltb-false max_mux_payload len h, lt→ltb (length src) (header_len + len) k)

length-prefix :
    (front back : List ℕ) (x : ℕ) (whole : List ℕ)
    → whole ≡ front ++ (x ∷ back)
    → length front < length whole
length-prefix front back x whole e =
    omega (arith, length-append front (x ∷ back), ap (length {A = ℕ}) e)

-- Every proper prefix of an encoded frame is answered with `None`, and the bytes stay buffered.
pub decode_incomplete :
    (f : MuxFrame) (front back : List ℕ) (x : ℕ)
    → Fits f
    → encode f [] ≡ ok (front ++ (x ∷ back))
    → decode front ≡ (ok none, front)
unfolding decode
decode_incomplete f [] back x h e = refl
decode_incomplete f (a ∷ []) back x h e = refl
decode_incomplete f (a ∷ b ∷ []) back x h e = refl
decode_incomplete f (a ∷ b ∷ c ∷ []) back x h e = refl
decode_incomplete f (a ∷ b ∷ c ∷ d ∷ []) back x h e = refl
decode_incomplete f (a ∷ b ∷ c ∷ d ∷ g ∷ rest) back x h e = decode_header_short a len src fits short
  where
    src : List ℕ
    src = a ∷ b ∷ c ∷ d ∷ g ∷ rest

    len : ℕ
    len = get_u32_le b c d g

    whole : wire f ≡ src ++ (x ∷ back)
    whole = cc (encode-eq-wire f [] h)

    same : len ≡ length f.payload
    same = ground (arith, whole, get-put_u32 (length f.payload))

    fits : len ≤ max_mux_payload
    fits = omega (arith, same)

    short : length src < header_len + len
    short = omega (arith, same, length-prefix src back x (wire f) whole)
