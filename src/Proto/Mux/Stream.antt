-- ===== src/Proto/Mux/Stream.antt =====
-- Decoding as bytes arrive: more bytes do not change an answer, and a whole stream is taken
-- apart.
use pre_call.Prelude.{
  ℕ, zero, suc, ◌≤◌, ◌<◌, ◌≡◌, ◌≢◌, refl, ap, ◌∙◌, inl, inr, List, [], ◌∷◌, ◌++◌, Option, none,
  some, Option-cases, Result, ok, err, ◌>>=◌, append-nil, length, length-append, length-take,
  take-append_le, drop-append_le, take-append-drop, arith, append_assoc, All,
}
use pre_call.Proto.Error.{ProtoError}
use pre_call.Proto.Bytes.{put_u32_le, get_u32_le, IsByte}
use pre_call.Proto.Channel.{ChannelId, from_u8, from_u8_iff}
use pre_call.Proto.Mux.{MuxFrame, Decoded, take_frame, decode_header, decode, encode}
use pre_call.Proto.Mux.RoundTrip.{wire, Fits, encode-eq-wire, decode-wire}

abbrev Settled : Decoded → Type 0
Settled d = d.0 ≢ ok none

-- The same answer, with `more` behind the bytes that are left.
abbrev pub with_more : Decoded → List ℕ → Decoded
with_more d more = (d.0, d.1 ++ more)

take_frame-append :
    (raw b1 b2 b3 b4 len : ℕ) (rest more : List ℕ) (o : Option ChannelId)
    → len ≤ length rest
    → take_frame raw len (raw ∷ b1 ∷ b2 ∷ b3 ∷ b4 ∷ rest ++ more) o
      ≡ with_more (take_frame raw len (raw ∷ b1 ∷ b2 ∷ b3 ∷ b4 ∷ rest) o) more
unfolding take_frame
take_frame-append raw b1 b2 b3 b4 len rest more none h = refl
take_frame-append raw b1 b2 b3 b4 len rest more (some c) h =
    rw (take-append_le len rest more h, drop-append_le len rest more h)

decode_header-append :
    (raw b1 b2 b3 b4 len : ℕ) (rest more : List ℕ)
    → Settled (decode_header raw len (raw ∷ b1 ∷ b2 ∷ b3 ∷ b4 ∷ rest))
    → decode_header raw len (raw ∷ b1 ∷ b2 ∷ b3 ∷ b4 ∷ rest ++ more)
      ≡ with_more (decode_header raw len (raw ∷ b1 ∷ b2 ∷ b3 ∷ b4 ∷ rest)) more
unfolding decode_header
decode_header-append raw b1 b2 b3 b4 len rest more s =
    ground (
      arith,
      length-append rest more,
      take_frame-append raw b1 b2 b3 b4 len rest more (from_u8 raw),
    )

-- Once `decode` has answered with a frame or an error, bytes that arrive later do not change the
-- answer; they join the bytes that are left.
pub decode-append :
    (src more : List ℕ)
    → (decode src).0 ≢ ok none
    → decode (src ++ more) ≡ with_more (decode src) more
unfolding decode
decode-append (a ∷ b ∷ c ∷ d ∷ g ∷ rest) more s =
    decode_header-append a b c d g (get_u32_le b c d g) rest more s
decode-append [] more s = absurd (s refl)
decode-append (a ∷ []) more s = absurd (s refl)
decode-append (a ∷ b ∷ []) more s = absurd (s refl)
decode-append (a ∷ b ∷ c ∷ []) more s = absurd (s refl)
decode-append (a ∷ b ∷ c ∷ d ∷ []) more s = absurd (s refl)

put-get_u32 :
    (a b c d : ℕ)
    → IsByte a
    → IsByte b
    → IsByte c
    → IsByte d
    → put_u32_le (get_u32_le a b c d) ≡ a ∷ b ∷ c ∷ d ∷ []
put-get_u32 a b c d ha hb hc hd = ground arith

take_frame→wire :
    (raw b1 b2 b3 b4 : ℕ) (rest left : List ℕ) (f : MuxFrame) (c : ChannelId)
    → IsByte b1 × IsByte b2 × IsByte b3 × IsByte b4
    → from_u8 raw ≡ some c
    → get_u32_le b1 b2 b3 b4 ≤ length rest
    → take_frame raw (get_u32_le b1 b2 b3 b4) (raw ∷ b1 ∷ b2 ∷ b3 ∷ b4 ∷ rest) (some c)
      ≡ (ok (some f), left)
    → raw ∷ b1 ∷ b2 ∷ b3 ∷ b4 ∷ rest ≡ wire f ++ left
unfolding take_frame
take_frame→wire raw b1 b2 b3 b4 rest left f c (h1, h2, h3, h4) ec fits e =
    let len : ℕ = get_u32_le b1 b2 b3 b4 in
    ground (
      arith,
      (from_u8_iff raw c).0 ec,
      put-get_u32 b1 b2 b3 b4,
      length-take len rest,
      take-append-drop len rest,
    )

decode_header→wire :
    (raw b1 b2 b3 b4 : ℕ) (rest left : List ℕ) (f : MuxFrame)
    → IsByte b1 × IsByte b2 × IsByte b3 × IsByte b4
    → decode_header raw (get_u32_le b1 b2 b3 b4) (raw ∷ b1 ∷ b2 ∷ b3 ∷ b4 ∷ rest)
      ≡ (ok (some f), left)
    → raw ∷ b1 ∷ b2 ∷ b3 ∷ b4 ∷ rest ≡ wire f ++ left
unfolding decode_header take_frame
decode_header→wire raw b1 b2 b3 b4 rest left f h e = elim (Option-cases (from_u8 raw)) [
  | inl no_channel ↦ ground (arith, no_channel)
  | inr (c, ec) ↦ ground (arith, ec, take_frame→wire raw b1 b2 b3 b4 rest left f c h ec)
]

-- A frame is decoded only from the very bytes that `encode` writes for it, and what is left are
-- the bytes behind them.
pub encode-decode :
    (src left : List ℕ) (f : MuxFrame)
    → All IsByte src
    → decode src ≡ (ok (some f), left)
    → src ≡ wire f ++ left
unfolding decode
encode-decode (a ∷ b ∷ c ∷ d ∷ g ∷ rest) left f h e =
    decode_header→wire a b c d g rest left f (h.1.0, h.1.1.0, h.1.1.1.0, h.1.1.1.1.0) e
encode-decode [] left f h e = cc
encode-decode (a ∷ []) left f h e = cc
encode-decode (a ∷ b ∷ []) left f h e = cc
encode-decode (a ∷ b ∷ c ∷ []) left f h e = cc
encode-decode (a ∷ b ∷ c ∷ d ∷ []) left f h e = cc

-- What calling `decode` again and again takes out of a buffer: the frames up to the first answer
-- that is no frame, and that answer.
drain_on : Decoded → (List ℕ → List MuxFrame × Decoded) → List MuxFrame × Decoded
drain_on (ok (some f), left) next = let later = next left in (f ∷ later.0, later.1)
drain_on (ok none, left) next = ([], (ok none, left))
drain_on (err e, left) next = ([], (err e, left))

pub drain : ℕ → List ℕ → List MuxFrame × Decoded
unfolding drain_on
drain zero src = ([], (ok none, src))
drain (suc fuel) src = drain_on (decode src) (drain fuel)

-- What `encode` writes for the frames, one after the other.
unfoldable pub encode_all : List MuxFrame → List ℕ → Result ProtoError (List ℕ)
encode_all [] dst = ok dst
encode_all (f ∷ fs) dst = do dst' ← encode f dst; encode_all fs dst'

abbrev pub wires : List MuxFrame → List ℕ
wires [] = []
wires (f ∷ fs) = wire f ++ wires fs

encode_all-eq-wires :
    (fs : List MuxFrame) (dst : List ℕ) → All Fits fs → encode_all fs dst ≡ ok (dst ++ wires fs)
unfolding encode_all
encode_all-eq-wires [] dst h = rw append-nil
encode_all-eq-wires (f ∷ fs) dst (hf, hfs) =
    rw (encode-eq-wire f dst hf)
      (encode_all-eq-wires fs (dst ++ wire f) hfs ∙ ap ok (append_assoc dst (wire f) (wires fs)))

pub drain-wires :
    (fs : List MuxFrame) (tail : List ℕ) (fuel : ℕ)
    → All Fits fs
    → decode tail ≡ (ok none, tail)
    → length fs < fuel
    → drain fuel (wires fs ++ tail) ≡ (fs, (ok none, tail))
unfolding drain
drain-wires fs tail zero h e k = absurd (omega arith)
drain-wires [] tail (suc fuel) h e k = rw e
drain-wires (f ∷ fs) tail (suc fuel) (hf, hfs) e k = rw (
  append_assoc (wire f) (wires fs) tail,
  decode-wire f (wires fs ++ tail) hf,
  drain-wires fs tail fuel hfs e (omega arith),
)

-- A stream of encoded frames, with an unfinished frame behind them, is taken apart into those
-- frames in order; what stays buffered is the unfinished frame. Each frame costs one call.
pub drain-encode_all :
    (fs : List MuxFrame) (tail : List ℕ) (fuel : ℕ)
    → All Fits fs
    → decode tail ≡ (ok none, tail)
    → length fs < fuel
    → (buf : List ℕ) × (encode_all fs [] ≡ ok buf)
      × (drain fuel (buf ++ tail) ≡ (fs, (ok none, tail)))
drain-encode_all fs tail fuel h e k =
    (wires fs, encode_all-eq-wires fs [] h, drain-wires fs tail fuel h e k)
