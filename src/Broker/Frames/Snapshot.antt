-- ===== src/Broker/Frames/Snapshot.antt =====
-- Frames that are sent as START, regions, END in the wire format of gfx.rs.
use pre_call.Prelude.{
  ◌-◌, min, drop, length, leb, Bool-cases, inl, inr, ℕ, ◌≡◌, refl, ◌∙◌, ap, List, [], ◌∷◌, ◌++◌,
  map, none, some, ok, ==_iff, arith, All, append_assoc, append-nil,
}
use pre_call.Proto.Bytes.{put_u32_le, put_i16_le}
use pre_call.Proto.Gfx.{codecid_uncompressed, GfxPdu, start_frame, end_frame, wire_to_surface_1}
use pre_call.Proto.Gfx.RoundTrip.{PduFits}
use pre_call.Proto.Gfx.Iter.{for_each-encode_pdus, encode_pdus, steps, length-encode_pdus}
use pre_call.Broker.Frames.{
  drain_regions, pop_front, PendingFrame, Region, assemble, GfxState, push_pending, apply_pdu,
  handle_gfx,
}

-- The PDU that draws a region on a surface.
abbrev pub draw : ℕ → ℕ → Region → GfxPdu
draw surface_id pixel_format r = wire_to_surface_1 surface_id r.codec pixel_format r.rect r.bits

-- The PDUs of one frame.
abbrev pub frame_pdus : ℕ → ℕ → ℕ → ℕ → List Region → List GfxPdu
frame_pdus frame_id timestamp surface_id pixel_format rs =
    start_frame frame_id timestamp ∷ map (draw surface_id pixel_format) rs
    ++ (end_frame frame_id ∷ [])

-- One region of a blob: the edges as i16, the length as u32, the bits.
abbrev pub blob_of : List Region → List ℕ
blob_of [] = []
blob_of (r ∷ rs) =
    (put_i16_le r.rect.left
      ++ (put_i16_le r.rect.top
          ++ (put_i16_le r.rect.right
              ++ (put_i16_le r.rect.bottom ++ (put_u32_le (length r.bits) ++ r.bits)))))
    ++ blob_of rs

-- The codec of the last region, or uncompressed.
abbrev pub last_codec : ℕ → List Region → ℕ
last_codec codec [] = codec
last_codec codec (r ∷ rs) = last_codec r.codec rs

abbrev pub whole_frame : List Region → PendingFrame
whole_frame [] = record { codec_id = 0; payload = [] }
whole_frame (r ∷ []) = record { codec_id = r.codec; payload = r.bits }
whole_frame (r ∷ q ∷ rs) = record {
  codec_id = last_codec q.codec rs;
  payload = blob_of (r ∷ q ∷ rs);
}

drain_regions-blob_of :
    (codec : ℕ) (blob : List ℕ) (rs : List Region)
    → drain_regions codec blob rs
      ≡ record { codec_id = last_codec codec rs; payload = blob ++ blob_of rs }
unfolding drain_regions
drain_regions-blob_of codec blob [] = rw append-nil
drain_regions-blob_of codec blob (r ∷ rs) =
    drain_regions-blob_of r.codec _ rs
    ∙ ap (λ b. record { codec_id = last_codec r.codec rs; payload = b })
        (append_assoc blob _ (blob_of rs))

assemble-whole_frame : (rs : List Region) → assemble rs ≡ whole_frame rs
unfolding assemble
assemble-whole_frame [] = unfold drain_regions in refl
assemble-whole_frame (r ∷ []) = refl
assemble-whole_frame (r ∷ q ∷ rs) = drain_regions-blob_of codecid_uncompressed [] (r ∷ q ∷ rs)

-- The frames that stay: from 64 on the oldest goes.
abbrev pub kept : List PendingFrame → List PendingFrame
kept pending = drop (min 1 (length pending - 63)) pending

push_pending-kept :
    (f : PendingFrame) (pending : List PendingFrame)
    → push_pending f pending ≡ kept pending ++ (f ∷ [])
unfolding push_pending pop_front
push_pending-kept f pending = elim (Bool-cases (leb 64 (length pending))) [
  | inl e ↦
      let one : min 1 (length pending - 63) ≡ 1 = ground arith in
      rw (e, one) (pop_front-drop pending)
  | inr e ↦ let no : min 1 (length pending - 63) ≡ 0 = ground arith in rw (e, no) refl
]
  where
    pop_front-drop : (p : List PendingFrame) → pop_front p ++ (f ∷ []) ≡ drop 1 p ++ (f ∷ [])
    pop_front-drop [] = refl
    pop_front-drop (x ∷ xs) = refl

-- The state behind a frame with these regions.
abbrev pub after_frame : ℕ → List Region → GfxState → GfxState
after_frame timestamp rs s = record {
  frames = record { current_id = none; timestamp = timestamp; regions = [] };
  pending = kept s.pending ++ (whole_frame rs ∷ []);
}

steps-draw :
    (fid ts surface format : ℕ) (rs old : List Region) (pending : List PendingFrame)
    → steps apply_pdu (map (draw surface format) rs ++ (end_frame fid ∷ [])) (record {
      frames = record { current_id = some fid; timestamp = ts; regions = old };
      pending = pending;
    })
      ≡ after_frame ts (old ++ rs) (record {
        frames = record { current_id = some fid; timestamp = ts; regions = old };
        pending = pending;
      })
unfolding steps apply_pdu
steps-draw fid ts surface format [] old pending =
    rw ((==_iff fid fid).1 refl, append-nil, assemble-whole_frame old)
      (ap
        (λ p. record {
          frames = record { current_id = none; timestamp = ts; regions = [] };
          pending = p;
        })
        (push_pending-kept (whole_frame old) pending))
steps-draw fid ts surface format (r ∷ rs) old pending =
    steps-draw fid ts surface format rs (old ++ (r ∷ [])) pending
    ∙ (rw (append_assoc old (r ∷ []) rs))

steps-frame :
    (fid ts surface format : ℕ) (rs : List Region) (s : GfxState)
    → steps apply_pdu (frame_pdus fid ts surface format rs) s ≡ after_frame ts rs s
unfolding steps apply_pdu
steps-frame fid ts surface format rs s = steps-draw fid ts surface format rs [] s.pending

-- A frame sent as START, any regions and END adds one frame behind the pending ones: a single
-- region's codec and bits as they are; or, for several, the last one's codec and for each region
-- in turn its edges, length and bits; or an empty uncompressed frame. If 64 or more frames are
-- pending the oldest is dropped. The assembler is idle again, and nothing fails. The PDUs fit
-- their wire fields.
pub handle_gfx_frame :
    (fid ts surface format : ℕ) (rs : List Region) (s : GfxState)
    → All PduFits (frame_pdus fid ts surface format rs)
    → handle_gfx (encode_pdus (frame_pdus fid ts surface format rs) []) s
      ≡ some (ok tt, after_frame ts rs s)
unfolding handle_gfx
handle_gfx_frame fid ts surface format rs s h =
    for_each-encode_pdus apply_pdu _ (frame_pdus fid ts surface format rs) s h
      (omega (arith, length-encode_pdus (frame_pdus fid ts surface format rs) []))
    ∙ ap (λ t. some (ok tt, t)) (steps-frame fid ts surface format rs s)
