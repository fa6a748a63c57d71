-- ===== src/Broker/Frames.antt =====
-- crates/precall-broker/src/ingest.rs: `FrameAssembler` and `handle_gfx`.
pub mod Laws
pub mod Snapshot
pub mod ClientFrame
use pre_call.Prelude.{
  ℕ, suc, ◌+◌, ◌%◌, ◌^◌, Bool, true, false, List, [], ◌∷◌, ◌++◌, Option, none, some, Result, leb,
  ◌==◌, length, if◌then◌else◌,
}
use pre_call.Proto.Bytes.{put_u32_le, put_i16_le}
use pre_call.Proto.Error.{ProtoError}
use pre_call.Proto.Gfx.{
  GfxPdu, Rect, start_frame, end_frame, wire_to_surface_1, frame_acknowledge, codecid_uncompressed,
}
use pre_call.Proto.Gfx.Iter.{for_each}

pub record PendingFrame : Type 0 where
  pub codec_id : ℕ
  pub payload : List ℕ

pub record Region : Type 0 where
  pub codec : ℕ
  pub rect : Rect
  pub bits : List ℕ

pub record FrameAssembler : Type 0 where
  pub current_id : Option ℕ
  pub timestamp : ℕ
  pub regions : List Region

abbrev pub new : FrameAssembler
new = record { current_id = none; timestamp = 0; regions = [] }

unfoldable pub begin : FrameAssembler → ℕ → ℕ → FrameAssembler
begin fa frame_id timestamp = record fa {
  current_id = some frame_id;
  timestamp = timestamp;
  regions = [];
}

unfoldable pub is_some : Option ℕ → Bool
is_some none = false
is_some (some _) = true

unfoldable pub region : FrameAssembler → ℕ → Rect → List ℕ → FrameAssembler
unfolding is_some
region fa codec_id rect bits =
    if is_some fa.current_id
    then record fa {
      regions = fa.regions ++ (record { codec = codec_id; rect = rect; bits = bits } ∷ []);
    }
    else fa

-- The loop over `regions.drain(..)`: the last codec, and the blob.
unfoldable pub drain_regions : ℕ → List ℕ → List Region → PendingFrame
drain_regions codec blob [] = record { codec_id = codec; payload = blob }
drain_regions codec blob (r ∷ rs) =
    drain_regions r.codec
      (blob
        ++ (put_i16_le r.rect.left
            ++ (put_i16_le r.rect.top
                ++ (put_i16_le r.rect.right
                    ++ (put_i16_le r.rect.bottom ++ (put_u32_le (length r.bits) ++ r.bits))))))
      rs

-- One region is handed on as it is.
unfoldable pub assemble : List Region → PendingFrame
unfolding drain_regions
assemble (r ∷ []) = record { codec_id = r.codec; payload = r.bits }
assemble rs = drain_regions codecid_uncompressed [] rs

unfoldable pub is_current : Option ℕ → ℕ → Bool
is_current none frame_id = false
is_current (some c) frame_id = c == frame_id

unfoldable pub finish : FrameAssembler → ℕ → Option PendingFrame × FrameAssembler
unfolding is_current assemble
finish fa frame_id =
    if is_current fa.current_id frame_id
    then (some (assemble fa.regions), record fa { current_id = none; regions = [] })
    else (none, fa)

-- What one session keeps between PDUs.
pub record GfxState : Type 0 where
  pub frames : FrameAssembler
  pub pending : List PendingFrame

-- `VecDeque::pop_front`, the front thrown away.
unfoldable pub pop_front : List PendingFrame → List PendingFrame
pop_front [] = []
pop_front (f ∷ fs) = fs

abbrev pub max_pending : ℕ
max_pending = 64

unfoldable pub push_pending : PendingFrame → List PendingFrame → List PendingFrame
unfolding pop_front
push_pending done pending =
    if leb max_pending (length pending)
    then pop_front pending ++ (done ∷ [])
    else pending ++ (done ∷ [])

finish_into : Option PendingFrame × FrameAssembler → GfxState → GfxState
unfolding push_pending
finish_into (none, fa) s = record s { frames = fa }
finish_into (some done, fa) s = record s { frames = fa; pending = push_pending done s.pending }

-- The match on one PDU in `handle_gfx`.
unfoldable pub apply_pdu : GfxPdu → GfxState → GfxState
unfolding begin region finish finish_into
apply_pdu (start_frame frame_id timestamp) s = record s {
  frames = begin s.frames frame_id timestamp;
}
apply_pdu (wire_to_surface_1 _ codec_id _ dest_rect bitmap_data) s = record s {
  frames = region s.frames codec_id dest_rect bitmap_data;
}
apply_pdu (end_frame frame_id) s = finish_into (finish s.frames frame_id) s
apply_pdu (frame_acknowledge _ _ _) s = s

-- The answer and the state that the call leaves.
abbrev pub GfxOutcome : Type 0
GfxOutcome = Option (Result ProtoError (Unit {0}) × GfxState)

-- One round for each byte of the payload, and one to see the end; `none` would be missing fuel.
unfoldable pub handle_gfx : List ℕ → GfxState → GfxOutcome
unfolding apply_pdu
handle_gfx payload s = for_each apply_pdu (suc (length payload)) payload s
