-- ===== src/Broker/Frames/Laws.antt =====
-- What `handle_gfx` makes of a payload.
use pre_call.Prelude.{
  ℕ, suc, ◌≤◌, ◌≡◌, List, [], ◌∷◌, Option, none, some, Result, length, length-append, arith,
}
use pre_call.Proto.Error.{ProtoError}
use pre_call.Proto.Gfx.{GfxPdu, start_frame, end_frame, wire_to_surface_1, frame_acknowledge}
use pre_call.Proto.Gfx.Iter.{Parses, steps, for_each-Parses, for_each_inv}
use pre_call.Broker.Frames.{
  PendingFrame, FrameAssembler, finish, GfxState, max_pending, push_pending, pop_front, apply_pdu,
  handle_gfx, finish_into,
}

-- `handle_gfx` ends on every payload. The payload is a run of PDUs, each decoded behind the one
-- before it, that ends with the buffer or at the first one that does not decode. Each PDU of the
-- run is applied, in order; the answer is `Ok` in the first case, and the decoder's error in the
-- second.
pub handle_gfx_total :
    (payload : List ℕ) (s : GfxState)
    → (pdus : List GfxPdu) × (r : Result ProtoError (Unit {0})) × Parses payload pdus r
      × (handle_gfx payload s ≡ some (r, steps apply_pdu pdus s))
unfolding handle_gfx
handle_gfx_total payload s =
    for_each-Parses apply_pdu (suc (length payload)) payload s (omega arith)

abbrev pub IsBounded : GfxState → Type 0
IsBounded s = length s.pending ≤ max_pending

push_pending_bound :
    (f : PendingFrame) (fs : List PendingFrame)
    → length fs ≤ max_pending
    → length (push_pending f fs) ≤ max_pending
unfolding push_pending pop_front
push_pending_bound f [] h = omega arith
push_pending_bound f (x ∷ xs) h =
    ground (arith, length-append xs (f ∷ []), length-append (x ∷ xs) (f ∷ []))

finish_into-IsBounded :
    (o : Option PendingFrame × FrameAssembler) (s : GfxState)
    → IsBounded s
    → IsBounded (finish_into o s)
unfolding finish_into
finish_into-IsBounded (none, fa) s h = h
finish_into-IsBounded (some f, fa) s h = push_pending_bound f s.pending h

apply_pdu-IsBounded : (p : GfxPdu) (s : GfxState) → IsBounded s → IsBounded (apply_pdu p s)
unfolding apply_pdu
apply_pdu-IsBounded (start_frame f t) s h = h
apply_pdu-IsBounded (end_frame f) s h = finish_into-IsBounded (finish s.frames f) s h
apply_pdu-IsBounded (wire_to_surface_1 u c p r b) s h = h
apply_pdu-IsBounded (frame_acknowledge q f t) s h = h

-- Whatever the payload, and also when it ends in an error, at most 64 frames are pending after
-- the call if at most 64 were before it.
pub handle_gfx-IsBounded :
    (payload : List ℕ) (s s' : GfxState) (r : Result ProtoError (Unit {0}))
    → IsBounded s
    → handle_gfx payload s ≡ some (r, s')
    → IsBounded s'
unfolding handle_gfx
handle_gfx-IsBounded payload s s' r h e =
    for_each_inv apply_pdu IsBounded apply_pdu-IsBounded (suc (length payload)) payload s r s' h e
