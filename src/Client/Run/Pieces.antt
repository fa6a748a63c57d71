-- ===== src/Client/Run/Pieces.antt =====
-- What a session has written: whole pieces, each of them the frames of one round of the loop.
use pre_call.Prelude.{
  ℕ, suc, ◌+◌, ◌%◌, ◌^◌, ◌≡◌, refl, sym, ap, ◌∙◌, subst, List, [], ◌∷◌, ◌++◌, Option, some,
  append-nil, append_assoc, All, arith,
}
use pre_call.Proto.Channel.{gfx_rdp, pc_meta, pc_audio, pc_ctrl}
use pre_call.Proto.Metadata.{WindowCaptureRecord, CaptureBatch}
use pre_call.Proto.Mux.{MuxFrame}
use pre_call.Proto.Mux.RoundTrip.{Fits, wire}
use pre_call.Proto.Mux.Stream.{wires}
use pre_call.Client.Session.{Connection, Link, frame_bytes}
use pre_call.Client.Session.Sent.{frame_on}
use pre_call.Client.Run.{Agent}

-- A screenshot with its metadata, a chunk of audio, or a control message.
pub data Piece : Type 0 where
  -- the JPEG, its width, height and time, the record, and the JSON of its batch
  shot : List ℕ → ℕ → ℕ → ℕ → WindowCaptureRecord → List ℕ → Piece
  sound : List ℕ → Piece
  message : List ℕ → Piece

-- The connection behind a screenshot: the next frame id, which is a u32, and the next number,
-- which is a u64.
abbrev pub next_conn : Connection → Connection
next_conn c = record c { frame_id = (c.frame_id + 1) % 2 ^ 32; seq = (c.seq + 1) % 2 ^ 64 }

-- The frame of a screenshot, with the next frame id.
abbrev pub shown : Connection → List ℕ → ℕ → ℕ → ℕ → MuxFrame
shown c jpeg w h ts = record {
  channel = gfx_rdp;
  payload = frame_bytes ((c.frame_id + 1) % 2 ^ 32) c.surface_id jpeg w h ts;
}

-- The batch of one record, with the client's identity and the next number.
abbrev pub numbered_batch : Connection → WindowCaptureRecord → CaptureBatch
numbered_batch c row = record {
  client_id = c.client_id;
  seq = (c.seq + 1) % 2 ^ 64;
  captures = row ∷ [];
}

-- The connection after the pieces: every screenshot takes the next frame id and the next number.
abbrev pub conn_after : Connection → List Piece → Connection
conn_after c [] = c
conn_after c (shot jpeg w h ts row json ∷ ps) = conn_after (next_conn c) ps
conn_after c (sound payload ∷ ps) = conn_after c ps
conn_after c (message payload ∷ ps) = conn_after c ps

-- The mux frames of the pieces.
abbrev pub frames_of : Connection → List Piece → List MuxFrame
frames_of c [] = []
frames_of c (shot jpeg w h ts row json ∷ ps) =
    shown c jpeg w h ts ∷ frame_on pc_meta json ∷ frames_of (next_conn c) ps
frames_of c (sound payload ∷ ps) = frame_on pc_audio payload ∷ frames_of c ps
frames_of c (message payload ∷ ps) = frame_on pc_ctrl payload ∷ frames_of c ps

-- The JSON of every screenshot is that of the batch with its record and number.
abbrev pub AreNumbered : (CaptureBatch → Option (List ℕ)) → Connection → List Piece → Type 0
AreNumbered to_json c [] = Unit
AreNumbered to_json c (shot jpeg w h ts row json ∷ ps) =
    (to_json (numbered_batch c row) ≡ some json) × AreNumbered to_json (next_conn c) ps
AreNumbered to_json c (sound payload ∷ ps) = AreNumbered to_json c ps
AreNumbered to_json c (message payload ∷ ps) = AreNumbered to_json c ps

unfoldable pub shots : List Piece → ℕ
shots [] = 0
shots (shot _ _ _ _ _ _ ∷ ps) = suc (shots ps)
shots (sound _ ∷ ps) = shots ps
shots (message _ ∷ ps) = shots ps

-- The pieces lead from one agent to the other.
pub record Wrote (to_json : CaptureBatch → Option (List ℕ)) (a b : Agent) (ps : List Piece)
    : Type 0 where
  pub bytes : b.link.wire ≡ a.link.wire ++ wires (frames_of a.link.conn ps)
  pub conn : b.link.conn ≡ conn_after a.link.conn ps
  pub numbered : AreNumbered to_json a.link.conn ps
  pub fits : All Fits (frames_of a.link.conn ps)
  pub count : b.frames_sent ≡ shots ps + a.frames_sent

conn_after-append :
    (c : Connection) (ps qs : List Piece)
    → conn_after c (ps ++ qs) ≡ conn_after (conn_after c ps) qs
conn_after-append c [] qs = refl
conn_after-append c (shot jpeg w h ts row json ∷ ps) qs = conn_after-append (next_conn c) ps qs
conn_after-append c (sound payload ∷ ps) qs = conn_after-append c ps qs
conn_after-append c (message payload ∷ ps) qs = conn_after-append c ps qs

frames_of-append :
    (c : Connection) (ps qs : List Piece)
    → frames_of c (ps ++ qs) ≡ frames_of c ps ++ frames_of (conn_after c ps) qs
frames_of-append c [] qs = refl
frames_of-append c (shot jpeg w h ts row json ∷ ps) qs =
    ap (λ fs. shown c jpeg w h ts ∷ frame_on pc_meta json ∷ fs)
      (frames_of-append (next_conn c) ps qs)
frames_of-append c (sound payload ∷ ps) qs =
    ap (◌∷◌ (frame_on pc_audio payload)) (frames_of-append c ps qs)
frames_of-append c (message payload ∷ ps) qs =
    ap (◌∷◌ (frame_on pc_ctrl payload)) (frames_of-append c ps qs)

AreNumbered-append :
    (to_json : CaptureBatch → Option (List ℕ)) (c : Connection) (ps qs : List Piece)
    → AreNumbered to_json c ps
    → AreNumbered to_json (conn_after c ps) qs
    → AreNumbered to_json c (ps ++ qs)
AreNumbered-append to_json c [] qs h k = k
AreNumbered-append to_json c (shot jpeg v x ts row json ∷ ps) qs h k =
    (h.0, AreNumbered-append to_json (next_conn c) ps qs h.1 k)
AreNumbered-append to_json c (sound payload ∷ ps) qs h k = AreNumbered-append to_json c ps qs h k
AreNumbered-append to_json c (message payload ∷ ps) qs h k = AreNumbered-append to_json c ps qs h k

shots-append : (ps qs : List Piece) → shots (ps ++ qs) ≡ shots ps + shots qs
unfolding shots
shots-append [] qs = omega arith
shots-append (shot _ _ _ _ _ _ ∷ ps) qs = omega (arith, shots-append ps qs)
shots-append (sound _ ∷ ps) qs = shots-append ps qs
shots-append (message _ ∷ ps) qs = shots-append ps qs

wires-append : (fs gs : List MuxFrame) → wires (fs ++ gs) ≡ wires fs ++ wires gs
wires-append [] gs = refl
wires-append (f ∷ fs) gs =
    ap (λ t. wire f ++ t) (wires-append fs gs) ∙ sym (append_assoc (wire f) (wires fs) (wires gs))

pub All-append {κ} :
    {A : Type 0} (P : A → Type κ) (xs ys : List A) → All P xs → All P ys → All P (xs ++ ys)
All-append P [] ys h k = k
All-append P (x ∷ xs) ys h k = (h.0, All-append P xs ys h.1 k)

module _ (to_json : CaptureBatch → Option (List ℕ)) where
  pub Wrote-nothing :
      (a b : Agent) → b.link ≡ a.link → b.frames_sent ≡ a.frames_sent → Wrote to_json a b []
  unfolding shots
  Wrote-nothing a b e n = record {
    bytes = ap (λ (l : Link). l.wire) e ∙ sym (append-nil a.link.wire);
    conn = ap (λ (l : Link). l.conn) e;
    numbered = tt;
    fits = tt;
    count = omega (arith, n);
  }

  pub Wrote-append :
      (a b c : Agent) (ps qs : List Piece)
      → Wrote to_json a b ps
      → Wrote to_json b c qs
      → Wrote to_json a c (ps ++ qs)
  Wrote-append a b c ps qs h k =
      let at_b =
        subst
          (λ (x : Connection).
            (c.link.wire ≡ b.link.wire ++ wires (frames_of x qs))
            × (c.link.conn ≡ conn_after x qs)
            × AreNumbered to_json x qs
            × All Fits (frames_of x qs))
          h.conn (k.bytes, k.conn, k.numbered, k.fits) in
      let fs = frames_of a.link.conn ps in
      let gs = frames_of (conn_after a.link.conn ps) qs in
      record {
        bytes =
            at_b.0
            ∙ ap (λ t. t ++ wires gs) h.bytes
            ∙ append_assoc a.link.wire (wires fs) (wires gs)
            ∙ ap (λ t. a.link.wire ++ t)
                (sym (wires-append fs gs) ∙ ap wires (sym (frames_of-append a.link.conn ps qs)));
        conn = at_b.1 ∙ sym (conn_after-append a.link.conn ps qs);
        numbered = AreNumbered-append to_json a.link.conn ps qs h.numbered at_b.2;
        fits =
            subst (All Fits) (sym (frames_of-append a.link.conn ps qs))
              (All-append Fits fs gs h.fits at_b.3);
        count = omega (arith, h.count, k.count, shots-append ps qs);
      }
