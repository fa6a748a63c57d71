-- ===== src/Mock/Laws.antt =====
-- A capture of the test client, from its codec to the stores of the broker.
use pre_call.Prelude.{
  ℕ, ◌+◌, ◌%◌, ◌^◌, ◌≡◌, refl, sym, ap, ◌∙◌, Text, codes, Bool, true, List, [], ◌∷◌, ◌++◌, Option,
  none, some, ok, Result-cases, err-ok, ok-inj, ◌>>=◌, All, length, arith, ltb, Bool-cases, inl,
  inr, append-nil,
}
use pre_call.Prelude.Int.{ℤ}
use pre_call.Proto.Channel.{pc_meta}
use pre_call.Proto.Mux.{MuxFrame, encode, decode, max_mux_payload}
use pre_call.Proto.Mux.RoundTrip.{Fits, wire}
use pre_call.Proto.Mux.Stream.{wires, drain, drain-wires}
use pre_call.Proto.Gfx.{codecid_jpeg, pixel_format_xrgb_8888}
use pre_call.Proto.Gfx.RoundTrip.{PduFits}
use pre_call.Proto.Metadata.{CaptureBatch, ControlMessage}
use pre_call.Store.Objects.{key_path, get}
use pre_call.Store.Ukg.Ingest.{find_token}
use pre_call.Broker.Frames.Snapshot.{frame_pdus}
use pre_call.Broker.Ingest.{Session, AudioHead, date_of, dispatch}
use pre_call.Broker.Ingest.Snapshot.{dispatch_snapshot}
use pre_call.Mock.{SyntheticFrame, MockSession, screen, gfx_of, batch_of, send_capture}

-- An `encode` that succeeds puts the frame on the wire.
encode-ok :
    (f : MuxFrame) (dst out : List ℕ) → encode f dst ≡ ok out → Fits f × (out ≡ dst ++ wire f)
unfolding encode
encode-ok f dst out e = elim (Bool-cases (ltb max_mux_payload (length f.payload))) [
  | inl k ↦ absurd (err-ok (rw k at e))
  | inr k ↦ (ground (arith, k), sym (ok-inj (rw k at e)))
]

abbrev pub meta_frame : List ℕ → MuxFrame
meta_frame json = record { channel = pc_meta; payload = json }

decode_nil : decode [] ≡ (ok none, [])
unfolding decode
decode_nil = refl

-- The two frames of a capture stand on the wire behind what was there.
two_frames :
    (f g : MuxFrame) (dst : List ℕ) (s' : MockSession) (rest : List ℕ → MockSession)
    → ((t : List ℕ) → (rest t).wire ≡ t)
    → (encode f dst >>= (λ framed. encode g framed >>= (λ both. ok (rest both)))) ≡ ok s'
    → (Fits f × Fits g) × (s'.wire ≡ (dst ++ wire f) ++ wire g)
two_frames f g dst s' rest keeps e = elim (Result-cases (encode f dst)) [
  | inr (x, p) ↦ absurd (err-ok (rw p at e))
  | inl (w, p) ↦ elim (Result-cases (encode g w)) [
    | inr (x, q) ↦ absurd (err-ok (rw (p, q) at e))
    | inl (v, q) ↦
        let (fits, here) = encode-ok f dst w p in
        let (fits_next, there) = encode-ok g w v q in
        (
          (fits, fits_next),
          sym (ap (λ (t : MockSession). t.wire) (ok-inj (rw (p, q) at e)))
              ∙ keeps v
              ∙ there
              ∙ ap (λ t. t ++ wire g) here,
        )
  ]
]

module _ (is_alphanumeric : ℕ → Bool) (encrypt : List ℕ → List ℕ → List ℕ → List ℕ → List ℕ)
    (decrypt : List ℕ → List ℕ → List ℕ → List ℕ → Option (List ℕ)) (nonce : ℕ → List ℕ)
    (length-encrypt : (key iv aad msg : List ℕ) → length (encrypt key iv aad msg) ≡ length msg + 16)
    (decrypt-encrypt : (key iv aad msg : List ℕ)
      → decrypt key iv aad (encrypt key iv aad msg) ≡ some msg)
    (length-nonce : (n : ℕ) → length (nonce n) ≡ 12) where
  -- What a fresh session of the test client writes for a capture, the codec of the broker takes
  -- apart into two frames, with nothing left over; and an idle broker session of the same client
  -- accepts them both, stores the capture under its token, and gives the JPEG back under the path
  -- of its date and token. The PDUs fit their wire fields, and on outside code: the tag is
  -- sixteen bytes, decryption undoes encryption, a nonce is twelve bytes, the parser reads the
  -- batch that the printer wrote, and the path of the key is below the client's directory.
  pub send_capture-dispatch :
      (to_json : CaptureBatch → List ℕ) (read_batch : List ℕ → Option CaptureBatch)
      (read_head : List ℕ → Option AudioHead) (read_ctrl : List ℕ → Option ControlMessage)
      (is_under : Text → Text → Bool) (now : ℤ) (f : SyntheticFrame) (m m' : MockSession)
      (s : Session)
      → send_capture to_json f m ≡ ok m'
      → m.wire ≡ []
      → All PduFits (
          frame_pdus
            ((m.frame_id + 1) % 2 ^ 32)
            (f.meta.timestamp_100ns % 2 ^ 32)
            0
            pixel_format_xrgb_8888
            (record { codec = codecid_jpeg; rect = screen; bits = f.jpeg } ∷ []))
      → s.pending ≡ []
      → read_batch (to_json (batch_of ((m.seq + 1) % 2 ^ 64) m.client_id f))
        ≡ some (batch_of ((m.seq + 1) % 2 ^ 64) m.client_id f)
      → is_under
          (key_path is_alphanumeric m.client_id
            (date_of f.meta)
            f.meta.image_token
            (codes "jpg")).client
          m.client_id
        ≡ true
      → let gfx = gfx_of ((m.frame_id + 1) % 2 ^ 32) f in
        let json = to_json (batch_of ((m.seq + 1) % 2 ^ 64) m.client_id f) in
        let run =
          dispatch is_alphanumeric encrypt decrypt nonce m.client_id read_batch read_head read_ctrl
            now in
        (s1 : Session) × (s2 : Session) × (drain 3 m'.wire
          ≡ (gfx ∷ meta_frame json ∷ [], (ok none, [])))
        × (run gfx s ≡ some (ok s1))
        × (run (meta_frame json) s1 ≡ some (ok s2))
        × (get is_alphanumeric encrypt decrypt is_under m.client_id
              (key_path is_alphanumeric m.client_id
                (date_of f.meta)
                f.meta.image_token
                (codes "jpg"))
              f.meta.image_token
              s2.objects
            ≡ ok f.jpeg)
        × (id : ℕ) × (find_token f.meta.image_token s2.db.captures ≡ some id)
  unfolding send_capture
  send_capture-dispatch to_json read_batch read_head read_ctrl is_under now f m m' s sent clean fits
        idle reads under =
      let frame_id = (m.frame_id + 1) % 2 ^ 32 in
      let seq = (m.seq + 1) % 2 ^ 64 in
      let gfx = gfx_of frame_id f in
      let json = to_json (batch_of seq m.client_id f) in
      let (both_fit, bytes) =
        two_frames gfx (meta_frame json) m.wire m'
          (λ t. record m { wire = t; seq = seq; frame_id = frame_id }) (λ t. refl) sent in
      let (s1, s2, first, second, served, id, listed) =
        dispatch_snapshot is_alphanumeric encrypt decrypt nonce length-encrypt decrypt-encrypt
          length-nonce m.client_id read_batch read_head read_ctrl is_under now frame_id
          (f.meta.timestamp_100ns % 2 ^ 32) 0 pixel_format_xrgb_8888 seq
          (record { codec = codecid_jpeg; rect = screen; bits = f.jpeg }) f.meta json s fits idle
          refl reads under in
      (
        s1,
        s2,
        ap (drain 3) (
              bytes
              ∙ ap (λ t. (t ++ wire gfx) ++ wire (meta_frame json)) clean
              ∙ ap (λ t. wire gfx ++ t) (sym (append-nil (wire (meta_frame json))))
              ∙ sym (append-nil (wires (gfx ∷ meta_frame json ∷ []))))
            ∙ drain-wires (gfx ∷ meta_frame json ∷ []) [] 3 (both_fit.0, (both_fit.1, tt))
                decode_nil (omega arith),
        first,
        second,
        served,
        id,
        listed,
      )
