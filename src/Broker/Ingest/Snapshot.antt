-- ===== src/Broker/Ingest/Snapshot.antt =====
-- A screenshot and its capture, from the two channels to the stores.
use pre_call.Prelude.{
  ℕ, ◌+◌, ◌≡◌, refl, Text, codes, Bool, true, List, [], ◌∷◌, Option, none, some, ok, length,
  bytes_eq_refl, All,
}
use pre_call.Prelude.Int.{ℤ}
use pre_call.Proto.Channel.{gfx_rdp, pc_meta}
use pre_call.Proto.Gfx.{codecid_jpeg}
use pre_call.Proto.Gfx.RoundTrip.{PduFits}
use pre_call.Proto.Gfx.Iter.{encode_pdus}
use pre_call.Proto.Metadata.{CaptureBatch, ControlMessage, WindowCaptureRecord}
use pre_call.Store.Ukg.Ingest.{find_token}
use pre_call.Store.Objects.{key_path, put, get}
use pre_call.Store.Objects.RoundTrip.{get-put}
use pre_call.Broker.Frames.{Region, push_pending, assemble}
use pre_call.Broker.Frames.Snapshot.{frame_pdus, handle_gfx_frame}
use pre_call.Broker.Ingest.{
  Session, AudioHead, gfx_into, dispatch, handle_meta, store_captures, store_capture, pair_frame,
  put_object, record_capture, date_of, ext_of,
}
use pre_call.Broker.Ingest.Batch.{store_captures-found}

module _ (is_alphanumeric : ℕ → Bool) (encrypt : List ℕ → List ℕ → List ℕ → List ℕ → List ℕ)
    (decrypt : List ℕ → List ℕ → List ℕ → List ℕ → Option (List ℕ)) (nonce : ℕ → List ℕ)
    (length-encrypt : (key iv aad msg : List ℕ) → length (encrypt key iv aad msg) ≡ length msg + 16)
    (decrypt-encrypt : (key iv aad msg : List ℕ)
      → decrypt key iv aad (encrypt key iv aad msg) ≡ some msg)
    (length-nonce : (n : ℕ) → length (nonce n) ≡ 12) where
  put_object-get :
      (is_under : Text → Text → Bool) (cid : Text) (date : ℤ × ℕ × ℕ) (token ext bytes : List ℕ)
      (s : Session)
      → is_under (key_path is_alphanumeric cid date token ext).client cid ≡ true
      → get is_alphanumeric encrypt decrypt is_under cid
          (key_path is_alphanumeric cid date token ext)
          token
          (put_object is_alphanumeric encrypt decrypt nonce cid date token ext bytes s).objects
        ≡ ok bytes
  unfolding put_object put
  put_object-get is_under cid date token ext bytes s h =
      get-put is_alphanumeric encrypt decrypt length-encrypt decrypt-encrypt is_under
        (nonce s.draws) cid date token ext bytes s.objects (length-nonce s.draws) h

  -- The session behind the frame.
  abbrev holding : ℕ → Region → Session → Session
  holding ts r s = record s {
    frames = record { current_id = none; timestamp = ts; regions = [] };
    pending = record { codec_id = codecid_jpeg; payload = r.bits } ∷ [];
  }

  dispatch_frame :
      (cid : Text) (read_batch : List ℕ → Option CaptureBatch)
      (read_head : List ℕ → Option AudioHead) (read_ctrl : List ℕ → Option ControlMessage) (now : ℤ)
      (fid ts surface format : ℕ) (r : Region) (s : Session)
      → All PduFits (frame_pdus fid ts surface format (r ∷ []))
      → s.pending ≡ []
      → r.codec ≡ codecid_jpeg
      → dispatch is_alphanumeric encrypt decrypt nonce cid read_batch read_head read_ctrl now
          (record {
            channel = gfx_rdp;
            payload = encode_pdus (frame_pdus fid ts surface format (r ∷ [])) [];
          })
          s
        ≡ some (ok (holding ts r s))
  unfolding dispatch gfx_into push_pending assemble
  dispatch_frame cid read_batch read_head read_ctrl now fid ts surface format r s fits idle jpeg =
      rw
        (handle_gfx_frame fid ts surface format (r ∷ [])
          (record { frames = s.frames; pending = s.pending }) fits)
        (rw (idle, jpeg) refl)

  dispatch_batch :
      (cid : Text) (read_batch : List ℕ → Option CaptureBatch)
      (read_head : List ℕ → Option AudioHead) (read_ctrl : List ℕ → Option ControlMessage) (now : ℤ)
      (seq : ℕ) (cs : List WindowCaptureRecord) (json : List ℕ) (s : Session)
      → read_batch json ≡ some (record { client_id = cid; seq = seq; captures = cs })
      → dispatch is_alphanumeric encrypt decrypt nonce cid read_batch read_head read_ctrl now
          (record { channel = pc_meta; payload = json })
          s
        ≡ some (ok (store_captures is_alphanumeric encrypt decrypt nonce cid cs s))
  unfolding dispatch handle_meta
  dispatch_batch cid read_batch read_head read_ctrl now seq cs json s read =
      rw (read, bytes_eq_refl cid) refl

  stored_snapshot :
      (is_under : Text → Text → Bool) (cid : Text) (c : WindowCaptureRecord) (ts : ℕ) (r : Region)
      (s : Session)
      → is_under (key_path is_alphanumeric cid (date_of c) c.image_token (codes "jpg")).client cid
        ≡ true
      → get is_alphanumeric encrypt decrypt is_under cid
          (key_path is_alphanumeric cid (date_of c) c.image_token (codes "jpg"))
          c.image_token
          (store_captures is_alphanumeric encrypt decrypt nonce cid
            (c ∷ [])
            (holding ts r s)).objects
        ≡ ok r.bits
  unfolding store_captures store_capture record_capture pair_frame ext_of
  stored_snapshot is_under cid c ts r s h =
      put_object-get is_under cid (date_of c) c.image_token (codes "jpg") r.bits
        (record (holding ts r s) { pending = [] }) h

  -- A session without pending frames gets a JPEG frame of one region on GFXRDP and then a batch
  -- of one capture of its own client on PCMETA. Both are accepted, the capture is stored under
  -- its token, and the object store gives the bytes of the region back under the path of the
  -- capture's date and token, with the cipher or without it. The PDUs fit their wire fields. The
  -- hypotheses on outside code: the tag is sixteen bytes, decryption undoes encryption, a nonce
  -- is twelve bytes, the parser reads the batch in the payload, and the path of the key is below
  -- the client's directory.
  pub dispatch_snapshot :
      (cid : Text) (read_batch : List ℕ → Option CaptureBatch)
      (read_head : List ℕ → Option AudioHead) (read_ctrl : List ℕ → Option ControlMessage)
      (is_under : Text → Text → Bool) (now : ℤ) (fid ts surface format seq : ℕ) (r : Region)
      (c : WindowCaptureRecord) (json : List ℕ) (s : Session)
      → All PduFits (frame_pdus fid ts surface format (r ∷ []))
      → s.pending ≡ []
      → r.codec ≡ codecid_jpeg
      → read_batch json ≡ some (record { client_id = cid; seq = seq; captures = c ∷ [] })
      → is_under (key_path is_alphanumeric cid (date_of c) c.image_token (codes "jpg")).client cid
        ≡ true
      → let path = key_path is_alphanumeric cid (date_of c) c.image_token (codes "jpg") in
        let run =
          dispatch is_alphanumeric encrypt decrypt nonce cid read_batch read_head read_ctrl now in
        (s1 : Session) × (s2 : Session) × (run
            (record {
              channel = gfx_rdp;
              payload = encode_pdus (frame_pdus fid ts surface format (r ∷ [])) [];
            })
            s
          ≡ some (ok s1))
        × (run (record { channel = pc_meta; payload = json }) s1 ≡ some (ok s2))
        × (get is_alphanumeric encrypt decrypt is_under cid path c.image_token s2.objects
            ≡ ok r.bits)
        × (id : ℕ) × (find_token c.image_token s2.db.captures ≡ some id)
  dispatch_snapshot cid read_batch read_head read_ctrl is_under now fid ts surface format seq r c
        json s fits idle jpeg read under =
      let s1 = holding ts r s in
      let s2 = store_captures is_alphanumeric encrypt decrypt nonce cid (c ∷ []) s1 in
      let found = (store_captures-found is_alphanumeric encrypt decrypt nonce cid (c ∷ []) s1).0 in
      (
        s1,
        s2,
        dispatch_frame cid read_batch read_head read_ctrl now fid ts surface format r s fits idle
            jpeg,
        dispatch_batch cid read_batch read_head read_ctrl now seq (c ∷ []) json s1 read,
        stored_snapshot is_under cid c ts r s under,
        found.0,
        found.1,
      )
