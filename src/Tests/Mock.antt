-- ===== src/Tests/Mock.antt =====
-- The test client and the broker at a concrete capture.
use pre_call.Prelude.{
  ℕ, ◌≡◌, refl, Text, codes, bytes_eq, List, [], ◌∷◌, Option, some, none, ok, arith,
}
use pre_call.Prelude.Int.{pos}
use pre_call.Proto.Mux.Stream.{drain, wires}
use pre_call.Proto.Gfx.{encode}
use pre_call.Proto.Gfx.Iter.{encode_pdus}
use pre_call.Proto.Metadata.{CaptureBatch}
use pre_call.Store.Objects.{key_path, get}
use pre_call.Store.Ukg.Ingest.{find_token}
use pre_call.Broker.Ingest.{Session, date_of, dispatch}
use pre_call.Mock.{SyntheticFrame, MockSession, sample_meta, gfx_of, batch_of, send_capture}
use pre_call.Mock.Laws.{meta_frame, send_capture-dispatch}
use pre_call.Tests.Ingest.{
  encrypt, decrypt, iv, length-encrypt, decrypt-encrypt, length-iv, is_alphanumeric, waiting,
  read_head, read_ctrl,
}

abbrev token : Text
token = codes "tok-1"

abbrev page : SyntheticFrame
page = record { jpeg = 0xff ∷ 0xd8 ∷ []; meta = sample_meta 2 token }

abbrev fresh : MockSession
fresh = record { wire = []; client_id = codes "c"; seq = 0; frame_id = 0 }

abbrev printed : CaptureBatch → List ℕ
printed b = b'{' ∷ b'}' ∷ []

abbrev read_page : List ℕ → Option CaptureBatch
read_page json = some (batch_of 1 (codes "c") page)

abbrev sent : MockSession
sent = record fresh {
  wire = wires (gfx_of 1 page ∷ meta_frame (b'{' ∷ b'}' ∷ []) ∷ []);
  seq = 1;
  frame_id = 1;
}

send_capture-dispatch_example :
    let run =
      dispatch is_alphanumeric encrypt decrypt iv
        (codes "c")
        read_page
        read_head
        read_ctrl
        (pos 0) in
    (s1 : Session) × (s2 : Session) × (drain 3 sent.wire
      ≡ (gfx_of 1 page ∷ meta_frame (b'{' ∷ b'}' ∷ []) ∷ [], (ok none, [])))
    × (run (gfx_of 1 page) waiting ≡ some (ok s1))
    × (run (meta_frame (b'{' ∷ b'}' ∷ [])) s1 ≡ some (ok s2))
    × (get is_alphanumeric encrypt decrypt bytes_eq
          (codes "c")
          (key_path is_alphanumeric (codes "c") (date_of page.meta) token (codes "jpg"))
          token
          s2.objects
        ≡ ok page.jpeg)
    × (id : ℕ) × (find_token token s2.db.captures ≡ some id)
unfolding send_capture sample_meta encode_pdus encode key_path bytes_eq
send_capture-dispatch_example =
    send_capture-dispatch is_alphanumeric encrypt decrypt iv length-encrypt decrypt-encrypt
      length-iv printed read_page read_head read_ctrl bytes_eq (pos 0) page fresh sent waiting refl
      refl (omega arith) refl refl refl
