-- ===== src/Client/Session/Sent.antt =====
-- What a send leaves on the wire when it succeeds.
use pre_call.Prelude.{
  ℕ, ◌≤◌, ◌≡◌, refl, sym, ap, ◌∙◌, Bool, false, List, ◌++◌, Option, none, some, ok, err-ok, ok-inj,
  Bool-cases, inl, inr, ltb, length, arith,
}
use pre_call.Prelude.Int.{ℤ}
use pre_call.Proto.Channel.{ChannelId, pc_meta, pc_audio, pc_ctrl}
use pre_call.Proto.Metadata.{WindowCaptureRecord, CaptureBatch, ControlMessage}
use pre_call.Proto.Mux.{MuxFrame, max_mux_payload}
use pre_call.Proto.Mux.RoundTrip.{wire, Fits, encode-eq-wire}
use pre_call.Client.Session.{
  Connection, Link, send_mux, send_json, send_meta, send_audio, send_ctrl, transmit_frame,
  send_frame, batch_of, audio_bytes, audio_with, written, flushed,
}

abbrev pub frame_on : ChannelId → List ℕ → MuxFrame
frame_on channel payload = record { channel = channel; payload = payload }

not_long : (n : ℕ) → ltb max_mux_payload n ≡ false → n ≤ max_mux_payload
not_long n h = ground arith

-- The frame stands on the wire, and it fits.
abbrev pub Puts : Connection → List ℕ → MuxFrame → Link → Type 0
Puts c w f l = Fits f × (l.conn ≡ c) × (l.wire ≡ w ++ wire f)

module _ (flush : List ℕ → Bool) where
  pub send_mux-Puts :
      (channel : ChannelId) (payload : List ℕ) (c : Connection) (w : List ℕ) (l : Link)
      → send_mux flush channel payload c w ≡ ok l
      → Puts c w (frame_on channel payload) l
  unfolding send_mux
  send_mux-Puts channel payload c w l e = elim (Bool-cases (ltb max_mux_payload (length payload))) [
    | inl k ↦ absurd (err-ok (rw k at e))
    | inr k ↦
        let fits = not_long (length payload) k in
        let step =
          sym (ap (written flush c) (encode-eq-wire (frame_on channel payload) w fits)) ∙ e in
        elim (Bool-cases (flush (w ++ wire (frame_on channel payload)))) [
          | inr b ↦
              absurd (
                err-ok (sym (ap (flushed flush c (w ++ wire (frame_on channel payload))) b) ∙ step))
          | inl b ↦
              let same =
                ok-inj
                  (sym (ap (flushed flush c (w ++ wire (frame_on channel payload))) b) ∙ step) in
              (fits, sym (ap (λ (t : Link). t.conn) same), sym (ap (λ (t : Link). t.wire) same))
        ]
  ]

  send_json-Puts :
      (channel : ChannelId) (c : Connection) (w : List ℕ) (o : Option (List ℕ)) (l : Link)
      → send_json flush channel c w o ≡ ok l
      → (payload : List ℕ) × (o ≡ some payload) × Puts c w (frame_on channel payload) l
  unfolding send_json
  send_json-Puts channel c w none l e = absurd (err-ok e)
  send_json-Puts channel c w (some p) l e = (p, refl, send_mux-Puts channel p c w l e)

  pub send_meta-Puts :
      (to_json : CaptureBatch → Option (List ℕ)) (cap : WindowCaptureRecord) (k l : Link)
      → send_meta flush to_json cap k ≡ ok l
      → (payload : List ℕ) × (to_json (batch_of cap k.conn).1 ≡ some payload)
        × Puts (batch_of cap k.conn).0 k.wire (frame_on pc_meta payload) l
  unfolding send_meta
  send_meta-Puts to_json cap k l e =
      send_json-Puts pc_meta (batch_of cap k.conn).0 k.wire (to_json (batch_of cap k.conn).1) l e

  pub send_ctrl-Puts :
      (to_json : ControlMessage → Option (List ℕ)) (m : ControlMessage) (k l : Link)
      → send_ctrl flush to_json m k ≡ ok l
      → (payload : List ℕ) × (to_json m ≡ some payload)
        × Puts k.conn k.wire (frame_on pc_ctrl payload) l
  unfolding send_ctrl
  send_ctrl-Puts to_json m k l e = send_json-Puts pc_ctrl k.conn k.wire (to_json m) l e

  audio_with-Puts :
      (pcm : List ℤ) (k l : Link) (o : Option (List ℕ))
      → audio_with flush pcm k o ≡ ok l
      → (head : List ℕ) × (o ≡ some head)
        × Puts k.conn k.wire (frame_on pc_audio (audio_bytes head pcm)) l
  unfolding audio_with
  audio_with-Puts pcm k l none e = absurd (err-ok e)
  audio_with-Puts pcm k l (some head) e =
      (head, refl, send_mux-Puts pc_audio (audio_bytes head pcm) k.conn k.wire l e)

  pub send_audio-Puts :
      (to_json : ℕ → ℕ → Option (List ℕ)) (pcm : List ℤ) (channels rate : ℕ) (k l : Link)
      → send_audio flush to_json pcm channels rate k ≡ ok l
      → (head : List ℕ) × (to_json channels rate ≡ some head)
        × Puts k.conn k.wire (frame_on pc_audio (audio_bytes head pcm)) l
  unfolding send_audio
  send_audio-Puts to_json pcm channels rate k l e =
      audio_with-Puts pcm k l (to_json channels rate) e

  pub transmit_frame-Puts :
      (jpeg : List ℕ) (w h ts : ℕ) (k l : Link)
      → transmit_frame flush jpeg w h ts k ≡ ok l
      → Puts (send_frame k.conn jpeg w h ts).0 k.wire (send_frame k.conn jpeg w h ts).1 l
  unfolding transmit_frame
  transmit_frame-Puts jpeg w h ts k l e =
      let f = (send_frame k.conn jpeg w h ts).1 in
      send_mux-Puts f.channel f.payload (send_frame k.conn jpeg w h ts).0 k.wire l e
