-- ===== src/Broker/Ingest/Batch.antt =====
-- What a batch of captures leaves behind, and a frame with its capture from the wire to the
-- object store.
use pre_call.Prelude.{
  Bool-cases, inl, inr, ◌⊎◌, ℕ, suc, zero, ◌≡◌, refl, ◌∙◌, ap, Text, Bool, true, false, List, [],
  ◌∷◌, Option, some, ok, length, drop, bytes_eq, All,
}
use pre_call.Proto.Metadata.{CaptureBatch, WindowCaptureRecord}
use pre_call.Store.Ukg.Ingest.{find_token, insert_capture}
use pre_call.Store.Ukg.Ingest.Idempotent.{find_token-insert_capture, find_token-stable}
use pre_call.Broker.Frames.{PendingFrame}
use pre_call.Broker.Ingest.{
  Session, pair_frame, put_object, record_capture, store_capture, store_captures, handle_meta,
}

-- What a batch leaves: as many frames as captures are taken from the front of the pending ones,
-- and each capture is stored under its token.
abbrev pub IsStored : List WindowCaptureRecord → Session → Session → Type 0
IsStored cs s s' =
    (s'.pending ≡ drop (length cs) s.pending)
    × All (λ c. (id : ℕ) × (find_token c.image_token s'.db.captures ≡ some id)) cs

module _ (is_alphanumeric : ℕ → Bool) (encrypt : List ℕ → List ℕ → List ℕ → List ℕ → List ℕ)
    (decrypt : List ℕ → List ℕ → List ℕ → List ℕ → Option (List ℕ)) (nonce : ℕ → List ℕ) where
  abbrev pub store_one : Text → WindowCaptureRecord → Session → Session
  store_one = store_capture is_alphanumeric encrypt decrypt nonce

  abbrev pub store_all : Text → List WindowCaptureRecord → Session → Session
  store_all = store_captures is_alphanumeric encrypt decrypt nonce

  pair_frame-db :
      (cid : Text) (c : WindowCaptureRecord) (fs : List PendingFrame) (s : Session)
      → ((pair_frame is_alphanumeric encrypt decrypt nonce cid c fs s).db ≡ s.db)
        × ((pair_frame is_alphanumeric encrypt decrypt nonce cid c fs s).events ≡ s.events)
  unfolding pair_frame put_object
  pair_frame-db cid c [] s = (refl, refl)
  pair_frame-db cid c (f ∷ fs) s = (refl, refl)

  store_capture-pending :
      (cid : Text) (c : WindowCaptureRecord) (s : Session)
      → (store_one cid c s).pending ≡ drop 1 s.pending
  unfolding store_capture record_capture pair_frame put_object
  store_capture-pending cid c s = go s.pending refl
    where
      go :
          (fs : List PendingFrame)
          → s.pending ≡ fs
          → (pair_frame is_alphanumeric encrypt decrypt nonce cid c fs s).pending ≡ drop 1 fs
      go [] e = e
      go (f ∷ fs) e = refl

  store_capture-db :
      (cid : Text) (c : WindowCaptureRecord) (s : Session)
      → (store_one cid c s).db ≡ (insert_capture c s.db).1
  unfolding store_capture record_capture
  store_capture-db cid c s = rw ((pair_frame-db cid c s.pending s).0) refl

  drop-drop : (n : ℕ) (fs : List PendingFrame) → drop n (drop 1 fs) ≡ drop (suc n) fs
  drop-drop zero fs = refl
  drop-drop (suc n) [] = refl
  drop-drop (suc n) (f ∷ fs) = refl

  store_captures-pending :
      (cid : Text) (cs : List WindowCaptureRecord) (s : Session)
      → (store_all cid cs s).pending ≡ drop (length cs) s.pending
  unfolding store_captures
  store_captures-pending cid [] s = refl
  store_captures-pending cid (c ∷ cs) s =
      store_captures-pending cid cs (store_one cid c s)
      ∙ (ap (drop (length cs)) (store_capture-pending cid c s) ∙ drop-drop (length cs) s.pending)

  store_captures-stable :
      (cid t : Text) (cs : List WindowCaptureRecord) (s : Session) (id : ℕ)
      → find_token t s.db.captures ≡ some id
      → find_token t (store_all cid cs s).db.captures ≡ some id
  unfolding store_captures
  store_captures-stable cid t [] s id h = h
  store_captures-stable cid t (c ∷ cs) s id h =
      store_captures-stable cid t cs (store_one cid c s) id
        (rw (store_capture-db cid c s) (find_token-stable t c s.db id h))

  pub store_captures-found :
      (cid : Text) (cs : List WindowCaptureRecord) (s : Session)
      → All
          (λ c. (id : ℕ) × (find_token c.image_token (store_all cid cs s).db.captures ≡ some id))
          cs
  unfolding store_captures
  store_captures-found cid [] s = tt
  store_captures-found cid (c ∷ cs) s = (
    (
      (insert_capture c s.db).0,
      store_captures-stable cid c.image_token cs (store_one cid c s) _
          (rw (store_capture-db cid c s) (find_token-insert_capture c s.db)),
    ),
    store_captures-found cid cs (store_one cid c s),
  )

  -- A batch of another client changes nothing. A batch of the session's client takes the oldest
  -- pending frames, one for each capture as long as there are any, and every capture of it is
  -- stored under its token.
  pub handle_meta_outcome :
      (cid : Text) (batch : CaptureBatch) (s : Session)
      → ((bytes_eq batch.client_id cid ≡ false)
          × (handle_meta is_alphanumeric encrypt decrypt nonce cid (some batch) s ≡ ok s))
        ⊎ ((bytes_eq batch.client_id cid ≡ true)
            × (s' : Session) × (handle_meta is_alphanumeric encrypt decrypt nonce cid (some batch) s
                ≡ ok s')
            × IsStored batch.captures s s')
  unfolding handle_meta
  handle_meta_outcome cid batch s = elim (Bool-cases (bytes_eq batch.client_id cid)) [
    | inr e ↦ inl (e, rw e refl)
    | inl e ↦ inr (
      e,
      store_all cid batch.captures s,
      rw e refl,
      (store_captures-pending cid batch.captures s, store_captures-found cid batch.captures s),
    )
  ]
