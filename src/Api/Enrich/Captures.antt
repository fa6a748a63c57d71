-- ===== src/Api/Enrich/Captures.antt =====
-- No statement of the enrichment removes a capture.
use pre_call.Prelude.{
  ℕ, ◌≡◌, refl, sym, ap, ◌∙◌, Text, Bool, true, false, List, [], ◌∷◌, Option, none, some, any, map,
  Result, ok, ◌==◌, ==_iff, arith, All, All-tabulate, ◌∈◌, inl, inr,
}
use pre_call.Prelude.Int.{ℤ, ◌-ℤ◌}
use pre_call.Store.Sql.Laws.{mem-select_rows}
use pre_call.Store.Ukg.Tables.{Ukg, CaptureRow}
use pre_call.Store.Ukg.Rows.{set_config, attach_topic, attach_on, find_topic}
use pre_call.Store.Ukg.Queues.{
  has_capture, touch_enrich_attempt, put_attempt, set_processed, mark_processed,
  mark_all_unprocessed, reset_image_embedding_states, captures_needing_image_embedding,
  captures_pending_enrichment, precedes, needs_image, is_fresh,
}
use pre_call.Api.Enrich.{EnrichState, write_ukg}

any-set_processed :
    (id k : ℕ) (ws : List CaptureRow)
    → any (λ w. w.id == id) (set_processed k ws) ≡ any (λ w. w.id == id) ws
unfolding set_processed
any-set_processed id k [] = refl
any-set_processed id k (w ∷ ws) = ground (arith, any-set_processed id k ws)

pub mark_processed-captures :
    (k : ℕ) (db : Ukg) (id : ℕ) → has_capture id (mark_processed k db) ≡ has_capture id db
unfolding mark_processed has_capture
mark_processed-captures k db id = any-set_processed id k db.captures

any-unprocessed :
    (id : ℕ) (ws : List CaptureRow)
    → any
        (λ w. w.id == id)
        (map {A = CaptureRow} {B = CaptureRow} (λ w. record w { is_processed = false }) ws)
      ≡ any (λ w. w.id == id) ws
any-unprocessed id [] = refl
any-unprocessed id (w ∷ ws) = ground (arith, any-unprocessed id ws)

pub mark_all_unprocessed-captures :
    (db : Ukg) (id : ℕ) → has_capture id (mark_all_unprocessed db) ≡ has_capture id db
unfolding mark_all_unprocessed has_capture
mark_all_unprocessed-captures db id = any-unprocessed id db.captures

pub set_config-captures :
    (key value : Text) (db : Ukg) (id : ℕ)
    → has_capture id (set_config key value db) ≡ has_capture id db
unfolding set_config has_capture
set_config-captures key value db id = refl

pub reset-captures :
    (db : Ukg) (id : ℕ) → has_capture id (reset_image_embedding_states db) ≡ has_capture id db
unfolding reset_image_embedding_states has_capture
reset-captures db id = refl

-- A statement for a capture that is there goes through, and touches the metadata only.
abbrev pub Written : EnrichState → Result EnrichState EnrichState → Type 0
Written s r =
    (db : Ukg) × (r ≡ ok (record s { ukg = db }))
    × ((id : ℕ) → has_capture id db ≡ has_capture id s.ukg)

pub touch-Written :
    (id : ℕ) (now : ℤ) (s : EnrichState)
    → has_capture id s.ukg ≡ true
    → Written s (write_ukg (touch_enrich_attempt id now s.ukg) s)
unfolding write_ukg touch_enrich_attempt
touch-Written id now s h = (
  record s.ukg { enrich_attempts = put_attempt id now s.ukg.enrich_attempts },
  rw h refl,
  unfold has_capture in λ i. refl,
)

attach_on-captures :
    (found : Option ℕ) (wc_id : ℕ) (title score : Text) (db : Ukg) (id : ℕ)
    → has_capture id (attach_on found wc_id title score db) ≡ has_capture id db
unfolding attach_on has_capture
attach_on-captures none wc_id title score db id = refl
attach_on-captures (some t) wc_id title score db id = refl

pub attach_topic-Written :
    (id : ℕ) (label score : Text) (s : EnrichState)
    → has_capture id s.ukg ≡ true
    → Written s (write_ukg (attach_topic id label score s.ukg) s)
unfolding write_ukg attach_topic
attach_topic-Written id label score s h = (
  attach_on (find_topic label s.ukg.topics) id label score s.ukg,
  rw h refl,
  attach_on-captures (find_topic label s.ukg.topics) id label score s.ukg,
)

mem→has_capture :
    (w : CaptureRow) (ws : List CaptureRow) → w ∈ ws → any (λ v. v.id == w.id) ws ≡ true
mem→has_capture w [] m = absurd m.1
mem→has_capture w (v ∷ vs) (inl e) =
    rw ((==_iff v.id w.id).1 (ap (λ (x : CaptureRow). x.id) (sym e))) refl
mem→has_capture w (v ∷ vs) (inr m) = ground (arith, mem→has_capture w vs m)

-- The captures of both queues are there.
pub queues-captures :
    (limit now backoff : ℤ) (db : Ukg) (known : ℕ → Bool)
    → ((id : ℕ) → has_capture id db ≡ known id)
    → All (λ w. known w.id ≡ true) (captures_needing_image_embedding limit now backoff db)
      × All (λ w. known w.id ≡ true) (captures_pending_enrichment limit now backoff db)
unfolding captures_needing_image_embedding captures_pending_enrichment has_capture
queues-captures limit now backoff db known same =
    let image = needs_image (now -ℤ backoff) db in
    let fresh = is_fresh (now -ℤ backoff) db in
    (
      All-tabulate _ _ (λ w m.
          sym (same w.id)
          ∙ mem→has_capture w db.captures
              (mem-select_rows (precedes db) image limit db.captures w m).0),
      All-tabulate _ _ (λ w m.
          sym (same w.id)
          ∙ mem→has_capture w db.captures
              (mem-select_rows (precedes db) fresh limit db.captures w m).0),
    )
