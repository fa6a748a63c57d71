-- ===== src/Api/Routes/Live.antt =====
-- `live_loop`: the polls of one connection.
use pre_call.Prelude.{
  none, ap, ℕ, ◌<◌, ◌≤◌, ◌≡◌, Bool, List, [], ◌∷◌, ltb, leb, All, All-tabulate, ◌∈◌, inl, inr,
  arith, if◌then◌else◌,
}
use pre_call.Prelude.Int.{pos}
use pre_call.Store.Sql.{select_rows}
use pre_call.Store.Sql.Laws.{mem-select_rows}
use pre_call.Store.Ukg.Tables.{CaptureRow, Ukg}
use pre_call.Store.Ukg.Timeline.{timeline, TimelineEntry}

unfoldable pub has_lower_id : CaptureRow → CaptureRow → Bool
has_lower_id w v = leb w.id v.id

-- "Id" > ? ORDER BY "Id" LIMIT 50
unfoldable pub new_rows : ℕ → Ukg → List CaptureRow
unfolding select_rows has_lower_id
new_rows last_id db =
    select_rows has_lower_id (λ (w : CaptureRow). ltb last_id w.id) (pos 50) db.captures

-- `last_id.max(id)` along the rows
unfoldable pub last_sent : ℕ → List CaptureRow → ℕ
last_sent last_id [] = last_id
last_sent last_id (w ∷ ws) = last_sent (if ltb last_id w.id then w.id else last_id) ws

unfoldable pub first_id : List TimelineEntry → ℕ
first_id [] = 0
first_id (e ∷ es) = e.id

-- The id of the newest row when the connection opens.
unfoldable pub start_id : Ukg → ℕ
unfolding first_id timeline
start_id db = first_id (timeline none (pos 1) db)

-- What is sent, poll after poll; the database is another one each time.
unfoldable pub polls : ℕ → List Ukg → List (List CaptureRow)
unfolding new_rows last_sent
polls last_id [] = []
polls last_id (db ∷ dbs) = new_rows last_id db ∷ polls (last_sent last_id (new_rows last_id db)) dbs

last_sent-bound : (last_id : ℕ) (ws : List CaptureRow) → last_id ≤ last_sent last_id ws
unfolding last_sent
last_sent-bound last_id [] = omega arith
last_sent-bound last_id (w ∷ ws) =
    ground (arith, last_sent-bound (if ltb last_id w.id then w.id else last_id) ws)

mem-last_sent :
    (last_id : ℕ) (ws : List CaptureRow) (w : CaptureRow) → w ∈ ws → w.id ≤ last_sent last_id ws
unfolding last_sent
mem-last_sent last_id [] w m = absurd m.1
mem-last_sent last_id (v ∷ vs) w (inl e) =
    let next = (if ltb last_id v.id then v.id else last_id) in
    let same : w.id ≡ v.id = ap (λ (x : CaptureRow). x.id) e in
    ground (arith, last_sent-bound next vs, same)
mem-last_sent last_id (v ∷ vs) w (inr m) =
    mem-last_sent (if ltb last_id v.id then v.id else last_id) vs w m

-- All that later polls send has a greater id.
abbrev pub AreAbove : ℕ → List (List CaptureRow) → Type 0
AreAbove n [] = Unit
AreAbove n (ws ∷ later) = All (λ w. n < w.id) ws × AreAbove n later

abbrev pub AreRising : List (List CaptureRow) → Type 0
AreRising [] = Unit
AreRising (ws ∷ later) = All (λ w. AreAbove w.id later) ws × AreRising later

AreAbove-polls : (n last_id : ℕ) (dbs : List Ukg) → n ≤ last_id → AreAbove n (polls last_id dbs)
unfolding polls new_rows
AreAbove-polls n last_id [] h = tt
AreAbove-polls n last_id (db ∷ dbs) h = (
  All-tabulate _ _ (λ w m.
      let above =
        (mem-select_rows has_lower_id (λ (v : CaptureRow). ltb last_id v.id) (pos 50) db.captures w
          m).1 in
      ground (arith, above, h)),
  AreAbove-polls n (last_sent last_id (new_rows last_id db)) dbs
      (omega (arith, h, last_sent-bound last_id (new_rows last_id db))),
)

-- Whatever happens to the database between the polls, no poll of a connection sends a capture
-- whose id is not above all that were sent before it, so none is sent by two polls; and none that
-- is not above the id that the connection started with.
pub polls-AreRising :
    (last_id : ℕ) (dbs : List Ukg)
    → AreRising (polls last_id dbs) × AreAbove last_id (polls last_id dbs)
unfolding polls
polls-AreRising last_id [] = (tt, tt)
polls-AreRising last_id (db ∷ dbs) =
    let next = last_sent last_id (new_rows last_id db) in
    (
      (
        All-tabulate _ _
            (λ w m. AreAbove-polls w.id next dbs (mem-last_sent last_id (new_rows last_id db) w m)),
        (polls-AreRising next dbs).0,
      ),
      AreAbove-polls last_id last_id (db ∷ dbs) (omega arith),
    )
