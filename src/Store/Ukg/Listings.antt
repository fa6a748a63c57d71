-- ===== src/Store/Ukg/Listings.antt =====
-- crates/precall-store/src/ukg.rs: the listings of applications and dwell times, and the list of
-- the clients that crates/precall-api/src/routes.rs reads itself. Rows of one rank keep the order
-- of insertion here; SQL leaves that open. Texts are compared by their code points, which is the
-- order of their UTF-8 bytes.
use pre_call.Prelude.{
  ℕ, Text, Bool, true, false, List, [], ◌∷◌, Option, map, ◌==◌, ltb, if◌then◌else◌,
}
use pre_call.Prelude.Int.{pos, leb_ℤ}
use pre_call.Proto.Metadata.{AppRecord}
use pre_call.Store.Sql.{select_rows, order_rows}
use pre_call.Store.Ukg.Tables.{Ukg, DwellRow, ClientRow, Stored}

unfoldable pub text_le : Text → Text → Bool
text_le [] ys = true
text_le (x ∷ xs) [] = false
text_le (x ∷ xs) (y ∷ ys) =
    let rest = text_le xs ys in if ltb x y then true else if x == y then rest else false

-- ORDER BY "HourStartTimestamp" DESC
unfoldable pub starts_later : DwellRow → DwellRow → Bool
starts_later r q = leb_ℤ q.hour_start r.hour_start

-- LIMIT 10000
unfoldable pub app_dwell_rows : Ukg → List DwellRow
unfolding select_rows starts_later
app_dwell_rows db = select_rows starts_later (λ r. true) (pos 10000) db.app_dwell

unfoldable pub web_dwell_rows : Ukg → List DwellRow
unfolding select_rows starts_later
web_dwell_rows db = select_rows starts_later (λ r. true) (pos 10000) db.web_dwell

pub record AppEntry : Type 0 where
  pub id : ℕ
  pub name : Text
  pub path : Option Text

-- ORDER BY "Name"
unfoldable pub name_le : AppEntry → AppEntry → Bool
unfolding text_le
name_le a b = text_le a.name b.name

unfoldable pub app_entries : Ukg → List AppEntry
unfolding order_rows name_le
app_entries db = order_rows name_le (
    map
      (λ (a : Stored AppRecord). record { id = a.id; name = a.content.name; path = a.content.path })
      db.apps.rows)

-- ORDER BY "LastSeen" DESC
unfoldable pub seen_later : ClientRow → ClientRow → Bool
seen_later r q = leb_ℤ q.last_seen r.last_seen

unfoldable pub client_rows : Ukg → List ClientRow
unfolding order_rows seen_later
client_rows db = order_rows seen_later db.clients
