-- ===== src/Store/Sql.antt =====
-- The parts of SQL that the queries of crates/precall-store use: WHERE, ORDER BY and LIMIT, by
-- a test and an order on the rows. Models no code of its own.
pub mod Laws
use pre_call.Prelude.{Bool, List, [], ◌∷◌, if◌then◌else◌, take, filter}
use pre_call.Prelude.Int.{ℤ, pos, negsuc}

-- LIMIT: SQLite reads a negative limit as none.
unfoldable pub limit_rows {ℓ} : {A : Type ℓ} → ℤ → List A → List A
limit_rows (pos n) rows = take n rows
limit_rows (negsuc n) rows = rows

module _ {ℓ} {A : Type ℓ} (before : A → A → Bool) where
  unfoldable pub insert_row : A → List A → List A
  insert_row x [] = x ∷ []
  insert_row x (y ∷ ys) = let rest = insert_row x ys in if before x y then x ∷ y ∷ ys else y ∷ rest

  -- ORDER BY: rows of the same rank keep their order.
  unfoldable pub order_rows : List A → List A
  unfolding insert_row
  order_rows [] = []
  order_rows (x ∷ xs) = insert_row x (order_rows xs)

  unfoldable pub select_rows : (A → Bool) → ℤ → List A → List A
  unfolding limit_rows order_rows
  select_rows wanted limit rows = limit_rows limit (order_rows (filter wanted rows))
