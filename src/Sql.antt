-- ===== src/Sql.antt =====
-- Clauses of SQL, as functions on rows: ORDER BY, LIMIT and GROUP BY in the statements of
-- internal/store/postgres/store.go and internal/analytics/query.go.
pub mod Ordering
pub mod Groups
use chronos_dev.Common.{ℕ, Bool, List, [], ◌∷◌, ◌++◌, if◌then◌else◌, take, select}

module _ {A : Type 0} (before : A → A → Bool) where
  unfoldable pub place_row : A → List A → List A
  place_row x [] = x ∷ []
  place_row x (y ∷ ys) = let rest = place_row x ys in if before x y then x ∷ y ∷ ys else y ∷ rest

  -- ORDER BY
  unfoldable pub ordered : List A → List A
  ordered [] = []
  ordered (x ∷ xs) = place_row x (ordered xs)

  -- SELECT … WHERE … ORDER BY … LIMIT
  unfoldable pub page : (A → Bool) → ℕ → List A → List A
  page p n rows = take n (ordered (select p rows))

-- GROUP BY: each key with its rows.
module _ {R K : Type 0} (same : K → K → Bool) (key : R → K) where
  unfoldable pub group_row : R → List (K × List R) → List (K × List R)
  group_row r [] = (key r, r ∷ []) ∷ []
  group_row r ((k, rs) ∷ gs) =
      let rest = group_row r gs in
      if same k (key r) then (k, rs ++ (r ∷ [])) ∷ gs else (k, rs) ∷ rest

  unfoldable pub group_onto : List (K × List R) → List R → List (K × List R)
  group_onto gs [] = gs
  group_onto gs (r ∷ rs) = group_onto (group_row r gs) rs

  unfoldable pub group_by : List R → List (K × List R)
  group_by rows = group_onto [] rows
