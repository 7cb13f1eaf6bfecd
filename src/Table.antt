-- ===== src/Table.antt =====
-- Database tables with a primary key, as lists of rows, and the three statements the repositories
-- use on them: a lookup by key, `update(model).where(..).values(..).returning(..)`, and
-- `one_or_none` on a result. The database itself is not part of the repository; that a key names
-- one row at most is the hypothesis `HasKeys` of the lemmas in Table/Laws.antt.
pub mod Laws
use ask_repo.Prelude.{
  ℕ, ◌≢◌, Bool, Option, none, some, List, [], ◌∷◌, length, All, ◌==◌, if◌then◌else◌,
}

-- `Result.one_or_none()` raises on more than one row.
pub data Fetched {ℓ} (A : Type ℓ) : Type ℓ where
  fetched : Option A → Fetched A
  multiple_results : Fetched A

abbrev pub one_or_none {ℓ} : {A : Type ℓ} → List A → Fetched A
one_or_none [] = fetched none
one_or_none (r ∷ []) = fetched (some r)
one_or_none (r ∷ s ∷ rs) = multiple_results

-- `CursorResult.rowcount`.
abbrev pub rowcount {ℓ} : {A : Type ℓ} → List A → ℕ
rowcount = length

module _ {R : Type 0} where
  -- The rows after the statement, and the updated rows that it returns. The values are computed
  -- from the old row.
  unfoldable pub update_where : (R → Bool) → (R → R) → List R → List R × List R
  update_where p f [] = ([], [])
  update_where p f (r ∷ rs) =
      let (rows, changed) = update_where p f rs in
      if p r then (f r ∷ rows, f r ∷ changed) else (r ∷ rows, changed)

  -- `select(model).where(..)`.
  unfoldable pub select_where : (R → Bool) → List R → List R
  select_where p [] = []
  select_where p (r ∷ rs) = let rest = select_where p rs in if p r then r ∷ rest else rest

module _ {R : Type 0} (key : R → ℕ) where
  unfoldable pub find : ℕ → List R → Option R
  find k [] = none
  find k (r ∷ rs) = if key r == k then some r else find k rs

  -- The key is a primary key.
  abbrev pub HasKeys : List R → Type 0
  HasKeys [] = Unit {0}
  HasKeys (r ∷ rs) = All (λ s. key s ≢ key r) rs × HasKeys rs

-- `scalar_one_or_none`, on a column that the database keeps unique: the first row.
unfoldable pub first_row : {R : Type 0} → (R → Bool) → List R → Option R
first_row p [] = none
first_row p (r ∷ rs) = if p r then some r else first_row p rs
