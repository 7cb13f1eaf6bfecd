-- ===== src/ChangeSets/Rows.antt =====
-- The rows that a change set is about, for checklist items and mock-data records alike: an interface, and the
-- operations of `_apply_one` that name an existing row, which the two services share.
pub mod Kept
pub mod Frame
use ask_repo.Prelude.{ℕ, ◌≡◌, Bool, true, false, ◌&&◌, Option, none, some, ◌==◌}
use ask_repo.Table.{first_row, update_where}
use ask_repo.ChangeSets.{Module, Store}

-- A table of rows under review. `observed` are the columns that no proposal may set, the key and the
-- module among them.
pub record RowType (Item Observed : Type 0) : Type 0 where
  pub key : Item → ℕ
  pub module_of : Item → ℕ
  pub is_live : Item → Bool
  pub observed : Item → Observed
  pub observed_key : Observed → ℕ
  pub observed_module : Observed → ℕ
  pub key_lem : (i : Item) → observed_key (observed i) ≡ key i
  pub module_lem : (i : Item) → observed_module (observed i) ≡ module_of i

module _ {Raw Item Observed : Type 0} (table : RowType Item Observed) where
  -- `get`, of a live row.
  unfoldable pub get_row : ℕ → Store Raw Item → Option Item
  get_row k s = first_row (λ i. table.key i == k && table.is_live i) s.rows

  -- A row of the module is edited; `none` when the target is gone, or is another module's.
  abbrev pub edit_own : Bool → ℕ → (Item → Item) → Store Raw Item → Option ℕ × Store Raw Item
  edit_own true k f s =
      (some k, record s { rows = (update_where (λ i. table.key i == k) f s.rows).0 })
  edit_own false k f s = (none, s)

  abbrev pub edit_found :
      Option Item → Module → ℕ → (Item → Item) → Store Raw Item → Option ℕ × Store Raw Item
  edit_found none m k f s = (none, s)
  edit_found (some i) m k f s = edit_own (table.module_of i == m.id) k f s

  abbrev pub edit_row :
      Option ℕ → Module → (Item → Item) → Store Raw Item → Option ℕ × Store Raw Item
  edit_row none m f s = (none, s)
  edit_row (some k) m f s = edit_found (get_row k s) m k f s
