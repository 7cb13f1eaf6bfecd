-- ===== src/ChangeSets/Rows/Frame.antt =====
-- What the edits of rows leave alone.
use ask_repo.Prelude.{ℕ, ◌≡◌, refl, Bool, true, false, Option, none, some, ◌==◌}
use ask_repo.ChangeSets.{Module, Store}
use ask_repo.ChangeSets.Rows.{RowType, edit_found, edit_own, edit_row, get_row}

-- The tables other than the rows, as the loop leaves them.
abbrev pub SameFrame : {Raw Item : Type 0} → Store Raw Item → Store Raw Item → Type 0
SameFrame s t =
    (t.change_sets ≡ s.change_sets)
    × (t.modules ≡ s.modules)
    × (t.clock ≡ s.clock)
    × (t.staged ≡ s.staged)
    × (t.published ≡ s.published)

module _ {Raw Item Observed : Type 0} (table : RowType Item Observed) (m : Module) where
  own-SameFrame :
      (b : Bool) (k : ℕ) (f : Item → Item) (s : Store Raw Item)
      → SameFrame s (edit_own table b k f s).1
  own-SameFrame true k f s = (refl, refl, refl, refl, refl)
  own-SameFrame false k f s = (refl, refl, refl, refl, refl)

  found-SameFrame :
      (o : Option Item) (k : ℕ) (f : Item → Item) (s : Store Raw Item)
      → SameFrame s (edit_found table o m k f s).1
  found-SameFrame none k f s = (refl, refl, refl, refl, refl)
  found-SameFrame (some item) k f s = own-SameFrame (table.module_of item == m.id) k f s

  pub edit-SameFrame :
      (o : Option ℕ) (f : Item → Item) (s : Store Raw Item) → SameFrame s (edit_row table o m f s).1
  edit-SameFrame none f s = (refl, refl, refl, refl, refl)
  edit-SameFrame (some k) f s = found-SameFrame (get_row table k s) k f s
