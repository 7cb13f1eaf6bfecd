-- ===== src/ChangeSets/Checklist/Kept.antt =====
-- What `apply` leaves alone in the rows of the checklist.
use Prim.Native.String.{String}
use ask_repo.Prelude.{ℕ, ◌≡◌, refl, ◌∙◌, Option, none, some, List, [], ◌∷◌}
use ask_repo.ChangeSets.Rows.Kept.{Keeps, add-Keeps, edit_row-Keeps}
use ask_repo.ChangeSets.{Module, Store}
use ask_repo.ChangeSets.Operations.{
  Attribute, Operation, canonical_update_key, expected_result_attribute, feature_attribute,
  kind_attribute, notes_attribute, test_name_attribute, updatable_field, ItemKind, OperationKind,
  add, known_kind, or_empty, remove, update,
}
use ask_repo.ChangeSets.Checklist.{
  ChecklistItem, change_fields, new_item, set_attribute, set_known, apply_kind, changed, set_kind,
  soft_deleted, items, observed,
}

set_kind-observed : (k : Option ItemKind) (i : ChecklistItem) → observed (set_kind k i) ≡ observed i
set_kind-observed none i = refl
set_kind-observed (some k) i = refl

set_attribute-observed :
    (a : Attribute) (value : String) (i : ChecklistItem)
    → observed (set_attribute a value i) ≡ observed i
unfolding set_attribute
set_attribute-observed feature_attribute value i = refl
set_attribute-observed test_name_attribute value i = refl
set_attribute-observed expected_result_attribute value i = refl
set_attribute-observed kind_attribute value i = set_kind-observed (known_kind value) i
set_attribute-observed notes_attribute value i = refl

set_known-observed :
    (a : Option Attribute) (value : String) (i : ChecklistItem)
    → observed (set_known a value i) ≡ observed i
set_known-observed none value i = refl
set_known-observed (some a) value i = set_attribute-observed a value i

pub change_fields-observed :
    (changes : List (String × String)) (i : ChecklistItem)
    → observed (change_fields changes i) ≡ observed i
unfolding change_fields
change_fields-observed [] i = refl
change_fields-observed ((key, value) ∷ rest) i =
    change_fields-observed rest _
    ∙ set_known-observed (updatable_field (canonical_update_key key)) value i

module _ {Raw : Type 0} (strip : String → String) (uuid4 : ℕ → ℕ)
    (distinct : (a b : ℕ) → uuid4 a ≡ uuid4 b → a ≡ b) (m : Module) where
  pub apply_kind-Keeps :
      (kind : OperationKind) (actor_id : ℕ) (op : Operation) (s : Store Raw ChecklistItem)
      → Keeps items uuid4 distinct m s (apply_kind strip uuid4 kind m actor_id op s).1
  unfolding new_item
  apply_kind-Keeps add actor_id op s =
      add-Keeps items uuid4 distinct m (new_item strip uuid4 op m actor_id s) s refl
  apply_kind-Keeps remove actor_id op s =
      edit_row-Keeps items uuid4 distinct m op.item_id (soft_deleted s.clock) s (λ i. refl)
  apply_kind-Keeps update actor_id op s =
      edit_row-Keeps items uuid4 distinct m op.item_id (changed (or_empty op.changes) s.clock) s
        (λ i. change_fields-observed (or_empty op.changes) i)
