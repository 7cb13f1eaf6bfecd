-- ===== src/ChangeSets/Checklist.antt =====
-- backend/app/services/checklist_change_set.py: what a decision on a change set does to the items of a
-- checklist. A citation is a number. `strip` is `str.strip`, and `validate`, `raw_id` and `uuid4` are
-- those of ChangeSets.antt.
pub mod Kept
pub mod Decided
pub mod Reviewed
mod Examples
use Prim.Native.String.{String}
use text.Mathlib.Text.{◌==◌ as str_eq}
use ask_repo.Prelude.{
  ℕ, suc, refl, ◌&&◌, Option, none, some, List, [], ◌∷◌, ◌++◌, map, ltb, ◌==◌, if◌then◌else◌,
  is_none,
}
use ask_repo.Table.{select_where, update_where}
use ask_repo.Access.{AuthenticatedUser, Call, change_set_already_resolved, change_set_not_found}
use ask_repo.Jobs.Generation.{GenerationStatus, empty, ready}
use ask_repo.Jobs.Session.{stage}
use ask_repo.ChangeSets.Rows.{RowType, edit_row}
use ask_repo.ChangeSets.{
  ChangeSet, ChangeSetStatus, Module, Store, applied, apply_all, discarded, flush_events, resolve,
  with_pending,
}
use ask_repo.ChangeSets.Operations.{
  Attribute, ItemKind, Operation, add, canonical_update_key, known_kind, or_empty, or_none,
  or_positive, or_text, remove, updatable_field, update, expected_result_attribute,
  feature_attribute, kind_attribute, notes_attribute, test_name_attribute, OperationKind,
}

pub data ItemStatus : Type 0 where
  untested passing failing blocked : ItemStatus

pub data ItemSource : Type 0 where
  generated_item manual_item : ItemSource

-- A row of `checklist_items`.
pub record ChecklistItem : Type 0 where
  pub id : ℕ
  pub module_id : ℕ
  pub project_id : ℕ
  pub feature : String
  pub test_name : String
  pub expected_result : String
  pub current_result : Option String
  pub status : ItemStatus
  pub notes : Option String
  pub citations : Option (List ℕ)
  pub source : ItemSource
  pub kind : ItemKind
  pub position : ℕ
  pub created_by : ℕ
  pub reviewed_by : Option ℕ
  pub updated_at : ℕ
  pub deleted_at : Option ℕ

-- The columns that no proposal may set: whose row it is, and what testers recorded on it.
abbrev pub observed :
    ChecklistItem → (ℕ × ℕ × ℕ × ℕ) × (Option String × ItemStatus × Option ℕ × ItemSource × ℕ)
observed i = (
  (i.id, i.module_id, i.project_id, i.created_by),
  (i.current_result, i.status, i.reviewed_by, i.source, i.position),
)

abbrev pub items :
    RowType ChecklistItem
      ((ℕ × ℕ × ℕ × ℕ) × (Option String × ItemStatus × Option ℕ × ItemSource × ℕ))
items = record {
  key = λ i. i.id;
  module_of = λ i. i.module_id;
  is_live = λ i. is_none i.deleted_at;
  observed = observed;
  observed_key = λ o. o.0.0;
  observed_module = λ o. o.0.1;
  key_lem = λ i. refl;
  module_lem = λ i. refl;
}

-- An unrecognised kind leaves the item's kind.
abbrev pub set_kind : Option ItemKind → ChecklistItem → ChecklistItem
set_kind none item = item
set_kind (some k) item = record item { kind = k }

-- `setattr(item, attribute, value)`, after the test of a kind.
unfoldable pub set_attribute : Attribute → String → ChecklistItem → ChecklistItem
set_attribute feature_attribute value item = record item { feature = value }
set_attribute test_name_attribute value item = record item { test_name = value }
set_attribute expected_result_attribute value item = record item { expected_result = value }
set_attribute kind_attribute value item = set_kind (known_kind value) item
set_attribute notes_attribute value item = record item { notes = some value }

abbrev pub set_known : Option Attribute → String → ChecklistItem → ChecklistItem
set_known none value item = item
set_known (some a) value item = set_attribute a value item

-- The loop of an update over its changes.
unfoldable pub change_fields : List (String × String) → ChecklistItem → ChecklistItem
change_fields [] item = item
change_fields ((key, value) ∷ rest) item =
    change_fields rest (set_known (updatable_field (canonical_update_key key)) value item)

-- `BaseRepository.soft_delete`, and the reading of the clock after it.
abbrev pub soft_deleted : ℕ → ChecklistItem → ChecklistItem
soft_deleted now item = record item { deleted_at = some now; updated_at = now }

abbrev pub changed : List (String × String) → ℕ → ChecklistItem → ChecklistItem
changed changes now item = record (change_fields changes item) { updated_at = now }

-- `func.max`, of no rows when there are none.
unfoldable pub highest : List ℕ → Option ℕ
highest [] = none
highest (k ∷ ks) = elim (highest ks) [ none ↦ some k | some j ↦ some (if ltb j k then k else j) ]

-- `READY if remaining else EMPTY`.
abbrev pub settled_status : {A : Type 0} → List A → GenerationStatus
settled_status [] = empty
settled_status (i ∷ is) = ready

module _ {Raw : Type 0} where
  unfoldable pub list_for_module : ℕ → Store Raw ChecklistItem → List ChecklistItem
  list_for_module k s = select_where (λ i. is_none i.deleted_at && i.module_id == k) s.rows

  unfoldable pub next_position : ℕ → String → Store Raw ChecklistItem → ℕ
  unfolding highest
  next_position k feature s =
      let rows =
        select_where (λ i. i.module_id == k && (str_eq i.feature feature && is_none i.deleted_at))
          s.rows in
      elim (highest (map (λ i. i.position) rows)) [ none ↦ 0 | some j ↦ suc j ]

  module _ (strip : String → String) (uuid4 : ℕ → ℕ) where
    unfoldable pub new_item : Operation → Module → ℕ → Store Raw ChecklistItem → ChecklistItem
    unfolding next_position
    new_item op m actor_id s =
        let feature = strip (or_text op.feature "General") in
        record {
          id = uuid4 s.draws;
          module_id = m.id;
          project_id = m.project_id;
          feature = feature;
          test_name = strip (or_text op.test_name "");
          expected_result = strip (or_text op.expected_result "");
          current_result = none;
          status = untested;
          notes = none;
          citations = or_none (or_empty op.citations);
          source = generated_item;
          kind = or_positive op.kind;
          position = next_position m.id feature s;
          created_by = actor_id;
          reviewed_by = none;
          updated_at = s.clock;
          deleted_at = none;
        }

    abbrev pub apply_kind :
        OperationKind
        → Module
        → ℕ
        → Operation
        → Store Raw ChecklistItem
        → Option ℕ × Store Raw ChecklistItem
    apply_kind add m actor_id op s = (
      some (uuid4 s.draws),
      record s { draws = suc s.draws; rows = s.rows ++ new_item op m actor_id s ∷ [] },
    )
    apply_kind remove m actor_id op s = edit_row items op.item_id m (soft_deleted s.clock) s
    apply_kind update m actor_id op s =
        edit_row items op.item_id m (changed (or_empty op.changes) s.clock) s

    -- The row that the operation touched; `none` when its target is gone.
    unfoldable pub apply_one :
        Module → ℕ → Operation → Store Raw ChecklistItem → Option ℕ × Store Raw ChecklistItem
    apply_one m actor_id op s = apply_kind op.op m actor_id op s

  -- `_settle_module`: the status of the module, and its event.
  unfoldable pub settle_module : Module → Store Raw ChecklistItem → Store Raw ChecklistItem
  unfolding list_for_module
  settle_module m s =
      let status = settled_status (list_for_module m.id s) in
      record s {
        modules =
            (update_where (λ r. r.id == m.id)
              (λ r. record r { status = status; updated_at = s.clock }) s.modules).0;
        staged = stage m.id s.staged;
      }

  -- After the decision: the change set, the module, and the commit.
  unfoldable pub finish :
      ChangeSetStatus → ℕ → Module → ℕ → Store Raw ChecklistItem → Store Raw ChecklistItem
  unfolding settle_module
  finish status k m actor_id s = flush_events (settle_module m (resolve status k actor_id s))

  unfoldable pub discard :
      ℕ → AuthenticatedUser → Store Raw ChecklistItem → Call (Store Raw ChecklistItem)
  unfolding with_pending finish
  discard k actor s =
      with_pending change_set_not_found change_set_already_resolved
        (λ c m. finish discarded c.id m actor.id s) k actor s

  module _ (parse : Raw → Option Operation) (raw_id : Raw → Option ℕ) (uuid4 : ℕ → ℕ)
      (strip : String → String) (wanted : Option (List ℕ)) where
    -- The loop, from the store before it: the rows it touched and the operations it skipped.
    unfoldable pub run_operations :
        ChangeSet Raw
        → Module
        → ℕ
        → Store Raw ChecklistItem
        → (List ℕ × List ℕ) × Store Raw ChecklistItem
    unfolding apply_all apply_one
    run_operations c m actor_id s =
        apply_all parse (λ op. op.id) raw_id uuid4 (λ position. apply_one strip uuid4 m actor_id)
          wanted 0 c.operations s

    -- The two lists of the response, with the store after the commit.
    unfoldable pub apply :
        ℕ
        → AuthenticatedUser
        → Store Raw ChecklistItem
        → Call ((List ℕ × List ℕ) × Store Raw ChecklistItem)
    unfolding with_pending run_operations finish
    apply k actor s =
        with_pending change_set_not_found change_set_already_resolved
          (λ c m.
            let run = run_operations c m actor.id s in
            (run.0, finish applied c.id m actor.id run.1))
          k actor s
