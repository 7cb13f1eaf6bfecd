-- ===== src/ChangeSets.antt =====
-- What the services of backend/app/services/checklist_change_set.py and
-- backend/app/services/mock_data_change_set.py share: the tables, the loop of `apply` over the stored
-- operations, and the check before a decision. A stored operation is JSON that pydantic parses: `Raw`,
-- with its parser, is a parameter. The summary, origin and message of a change set are not modelled, nor
-- are notifications and audit entries, which write other tables.
pub mod Loop
pub mod Pending
pub mod Rows
pub mod Operations
pub mod Checklist
pub mod MockData
use ask_repo.Prelude.{
  ℕ, suc, Bool, true, false, not, ◌&&◌, Option, none, some, List, [], ◌∷◌, ◌++◌, ◌==◌,
  if◌then◌else◌, is_none,
}
use ask_repo.Table.{first_row, update_where}
use ask_repo.Access.Permissions.{Permission}
use ask_repo.Access.{
  AuthenticatedUser, Call, ErrorCode, ProjectScope, in_scope, member, ok, raised,
  resolve_project_scope, require_permission, ◌>>=◌, ◌>>◌,
}
use ask_repo.Jobs.Generation.{GenerationStatus}

pub data ChangeSetStatus : Type 0 where
  pending applied discarded : ChangeSetStatus

abbrev pub is_pending : ChangeSetStatus → Bool
is_pending pending = true
is_pending applied = false
is_pending discarded = false

pub record ChangeSet (Raw : Type 0) : Type 0 where
  pub id : ℕ
  pub module_id : ℕ
  pub operations : List Raw
  pub status : ChangeSetStatus
  pub resolved_by : Option ℕ
  pub resolved_at : Option ℕ
  pub updated_at : ℕ
  pub deleted_at : Option ℕ

-- A row of `checklist_modules`.
pub record Module : Type 0 where
  pub id : ℕ
  pub project_id : ℕ
  pub status : GenerationStatus
  pub updated_at : ℕ
  pub deleted_at : Option ℕ

-- A row of `mock_data_datasets`.
pub record Dataset : Type 0 where
  pub id : ℕ
  pub module_id : ℕ
  pub status : GenerationStatus
  pub updated_at : ℕ
  pub deleted_at : Option ℕ

-- The database as the session sees it, with the events of the transaction. `rows` are the reviewed
-- rows: checklist items, or mock-data records. `draws` counts the calls of `uuid.uuid4`.
pub record Store (Raw Item : Type 0) : Type 0 where
  pub clock : ℕ
  pub draws : ℕ
  pub rows : List Item
  pub modules : List Module
  pub datasets : List Dataset
  pub change_sets : List (ChangeSet Raw)
  pub staged : List ℕ
  pub published : List ℕ

-- The columns that `apply` and `discard` set on the change set.
abbrev pub decided : {Raw : Type 0} → ChangeSetStatus → ℕ → ℕ → ChangeSet Raw → ChangeSet Raw
decided status actor_id now c = record c {
  status = status;
  resolved_by = some actor_id;
  resolved_at = some now;
  updated_at = now;
}

-- The tests on the change set, once its module is looked up.
abbrev pub check_scope :
    {Raw : Type 0}
    → ErrorCode
    → ErrorCode
    → ChangeSet Raw
    → Option Module
    → Call (ChangeSet Raw × Module)
check_scope not_found resolved c none = raised not_found
check_scope not_found resolved c (some m) =
    if is_pending c.status then ok (c, m) else raised resolved

module _ {Raw Item : Type 0} where
  unfoldable pub flush_events : Store Raw Item → Store Raw Item
  flush_events s = record s { published = s.published ++ s.staged; staged = [] }

  -- `change_sets.get`.
  unfoldable pub get_change_set : ℕ → Store Raw Item → Option (ChangeSet Raw)
  get_change_set k s = first_row (λ c. c.id == k && is_none c.deleted_at) s.change_sets

  -- `modules.get_in_scope`.
  unfoldable pub get_in_scope : ℕ → ProjectScope → Store Raw Item → Option Module
  get_in_scope k scope s =
      first_row (λ m. is_none m.deleted_at && in_scope scope m.project_id && m.id == k) s.modules

  abbrev pub check_pending :
      ErrorCode
      → ErrorCode
      → ProjectScope
      → Store Raw Item
      → Option (ChangeSet Raw)
      → Call (ChangeSet Raw × Module)
  check_pending not_found resolved scope s none = raised not_found
  check_pending not_found resolved scope s (some c) =
      check_scope not_found resolved c (get_in_scope c.module_id scope s)

  unfoldable pub require_pending :
      ErrorCode → ErrorCode → ℕ → AuthenticatedUser → Store Raw Item → Call (ChangeSet Raw × Module)
  require_pending not_found resolved k actor s =
      check_pending not_found resolved (resolve_project_scope actor) s (get_change_set k s)

  -- How `apply` and `discard` start: the two checks, and then `body`.
  unfoldable pub with_pending :
      {A : Type 0}
      → ErrorCode
      → ErrorCode
      → (ChangeSet Raw → Module → A)
      → ℕ
      → AuthenticatedUser
      → Store Raw Item
      → Call A
  unfolding require_pending
  with_pending not_found resolved body k actor s = do
    (c, m) ← require_pending not_found resolved k actor s
    require_permission actor m.project_id Permission.changeset_apply
    ok (body c m)

  unfoldable pub resolve : ChangeSetStatus → ℕ → ℕ → Store Raw Item → Store Raw Item
  resolve status k actor_id s = record s {
    change_sets = (update_where (λ c. c.id == k) (decided status actor_id s.clock) s.change_sets).0;
  }

-- `wanted is not None and operation.id not in wanted`.
abbrev pub is_unwanted : Option (List ℕ) → ℕ → Bool
is_unwanted none k = false
is_unwanted (some ks) k = not (member k ks)

-- What the loop does with one stored operation: the row it touched, the operation it skipped, or
-- nothing, since the reviewer left it out.
pub data Outcome : Type 0 where
  row_touched : ℕ → Outcome
  operation_skipped : ℕ → Outcome
  left_out : Outcome

abbrev pub add_touched : Outcome → List ℕ → List ℕ
add_touched (row_touched k) ks = k ∷ ks
add_touched (operation_skipped k) ks = ks
add_touched left_out ks = ks

abbrev pub add_skipped : Outcome → List ℕ → List ℕ
add_skipped (row_touched k) ks = ks
add_skipped (operation_skipped k) ks = k ∷ ks
add_skipped left_out ks = ks

-- A row is `none` when the operation's target is gone.
abbrev pub outcome_of : ℕ → Option ℕ → Outcome
outcome_of k none = operation_skipped k
outcome_of k (some row) = row_touched row

-- `_operation_id`: `raw_id` is the stored id, if that is a UUID.
abbrev pub id_or_fresh :
    {Raw Item : Type 0} → (ℕ → ℕ) → Option ℕ → Store Raw Item → ℕ × Store Raw Item
id_or_fresh uuid4 none s = (uuid4 s.draws, record s { draws = suc s.draws })
id_or_fresh uuid4 (some k) s = (k, s)

-- `parse` is `model_validate`, with `none` for a `ValidationError`.
module _ {Raw Item Op : Type 0} (parse : Raw → Option Op) (op_id : Op → ℕ) (raw_id : Raw → Option ℕ)
    (uuid4 : ℕ → ℕ) (apply_one : ℕ → Op → Store Raw Item → Option ℕ × Store Raw Item) where
  abbrev pub apply_wanted : Bool → ℕ → Op → Store Raw Item → Outcome × Store Raw Item
  apply_wanted true position op s = (left_out, s)
  apply_wanted false position op s =
      let (row, t) = apply_one position op s in (outcome_of (op_id op) row, t)

  abbrev pub apply_parsed :
      Option Op → Option (List ℕ) → ℕ → Raw → Store Raw Item → Outcome × Store Raw Item
  apply_parsed none wanted position raw s =
      let (k, t) = id_or_fresh uuid4 (raw_id raw) s in (operation_skipped k, t)
  apply_parsed (some op) wanted position raw s =
      apply_wanted (is_unwanted wanted (op_id op)) position op s

  -- The loop, from the position of its first operation: the touched rows, the skipped operations.
  unfoldable pub apply_all :
      Option (List ℕ) → ℕ → List Raw → Store Raw Item → (List ℕ × List ℕ) × Store Raw Item
  apply_all wanted position [] s = (([], []), s)
  apply_all wanted position (raw ∷ raws) s =
      let (o, t) = apply_parsed (parse raw) wanted position raw s in
      let (rest, u) = apply_all wanted (suc position) raws t in
      ((add_touched o rest.0, add_skipped o rest.1), u)
