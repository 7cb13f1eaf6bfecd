-- ===== src/ChangeSets/MockData/Examples.antt =====
-- Decisions on concrete records.
use ask_repo.Prelude.{ℕ, ◌+◌, ◌≡◌, refl, true, Option, none, some, List, [], ◌∷◌, arith}
use ask_repo.Table.{find, first_row, update_where}
use ask_repo.Access.{
  AuthenticatedUser, in_scope, member, ok, require_permission, resolve_project_scope,
}
use ask_repo.Jobs.Generation.{review}
use ask_repo.ChangeSets.{
  ChangeSet, Module, Store, applied, apply_all, get_change_set, get_in_scope, pending,
  require_pending, with_pending,
}
use ask_repo.ChangeSets.Rows.{get_row}
use ask_repo.ChangeSets.Rows.Kept.{HasFreshIds, KeepsRows}
use ask_repo.ChangeSets.Operations.{OperationKind, add, update, put}
use ask_repo.ChangeSets.MockData.{
  MockDataOperation, MockDataRecord, apply_one_record, apply_records, finish_records, merged_fields,
  records, run_record_operations,
}
use ask_repo.ChangeSets.MockData.Kept.{apply_keeps_records}
use ask_repo.ChangeSets.MockData.Positions.{IncreasingFrom, positions-apply_records, positions}

abbrev Raw : Type 0
Raw = Option MockDataOperation

abbrev parse : Raw → Option MockDataOperation
parse raw = raw

abbrev raw_id : Raw → Option ℕ
raw_id raw = some 99

abbrev uuid4 : ℕ → ℕ
uuid4 n = 100 + n

abbrev operation : OperationKind → ℕ → Option ℕ → MockDataOperation
operation kind id record_id = record {
  op = kind;
  id = id;
  record_id = record_id;
  fields = some (("email", "a@b") ∷ []);
  changes = some (("email", "c@d") ∷ ("name", "Ann") ∷ []);
  rationale = "";
}

abbrev user_row : MockDataRecord
user_row = record {
  id = 1;
  module_id = 5;
  fields = ("name", "Bob") ∷ [];
  position = 0;
  created_by = 2;
  updated_at = 10;
  deleted_at = none;
}

abbrev users_module : Module
users_module = record {
  id = 5;
  project_id = 7;
  status = review;
  updated_at = 10;
  deleted_at = none;
}

abbrev proposal : ChangeSet Raw
proposal = record {
  id = 9;
  module_id = 5;
  operations =
      some (operation add 20 none)
      ∷ some (operation add 21 none)
      ∷ some (operation update 22 (some 1))
      ∷ none
      ∷ some (operation add 23 none)
      ∷ [];
  status = pending;
  resolved_by = none;
  resolved_at = none;
  updated_at = 10;
  deleted_at = none;
}

abbrev store : Store Raw MockDataRecord
store = record {
  clock = 50;
  draws = 0;
  rows = user_row ∷ [];
  modules = users_module ∷ [];
  datasets = [];
  change_sets = proposal ∷ [];
  staged = [];
  published = [];
}

abbrev reviewer : AuthenticatedUser
reviewer = record { id = 1; is_admin = true; grants = [] }

-- The request leaves out the second addition.
abbrev wanted : Option (List ℕ)
wanted = some (20 ∷ 22 ∷ 23 ∷ [])

abbrev after_apply : Store Raw MockDataRecord
after_apply =
    finish_records applied 9 users_module 1
      (run_record_operations parse raw_id uuid4 wanted proposal users_module 1 store).1

apply_returns :
    apply_records parse raw_id uuid4 wanted 9 reviewer store
    ≡ ok ((100 ∷ 1 ∷ 101 ∷ [], 99 ∷ []), after_apply)
unfolding apply_records with_pending require_pending get_change_set get_in_scope
    resolve_project_scope in_scope require_permission run_record_operations apply_all
    apply_one_record get_row first_row member update_where merged_fields put
apply_returns = refl

store-HasFreshIds : HasFreshIds records uuid4 store
unfolding find
store-HasFreshIds = ((tt, tt), λ n e. ground arith)

uuid4_distinct : (a b : ℕ) → uuid4 a ≡ uuid4 b → a ≡ b
uuid4_distinct a b e = omega (arith, e)

proposal_found : get_change_set 9 store ≡ some proposal
unfolding get_change_set first_row
proposal_found = refl

apply_keeps_records_example : KeepsRows records 5 store after_apply
apply_keeps_records_example =
    apply_keeps_records parse raw_id uuid4 wanted 9 reviewer store after_apply proposal
      (100 ∷ 1 ∷ 101 ∷ [], 99 ∷ []) uuid4_distinct store-HasFreshIds apply_returns proposal_found

positions-apply_records_example :
    (js : List ℕ) × (positions after_apply.rows ≡ 0 ∷ js) × IncreasingFrom 0 js
positions-apply_records_example =
    positions-apply_records parse raw_id uuid4 wanted 9 reviewer store after_apply proposal
      (100 ∷ 1 ∷ 101 ∷ [], 99 ∷ []) apply_returns proposal_found
