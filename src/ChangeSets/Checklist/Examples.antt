-- ===== src/ChangeSets/Checklist/Examples.antt =====
-- Decisions on a concrete change set.
use Prim.Native.String.{String}
use ask_repo.Prelude.{ℕ, ◌+◌, ◌≡◌, refl, inl, true, Option, none, some, List, [], ◌∷◌, arith}
use ask_repo.Table.{find, first_row, update_where}
use ask_repo.Access.{
  AuthenticatedUser, change_set_already_resolved, change_set_not_found, in_scope, member, ok,
  require_permission, resolve_project_scope,
}
use ask_repo.ChangeSets.{
  ChangeSet, Module, Store, applied, apply_all, get_change_set, get_in_scope, pending,
  require_pending,
}
use ask_repo.ChangeSets.Rows.{get_row}
use ask_repo.ChangeSets.Rows.Kept.{HasFreshIds, KeepsRows}
use ask_repo.ChangeSets.Pending.{IsRefused}
use ask_repo.ChangeSets.Operations.{
  add, remove, update, Operation, OperationKind, negative, updatable_field, canonical_update_key,
}
use ask_repo.ChangeSets.Checklist.{
  ChecklistItem, apply, apply_one, change_fields, discard, finish, items, manual_item, passing,
  run_operations, set_attribute, with_pending,
}
use ask_repo.ChangeSets.Checklist.Reviewed.{apply_keeps_observations, decided_once}
use ask_repo.Jobs.Generation.{review}

-- An operation that does not parse is `none`.
abbrev Raw : Type 0
Raw = Option Operation

abbrev parse : Raw → Option Operation
parse raw = raw

abbrev raw_id : Raw → Option ℕ
raw_id raw = none

abbrev uuid4 : ℕ → ℕ
uuid4 n = 100 + n

abbrev strip : String → String
strip t = t

abbrev operation : OperationKind → ℕ → Option ℕ → Option (List (String × String)) → Operation
operation kind id item_id changes = record {
  op = kind;
  id = id;
  item_id = item_id;
  feature = some "Login";
  test_name = some "Right password";
  expected_result = none;
  kind = none;
  changes = changes;
  citations = none;
  rationale = "";
}

abbrev item : ℕ → ℕ → ChecklistItem
item id module_id = record {
  id = id;
  module_id = module_id;
  project_id = 7;
  feature = "Login";
  test_name = "Wrong password";
  expected_result = "Refused";
  current_result = some "Refused";
  status = passing;
  notes = none;
  citations = none;
  source = manual_item;
  kind = negative;
  position = 4;
  created_by = 2;
  reviewed_by = some 3;
  updated_at = 10;
  deleted_at = none;
}

abbrev login_module : Module
login_module = record {
  id = 5;
  project_id = 7;
  status = review;
  updated_at = 10;
  deleted_at = none;
}

abbrev proposal : ChangeSet Raw
proposal = record {
  id = 9;
  module_id = 5;
  operations =
      some (operation add 20 none none)
      ∷ none
      ∷ some (operation update 21 (some 1) (some (("notes", "Twice") ∷ ("status", "fail") ∷ [])))
      ∷ some (operation remove 22 (some 2) none)
      ∷ some (operation remove 23 (some 1) none)
      ∷ [];
  status = pending;
  resolved_by = none;
  resolved_at = none;
  updated_at = 10;
  deleted_at = none;
}

abbrev store : Store Raw ChecklistItem
store = record {
  clock = 50;
  draws = 0;
  rows = item 1 5 ∷ item 2 6 ∷ [];
  modules = login_module ∷ [];
  datasets = [];
  change_sets = proposal ∷ [];
  staged = [];
  published = [];
}

abbrev reviewer : AuthenticatedUser
reviewer = record { id = 1; is_admin = true; grants = [] }

-- The request leaves out the last operation.
abbrev wanted : Option (List ℕ)
wanted = some (20 ∷ 21 ∷ 22 ∷ [])

abbrev done : Store Raw ChecklistItem
done =
    finish applied 9 login_module 1
      (run_operations parse raw_id uuid4 strip wanted proposal login_module 1 store).1

apply_returns :
    apply parse raw_id uuid4 strip wanted 9 reviewer store
    ≡ ok ((100 ∷ 1 ∷ [], 101 ∷ 22 ∷ []), done)
unfolding apply with_pending require_pending get_change_set get_in_scope resolve_project_scope
    in_scope require_permission run_operations apply_all apply_one get_row first_row member
    update_where change_fields updatable_field canonical_update_key set_attribute
apply_returns = refl

store-HasFreshIds : HasFreshIds items uuid4 store
unfolding find
store-HasFreshIds = (((λ e. absurd (omega (arith, e)), tt), (tt, tt)), λ n e. ground arith)

uuid4_distinct : (a b : ℕ) → uuid4 a ≡ uuid4 b → a ≡ b
uuid4_distinct a b e = omega (arith, e)

proposal_found : get_change_set 9 store ≡ some proposal
unfolding get_change_set first_row
proposal_found = refl

apply_keeps_observations_example : KeepsRows items 5 store done
apply_keeps_observations_example =
    apply_keeps_observations parse raw_id uuid4 strip wanted 9 reviewer store done proposal
      (100 ∷ 1 ∷ [], 101 ∷ 22 ∷ []) uuid4_distinct store-HasFreshIds apply_returns proposal_found

decided_once_example :
    IsRefused change_set_not_found change_set_already_resolved
      (apply parse raw_id uuid4 strip wanted 9 reviewer done)
    × IsRefused change_set_not_found change_set_already_resolved (discard 9 reviewer done)
decided_once_example =
    decided_once parse raw_id uuid4 strip wanted 9 reviewer reviewer store done
      (inl ((100 ∷ 1 ∷ [], 101 ∷ 22 ∷ []), apply_returns))
