-- ===== src/ChangeSets/MockData.antt =====
-- backend/app/services/mock_data_change_set.py and backend/app/mockdata/operations.py: proposed records of
-- mock data, and a decision on them. `parse`, `raw_id` and `uuid4` are those of ChangeSets.antt, and
-- `parse_uuid` that of ChangeSets/Operations.antt.
pub mod Proposals
pub mod Kept
pub mod Positions
mod Examples
use Prim.Native.String.{String}
use ask_repo.Prelude.{ℕ, suc, refl, ◌&&◌, Option, none, some, List, [], ◌∷◌, ◌++◌, ◌==◌, is_none}
use ask_repo.Table.{first_row, select_where, update_where}
use ask_repo.Access.{
  AuthenticatedUser, Call, mock_data_change_set_already_resolved, mock_data_change_set_not_found,
}
use ask_repo.Jobs.Session.{stage}
use ask_repo.ChangeSets.{
  ChangeSet, ChangeSetStatus, Dataset, Module, Store, applied, apply_all, discarded, flush_events,
  resolve, with_pending,
}
use ask_repo.ChangeSets.Rows.{RowType, edit_row}
use ask_repo.ChangeSets.Operations.{OperationKind, add, update, remove, put, or_empty}
use ask_repo.ChangeSets.Checklist.{settled_status, observed}

-- A mapping of texts: its items, each key once.
abbrev pub Fields : Type 0
Fields = List (String × String)

-- A row of `mock_data_records`.
pub record MockDataRecord : Type 0 where
  pub id : ℕ
  pub module_id : ℕ
  pub fields : Fields
  pub position : ℕ
  pub created_by : ℕ
  pub updated_at : ℕ
  pub deleted_at : Option ℕ

-- `MockDataChangeOperationPayload`.
pub record MockDataOperation : Type 0 where
  pub op : OperationKind
  pub id : ℕ
  pub record_id : Option ℕ
  pub fields : Option Fields
  pub changes : Option Fields
  pub rationale : String

-- The columns that no proposal may set.
abbrev pub observed_record : MockDataRecord → ℕ × ℕ × ℕ × ℕ
observed_record r = (r.id, r.module_id, r.position, r.created_by)

abbrev pub records : RowType MockDataRecord (ℕ × ℕ × ℕ × ℕ)
records = record {
  key = λ r. r.id;
  module_of = λ r. r.module_id;
  is_live = λ r. is_none r.deleted_at;
  observed = observed_record;
  observed_key = λ o. o.0;
  observed_module = λ o. o.1;
  key_lem = λ r. refl;
  module_lem = λ r. refl;
}

-- `{**fields, **changes}`.
unfoldable pub merged_fields : Fields → Fields → Fields
unfolding put
merged_fields fields [] = fields
merged_fields fields ((key, value) ∷ rest) = merged_fields (put key value fields) rest

abbrev pub record_changed : Fields → ℕ → MockDataRecord → MockDataRecord
record_changed changes now r = record r {
  fields = merged_fields r.fields changes;
  updated_at = now;
}

abbrev pub record_deleted : ℕ → MockDataRecord → MockDataRecord
record_deleted now r = record r { deleted_at = some now; updated_at = now }

module _ {Raw : Type 0} where
  unfoldable pub new_record :
      (ℕ → ℕ) → ℕ → MockDataOperation → Module → ℕ → Store Raw MockDataRecord → MockDataRecord
  new_record uuid4 position op m actor_id s = record {
    id = uuid4 s.draws;
    module_id = m.id;
    fields = or_empty op.fields;
    position = position;
    created_by = actor_id;
    updated_at = s.clock;
    deleted_at = none;
  }

  abbrev pub apply_record_kind :
      (ℕ → ℕ)
      → OperationKind
      → Module
      → ℕ
      → ℕ
      → MockDataOperation
      → Store Raw MockDataRecord
      → Option ℕ × Store Raw MockDataRecord
  apply_record_kind uuid4 add m actor_id position op s = (
    some (uuid4 s.draws),
    record s {
      draws = suc s.draws;
      rows = s.rows ++ new_record uuid4 position op m actor_id s ∷ [];
    },
  )
  apply_record_kind uuid4 remove m actor_id position op s =
      edit_row records op.record_id m (record_deleted s.clock) s
  apply_record_kind uuid4 update m actor_id position op s =
      edit_row records op.record_id m (record_changed (or_empty op.changes) s.clock) s

  -- `_apply_one`: the row that the operation touched; `none` when its target is gone.
  unfoldable pub apply_one_record :
      (ℕ → ℕ)
      → Module
      → ℕ
      → ℕ
      → MockDataOperation
      → Store Raw MockDataRecord
      → Option ℕ × Store Raw MockDataRecord
  unfolding new_record
  apply_one_record uuid4 m actor_id position op s =
      apply_record_kind uuid4 op.op m actor_id position op s

  unfoldable pub records_for_module : ℕ → Store Raw MockDataRecord → List MockDataRecord
  records_for_module k s = select_where (λ r. is_none r.deleted_at && r.module_id == k) s.rows

  abbrev pub settle_found :
      Option Dataset → Module → Store Raw MockDataRecord → Store Raw MockDataRecord
  settle_found none m s = s
  settle_found (some dataset) m s = record s {
    datasets =
        (update_where (λ d. d.id == dataset.id)
          (λ d. record d {
            status = settled_status (records_for_module m.id s);
            updated_at = s.clock;
          })
          s.datasets).0;
    staged = stage m.id s.staged;
  }

  -- `_settle_dataset`: nothing, when the module has no dataset.
  unfoldable pub settle_dataset : Module → Store Raw MockDataRecord → Store Raw MockDataRecord
  unfolding records_for_module
  settle_dataset m s =
      settle_found (first_row (λ d. is_none d.deleted_at && d.module_id == m.id) s.datasets) m s

  unfoldable pub finish_records :
      ChangeSetStatus → ℕ → Module → ℕ → Store Raw MockDataRecord → Store Raw MockDataRecord
  unfolding settle_dataset
  finish_records status k m actor_id s =
      flush_events (settle_dataset m (resolve status k actor_id s))

  unfoldable pub discard_records :
      ℕ → AuthenticatedUser → Store Raw MockDataRecord → Call (Store Raw MockDataRecord)
  unfolding with_pending finish_records
  discard_records k actor s =
      with_pending mock_data_change_set_not_found mock_data_change_set_already_resolved
        (λ c m. finish_records discarded c.id m actor.id s) k actor s

  module _ (parse : Raw → Option MockDataOperation) (raw_id : Raw → Option ℕ) (uuid4 : ℕ → ℕ)
      (wanted : Option (List ℕ)) where
    unfoldable pub run_record_operations :
        ChangeSet Raw
        → Module
        → ℕ
        → Store Raw MockDataRecord
        → (List ℕ × List ℕ) × Store Raw MockDataRecord
    unfolding apply_all apply_one_record
    run_record_operations c m actor_id s =
        apply_all parse (λ op. op.id) raw_id uuid4 (apply_one_record uuid4 m actor_id) wanted 0
          c.operations s

    unfoldable pub apply_records :
        ℕ
        → AuthenticatedUser
        → Store Raw MockDataRecord
        → Call ((List ℕ × List ℕ) × Store Raw MockDataRecord)
    unfolding with_pending run_record_operations finish_records
    apply_records k actor s =
        with_pending mock_data_change_set_not_found mock_data_change_set_already_resolved
          (λ c m.
            let run = run_record_operations c m actor.id s in
            (run.0, finish_records applied c.id m actor.id run.1))
          k actor s
