-- ===== src/ChangeSets/MockData/Kept.antt =====
-- What `apply` leaves alone in the records of mock data.
use ask_repo.Table.{find, first_row}
use ask_repo.ChangeSets.Loop.{apply_all-Keeps}
use ask_repo.Prelude.{ℕ, ◌≡◌, refl, ap, ◌∙◌, ◌&&◌, Option, none, some, List, ◌==◌, is_none}
use ask_repo.Access.{AuthenticatedUser, ok}
use ask_repo.ChangeSets.{
  ChangeSet, ChangeSetStatus, Module, Store, applied, flush_events, get_change_set, resolve,
  Dataset,
}
use ask_repo.ChangeSets.Rows.Kept.{
  HasFreshIds, Keeps, KeepsRows, add-Keeps, edit_row-Keeps, Keeps-after, Keeps-drawn, Keeps-same,
}
use ask_repo.ChangeSets.Pending.{get_in_scope-id, with_pending-ok}
use ask_repo.ChangeSets.Operations.{OperationKind, add, update, remove, or_empty}
use ask_repo.ChangeSets.MockData.{
  MockDataOperation, MockDataRecord, apply_one_record, apply_record_kind, apply_records,
  finish_records, new_record, record_changed, record_deleted, records, run_record_operations,
  settle_dataset, settle_found,
}
use mathlib.Core.Path.{subst}

module _ {Raw : Type 0} (uuid4 : ℕ → ℕ) (distinct : (a b : ℕ) → uuid4 a ≡ uuid4 b → a ≡ b)
    (m : Module) where
  record_kind-Keeps :
      (kind : OperationKind) (actor_id position : ℕ) (op : MockDataOperation)
      (s : Store Raw MockDataRecord)
      → Keeps records uuid4 distinct m s (apply_record_kind uuid4 kind m actor_id position op s).1
  unfolding new_record
  record_kind-Keeps add actor_id position op s =
      add-Keeps records uuid4 distinct m (new_record uuid4 position op m actor_id s) s refl
  record_kind-Keeps remove actor_id position op s =
      edit_row-Keeps records uuid4 distinct m op.record_id (record_deleted s.clock) s (λ r. refl)
  record_kind-Keeps update actor_id position op s =
      edit_row-Keeps records uuid4 distinct m op.record_id
        (record_changed (or_empty op.changes) s.clock) s (λ r. refl)

module _ {Raw : Type 0} (parse : Raw → Option MockDataOperation) (raw_id : Raw → Option ℕ)
    (uuid4 : ℕ → ℕ) (wanted : Option (List ℕ)) where
  pub run_records :
      (k : ℕ) (actor : AuthenticatedUser) (s t : Store Raw MockDataRecord) (c : ChangeSet Raw)
      (lists : List ℕ × List ℕ)
      → apply_records parse raw_id uuid4 wanted k actor s ≡ ok (lists, t)
      → get_change_set k s ≡ some c
      → (m : Module) × (m.id ≡ c.module_id)
        × (t
            ≡ finish_records applied c.id m actor.id
                (run_record_operations parse raw_id uuid4 wanted c m actor.id s).1)
  unfolding apply_records
  run_records k actor s t c lists h at =
      let (d, m, here, scoped, e) = with_pending-ok _ _ _ k actor s (lists, t) h in
      let same : d ≡ c = cc (here, at) in
      let own : m.id ≡ d.module_id = get_in_scope-id s s d.module_id _ m scoped in
      subst
        (λ c.
          (m : Module) × (m.id ≡ c.module_id)
          × (t
              ≡ finish_records applied c.id m actor.id
                  (run_record_operations parse raw_id uuid4 wanted c m actor.id s).1))
        same (m, own, ap (λ p. p.1) e)

  settle_found-rows :
      (o : Option Dataset) (m : Module) (s : Store Raw MockDataRecord)
      → (settle_found o m s).rows ≡ s.rows
  settle_found-rows none m s = refl
  settle_found-rows (some dataset) m s = refl

  pub finish_records-rows :
      (status : ChangeSetStatus) (k : ℕ) (m : Module) (actor_id : ℕ) (s : Store Raw MockDataRecord)
      → (finish_records status k m actor_id s).rows ≡ s.rows
  unfolding finish_records settle_dataset flush_events resolve
  finish_records-rows status k m actor_id s =
      settle_found-rows (first_row (λ d. is_none d.deleted_at && d.module_id == m.id) s.datasets) m
        (resolve status k actor_id s)

  -- Ids are drawn without repetition, and none of them is in use. When a call of apply returns, each record
  -- of mock data is still there, deleted or not, with the same module, creator and position; and a record
  -- of another module is unchanged altogether.
  pub apply_keeps_records :
      (k : ℕ) (actor : AuthenticatedUser) (s t : Store Raw MockDataRecord) (c : ChangeSet Raw)
      (lists : List ℕ × List ℕ)
      → ((a b : ℕ) → uuid4 a ≡ uuid4 b → a ≡ b)
      → HasFreshIds records uuid4 s
      → apply_records parse raw_id uuid4 wanted k actor s ≡ ok (lists, t)
      → get_change_set k s ≡ some c
      → KeepsRows records c.module_id s t
  unfolding run_record_operations apply_one_record
  apply_keeps_records k actor s t c lists distinct fresh h at =
      let (m, own, e) = run_records k actor s t c lists h at in
      let u = (run_record_operations parse raw_id uuid4 wanted c m actor.id s).1 in
      let kept : KeepsRows records m.id s u =
        (apply_all-Keeps parse (λ op. op.id) raw_id uuid4 (apply_one_record uuid4 m actor.id)
          (Keeps records uuid4 distinct m) (Keeps-same records uuid4 distinct m)
          (Keeps-after records uuid4 distinct m) (Keeps-drawn records uuid4 distinct m)
          (λ i op s. record_kind-Keeps uuid4 distinct m op.op actor.id i op s) wanted 0 c.operations
          s fresh).1 in
      let rows : t.rows ≡ u.rows =
        ap (λ x. x.rows) e ∙ finish_records-rows applied c.id m actor.id u in
      subst (λ n. KeepsRows records n s t) own
        (λ j i found.
          let (x, there, same) = kept j i found in (x, ap (find (λ r. r.id) j) rows ∙ there, same))
