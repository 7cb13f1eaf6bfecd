-- ===== src/ChangeSets/Checklist/Decided.antt =====
-- What a decision on a change set leaves behind.
use Prim.Native.String.{String}
use ask_repo.Prelude.{ℕ, ◌≡◌, refl, ap, ◌∙◌, Bool, ◌&&◌, Option, some, List, arith, ◌==◌, is_none}
use ask_repo.Table.{first_row, update_where}
use ask_repo.Access.{ProjectScope, in_scope}
use ask_repo.ChangeSets.{
  ChangeSet, ChangeSetStatus, Module, Store, decided, flush_events, get_change_set, get_in_scope,
  resolve,
}
use ask_repo.ChangeSets.Rows.Kept.{
  HasFreshIds, Keeps, Keeps-after, Keeps-drawn, Keeps-same, KeepsRows,
}
use ask_repo.ChangeSets.Rows.Frame.{SameFrame, edit-SameFrame}
use ask_repo.ChangeSets.Loop.{apply_all-Keeps}
use ask_repo.ChangeSets.Pending.{first_row-updated, get_change_set-resolve, get_in_scope-id}
use ask_repo.ChangeSets.Operations.{add, remove, update, Operation, OperationKind}
use ask_repo.ChangeSets.Checklist.{
  ChecklistItem, apply_kind, apply_one, finish, items, list_for_module, run_operations,
  settle_module, settled_status,
}
use ask_repo.ChangeSets.Checklist.Kept.{apply_kind-Keeps}

module _ {Raw : Type 0} (strip : String → String) (uuid4 : ℕ → ℕ) (m : Module) where
  kind-SameFrame :
      (kind : OperationKind) (actor_id : ℕ) (op : Operation) (s : Store Raw ChecklistItem)
      → SameFrame s (apply_kind strip uuid4 kind m actor_id op s).1
  kind-SameFrame add actor_id op s = (refl, refl, refl, refl, refl)
  kind-SameFrame remove actor_id op s = edit-SameFrame items m op.item_id _ s
  kind-SameFrame update actor_id op s = edit-SameFrame items m op.item_id _ s

module _ {Raw : Type 0} (parse : Raw → Option Operation) (raw_id : Raw → Option ℕ) (uuid4 : ℕ → ℕ)
    (strip : String → String) (wanted : Option (List ℕ)) where
  pub run_operations-SameFrame :
      (c : ChangeSet Raw) (m : Module) (actor_id : ℕ) (s : Store Raw ChecklistItem)
      → SameFrame s (run_operations parse raw_id uuid4 strip wanted c m actor_id s).1
  unfolding run_operations apply_one
  run_operations-SameFrame c m actor_id s =
      apply_all-Keeps parse (λ op. op.id) raw_id uuid4
        (λ position. apply_one strip uuid4 m actor_id) SameFrame
        (λ s. (refl, refl, refl, refl, refl))
        (λ s t u h g. (g.0 ∙ h.0, g.1 ∙ h.1, g.2 ∙ h.2, g.3 ∙ h.3, g.4 ∙ h.4))
        (λ s. (refl, refl, refl, refl, refl))
        (λ i op s. kind-SameFrame strip uuid4 m op.op actor_id op s) wanted 0 c.operations s

  pub run_operations-Keeps :
      (distinct : (a b : ℕ) → uuid4 a ≡ uuid4 b → a ≡ b) (c : ChangeSet Raw) (m : Module)
      (actor_id : ℕ) (s : Store Raw ChecklistItem)
      → HasFreshIds items uuid4 s
      → KeepsRows items m.id s (run_operations parse raw_id uuid4 strip wanted c m actor_id s).1
  unfolding run_operations apply_one
  run_operations-Keeps distinct c m actor_id s h =
      (apply_all-Keeps parse (λ op. op.id) raw_id uuid4
        (λ position. apply_one strip uuid4 m actor_id) (Keeps items uuid4 distinct m)
        (Keeps-same items uuid4 distinct m) (Keeps-after items uuid4 distinct m)
        (Keeps-drawn items uuid4 distinct m)
        (λ i op s. apply_kind-Keeps strip uuid4 distinct m op.op actor_id op s) wanted 0
        c.operations s h).1

-- What `finish` does to the change set and to the module, whose lookup ignores the status.
module _ {Raw : Type 0} (status : ChangeSetStatus) (m : Module) (actor_id : ℕ)
    (s u : Store Raw ChecklistItem) (frame : SameFrame s u) where
  pub finish-decided :
      (k : ℕ) (c : ChangeSet Raw)
      → get_change_set k s ≡ some c
      → get_change_set k (finish status c.id m actor_id u)
        ≡ some (decided status actor_id s.clock c)
  unfolding finish settle_module flush_events resolve
  finish-decided k c at =
      get_change_set-resolve s (finish status c.id m actor_id u) status k actor_id c at (
        ap (λ n. (update_where (λ r. r.id == c.id) (decided status actor_id n) u.change_sets).0)
          frame.2
        ∙ ap (λ cs. (update_where (λ r. r.id == c.id) (decided status actor_id s.clock) cs).0)
            frame.0)

  pub finish-module :
      (k j : ℕ) (scope : ProjectScope)
      → get_in_scope k scope s ≡ some m
      → get_in_scope k scope (finish status j m actor_id u)
        ≡ some (record m { status = settled_status (list_for_module m.id u); updated_at = s.clock })
  unfolding finish settle_module flush_events resolve get_in_scope
  finish-module k j scope at =
      let settled : ℕ → Module → Module =
        λ n r. record r { status = settled_status (list_for_module m.id u); updated_at = n } in
      let found : Module → Bool =
        λ r. is_none r.deleted_at && in_scope scope r.project_id && r.id == k in
      let own : m.id ≡ k = get_in_scope-id s s k scope m at in
      ap (λ ms. first_row found (update_where (λ r. r.id == m.id) (settled u.clock) ms).0) frame.1
      ∙ first_row-updated found (λ r. r.id == m.id) (settled u.clock) s.modules m (λ r. refl)
          (λ r hit. ground (arith, own, hit)) at
      ∙ ap (λ n. some (settled n m)) frame.2
