-- ===== src/ChangeSets/Checklist/Reviewed.antt =====
-- What holds of `apply` and `discard` as a whole.
use Prim.Native.String.{String}
use mathlib.Core.Path.{subst}
use ask_repo.Prelude.{
  ℕ, ◌+◌, ◌≡◌, refl, sym, ap, ◌∙◌, ◌⊎◌, inl, inr, false, Option, some, List, length,
}
use ask_repo.Access.{
  AuthenticatedUser, change_set_already_resolved, change_set_not_found, ok, resolve_project_scope,
}
use ask_repo.ChangeSets.{
  ChangeSet, ChangeSetStatus, Module, Store, applied, decided, discarded, flush_events,
  get_change_set, get_in_scope, is_pending, resolve,
}
use ask_repo.ChangeSets.Rows.Kept.{HasFreshIds, KeepsRows}
use ask_repo.ChangeSets.Rows.Frame.{SameFrame}
use ask_repo.ChangeSets.Loop.{count_reported, count_reported_lem}
use ask_repo.ChangeSets.Pending.{
  IsRefused, get_in_scope-id, with_pending-IsRefused, with_pending-ok,
}
use ask_repo.ChangeSets.Operations.{Operation}
use ask_repo.ChangeSets.Checklist.{
  ChecklistItem, apply, apply_one, discard, finish, items, list_for_module, run_operations,
  settle_module, settled_status,
}
use ask_repo.ChangeSets.Checklist.Decided.{
  finish-decided, finish-module, run_operations-Keeps, run_operations-SameFrame,
}

module _ {Raw : Type 0} (parse : Raw → Option Operation) (raw_id : Raw → Option ℕ) (uuid4 : ℕ → ℕ)
    (strip : String → String) (wanted : Option (List ℕ)) where
  -- One of the two decisions returned.
  abbrev pub Decision :
      ℕ → AuthenticatedUser → Store Raw ChecklistItem → Store Raw ChecklistItem → Type 0
  Decision k actor s t =
      ((lists : List ℕ × List ℕ) × (apply parse raw_id uuid4 strip wanted k actor s
          ≡ ok (lists, t)))
      ⊎ (discard k actor s ≡ ok t)

  apply-run :
      (k : ℕ) (actor : AuthenticatedUser) (s t : Store Raw ChecklistItem) (c : ChangeSet Raw)
      (lists : List ℕ × List ℕ)
      → apply parse raw_id uuid4 strip wanted k actor s ≡ ok (lists, t)
      → get_change_set k s ≡ some c
      → (m : Module) × (get_in_scope c.module_id (resolve_project_scope actor) s ≡ some m)
        × (lists ≡ (run_operations parse raw_id uuid4 strip wanted c m actor.id s).0)
        × (t
            ≡ finish applied c.id m actor.id
                (run_operations parse raw_id uuid4 strip wanted c m actor.id s).1)
  unfolding apply
  apply-run k actor s t c lists h at =
      let (d, m, here, scoped, e) = with_pending-ok _ _ _ k actor s (lists, t) h in
      let same : d ≡ c = cc (here, at) in
      subst
        (λ c.
          (m : Module) × (get_in_scope c.module_id (resolve_project_scope actor) s ≡ some m)
          × (lists ≡ (run_operations parse raw_id uuid4 strip wanted c m actor.id s).0)
          × (t
              ≡ finish applied c.id m actor.id
                  (run_operations parse raw_id uuid4 strip wanted c m actor.id s).1))
        same (m, scoped, ap (λ p. p.0) e, ap (λ p. p.1) e)

  -- When a call of apply returns, the rows that it touched and the operations that it skipped are
  -- together as many as the stored operations that the request did not leave out. An operation that does
  -- not parse is never left out.
  apply_reports :
      (k : ℕ) (actor : AuthenticatedUser) (s t : Store Raw ChecklistItem) (c : ChangeSet Raw)
      (lists : List ℕ × List ℕ)
      → apply parse raw_id uuid4 strip wanted k actor s ≡ ok (lists, t)
      → get_change_set k s ≡ some c
      → length lists.0 + length lists.1 ≡ count_reported parse (λ op. op.id) wanted c.operations
  unfolding run_operations apply_one
  apply_reports k actor s t c lists h at =
      let (m, scoped, e, end) = apply-run k actor s t c lists h at in
      ap (λ l. length l.0 + length l.1) e
      ∙ count_reported_lem parse (λ op. op.id) raw_id uuid4
          (λ position. apply_one strip uuid4 m actor.id) wanted 0 c.operations s

  -- Ids are drawn without repetition, and none of them is in use. When a call of apply returns, each row
  -- of the checklist is still there, deleted or not, with the same module, creator, position, status and
  -- recorded result; and a row of another module is unchanged altogether.
  pub apply_keeps_observations :
      (k : ℕ) (actor : AuthenticatedUser) (s t : Store Raw ChecklistItem) (c : ChangeSet Raw)
      (lists : List ℕ × List ℕ)
      → ((a b : ℕ) → uuid4 a ≡ uuid4 b → a ≡ b)
      → HasFreshIds items uuid4 s
      → apply parse raw_id uuid4 strip wanted k actor s ≡ ok (lists, t)
      → get_change_set k s ≡ some c
      → KeepsRows items c.module_id s t
  unfolding finish settle_module resolve flush_events
  apply_keeps_observations k actor s t c lists distinct fresh h at =
      let (m, scoped, e, end) = apply-run k actor s t c lists h at in
      let own : m.id ≡ c.module_id = get_in_scope-id s s c.module_id _ m scoped in
      let kept =
        run_operations-Keeps parse raw_id uuid4 strip wanted distinct c m actor.id s fresh in
      subst (λ n. KeepsRows items n s t) own (subst (λ t. KeepsRows items m.id s t) (sym end) kept)

  -- Both decisions end alike: the change set resolved, the module settled.
  abbrev Finished :
      ℕ → AuthenticatedUser → Store Raw ChecklistItem → Store Raw ChecklistItem → Type 0
  Finished k actor s t =
      (status : ChangeSetStatus) × (c : ChangeSet Raw) × (m : Module) × (u : Store Raw
        ChecklistItem)
      × (get_change_set k s ≡ some c)
      × (get_in_scope c.module_id (resolve_project_scope actor) s ≡ some m)
      × SameFrame s u
      × (t ≡ finish status c.id m actor.id u)
      × (is_pending status ≡ false)

  Decision-Finished :
      (k : ℕ) (actor : AuthenticatedUser) (s t : Store Raw ChecklistItem)
      → Decision k actor s t
      → Finished k actor s t
  unfolding apply discard
  Decision-Finished k actor s t (inl (lists, h)) =
      let (c, m, here, scoped, e) = with_pending-ok _ _ _ k actor s (lists, t) h in
      (
        applied,
        c,
        m,
        (run_operations parse raw_id uuid4 strip wanted c m actor.id s).1,
        here,
        scoped,
        run_operations-SameFrame parse raw_id uuid4 strip wanted c m actor.id s,
        ap (λ p. p.1) e,
        refl,
      )
  Decision-Finished k actor s t (inr h) =
      let (c, m, here, scoped, e) = with_pending-ok _ _ _ k actor s t h in
      (discarded, c, m, s, here, scoped, (refl, refl, refl, refl, refl), e, refl)

  -- After a decision on a change set has returned, whoever calls apply or discard on it gets one of the two
  -- errors of the check: not found, or already resolved.
  pub decided_once :
      (k : ℕ) (actor later : AuthenticatedUser) (s t : Store Raw ChecklistItem)
      → Decision k actor s t
      → IsRefused change_set_not_found change_set_already_resolved
          (apply parse raw_id uuid4 strip wanted k later t)
        × IsRefused change_set_not_found change_set_already_resolved (discard k later t)
  unfolding apply discard
  decided_once k actor later s t h =
      let (status, c, m, u, here, scoped, frame, e, closed) = Decision-Finished k actor s t h in
      let now : get_change_set k t ≡ some (decided status actor.id s.clock c) =
        ap (get_change_set k) e ∙ finish-decided status m actor.id s u frame k c here in
      (
        with_pending-IsRefused _ _ _ k later t _ now closed,
        with_pending-IsRefused _ _ _ k later t _ now closed,
      )

  -- After a decision on a change set has returned, the change set records who decided; and the status
  -- of its module, as the same caller finds it, is ready when the module has live items and empty when it has none.
  ends_settled :
      (k : ℕ) (actor : AuthenticatedUser) (s t : Store Raw ChecklistItem)
      → Decision k actor s t
      → (c : ChangeSet Raw) × (m : Module) × (get_change_set k t ≡ some c)
        × (c.resolved_by ≡ some actor.id)
        × (is_pending c.status ≡ false)
        × (get_in_scope c.module_id (resolve_project_scope actor) t ≡ some m)
        × (m.status ≡ settled_status (list_for_module c.module_id t))
  unfolding list_for_module finish settle_module resolve flush_events
  ends_settled k actor s t h =
      let (status, c, m, u, here, scoped, frame, e, closed) = Decision-Finished k actor s t h in
      let own : m.id ≡ c.module_id = get_in_scope-id s s c.module_id _ m scoped in
      let items : list_for_module c.module_id t ≡ list_for_module m.id u =
        ap (list_for_module c.module_id) e ∙ ap (λ n. list_for_module n u) (sym own) in
      (
        decided status actor.id s.clock c,
        record m { status = settled_status (list_for_module m.id u); updated_at = s.clock },
        ap (get_change_set k) e ∙ finish-decided status m actor.id s u frame k c here,
        refl,
        closed,
        ap (get_in_scope c.module_id _) e
            ∙ finish-module status m actor.id s u frame c.module_id c.id _ scoped,
        ap settled_status (sym items),
      )
