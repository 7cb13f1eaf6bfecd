-- ===== src/Projects/Once.antt =====
-- A reindex is requested once.
use ask_repo.Access.Permissions.{project_reindex}
use ask_repo.Projects.Requests.{
  requested-row, readable_by-ok, get_project-found, reindex-IsRequested, bind-ok, committed_by,
}
use ask_repo.Pipeline.{live, get_project}
use ask_repo.Projects.{in_flight, readable_by, flagged, Reindexed, reindex_locked, view_of, reindex}
use ask_repo.Jobs.Projects.{ProjectSession, is_busy, Project}
use ask_repo.Access.{
  ◌>>=◌, ◌>>◌, AuthenticatedUser, Call, ProjectView, in_scope, ok, project_not_found, raised,
  require_permission, require_readable_project, resolve_project_scope,
}
use ask_repo.Prelude.{
  ℕ, ◌≡◌, sym, ap, ◌∙◌, Bool, Option, none, some, List, arith, if◌then◌else◌, is_none,
}

reindex-allowed :
    (is_evaluating : Bool) (k job : ℕ) (actor : AuthenticatedUser) (s : ProjectSession)
    (a : Reindexed)
    → reindex is_evaluating k actor job s ≡ ok a
    → (p : ProjectView) × (readable_by k actor s.rows ≡ ok p)
      × (p.id ≡ k)
      × (require_permission actor p.id project_reindex ≡ ok tt)
unfolding reindex
reindex-allowed is_evaluating k job actor s a h =
    let (p, readable, rest) =
      bind-ok (readable_by k actor s.rows)
        (λ p.
          require_permission actor p.id project_reindex
          >> reindex_locked is_evaluating job (get_project p.id s.rows) s)
        a h in
    let (u, allowed, locked) =
      bind-ok (require_permission actor p.id project_reindex)
        (λ u. reindex_locked is_evaluating job (get_project p.id s.rows) s) a rest in
    (p, readable, (readable_by-ok k actor s.rows p readable).3, allowed)

-- Whether a project may be read depends on what the access rules see of its row.
readable_by-same :
    (k : ℕ) (actor : AuthenticatedUser) (rows rows' : List Project)
    → view_of (get_project k rows) ≡ view_of (get_project k rows')
    → readable_by k actor rows ≡ readable_by k actor rows'
unfolding require_readable_project
readable_by-same k actor rows rows' h =
    ap
      (λ (o : Option ProjectView). elim o as (λ _. Call ProjectView) [
        | none ↦ raised project_not_found
        | some p ↦
            if in_scope (resolve_project_scope actor) p.id then ok p else raised project_not_found
      ])
      h

flagged-busy :
    (is_evaluating : Bool) (job now : ℕ) (r : Project) (t : ProjectSession)
    → reindex_locked is_evaluating job (some (flagged now r)) t ≡ ok in_flight
unfolding is_busy
flagged-busy is_evaluating job now r t = ground arith

-- A second request of the caller for the same project, before anyone writes to its row, publishes nothing and
-- writes nothing, whether or not the first one's message was sent, and whether or not an eval run has begun.
pub reindex_once :
    (is_evaluating is_evaluating' : Bool) (k job job' : ℕ) (actor : AuthenticatedUser)
    (s t : ProjectSession) (a : Reindexed)
    → reindex is_evaluating k actor job s ≡ ok a
    → committed_by a ≡ some t
    → reindex is_evaluating' k actor job' t ≡ ok in_flight
unfolding reindex
reindex_once is_evaluating is_evaluating' k job job' actor s t a h e =
    let (p, readable, own, allowed) = reindex-allowed is_evaluating k job actor s a h in
    let (r, req) = reindex-IsRequested is_evaluating k job actor s t a h e in
    let (found, id, alive) = get_project-found k s.rows r req.found in
    let row : get_project k t.rows ≡ some (flagged s.clock r) =
      ap live (requested-row k r s t req)
      ∙ ap (λ d. if is_none d then some (flagged s.clock r) else none) alive in
    let views : view_of (get_project k t.rows) ≡ view_of (get_project k s.rows) =
      ap view_of row ∙ ap view_of (sym req.found) in
    let readable' = readable_by-same k actor t.rows s.rows views ∙ readable in
    let locked = λ (o : Option Project). reindex_locked is_evaluating' job' o t in
    ap
      (λ c. c >>= λ p.
        require_permission actor p.id project_reindex >> locked (get_project p.id t.rows))
      readable'
    ∙ ap (λ c. c >> locked (get_project p.id t.rows)) allowed
    ∙ ap (λ j. locked (get_project j t.rows)) own
    ∙ ap locked row
    ∙ flagged-busy is_evaluating' job' s.clock r t
