-- ===== src/Projects/Requests.antt =====
-- What a request for a reindex leaves behind.
use ask_repo.Access.Permissions.{project_reindex}
use ask_repo.Table.Laws.{find-key, edited, find-update_where_only}
use ask_repo.Jobs.Ladder.{ingest_topic}
use ask_repo.Table.{update_where, find}
use ask_repo.Pipeline.{live, get_project, view}
use ask_repo.Jobs.Projects.{is_busy, Project, ProjectSession, is_stranded}
use ask_repo.Jobs.Session.{stage_live_event, Message, commit, produce_to}
use ask_repo.Projects.{
  first_job, flagged, unsent, enqueued, sent_or_not, Reindexed, request, in_flight, readable_by,
  reindex, reindex_locked, view_of,
}
use mathlib.Core.Path.{subst}
use ask_repo.Jobs.Lease.{row_key, claimable, lease_free, seconds}
use ask_repo.Access.{
  ◌>>=◌, Call, ok, raised, AuthenticatedUser, ProjectView, require_permission,
  require_readable_project, ◌>>◌,
}
use ask_repo.Prelude.{
  ℕ, ◌+◌, ◌<◌, ◌≡◌, refl, sym, ap, ◌∙◌, inl, inr, Bool, true, false, Option, none, some, List,
  arith, ◌==◌, is_some_eq, Bool-cases, Option-cases,
}

-- The session of a request that was committed.
abbrev pub committed_by : Reindexed → Option ProjectSession
committed_by in_flight = none
committed_by (enqueued t) = some t
committed_by (unsent t) = some t

pub bind-ok :
    {A B : Type 0} (c : Call A) (f : A → Call B) (b : B)
    → (c >>= f) ≡ ok b
    → (a : A) × (c ≡ ok a) × (f a ≡ ok b)
bind-ok (raised e) f b h = cc h
bind-ok (ok a) f b h = (a, refl, h)

-- What the rows are after a request.
pub record IsRequested (k : ℕ) (r : Project) (s t : ProjectSession) : Type 0 where
  pub found : get_project k s.rows ≡ some r
  pub idle : is_busy r ≡ false
  pub rows : t.rows ≡ (update_where (λ (q : Project). q.id == k) (flagged s.clock) s.rows).0
  pub committed : t.committed ≡ t.rows
  pub clock : t.clock ≡ s.clock

committed_by-sent :
    (s t : ProjectSession) (o : Option ProjectSession)
    → ((u : ProjectSession)
        → o ≡ some u
        → (u.rows ≡ s.rows) × (u.committed ≡ s.committed) × (u.clock ≡ s.clock))
    → committed_by (sent_or_not s o) ≡ some t
    → (t.rows ≡ s.rows) × (t.committed ≡ s.committed) × (t.clock ≡ s.clock)
committed_by-sent s t none h e =
    let same : s ≡ t = cc e in
    subst (λ t. (t.rows ≡ s.rows) × (t.committed ≡ s.committed) × (t.clock ≡ s.clock)) same
      (refl, refl, refl)
committed_by-sent s t (some u) h e =
    let same : u ≡ t = cc e in
    subst (λ t. (t.rows ≡ s.rows) × (t.committed ≡ s.committed) × (t.clock ≡ s.clock)) same
      (h u refl)

produce_to-keeps_rows :
    (m : Message) (s u : ProjectSession)
    → produce_to ingest_topic m s ≡ some u
    → (u.rows ≡ s.rows) × (u.committed ≡ s.committed) × (u.clock ≡ s.clock)
unfolding produce_to
produce_to-keeps_rows m s u h = elim (Bool-cases s.broker_up) [
  | inl up ↦ ground (arith, up, h)
  | inr down ↦ ground (arith, down, h)
]

committed_by-request :
    (k job : ℕ) (s t : ProjectSession)
    → committed_by (request k job s) ≡ some t
    → (t.rows ≡ (update_where (λ (q : Project). q.id == k) (flagged s.clock) s.rows).0)
      × (t.committed ≡ t.rows)
      × (t.clock ≡ s.clock)
unfolding request commit stage_live_event
committed_by-request k job s t h =
    let changed = (update_where (λ (q : Project). q.id == k) (flagged s.clock) s.rows).0 in
    let mid = commit (stage_live_event k (record s { rows = changed })) in
    let (rows, committed, clock) =
      committed_by-sent mid t (produce_to ingest_topic (first_job k job) mid)
        (produce_to-keeps_rows (first_job k job) mid) h in
    (rows, committed ∙ sym rows, clock)

pub get_project-found :
    (k : ℕ) (rows : List Project) (r : Project)
    → get_project k rows ≡ some r
    → (find row_key k rows ≡ some r) × (r.id ≡ k) × (r.deleted_at ≡ none)
get_project-found k rows r h = elim (Option-cases (find row_key k rows)) [
  | inl nothing ↦ let bad = sym (ap live nothing) ∙ h in cc bad
  | inr (q, e) ↦
      let there = sym (ap live e) ∙ h in
      elim (Option-cases q.deleted_at) [
        | inl alive ↦
            let same : q ≡ r = ground (arith, there, alive) in
            (
              e ∙ ap some same,
              ap (λ x. x.id) (sym same) ∙ find-key row_key k rows e,
              ap (λ x. x.deleted_at) (sym same) ∙ alive,
            )
        | inr (t, gone) ↦ ground (arith, there, gone)
      ]
]

-- A project that the caller may read is there, under its own key.
pub readable_by-ok :
    (k : ℕ) (actor : AuthenticatedUser) (rows : List Project) (p : ProjectView)
    → readable_by k actor rows ≡ ok p
    → (r : Project) × (get_project k rows ≡ some r) × (view_of (some r) ≡ some p) × (p.id ≡ k)
unfolding require_readable_project
readable_by-ok k actor rows p h = elim (Option-cases (get_project k rows)) [
  | inl nothing ↦ ground (arith, nothing, h)
  | inr (r, there) ↦
      let id = (get_project-found k rows r there).1 in
      let same : view_of (some r) ≡ some p = ground (arith, there, h) in
      let own : r.id ≡ p.id = cc same in (r, there, same, sym own ∙ id)
]

reindex_locked-ok :
    (is_evaluating : Bool) (k job : ℕ) (o : Option Project) (s t : ProjectSession) (a : Reindexed)
    → reindex_locked is_evaluating job o s ≡ ok a
    → committed_by a ≡ some t
    → (r : Project) × (o ≡ some r)
      × (is_busy r ≡ false)
      × (committed_by (request r.id job s) ≡ some t)
reindex_locked-ok is_evaluating k job none s t a h e = cc h
reindex_locked-ok is_evaluating k job (some r) s t a h e = elim (Bool-cases (is_busy r)) [
  | inl busy ↦ ground (arith, busy, h, e)
  | inr idle ↦ elim (Bool-cases is_evaluating) [
    | inl evaluating ↦ ground (arith, idle, evaluating, h)
    | inr free ↦
        let same : request r.id job s ≡ a = ground (arith, idle, free, h) in
        (r, refl, idle, ap committed_by same ∙ e)
  ]
]

pub reindex-IsRequested :
    (is_evaluating : Bool) (k job : ℕ) (actor : AuthenticatedUser) (s t : ProjectSession)
    (a : Reindexed)
    → reindex is_evaluating k actor job s ≡ ok a
    → committed_by a ≡ some t
    → (r : Project) × IsRequested k r s t
unfolding reindex
reindex-IsRequested is_evaluating k job actor s t a h e =
    let (p, readable, rest) =
      bind-ok (readable_by k actor s.rows)
        (λ p.
          require_permission actor p.id project_reindex
          >> reindex_locked is_evaluating job (get_project p.id s.rows) s)
        a h in
    let (r0, there, view, own) = readable_by-ok k actor s.rows p readable in
    let (u, allowed, locked) =
      bind-ok (require_permission actor p.id project_reindex)
        (λ u. reindex_locked is_evaluating job (get_project p.id s.rows) s) a rest in
    let (r, found, idle, sent) =
      reindex_locked-ok is_evaluating k job (get_project p.id s.rows) s t a locked e in
    let found_k = ap (λ j. get_project j s.rows) (sym own) ∙ found in
    let same_id = (get_project-found k s.rows r found_k).1 in
    let (rows, committed, clock) =
      committed_by-request k job s t
        (ap (λ j. committed_by (request j job s)) (sym same_id) ∙ sent) in
    (r, record { found = found_k; idle = idle; rows = rows; committed = committed; clock = clock })

pub requested-row :
    (k : ℕ) (r : Project) (s t : ProjectSession)
    → IsRequested k r s t
    → find row_key k t.rows ≡ some (flagged s.clock r)
requested-row k r s t h =
    ap (find row_key k) h.rows
    ∙ find-update_where_only row_key (flagged s.clock) k s.rows (λ q. refl)
    ∙ ap (edited (λ q. true) (flagged s.clock)) (get_project-found k s.rows r h.found).0

pub flagged-seen :
    (now later fresh : ℕ) (r : Project)
    → r.deleted_at ≡ none
    → lease_free later r ≡ true
    → is_some_eq r.last_job_id fresh ≡ false
    → now + seconds 120 < later
    → (is_stranded later 120 (flagged now r) ≡ true)
      × (claimable later fresh (λ _. true) (flagged now r) ≡ true)
unfolding is_stranded claimable
flagged-seen now later fresh r alive free new h = elim (Option-cases r.lease_expires_at) [
  | inl no_lease ↦ ground (arith, alive, free, new, h, no_lease)
  | inr (due, lease) ↦ ground (arith, alive, free, new, h, lease)
]
