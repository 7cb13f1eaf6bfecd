-- ===== src/Projects/Sweep.antt =====
-- A request whose message was lost is published again.
use mathlib.Core.List.{append_assoc, append-nil}
use ask_repo.Jobs.Projects.Recovery.{seen_claimable}
use ask_repo.Pipeline.{get_project}
use ask_repo.Projects.Requests.{
  flagged-seen, requested-row, get_project-found, reindex-IsRequested, committed_by,
}
use ask_repo.Jobs.Ladder.{ingest_topic, Topic}
use ask_repo.Table.{select_where, find}
use ask_repo.Access.{ok, AuthenticatedUser}
use ask_repo.Jobs.Projects.{is_stranded, find_stranded, ProjectSession, Project}
use ask_repo.Jobs.Session.{commit, produce_to, Message}
use ask_repo.Projects.{flagged, Reindexed, first_job, reindex, publish_all, reconcile_projects}
use mathlib.Core.Path.{subst}
use ask_repo.Jobs.Lease.{row_key, lease_free, seconds}
use ask_repo.Prelude.{
  ℕ, ◌+◌, ◌<◌, ◌≡◌, refl, sym, ap, ◌∙◌, ◌⊎◌, inl, inr, Bool, true, false, Option, none, some, List,
  [], ◌∷◌, ◌++◌, map, arith, ◌==◌, if◌then◌else◌, is_some_eq, Bool-cases,
}

-- The message was handed to the main topic.
abbrev pub IsPublished : Message → List (Topic × Message) → Type 0
IsPublished m [] = ⊥
IsPublished m ((topic, x) ∷ rest) = ((topic ≡ ingest_topic) × (x ≡ m)) ⊎ IsPublished m rest

IsPublished-append :
    (m : Message) (xs ys : List (Topic × Message)) → IsPublished m ys → IsPublished m (xs ++ ys)
IsPublished-append m [] ys h = h
IsPublished-append m (x ∷ xs) ys h = inr (IsPublished-append m xs ys h)

-- The row is among the rows.
abbrev IsAmong : Project → List Project → Type 0
IsAmong r [] = ⊥
IsAmong r (q ∷ rs) = (q ≡ r) ⊎ IsAmong r rs

found-IsAmong :
    (k : ℕ) (p : Project → Bool) (rows : List Project) (r : Project)
    → find row_key k rows ≡ some r
    → p r ≡ true
    → IsAmong r (select_where p rows)
unfolding find select_where
found-IsAmong k p [] r h e = cc h
found-IsAmong k p (q ∷ rows) r h e = elim (Bool-cases (q.id == k)) [
  | inl hit ↦
      let same : q ≡ r = ground (arith, hit, h) in
      let yes_p : p q ≡ true = ap p same ∙ e in rw yes_p (inl same)
  | inr miss ↦
      let rest = found-IsAmong k p rows r (ground (arith, miss, h)) e in
      elim (Bool-cases (p q)) [ inl on ↦ rw on (inr rest) | inr off ↦ rw off rest ]
]

produce_to-up :
    (m : Message) (s : ProjectSession)
    → s.broker_up ≡ true
    → produce_to ingest_topic m s
      ≡ some (record s { produced = s.produced ++ (ingest_topic, m) ∷ [] })
unfolding produce_to
produce_to-up m s up =
    ap
      (λ b. if b then some (record s { produced = s.produced ++ (ingest_topic, m) ∷ [] }) else none)
      up

publish_all-up :
    (fresh : ℕ → ℕ) (rs : List Project) (s : ProjectSession)
    → s.broker_up ≡ true
    → publish_all fresh rs s ≡ (
      true,
      record s {
        produced = s.produced ++ map (λ r. (ingest_topic, first_job r.id (fresh r.id))) rs;
      },
    )
unfolding publish_all produce_to
publish_all-up fresh [] s up =
    ap (λ l. (true, record s { produced = l })) (sym (append-nil s.produced))
publish_all-up fresh (r ∷ rs) s up =
    let t = record s {
      produced = s.produced ++ (ingest_topic, first_job r.id (fresh r.id)) ∷ [];
    } in
    ap
      (λ (o : Option ProjectSession). elim o as (λ _. Bool × ProjectSession) [
        | none ↦ (false, s)
        | some t ↦ publish_all fresh rs t
      ])
      (produce_to-up (first_job r.id (fresh r.id)) s up)
    ∙ publish_all-up fresh rs t up
    ∙ ap (λ l. (true, record s { produced = l }))
        (append_assoc s.produced ((ingest_topic, first_job r.id (fresh r.id)) ∷ [])
          (map (λ r. (ingest_topic, first_job r.id (fresh r.id))) rs))

among-IsPublished :
    (fresh : ℕ → ℕ) (r : Project) (rs : List Project)
    → IsAmong r rs
    → IsPublished
        (first_job r.id (fresh r.id))
        (map (λ r. (ingest_topic, first_job r.id (fresh r.id))) rs)
among-IsPublished fresh r [] h = h
among-IsPublished fresh r (q ∷ rs) (inl e) =
    inl (refl, ap (λ (x : Project). first_job x.id (fresh x.id)) e)
among-IsPublished fresh r (q ∷ rs) (inr h) = inr (among-IsPublished fresh r rs h)

reconcile_projects-IsPublished :
    (fresh : ℕ → ℕ) (k : ℕ) (s : ProjectSession) (r : Project)
    → s.broker_up ≡ true
    → find row_key k s.rows ≡ some r
    → is_stranded s.clock 120 r ≡ true
    → IsPublished (first_job r.id (fresh r.id)) (reconcile_projects fresh s).produced
unfolding reconcile_projects find_stranded commit
reconcile_projects-IsPublished fresh k s r up found lost =
    let rs = select_where (is_stranded s.clock 120) s.rows in
    let sent =
      among-IsPublished fresh r rs
        (found-IsAmong k (is_stranded s.clock 120) s.rows r found lost) in
    rw (publish_all-up fresh rs s up) (
      IsPublished-append (first_job r.id (fresh r.id)) s.produced
        (map (λ r. (ingest_topic, first_job r.id (fresh r.id))) rs) sent)

-- A request for a reindex was committed, and the publication of its job raised or the job was lost. Nobody
-- writes to the project's row afterwards, and what lease it had has expired. Then each sweep that runs more
-- than 120 seconds later, with a broker that takes messages, publishes a job for the project, and a claim
-- of that job is admitted, if its id is not that of the last run.
pub requested_reindex_recovered :
    (is_evaluating : Bool) (k job later : ℕ) (fresh : ℕ → ℕ) (actor : AuthenticatedUser)
    (s t : ProjectSession) (a : Reindexed) (r : Project)
    → reindex is_evaluating k actor job s ≡ ok a
    → committed_by a ≡ some t
    → get_project k s.rows ≡ some r
    → lease_free later r ≡ true
    → is_some_eq r.last_job_id (fresh k) ≡ false
    → s.clock + seconds 120 < later
    → IsPublished
        (first_job k (fresh k))
        (reconcile_projects fresh
          (record t { rows = t.committed; clock = later; broker_up = true })).produced
      × (seen_claimable later (fresh k) (find row_key k t.committed) ≡ true)
requested_reindex_recovered is_evaluating k job later fresh actor s t a r h e there free new late =
    let (q, req) = reindex-IsRequested is_evaluating k job actor s t a h e in
    let both = sym req.found ∙ there in
    let same : q ≡ r = cc both in
    let (_, own, alive) = get_project-found k s.rows r there in
    let row : find row_key k t.committed ≡ some (flagged s.clock r) =
      ap (find row_key k) req.committed
      ∙ requested-row k q s t req
      ∙ ap (λ x. some (flagged s.clock x)) same in
    let (lost, claimable_now) = flagged-seen s.clock later (fresh k) r alive free new late in
    let sent =
      reconcile_projects-IsPublished fresh k
        (record t { rows = t.committed; clock = later; broker_up = true }) (flagged s.clock r) refl
        row lost in
    (
      subst
          (λ j.
            IsPublished (first_job j (fresh j))
              (reconcile_projects fresh
                (record t { rows = t.committed; clock = later; broker_up = true })).produced)
          own sent,
      ap (seen_claimable later (fresh k)) row ∙ claimable_now,
    )
