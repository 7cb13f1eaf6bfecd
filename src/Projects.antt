-- ===== src/Projects.antt =====
-- backend/app/services/project.py: the requests that start a reindex and delete a project; and the sweep of
-- backend/app/worker.py that publishes lost jobs of projects again. The rows that a deletion sweeps beside the
-- project's own, and the audit entries, are not modelled. Whether an eval run is active, and what Qdrant
-- answers to a deletion, are arguments, and so are the fresh ids.
pub mod Requests
pub mod Sweep
pub mod Once
pub mod Deletion
mod Examples
use ask_repo.Access.Permissions.{project_reindex, project_delete}
use ask_repo.Pipeline.{get_project}
use ask_repo.Table.{update_where}
use ask_repo.Jobs.Ladder.{ingest_topic}
use ask_repo.Jobs.Exclusion.{soft_delete}
use ask_repo.Access.{
  ◌>>=◌, ◌>>◌, vector_store_unavailable, eval_run_in_progress, ok, require_permission,
  project_not_found, raised, require_readable_project, Call, ProjectView, AuthenticatedUser,
}
use ask_repo.VectorStore.{delete_project, Point}
use ask_repo.Jobs.Session.{rollback, stage_live_event, commit, Message, produce_to}
use ask_repo.Jobs.Projects.{is_ready, find_stranded, ProjectSession, Project, is_busy}
use ask_repo.Prelude.{ℕ, Bool, true, false, Option, none, some, List, [], ◌∷◌, ◌==◌, if◌then◌else◌}

-- A row as the access rules read it.
abbrev pub view_of : Option Project → Option ProjectView
view_of none = none
view_of (some r) = some (record {
  id = r.id;
  is_ready = is_ready r.status;
  embedding_collection = r.own.embedding_collection;
  embedding_model = r.own.embedding_model;
})

abbrev pub readable_by : ℕ → AuthenticatedUser → List Project → Call ProjectView
readable_by k actor rows = require_readable_project (λ j. view_of (get_project j rows)) k actor none

-- `_enqueue`, and the message of the sweep.
abbrev pub first_job : ℕ → ℕ → Message
first_job project_id job_id = record {
  target_id = project_id;
  job_id = job_id;
  attempt = 0;
  not_before_ms = 0;
  original_topic = ingest_topic;
}

-- How a request for a reindex ends when it is not refused: a run is in flight, the job is published, or
-- the request is committed and the publication raises.
pub data Reindexed : Type 0 where
  in_flight : Reindexed
  enqueued : ProjectSession → Reindexed
  unsent : ProjectSession → Reindexed

abbrev pub sent_or_not : ProjectSession → Option ProjectSession → Reindexed
sent_or_not s none = unsent s
sent_or_not s (some t) = enqueued t

abbrev pub flagged : ℕ → Project → Project
flagged now r = record r { own = record (r.own) { reindex_in_progress = true }; updated_at = now }

-- The flag is raised and committed before the job is published.
unfoldable pub request : ℕ → ℕ → ProjectSession → Reindexed
unfolding commit stage_live_event produce_to
request project_id job_id s =
    let (rows, _) = update_where (λ (r : Project). r.id == project_id) (flagged s.clock) s.rows in
    let committed = commit (stage_live_event project_id (record s { rows = rows })) in
    sent_or_not committed (produce_to ingest_topic (first_job project_id job_id) committed)

abbrev pub reindex_locked : Bool → ℕ → Option Project → ProjectSession → Call Reindexed
reindex_locked is_evaluating job_id none s = raised project_not_found
reindex_locked is_evaluating job_id (some r) s =
    if is_busy r
    then ok in_flight
    else if is_evaluating
    then raised eval_run_in_progress
    else ok (request r.id job_id s)

unfoldable pub reindex : Bool → ℕ → AuthenticatedUser → ℕ → ProjectSession → Call Reindexed
unfolding is_busy request
reindex is_evaluating project_id actor job_id s = readable_by project_id actor s.rows >>= λ p.
    require_permission actor p.id project_reindex
    >> reindex_locked is_evaluating job_id (get_project p.id s.rows) s

-- The session and the points, after a deletion.
abbrev pub Stored : Type 0
Stored = ProjectSession × (ℕ → List Point)

abbrev pub dropped_from : ℕ → Option ℕ → (ℕ → List Point) → ℕ → List Point
dropped_from k none stores j = stores j
dropped_from k (some c) stores j = if j == c then delete_project k (stores j) else stores j

-- `if project.embedding_collection`, and the call that may be refused.
abbrev pub is_refused : Option ℕ → Bool → Bool
is_refused none down = false
is_refused (some c) down = down

abbrev pub delete_row : ℕ → ProjectSession → ProjectSession
delete_row k s = stage_live_event k (record s { rows = soft_delete s.clock k s.rows })

-- `delete`. The points go before the commit, and if Qdrant refuses, nothing is committed.
unfoldable pub delete : Bool → ℕ → AuthenticatedUser → Stored → Call Stored
unfolding soft_delete commit stage_live_event delete_project
delete is_qdrant_down project_id actor (s, stores) = readable_by project_id actor s.rows >>= λ p.
    require_permission actor p.id project_delete
    >> (if is_refused p.embedding_collection is_qdrant_down
        then raised vector_store_unavailable
        else ok (commit (delete_row p.id s), dropped_from p.id p.embedding_collection stores))

-- `reconcile_once`, over the rows it found: whether every message was published, and the session.
unfoldable pub publish_all : (ℕ → ℕ) → List Project → ProjectSession → Bool × ProjectSession
unfolding produce_to
publish_all fresh [] s = (true, s)
publish_all fresh (r ∷ rs) s = elim (produce_to ingest_topic (first_job r.id (fresh r.id)) s) [
  | none ↦ (false, s)
  | some t ↦ publish_all fresh rs t
]

abbrev pub stranded_after_seconds : ℕ
stranded_after_seconds = 120

-- The step of the sweep, in a transaction of its own.
unfoldable pub reconcile_projects : (ℕ → ℕ) → ProjectSession → ProjectSession
unfolding publish_all commit rollback find_stranded
reconcile_projects fresh s =
    let (all_sent, t) = publish_all fresh (find_stranded stranded_after_seconds s) s in
    if all_sent then commit t else rollback t
