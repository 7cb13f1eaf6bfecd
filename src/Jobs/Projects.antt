-- ===== src/Jobs/Projects.antt =====
-- backend/app/repositories/project.py: the lease statements of the `projects` table, on a session.
-- `none` in a result is the exception of `one_or_none`. Of the columns that only projects have, the
-- model keeps those that these statements read or write, and one that a run's outcome sets.
pub mod Recovery
use Prim.Native.String.{String}
use ask_repo.Prelude.{
  ℕ, ◌+◌, Bool, true, false, ◌&&◌, ◌||◌, Option, none, List, ltb, ◌==◌, if◌then◌else◌, is_none,
  is_some_lt,
}
use ask_repo.Table.{rowcount, select_where, update_where}
use ask_repo.Jobs.Lease.{Row, abandon_lease, claim_lease, release_lease, renew_lease, seconds}
use ask_repo.Jobs.Session.{announced, Session, stage_live_event}

pub data ProjectStatus : Type 0 where
  pending cloning indexing ready failed : ProjectStatus

pub record ProjectColumns : Type 0 where
  pub reindex_in_progress : Bool
  pub created_at : ℕ
  pub active_generation : ℕ
  pub last_indexed_commit : Option ℕ
  pub file_count : Option ℕ
  pub chunk_count : Option ℕ
  pub embedding_collection : Option ℕ
  pub embedding_model : Option ℕ

-- A project that was never indexed.
abbrev pub new_columns : ℕ → ProjectColumns
new_columns created_at = record {
  reindex_in_progress = false;
  created_at = created_at;
  active_generation = 0;
  last_indexed_commit = none;
  file_count = none;
  chunk_count = none;
  embedding_collection = none;
  embedding_model = none;
}

abbrev pub Project : Type 0
Project = Row ProjectStatus ProjectColumns

abbrev pub ProjectSession : Type 0
ProjectSession = Session ProjectStatus ProjectColumns

abbrev pub is_ready : ProjectStatus → Bool
is_ready ready = true
is_ready _ = false

abbrev pub is_pending : ProjectStatus → Bool
is_pending pending = true
is_pending _ = false

-- A reindex leaves the project ready throughout, and raises the flag.
unfoldable pub claim_values : Project → ProjectStatus × Option String × ProjectColumns
claim_values r = (
  if is_ready r.status then ready else cloning,
  r.error,
  record (r.own) { reindex_in_progress = is_ready r.status },
)

unfoldable pub claim : ℕ → ℕ → ℕ → ℕ → ProjectSession → Option (Bool × ProjectSession)
unfolding stage_live_event
claim project_id job_id worker_id lease_seconds s =
    announced
      (claim_lease s.clock project_id job_id worker_id lease_seconds (λ _. true) claim_values
        s.rows)
      project_id s

unfoldable pub renew : ℕ → ℕ → ℕ → ProjectSession → Bool × ProjectSession
renew project_id worker_id lease_seconds s =
    let (kept, rows) = renew_lease s.clock project_id worker_id lease_seconds false s.rows in
    (kept, record s { rows = rows })

-- `set_status` has no gate but the key.
unfoldable pub set_status : ℕ → ProjectStatus → ProjectSession → ProjectSession
unfolding stage_live_event
set_status project_id status s =
    let (rows, result) =
      update_where (λ (r : Project). r.id == project_id)
        (λ r. record r { status = status; updated_at = s.clock }) s.rows in
    if rowcount result == 1
    then stage_live_event project_id (record s { rows = rows })
    else record s { rows = rows }

unfoldable pub lowered : (ProjectColumns → ProjectColumns) → Project → ProjectColumns
lowered fields r = record (fields r.own) { reindex_in_progress = false }

unfoldable pub release :
    ℕ
    → ℕ
    → ℕ
    → ProjectStatus
    → Option String
    → (ProjectColumns → ProjectColumns)
    → ProjectSession
    → Option (Bool × ProjectSession)
unfolding stage_live_event
release project_id job_id worker_id status error fields s =
    announced
      (release_lease s.clock project_id job_id worker_id status error (lowered fields) s.rows)
      project_id s

unfoldable pub abandon : ℕ → ℕ → ProjectSession → Bool × ProjectSession
unfolding stage_live_event
abandon project_id worker_id s =
    let (kept, rows) = abandon_lease s.clock project_id worker_id (lowered (λ c. c)) s.rows in
    (
      kept,
      if kept
          then stage_live_event project_id (record s { rows = rows })
          else record s { rows = rows },
    )

-- The three ways in which a project's job is lost.
unfoldable pub is_stranded : ℕ → ℕ → Project → Bool
is_stranded now pending_older_than_seconds r =
    is_none r.deleted_at
    && ((is_pending r.status
          && (is_none r.lease_expires_at
              && ltb (r.own.created_at + seconds pending_older_than_seconds) now))
        || (is_some_lt r.lease_expires_at now
            || (r.own.reindex_in_progress
                && (is_none r.lease_expires_at
                    && ltb (r.updated_at + seconds pending_older_than_seconds) now))))

unfoldable pub find_stranded : ℕ → ProjectSession → List Project
find_stranded pending_older_than_seconds s =
    select_where (is_stranded s.clock pending_older_than_seconds) s.rows

-- `BUSY_STATUSES` of backend/app/services/project.py.
abbrev busy_status : ProjectStatus → Bool
busy_status pending = true
busy_status cloning = true
busy_status indexing = true
busy_status _ = false

-- The test of `ProjectService.reindex` there: a busy project is not enqueued.
unfoldable pub is_busy : Project → Bool
is_busy r = busy_status r.status || r.own.reindex_in_progress
