-- ===== src/Projects/Examples.antt =====
-- An owner of project 7 asks for a reindex, and deletes it after a run in another collection.
use ask_repo.Jobs.Exclusion.{soft_delete}
use ask_repo.Jobs.Projects.Recovery.{seen_claimable}
use ask_repo.Projects.Sweep.{requested_reindex_recovered, IsPublished}
use ask_repo.Projects.Once.{reindex_once}
use ask_repo.Jobs.Session.{stage}
use ask_repo.Projects.Deletion.{delete_lem, superseded_points_survive}
use ask_repo.Jobs.Lease.{seconds, row_key}
use ask_repo.Pipeline.{get_project, Services, World, gave, run}
use ask_repo.Projects.{
  in_flight, flagged, delete, reindex, dropped_from, first_job, reconcile_projects, unsent,
}
use ask_repo.Jobs.Projects.{ready, Project, ProjectSession, new_columns}
use ask_repo.VectorStore.{Point, search_matches}
use ask_repo.Access.Permissions.{owner, has}
use ask_repo.Table.{update_where, find}
use ask_repo.Access.{
  in_scope, resolve_project_scope, member, granted_ids, get_grant, ok, AuthenticatedUser,
  require_permission, require_readable_project,
}
use ask_repo.Prelude.{
  ℕ, ◌+◌, ◌*◌, ◌≡◌, refl, ◌≢◌, true, false, none, some, List, [], ◌∷◌, arith, ◌==◌, if◌then◌else◌,
}

abbrev owning : AuthenticatedUser
owning = record {
  id = 3;
  is_admin = false;
  grants = (7, record { project_id = 7; role = 1; permissions = owner }) ∷ [];
}

abbrev ready_project : Project
ready_project = record {
  id = 7;
  deleted_at = none;
  status = ready;
  error = none;
  lease_owner = none;
  lease_expires_at = none;
  last_job_id = some 11;
  updated_at = 0;
  own = record (new_columns 0) { active_generation = 4; embedding_collection = some 1 };
}

-- The broker is down.
abbrev quiet_session : ProjectSession
quiet_session = record {
  clock = seconds 10;
  committed = ready_project ∷ [];
  rows = ready_project ∷ [];
  staged = [];
  published = [];
  produced = [];
  broker_up = false;
}

abbrev asked_session : ProjectSession
asked_session = record quiet_session {
  rows = flagged (seconds 10) ready_project ∷ [];
  committed = flagged (seconds 10) ready_project ∷ [];
  published = 7 ∷ [];
}

asked : reindex false 7 owning 12 quiet_session ≡ ok (unsent asked_session)
unfolding reindex require_readable_project require_permission find update_where has stage in_scope
    resolve_project_scope member granted_ids get_grant
asked = refl

requested_reindex_recovered_example :
    IsPublished
      (first_job 7 13)
      (reconcile_projects
        (λ k. 13)
        (record asked_session {
          rows = asked_session.committed;
          clock = seconds 200;
          broker_up = true;
        })).produced
    × (seen_claimable (seconds 200) 13 (find row_key 7 asked_session.committed) ≡ true)
unfolding find
requested_reindex_recovered_example =
    requested_reindex_recovered false 7 12 (seconds 200) (λ k. 13) owning quiet_session
      asked_session (unsent asked_session) ready_project asked refl refl refl refl (omega arith)

reindex_once_example : reindex true 7 owning 14 asked_session ≡ ok in_flight
reindex_once_example =
    reindex_once false true 7 12 14 owning quiet_session asked_session (unsent asked_session) asked
      refl

abbrev point_in : ℕ → ℕ → Point
point_in k g = record {
  id = k * 10 + g;
  vector = 0;
  payload = record {
    project_id = k;
    generation = g;
    file_path = 1;
    start_line = 1;
    end_line = 2;
    language = 0;
    symbol = none;
    chunk_index = 0;
    commit_sha = 40;
    content = [];
  };
}

abbrev both_collections : ℕ → List Point
both_collections j = if j == 1 then point_in 7 4 ∷ point_in 8 2 ∷ [] else point_in 7 3 ∷ []

abbrev deleted_session : ProjectSession
deleted_session = record quiet_session {
  rows = record ready_project { deleted_at = some (seconds 10); updated_at = seconds 10 } ∷ [];
  committed = record ready_project { deleted_at = some (seconds 10); updated_at = seconds 10 } ∷ [];
  published = 7 ∷ [];
}

deletes :
    (stores : ℕ → List Point)
    → delete false 7 owning (quiet_session, stores)
      ≡ ok (deleted_session, dropped_from 7 (some 1) stores)
unfolding delete require_readable_project require_permission find update_where has stage soft_delete
    in_scope resolve_project_scope member granted_ids get_grant
deletes stores = refl

delete_lem_example :
    (get_project 7 deleted_session.committed ≡ none)
    × ((g : ℕ) → search_matches 7 g (dropped_from 7 (some 1) both_collections 1) ≡ [])
    × ((j g i : ℕ)
        → j ≢ 7
        → search_matches j g (dropped_from 7 (some 1) both_collections i)
          ≡ search_matches j g (both_collections i))
unfolding find
delete_lem_example =
    delete_lem false 7 owning quiet_session deleted_session both_collections
      (dropped_from 7 (some 1) both_collections) ready_project 1 (deletes both_collections) refl
      refl

-- A worker of another collection, and a repository with no files.
abbrev moved : Services
moved = record {
  collection = 1;
  model_id = 9;
  batch_size = 1;
  uuid5 = λ k t. k;
  path_text = λ p. [];
  decrypt = λ r. gave tt;
  rejected = λ r. none;
  clone = λ r. gave (record { files = []; commit_sha = 50 });
  prepare = gave tt;
  split_file = λ f text. [];
  embed_documents = λ texts. gave [];
  qdrant_upsert = λ points. gave tt;
  is_written = λ points. false;
  qdrant_delete = λ g. gave tt;
  scrubbed = λ t. t;
  meanwhile = λ x. x;
}

abbrev claimed_world : World
claimed_world = record {
  session = record quiet_session {
    rows = record ready_project { lease_owner = some 1 } ∷ [];
    committed = record ready_project { lease_owner = some 1 } ∷ [];
  };
  stores = both_collections;
  seen = [];
}

superseded_points_survive_example :
    dropped_from 7 (some 1) (run moved 7 12 1 claimed_world).1.stores 2 ≡ both_collections 2
unfolding find
superseded_points_survive_example =
    superseded_points_survive moved 12 1 claimed_world false 7 2 owning quiet_session
      deleted_session (dropped_from 7 (some 1) (run moved 7 12 1 claimed_world).1.stores)
      ready_project (λ (e : ◌≡◌ {A = ℕ} 2 1). absurd (omega arith))
      (deletes (run moved 7 12 1 claimed_world).1.stores) refl refl
