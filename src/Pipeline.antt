-- ===== src/Pipeline.antt =====
-- backend/app/ingestion/pipeline.py: one indexing run. What it calls outside this repository, and what other
-- processes do to the rows while it indexes, are the fields of `Services`; a call returns or raises one of the
-- three kinds of error. `World` has the database session, the points of every collection, and what other
-- processes could see so far: the collections and the committed rows after each write. The files of a
-- clone are given as `walk` yields them, with the text of each, if it can be read.
pub mod Views
pub mod Indexing
pub mod Swap
pub mod Answerable
pub mod Elsewhere
mod Examples
use ask_repo.Retrieval.{drop}
use ask_repo.Jobs.Lease.{row_key}
use ask_repo.Budget.{take}
use ask_repo.Jobs.Session.{rollback, commit}
use ask_repo.Table.{find}
use ask_repo.Jobs.Projects.{
  abandon, indexing, set_status, is_ready, failed, ready, ProjectSession, ProjectColumns, Project,
  release, ProjectStatus,
}
use ask_repo.Jobs.Ingestion.{retryable, terminal, unexpected, ran, Ran}
use ask_repo.Chunker.{embedding_text, SourceFile, Chunk}
use ask_repo.VectorStore.{points_for, upsert, Point, delete_generation}
use Prim.Native.String.{String}
use ask_repo.Prelude.{
  ℕ, zero, suc, ◌+◌, Bool, true, false, Option, none, some, List, [], ◌∷◌, ◌++◌, map, length, leb,
  ◌==◌, if◌then◌else◌, is_none,
}

pub data Failure : Type 0 where
  terminal_error retryable_error other_error : String → Failure

-- What a call returns, or the error that it raises.
pub data Outcome {ℓ} (A : Type ℓ) : Type ℓ where
  broke : Failure → Outcome A
  gave : A → Outcome A

pub record Clone : Type 0 where
  pub files : List (SourceFile × Option (List ℕ))
  pub commit_sha : ℕ

pub record Services : Type 0 where
  pub collection : ℕ
  pub model_id : ℕ
  pub batch_size : ℕ
  pub uuid5 : ℕ → ℕ × ℕ × ℕ → ℕ
  pub path_text : ℕ → List ℕ
  pub decrypt : Project → Outcome (Unit {0})
  -- The reason for which `validate_repo_url` rejects the project's URL.
  pub rejected : Project → Option String
  pub clone : Project → Outcome Clone
  pub prepare : Outcome (Unit {0})
  pub split_file : SourceFile → List ℕ → List Chunk
  pub embed_documents : List (List ℕ) → Outcome (List ℕ)
  pub qdrant_upsert : List Point → Outcome (Unit {0})
  -- Whether a write that raises was carried out.
  pub is_written : List Point → Bool
  pub qdrant_delete : ℕ → Outcome (Unit {0})
  -- `scrub(..)[:MAX_RECORDED_ERROR_CHARS]`.
  pub scrubbed : String → String
  -- What others do to the rows while the files are indexed, the heartbeat included.
  pub meanwhile : ProjectSession → ProjectSession

abbrev pub View : Type 0
View = (ℕ → List Point) × List Project

pub record World : Type 0 where
  pub session : ProjectSession
  pub stores : ℕ → List Point
  pub seen : List View

abbrev pub Step {ℓ} : Type ℓ → Type ℓ
Step A = World → Outcome A × World

infixl 5 ◌>>=◌
abbrev pub next {ℓ κ} :
    {A : Type ℓ} {B : Type κ} → (A → Step B) → Outcome A × World → Outcome B × World
next rest (broke e, w) = (broke e, w)
next rest (gave a, w) = rest a w

abbrev pub ◌>>=◌ {ℓ κ} : {A : Type ℓ} {B : Type κ} → Step A → (A → Step B) → Step B
first >>= rest = λ w. next rest (first w)

infixl 5 ◌>>◌
abbrev pub ◌>>◌ {κ} : {B : Type κ} → Step (Unit {0}) → Step B → Step B
first >> rest = first >>= λ _. rest

abbrev pub lift {ℓ} : {A : Type ℓ} → Outcome A → Step A
lift o w = (o, w)

-- What others can see now.
abbrev pub view : World → View
view w = (w.stores, w.session.committed)

abbrev pub show : World → World
show w = record w { seen = view w ∷ w.seen }

abbrev pub write_store : ℕ → (List Point → List Point) → World → World
write_store c f w = show (record w { stores = λ j. if j == c then f (w.stores j) else w.stores j })

abbrev pub commit_session : ProjectSession → World → World
commit_session s w = show (record w { session = commit s })

-- `repository.get`: a soft-deleted row is none.
abbrev pub live : Option Project → Option Project
live none = none
live (some r) = if is_none r.deleted_at then some r else none

abbrev pub get_project : ℕ → List Project → Option Project
get_project k rows = live (find row_key k rows)

module _ (s : Services) where
  abbrev pub tell_write : List Point → Outcome (Unit {0}) → Step (Unit {0})
  tell_write ps (gave _) w = (gave tt, write_store s.collection (upsert ps) w)
  tell_write ps (broke e) w =
      (broke e, if s.is_written ps then write_store s.collection (upsert ps) w else w)

  abbrev pub write_points : Option (List Point) → Step (Unit {0})
  write_points none w = (broke (other_error "ValueError"), w)
  write_points (some ps) w = tell_write ps (s.qdrant_upsert ps) w

  -- `_flush`.
  unfoldable pub flush : ℕ → ℕ → ℕ → List Chunk → Step (Unit {0})
  flush project_id generation commit_sha chunks =
      lift (s.embed_documents (map (embedding_text s.path_text) chunks)) >>= λ vectors.
      write_points (points_for s.uuid5 project_id generation commit_sha chunks vectors)

  -- `while len(batch) >= batch_size`, with fuel: what stays in the batch, and the count of chunks.
  unfoldable pub drain : ℕ → ℕ → ℕ → ℕ → List Chunk → ℕ → Step (List Chunk × ℕ)
  unfolding flush
  drain project_id generation commit_sha zero batch count w = (gave (batch, count), w)
  drain project_id generation commit_sha (suc fuel) batch count w =
      let head = take s.batch_size batch in
      let more =
        next
          (λ _.
            drain project_id generation commit_sha fuel (drop s.batch_size batch)
              (count + length head))
          (flush project_id generation commit_sha head w) in
      if leb s.batch_size (length batch) then more else (gave (batch, count), w)

  abbrev pub flush_rest : ℕ → ℕ → ℕ → List Chunk → Step (Unit {0})
  flush_rest project_id generation commit_sha [] w = (gave tt, w)
  flush_rest project_id generation commit_sha (c ∷ cs) w =
      flush project_id generation commit_sha (c ∷ cs) w

  -- The loop of `_index`, and the batch that is left after it.
  unfoldable pub index_files :
      ℕ → ℕ → ℕ → List (SourceFile × Option (List ℕ)) → List Chunk → ℕ → ℕ → Step (ℕ × ℕ)
  unfolding drain
  index_files project_id generation commit_sha [] batch file_count chunk_count =
      flush_rest project_id generation commit_sha batch >> λ w.
      (gave (file_count, chunk_count + length batch), w)
  index_files project_id generation commit_sha ((file, none) ∷ files) batch file_count chunk_count =
      index_files project_id generation commit_sha files batch file_count chunk_count
  index_files project_id generation commit_sha ((file, some source) ∷ files) batch file_count
        chunk_count =
      let full = batch ++ s.split_file file source in
      drain project_id generation commit_sha (length full) full chunk_count >>= λ r.
      index_files project_id generation commit_sha files r.0 (file_count + 1) r.1

  unfoldable pub index : ℕ → ℕ → Clone → Step (ℕ × ℕ)
  unfolding index_files
  index project_id generation clone =
      lift s.prepare >> index_files project_id generation clone.commit_sha clone.files [] 0 0

  abbrev pub delete_points : ℕ → ℕ → Step (Unit {0})
  delete_points project_id generation = lift (s.qdrant_delete generation) >> λ w.
      (gave tt, write_store s.collection (delete_generation project_id generation) w)

  -- `_discard_unclaimed_generation`, for what `repository.get` finds.
  abbrev pub discard_unless : Option Project → ℕ → ℕ → Step (Unit {0})
  discard_unless (some r) project_id generation w = (gave tt, w)
  discard_unless none project_id generation w = delete_points project_id generation w

  unfoldable pub discard_unclaimed_generation : ℕ → ℕ → Step (Unit {0})
  discard_unclaimed_generation project_id generation w =
      discard_unless (get_project project_id w.session.rows) project_id generation w

  -- `_advance_status`.
  unfoldable pub advance_status : ℕ → ProjectStatus → Step (Unit {0})
  advance_status project_id current w =
      if is_ready current
      then (gave tt, w)
      else (gave tt, commit_session (set_status project_id indexing w.session) w)

  abbrev pub checked : Option String → Outcome (Unit {0})
  checked none = gave tt
  checked (some reason) = broke (terminal_error reason)

  -- The run up to the clone and its status.
  unfoldable pub fetch : ℕ → Project → Step Clone
  unfolding advance_status
  fetch project_id project =
      lift (s.decrypt project)
      >> lift (checked (s.rejected project))
      >> lift (s.clone project)
      >>= λ clone. advance_status project_id project.status >> lift (gave clone)

  -- The columns that a finished run writes.
  abbrev pub recorded : ℕ → ℕ → ℕ × ℕ → ProjectColumns → ProjectColumns
  recorded generation commit_sha counts columns = record columns {
    last_indexed_commit = some commit_sha;
    file_count = some counts.0;
    chunk_count = some counts.1;
    active_generation = generation;
    embedding_collection = some s.collection;
    embedding_model = some s.model_id;
  }

  -- After the release, whether it was refused or not.
  abbrev pub after_release : ℕ → ℕ → Bool → Step (Unit {0})
  after_release project_id superseded false w =
      discard_unclaimed_generation project_id (suc superseded) w
  after_release project_id superseded true w =
      if superseded == 0 then (gave tt, w) else delete_points project_id superseded w

  abbrev pub swap_to : ℕ → ℕ → Option (Bool × ProjectSession) → Step (Unit {0})
  swap_to project_id superseded none w = (broke (other_error "MultipleResultsFound"), w)
  swap_to project_id superseded (some (released, session)) w =
      after_release project_id superseded released (commit_session session w)

  -- The release that flips the pointer, and the deletion of the superseded generation after it.
  unfoldable pub swap : ℕ → ℕ → ℕ → ℕ → ℕ → ℕ × ℕ → Step (Unit {0})
  unfolding discard_unclaimed_generation
  swap project_id job_id worker_id superseded commit_sha counts w =
      let session = s.meanwhile w.session in
      swap_to project_id superseded
        (release project_id job_id worker_id ready none
          (recorded (suc superseded) commit_sha counts) session)
        (record w { session = session })

  -- The run from the clone on.
  unfoldable pub index_and_swap : ℕ → ℕ → ℕ → Project → Clone → Step (Unit {0})
  unfolding index swap
  index_and_swap project_id job_id worker_id project clone =
      index project_id (suc project.own.active_generation) clone >>= λ counts.
      swap project_id job_id worker_id project.own.active_generation clone.commit_sha counts

  -- The error that leaves the run, as the consumer sees it.
  abbrev pub raised_as : Failure → Ran
  raised_as (terminal_error reason) = terminal
  raised_as (retryable_error reason) = retryable reason
  raised_as (other_error reason) = unexpected reason

  abbrev pub raised_or : Ran → Outcome (Unit {0}) × World → Ran × World
  raised_or r (gave _, w) = (r, w)
  raised_or r (broke e, w) = (raised_as e, w)

  abbrev pub discard_written : ℕ → Option ℕ → Bool → Step (Unit {0})
  discard_written project_id none released w = (gave tt, w)
  discard_written project_id (some generation) true w = (gave tt, w)
  discard_written project_id (some generation) false w =
      discard_unclaimed_generation project_id generation w

  abbrev pub record_terminal : ℕ → Option ℕ → Option (Bool × ProjectSession) → World → Ran × World
  record_terminal project_id generation none w = (unexpected "MultipleResultsFound", w)
  record_terminal project_id generation (some (released, session)) w =
      raised_or terminal (discard_written project_id generation released (commit_session session w))

  -- The three handlers.
  unfoldable pub handle_failure : ℕ → ℕ → ℕ → Option ℕ → Failure → World → Ran × World
  unfolding discard_unclaimed_generation
  handle_failure project_id job_id worker_id generation (terminal_error reason) w =
      record_terminal project_id generation
        (release project_id job_id worker_id failed (some (s.scrubbed reason)) (λ c. c) w.session) w
  handle_failure project_id job_id worker_id generation (retryable_error reason) w =
      (retryable reason, w)
  handle_failure project_id job_id worker_id generation (other_error reason) w =
      (unexpected reason, commit_session (abandon project_id worker_id (rollback w.session)).1 w)

  abbrev pub finish_run : ℕ → ℕ → ℕ → Option ℕ → Outcome (Unit {0}) × World → Ran × World
  finish_run project_id job_id worker_id generation (gave _, w) = (ran, w)
  finish_run project_id job_id worker_id generation (broke e, w) =
      handle_failure project_id job_id worker_id generation e w

  abbrev pub continue_run : ℕ → ℕ → ℕ → Project → Outcome Clone × World → Ran × World
  continue_run project_id job_id worker_id project (broke e, w) =
      handle_failure project_id job_id worker_id none e w
  continue_run project_id job_id worker_id project (gave clone, w) =
      finish_run project_id job_id worker_id (some (suc project.own.active_generation))
        (index_and_swap project_id job_id worker_id project clone w)

  abbrev pub run_project : ℕ → ℕ → ℕ → Option Project → World → Ran × World
  run_project project_id job_id worker_id none w = (ran, w)
  run_project project_id job_id worker_id (some project) w =
      continue_run project_id job_id worker_id project (fetch project_id project w)

  -- `run`.
  unfoldable pub run : ℕ → ℕ → ℕ → World → Ran × World
  unfolding fetch index_and_swap handle_failure
  run project_id job_id worker_id w =
      run_project project_id job_id worker_id (get_project project_id w.session.rows) w
