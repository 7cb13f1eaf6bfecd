-- ===== src/Jobs/Generation.antt =====
-- backend/app/queue/job_failure.py, and the handlers of backend/app/queue/checklist.py and mock_data.py
-- on the lease statements of backend/app/repositories/checklist_module.py and mock_data_dataset.py.
-- The two tables have the same statuses and the same statements, and the two handlers the same text but
-- for the ladder; a dataset's event is named by the dataset. The generator is an argument, as it is there
-- (`GenerationRunner` is a protocol), with what it does to the session; so are fresh ids, the time that
-- passes between two reads of the clock, and `str` of a number. `scrub` of a text without secrets is the
-- text. The `count` of a mock-data message, which only the generator reads, is left out.
mod Examples
pub mod Outcomes
pub mod Settled
pub mod Handlers
use Prim.Native.String.{String}
use Prim.Native.String.{◌++◌ as ◌^^◌}
use ask_repo.Prelude.{ℕ, ◌+◌, ◌*◌, Bool, true, false, Option, none, some, leb, if◌then◌else◌}
use ask_repo.Jobs.Lease.{claim_lease, claimed, defer_lease, lease_seconds_default, release_lease}
use ask_repo.Jobs.Ladder.{
  Destination, checklist_next_destination, checklist_retries_exhausted, mock_data_next_destination,
  mock_data_retries_exhausted, next_destination,
}
use ask_repo.Jobs.Ingestion.{JobOutcome, completed, skipped, retry_scheduled, dead_lettered}
use ask_repo.Jobs.Session.{Message, Session, announced, commit, now_ms, pass, produce_to, rollback}

-- `ChecklistModuleStatus` and `MockDataDatasetStatus`.
pub data GenerationStatus : Type 0 where
  empty generating review ready failed : GenerationStatus

-- How a run of the generator ended: it returned, or raised one of the two classified errors, or another,
-- with the name of the error's class.
pub data Generated : Type 0 where
  generated : Generated
  terminal_error retryable_error other_error : String → Generated

module _ {E : Type 0} where
  unfoldable pub claim :
      ℕ → ℕ → ℕ → ℕ → Session GenerationStatus E → Option (Bool × Session GenerationStatus E)
  claim target_id job_id worker_id lease_seconds s =
      announced
        (claim_lease s.clock target_id job_id worker_id lease_seconds (λ _. true)
          (λ r. (generating, none, r.own)) s.rows)
        target_id s

  unfoldable pub release :
      ℕ
      → ℕ
      → ℕ
      → GenerationStatus
      → Option String
      → (E → E)
      → Session GenerationStatus E
      → Option (Bool × Session GenerationStatus E)
  release target_id job_id worker_id status error fields s =
      announced
        (release_lease s.clock target_id job_id worker_id status error (λ r. fields r.own) s.rows)
        target_id s

  unfoldable pub defer :
      ℕ → ℕ → ℕ → Session GenerationStatus E → Option (Bool × Session GenerationStatus E)
  defer target_id worker_id hold_seconds s =
      announced (defer_lease s.clock target_id worker_id hold_seconds s.rows) target_id s

abbrev pub is_generating : GenerationStatus → Bool
is_generating generating = true
is_generating _ = false

module _ {S E : Type 0} where
  unfoldable pub defer_for_retry :
      (ℕ → Session S E → Option (Bool × Session S E))
      → (ℕ → ℕ → Destination)
      → ℕ
      → ℕ
      → Session S E
      → Option (Session S E)
  defer_for_retry defer next_destination attempt max_attempts s =
      let (topic, delay_seconds) = next_destination attempt max_attempts in
      elim (defer delay_seconds (rollback s)) [
        | none ↦ none
        | some (held, s') ↦ some (if held then commit s' else rollback s')
      ]

  -- `announce` is what the transaction of a recorded failure does besides.
  unfoldable pub record_failure :
      (Session S E → Option (Bool × Session S E))
      → (Session S E → Session S E)
      → Bool
      → Session S E
      → Option (Session S E)
  record_failure release announce rollback_first s =
      elim (release (if rollback_first then rollback s else s)) [
        | none ↦ none
        | some (recorded, s') ↦ some (if recorded then commit (announce s') else rollback s')
      ]

  -- `build_message` gets the fresh id, the next attempt and the due time.
  unfoldable pub route_failure :
      (ℕ → ℕ → ℕ → Message) → (ℕ → ℕ → Destination) → ℕ → ℕ → ℕ → Session S E → Option (Session S E)
  route_failure build_message next_destination attempt max_attempts new_job_id s =
      let (topic, delay_seconds) = next_destination attempt max_attempts in
      produce_to topic
        (build_message new_job_id (attempt + 1) (now_ms s.clock + delay_seconds * 1000)) s

-- The message of the next attempt.
abbrev pub next_message : Message → ℕ → ℕ → ℕ → Message
next_message message job_id attempt not_before_ms = record {
  target_id = message.target_id;
  job_id = job_id;
  attempt = attempt;
  not_before_ms = not_before_ms;
  original_topic = message.original_topic;
}

pub record Worker : Type 0 where
  pub worker_id : ℕ
  pub max_attempts : ℕ
  -- The fresh id of the next message, and the time between the lease statement and the routing.
  pub new_job_id : ℕ
  pub late : ℕ
  pub str : ℕ → String

module _ {E : Type 0} (next_destination : ℕ → ℕ → Destination)
    (retries_exhausted : ℕ → ℕ → Bool) where
  unfoldable pub fail_job :
      Message → ℕ → String → Session GenerationStatus E → Option (Session GenerationStatus E)
  fail_job message worker_id reason s =
      record_failure
        (release message.target_id message.job_id worker_id failed (some reason) (λ c. c))
        (λ s'. s') false s

  unfoldable pub defer_job :
      Message → ℕ → ℕ → Session GenerationStatus E → Option (Session GenerationStatus E)
  defer_job message worker_id max_attempts s =
      defer_for_retry (defer message.target_id worker_id) next_destination message.attempt
        max_attempts s

  unfoldable pub route_job :
      Message → ℕ → ℕ → Session GenerationStatus E → Option (Session GenerationStatus E)
  route_job message max_attempts new_job_id s =
      route_failure (next_message message) next_destination message.attempt max_attempts new_job_id
        s

  -- The two ends of a failed run: recorded and dead-lettered, or deferred and sent on.
  unfoldable pub give_up :
      Message
      → Worker
      → ℕ
      → String
      → Session GenerationStatus E
      → Option (JobOutcome × Session GenerationStatus E)
  give_up message w max_attempts reason s = elim (fail_job message w.worker_id reason s) [
    | none ↦ none
    | some s' ↦ elim (route_job message max_attempts w.new_job_id (pass w.late s')) [
      | none ↦ none
      | some s'' ↦ some (dead_lettered, s'')
    ]
  ]

  unfoldable pub try_again :
      Message
      → Worker
      → Session GenerationStatus E
      → Option (JobOutcome × Session GenerationStatus E)
  try_again message w s = elim (defer_job message w.worker_id w.max_attempts s) [
    | none ↦ none
    | some s' ↦ elim (route_job message w.max_attempts w.new_job_id (pass w.late s')) [
      | none ↦ none
      | some s'' ↦ some (retry_scheduled, s'')
    ]
  ]

  unfoldable pub after_generation :
      Message
      → Worker
      → Generated × Session GenerationStatus E
      → Option (JobOutcome × Session GenerationStatus E)
  after_generation message w (generated, s) = some (completed, s)
  after_generation message w (terminal_error name, s) =
      give_up message w 0 ("generation failed: " ^^ (name ^^ ".")) s
  after_generation message w (retryable_error name, s) =
      if retries_exhausted message.attempt w.max_attempts
      then give_up message w w.max_attempts
          ("generation failed after "
            ^^ (w.str (message.attempt + 1) ^^ (" attempts: " ^^ (name ^^ "."))))
          s
      else try_again message w s
  after_generation message w (other_error name, s) =
      if leb 1 message.attempt
      then give_up message w 0 ("generation failed with an unexpected " ^^ (name ^^ ".")) s
      else try_again message w s

  unfoldable pub handle_generation :
      (Message → ℕ → Session GenerationStatus E → Generated × Session GenerationStatus E)
      → Message
      → Worker
      → Session GenerationStatus E
      → Option (JobOutcome × Session GenerationStatus E)
  handle_generation generator message w s =
      elim (claim message.target_id message.job_id w.worker_id lease_seconds_default s) [
        | none ↦ none
        | some (claimed, s') ↦ elim claimed [
          | false ↦ some (skipped, commit s')
          | true ↦ after_generation message w (generator message w.worker_id (commit s'))
        ]
      ]

module _ {E : Type 0} where
  unfoldable pub handle_checklist_message :
      (Message → ℕ → Session GenerationStatus E → Generated × Session GenerationStatus E)
      → Message
      → Worker
      → Session GenerationStatus E
      → Option (JobOutcome × Session GenerationStatus E)
  handle_checklist_message =
      handle_generation checklist_next_destination checklist_retries_exhausted

  unfoldable pub handle_mock_data_message :
      (Message → ℕ → Session GenerationStatus E → Generated × Session GenerationStatus E)
      → Message
      → Worker
      → Session GenerationStatus E
      → Option (JobOutcome × Session GenerationStatus E)
  handle_mock_data_message =
      handle_generation mock_data_next_destination mock_data_retries_exhausted
