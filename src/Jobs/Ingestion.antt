-- ===== src/Jobs/Ingestion.antt =====
-- backend/app/queue/consumer.py: `handle_message` and `_route_failure`, the handling of one ingestion
-- message. The pipeline is an argument, as it is there (`Pipeline` is a protocol); what it does to the
-- session is a function. A fresh id (`uuid.uuid4()`) and the time that passes between two reads of the
-- clock are arguments too. `none` is an exception that leaves the handler.
pub mod Outcomes
pub mod Handled
pub mod Window
use Prim.Native.String.{String}
use ask_repo.Prelude.{ℕ, ◌+◌, ◌*◌, Bool, true, false, ◌&&◌, Option, none, some, leb, if◌then◌else◌}
use ask_repo.Jobs.Lease.{claimed, lease_seconds_default}
use ask_repo.Jobs.Ladder.{Destination, Topic, dlq_topic, next_destination, topic_eq}
use ask_repo.Jobs.Session.{Message, commit, now_ms, pass, produce_to}
use ask_repo.Jobs.Projects.{ProjectSession, claim, failed, release, renew}

pub data JobOutcome : Type 0 where
  completed skipped retry_scheduled dead_lettered : JobOutcome

-- How a run ended: it returned, or it raised one of the two classified errors, or another. The text is
-- what the handler records.
pub data Ran : Type 0 where
  ran : Ran
  terminal : Ran
  retryable : String → Ran
  unexpected : String → Ran

-- `pipeline.run(project_id, job_id, worker_id)`.
abbrev pub Pipeline : Type 0
Pipeline = ℕ → ℕ → ℕ → ProjectSession → Ran × ProjectSession

-- `reason[:MAX_RECORDED_ERROR_CHARS]` is a parameter: what the slice keeps of a text.
abbrev pub Clip : Type 0
Clip = String → String

-- What `_route_failure` sends on.
unfoldable pub forwarded : Message → ℕ → ℕ → ℕ → Message
unfolding now_ms
forwarded message new_job_id clock delay_seconds = record {
  target_id = message.target_id;
  job_id = new_job_id;
  attempt = message.attempt + 1;
  not_before_ms = now_ms clock + delay_seconds * 1000;
  original_topic = message.original_topic;
}

-- Where the failed job goes.
unfoldable pub failure_destination : Message → ℕ → Bool → Destination
failure_destination message max_attempts is_unexpected =
    if is_unexpected && leb 1 message.attempt
    then (dlq_topic, 0)
    else next_destination message.attempt max_attempts

-- `late` is the time that passes between the clock reading in the message and the lease statement.
unfoldable pub schedule_retry :
    Destination → Message → ℕ → ℕ → ℕ → ProjectSession → Option (JobOutcome × ProjectSession)
unfolding commit pass produce_to
schedule_retry (topic, delay_seconds) message worker_id new_job_id late s =
    let sent = forwarded message new_job_id s.clock delay_seconds in
    let (_, held) = renew message.target_id worker_id delay_seconds (pass late s) in
    elim (produce_to topic sent (commit held)) [
      | none ↦ none
      | some done ↦ some (retry_scheduled, done)
    ]

unfoldable pub dead_letter :
    Topic → Message → ℕ → ℕ → ℕ → String → ProjectSession → Option (JobOutcome × ProjectSession)
unfolding commit pass produce_to
dead_letter topic message worker_id new_job_id late error s =
    let sent = forwarded message new_job_id s.clock 0 in
    elim (release message.target_id message.job_id worker_id failed (some error) (λ c. c)
      (pass late s)) [
        | none ↦ none
        | some (released, written) ↦ elim (produce_to topic sent (commit written)) [
          | none ↦ none
          | some done ↦ some (dead_lettered, done)
        ]
      ]

unfoldable pub route_failure :
    Clip
    → Message
    → ℕ
    → ℕ
    → ℕ
    → ℕ
    → String
    → Bool
    → ProjectSession
    → Option (JobOutcome × ProjectSession)
unfolding topic_eq
route_failure clip message worker_id max_attempts new_job_id late reason is_unexpected s =
    let (topic, delay_seconds) = failure_destination message max_attempts is_unexpected in
    if topic_eq topic dlq_topic
    then dead_letter topic message worker_id new_job_id late (clip reason) s
    else schedule_retry (topic, delay_seconds) message worker_id new_job_id late s

unfoldable pub after_run :
    Clip → Message → ℕ → ℕ → ℕ → ℕ → Ran × ProjectSession → Option (JobOutcome × ProjectSession)
after_run clip message worker_id max_attempts new_job_id late (ran, s) = some (completed, s)
after_run clip message worker_id max_attempts new_job_id late (terminal, s) = some (completed, s)
after_run clip message worker_id max_attempts new_job_id late (retryable reason, s) =
    route_failure clip message worker_id max_attempts new_job_id late reason false s
after_run clip message worker_id max_attempts new_job_id late (unexpected reason, s) =
    route_failure clip message worker_id max_attempts new_job_id late reason true s

unfoldable pub handle_message :
    Clip
    → Pipeline
    → Message
    → ℕ
    → ℕ
    → ℕ
    → ℕ
    → ProjectSession
    → Option (JobOutcome × ProjectSession)
unfolding commit
handle_message clip pipeline message worker_id max_attempts new_job_id late s =
    elim (claim message.target_id message.job_id worker_id lease_seconds_default s) [
      | none ↦ none
      | some (claimed, s') ↦ elim claimed [
        | false ↦ some (skipped, commit s')
        | true ↦
            after_run clip message worker_id max_attempts new_job_id late
              (pipeline message.target_id message.job_id worker_id (commit s'))
      ]
    ]
