-- ===== src/Jobs/Generation/Examples.antt =====
-- Failed generations at concrete inputs.
use ask_repo.Prelude.{ℕ, ◌+◌, ◌≡◌, refl, ◌≢◌, true, none, some, [], ◌∷◌, ◌++◌, arith, ltb}
use ask_repo.Table.{find, update_where}
use ask_repo.Jobs.Lease.{
  Row, claim_lease, claimable, claimed, lease_seconds_default, row_key, seconds, stranded,
}
use ask_repo.Jobs.Ladder.{
  JobKind, checklist_dlq_topic, checklist_next_destination, checklist_retries_exhausted, main,
  mock_data_next_destination, mock_data_retries_exhausted,
}
use ask_repo.Jobs.Session.{Message, Session, commit, stage, stage_live_event}
use ask_repo.Jobs.Ingestion.{retry_scheduled}
use ask_repo.Jobs.Generation.{
  Generated, GenerationStatus, Worker, after_generation, claim, generating,
  handle_checklist_message, handle_mock_data_message, is_generating, other_error, retryable_error,
}
use ask_repo.Jobs.Generation.Outcomes.{sent}
use ask_repo.Jobs.Generation.Settled.{Holds, Settled, destination, gives_up, test_row}
use ask_repo.Jobs.Generation.Handlers.{failed_job_settles, unexpected_at_limit}

-- A module that a request has set to generating.
abbrev requested : Row GenerationStatus (Unit {0})
requested = record {
  id = 7;
  deleted_at = none;
  status = generating;
  error = none;
  lease_owner = none;
  lease_expires_at = none;
  last_job_id = none;
  updated_at = 0;
  own = tt;
}

abbrev leased : Row GenerationStatus (Unit {0})
leased = record requested {
  lease_owner = some 1;
  lease_expires_at = some (seconds 10 + seconds 300);
  last_job_id = some 11;
  updated_at = seconds 10;
}

abbrev session_of : Row GenerationStatus (Unit {0}) → Session GenerationStatus (Unit {0})
session_of r = record {
  clock = seconds 10;
  committed = r ∷ [];
  rows = r ∷ [];
  staged = [];
  published = [];
  produced = [];
  broker_up = true;
}

abbrev after_claim : Session GenerationStatus (Unit {0})
after_claim = record (session_of requested) { rows = leased ∷ []; staged = 7 ∷ [] }

abbrev running : Session GenerationStatus (Unit {0})
running = record (session_of leased) { published = 7 ∷ [] }

abbrev job : Message
job = record {
  target_id = 7;
  job_id = 11;
  attempt = 0;
  not_before_ms = 0;
  original_topic = record { kind = JobKind.checklist; rung = main };
}

abbrev worker : ℕ → Worker
worker limit = record {
  worker_id = 1;
  max_attempts = limit;
  new_job_id = 12;
  late = 5;
  str = λ n. "1";
}

abbrev failing :
    Message
    → ℕ
    → Session GenerationStatus (Unit {0})
    → Generated × Session GenerationStatus (Unit {0})
failing message w s = (retryable_error "RetryableChatError", s)

new_id : ◌≢◌ {A = ℕ} 12 11
new_id e = absurd (omega arith)

won : claim 7 11 1 lease_seconds_default (session_of requested) ≡ some (true, after_claim)
unfolding claim claim_lease claimable claimed update_where stage_live_event stage
won = refl

ended : failing job 1 (commit after_claim) ≡ (retryable_error "RetryableChatError", running)
unfolding commit
ended = refl

running-Holds : Holds job (worker 3) leased running
unfolding find
running-Holds = ((tt, tt), (tt, tt), refl, refl, refl, refl, refl, refl)

failed_job_settles_example :
    Settled job
      (worker 3)
      (handle_checklist_message failing job (worker 3) (session_of requested))
      (gives_up job (worker 3) checklist_retries_exhausted (retryable_error "RetryableChatError"))
      (destination job (worker 3) checklist_next_destination (retryable_error "RetryableChatError"))
      running
      (seconds 90)
      120
    × Settled job
        (worker 3)
        (handle_mock_data_message failing job (worker 3) (session_of requested))
        (gives_up job (worker 3) mock_data_retries_exhausted (retryable_error "RetryableChatError"))
        (destination job
          (worker 3)
          mock_data_next_destination
          (retryable_error "RetryableChatError"))
        running
        (seconds 90)
        120
failed_job_settles_example =
    failed_job_settles job (worker 3) failing (session_of requested) after_claim running
      (retryable_error "RetryableChatError") leased (seconds 90) 120 won ended tt running-Holds refl
      new_id

unexpected_at_limit_example :
    (s' : Session GenerationStatus (Unit {0})) × (after_generation checklist_next_destination
        checklist_retries_exhausted job
        (worker 1)
        (other_error "KeyError", running)
      ≡ some (retry_scheduled, s'))
    × (s'.produced ≡ [] ++ sent job (worker 1) (seconds 10) (checklist_dlq_topic, 0) ∷ [])
    × (test_row (stranded (seconds 131) is_generating 120) (find row_key 7 s'.committed)
        ≡ ltb (seconds 10 + seconds 120) (seconds 131))
unexpected_at_limit_example =
    unexpected_at_limit job (worker 1) "KeyError" running leased (seconds 131) 120 (omega arith)
      refl running-Holds refl new_id (omega arith)
