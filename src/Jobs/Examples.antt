-- ===== src/Jobs/Examples.antt =====
-- The theorems of the job system at concrete inputs.
use ask_repo.Jobs.Ingestion.Handled.{IsHandled, handle_message-IsHandled}
use ask_repo.Jobs.Ingestion.Window.{retry_at_due_refused, retry_window}
use ask_repo.Jobs.Ingestion.{
  retry_scheduled, schedule_retry, Clip, forwarded, Pipeline, handle_message, retryable,
}
use ask_repo.Prelude.{ℕ, ◌+◌, ◌≡◌, refl, ◌≢◌, true, false, none, some, List, [], ◌∷◌, arith, ltb}
use ask_repo.Table.{HasKeys, fetched, find, update_where}
use ask_repo.Jobs.Ladder.{JobKind, retry_1m, ingest_topic, Topic}
use ask_repo.Jobs.Lease.{
  claim_lease, claimable, claimed, renew_lease, row_key, seconds, extended, held_by,
  lease_seconds_default,
}
use ask_repo.Jobs.Lease.Gates.{}
use ask_repo.Jobs.Exclusion.{Event, abandons, claims, play, renews, waits}
use ask_repo.Jobs.Exclusion.Steps.{Excludes, mutual_exclusion}
use ask_repo.Jobs.Exclusion.Redelivery.{redelivery_refused}
use ask_repo.Jobs.Session.{Message, stage, now_ms, commit}
use ask_repo.Jobs.Projects.{
  Project, ProjectColumns, ProjectSession, ProjectStatus, claim, claim_values, indexing, is_busy,
  ready, set_status, renew, new_columns,
}
use ask_repo.Jobs.Projects.Recovery.{
  claimed_window, late_status_strands, seen_claimable, seen_stranded, on_row,
}

-- A project that nobody works on.
abbrev idle : Project
idle = record {
  id = 7;
  deleted_at = none;
  status = ready;
  error = none;
  lease_owner = none;
  lease_expires_at = none;
  last_job_id = none;
  updated_at = 0;
  own = record (new_columns 0) { active_generation = 1 };
}

-- Worker 1 runs job 11 on it.
abbrev busy : Project
busy = record idle {
  lease_owner = some 1;
  lease_expires_at = some (seconds 300);
  last_job_id = some 11;
  own = record (new_columns 0) { reindex_in_progress = true; active_generation = 1 };
}

abbrev one_key : HasKeys row_key (idle ∷ [])
one_key = (tt, tt)

abbrev session_of : Project → ProjectSession
session_of r = record {
  clock = seconds 10;
  committed = r ∷ [];
  rows = r ∷ [];
  staged = [];
  published = [];
  produced = [];
  broker_up = true;
}

abbrev message : Message
message = record {
  target_id = 7;
  job_id = 11;
  attempt = 0;
  not_before_ms = 0;
  original_topic = ingest_topic;
}

-- Worker 1 claims and stalls; worker 2 claims after the expiry; worker 1 wakes up and renews.
abbrev takeover : List (Event ProjectStatus ProjectColumns)
takeover =
    claims 7 11 1 300 (λ _. true) claim_values
    ∷ waits (seconds 301)
    ∷ claims 7 12 2 300 (λ _. true) claim_values
    ∷ renews 7 1 300 false
    ∷ []

mutual_exclusion_example :
    Excludes (play takeover (record { now = 0; table = idle ∷ []; runs = [] }))
mutual_exclusion_example = mutual_exclusion takeover 0 (idle ∷ []) one_key

abbrev quiet : List (Event ProjectStatus ProjectColumns)
quiet = waits (seconds 400) ∷ abandons 7 1 (λ r. r.own) ∷ []

redelivery_refused_example :
    (claim_lease
      (play
        (claims 7 11 1 300 (λ _. true) claim_values ∷ quiet)
        (record { now = 0; table = idle ∷ []; runs = [] })).now
      7
      11
      2
      300
      (λ _. true)
      claim_values
      (play
        (claims 7 11 1 300 (λ _. true) claim_values ∷ quiet)
        (record { now = 0; table = idle ∷ []; runs = [] })).table).0
    ≡ fetched none
unfolding claim_lease claimable claimed update_where claim_values
redelivery_refused_example =
    redelivery_refused 7 11 1 300 (λ _. true) claim_values 0 (idle ∷ [])
      (claimed 0 11 1 300 claim_values idle) quiet 2 300 (λ _. true) claim_values one_key refl
      (tt, (tt, tt))

claimed_window_example :
    (seen_stranded (seconds 311) 120 (
        find row_key 7
          (record (session_of idle) {
            rows = claimed (seconds 10) 11 1 300 claim_values idle ∷ [];
            staged = 7 ∷ [];
          }).rows)
      ≡ ltb (seconds 10 + seconds 300) (seconds 311))
    × (seen_claimable (seconds 311) 12 (
          find row_key 7
            (record (session_of idle) {
              rows = claimed (seconds 10) 11 1 300 claim_values idle ∷ [];
              staged = 7 ∷ [];
            }).rows)
        ≡ ltb (seconds 10 + seconds 300) (seconds 311))
unfolding claim claim_lease claimable claimed update_where claim_values stage
claimed_window_example =
    claimed_window 7 11 1 300 (seconds 311) 120 12 (session_of idle) _ one_key refl
      (λ (e : ◌≡◌ {A = ℕ} 12 11). absurd (omega arith))

late_status_strands_example :
    (seen_stranded (seconds 999) 120 (find row_key 7 (set_status 7 indexing (session_of idle)).rows)
      ≡ false)
    × (on_row false is_busy (find row_key 7 (set_status 7 indexing (session_of idle)).rows) ≡ true)
unfolding find
late_status_strands_example = late_status_strands 7 (seconds 999) 120 (session_of idle) (refl, refl)

abbrev clip : Clip
clip t = t

-- A clone that fails.
abbrev unreachable : Pipeline
unreachable project_id job_id worker_id s = (retryable "Clone failed.", s)

abbrev claimed_idle : Project
claimed_idle = claimed (seconds 10) 11 1 lease_seconds_default claim_values idle

abbrev claimed_session : ProjectSession
claimed_session = record (session_of idle) { rows = claimed_idle ∷ []; staged = 7 ∷ [] }

handle_message-IsHandled_example :
    IsHandled message 3 12
      (retryable "Clone failed.")
      (commit claimed_session)
      (handle_message clip unreachable message 1 3 12 0 (session_of idle))
unfolding claim claim_lease update_where claimable stage commit
handle_message-IsHandled_example =
    handle_message-IsHandled clip unreachable message 1 3 12 0 (session_of idle) claimed_session
      (commit claimed_session) (retryable "Clone failed.") refl refl (tt, tt) refl

fresh_id : ◌≢◌ {A = ℕ} 12 11
fresh_id e = absurd (omega arith)

abbrev retry_rung : Topic
retry_rung = record { kind = JobKind.ingest; rung = retry_1m }

abbrev held_row : Project
held_row = extended (seconds 10 + 5) 60 busy

abbrev after_retry : ProjectSession
after_retry = record (session_of busy) {
  clock = seconds 10 + 5;
  rows = held_row ∷ [];
  committed = held_row ∷ [];
  produced = (retry_rung, forwarded message 12 (seconds 10) 60) ∷ [];
}

scheduled :
    schedule_retry (retry_rung, 60) message 1 12 5 (session_of busy)
    ≡ some (retry_scheduled, after_retry)
unfolding schedule_retry renew renew_lease update_where held_by extended
scheduled = refl

retry_window_example :
    (seen_stranded (seconds 71) 120 (find row_key 7 after_retry.committed)
      ≡ ltb (seconds 10 + 5 + seconds 60) (seconds 71))
    × (seen_claimable (seconds 71) 12 (find row_key 7 after_retry.committed)
        ≡ ltb (seconds 10 + 5 + seconds 60) (seconds 71))
unfolding find
retry_window_example =
    retry_window retry_rung 60 message 1 12 5 (seconds 71) 120 (session_of busy) after_retry
      (refl, refl, refl) fresh_id scheduled

retry_at_due_refused_example :
    seen_claimable (seconds 70 + 5) 12 (find row_key 7 after_retry.committed) ≡ false
unfolding find forwarded now_ms
retry_at_due_refused_example =
    retry_at_due_refused retry_rung 60 message 1 12 5 (seconds 70 + 5) (session_of busy) after_retry
      (refl, refl, refl) fresh_id scheduled (omega arith)
