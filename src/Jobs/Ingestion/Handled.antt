-- ===== src/Jobs/Ingestion/Handled.antt =====
-- What the handler of a message owes a run, by how it ended.
use ask_repo.Jobs.Ingestion.Outcomes.{outcome_of, route_failure-produced}
use mathlib.Core.Path.{subst}
use ask_repo.Table.{HasKeys}
use Prim.Native.String.{String}
use ask_repo.Jobs.Ladder.{
  dlq_topic, topic_eq, Topic, next_destination, JobKind, Rung, dlq, main, retry_10m, retry_1m,
}
use ask_repo.Prelude.{
  ℕ, zero, suc, ◌+◌, ◌*◌, ◌/◌, ◌≡◌, refl, ap, ◌∙◌, Bool, true, false, ◌&&◌, ◌||◌, Option, some, [],
  ◌∷◌, ◌++◌, arith, leb, if◌then◌else◌,
}
use ask_repo.Jobs.Ingestion.{
  JobOutcome, dead_lettered, forwarded, retry_scheduled, Clip, failure_destination, route_failure,
  Pipeline, Ran, after_run, completed, handle_message, ran, retryable, terminal, unexpected,
}
use ask_repo.Jobs.Projects.{ProjectSession, claim}
use ask_repo.Jobs.Lease.{row_key, lease_seconds_default}
use ask_repo.Jobs.Session.{Message, commit, now_ms}

-- The rung that a failed attempt leads to, by the number of attempts before it.
abbrev pub rung_due : ℕ → ℕ → Bool → Rung
rung_due zero max_attempts is_unexpected = if leb max_attempts 1 then dlq else retry_1m
rung_due (suc zero) max_attempts is_unexpected =
    if is_unexpected || leb max_attempts 2 then dlq else retry_10m
rung_due (suc (suc attempt)) max_attempts is_unexpected = dlq

abbrev pub delay_due : Rung → ℕ
delay_due main = 0
delay_due retry_1m = 60
delay_due retry_10m = 600
delay_due dlq = 0

abbrev pub outcome_due : Rung → JobOutcome
outcome_due dlq = dead_lettered
outcome_due _ = retry_scheduled

abbrev pub ingest_rung : Rung → Topic
ingest_rung rung = record { kind = JobKind.ingest; rung = rung }

destination_due :
    (attempt max_attempts : ℕ) (u : Bool)
    → let rung = rung_due attempt max_attempts u in
      (if u && leb 1 attempt then (dlq_topic, 0) else next_destination attempt max_attempts)
      ≡ (ingest_rung rung, delay_due rung)
unfolding next_destination
destination_due zero max_attempts u = ground arith
destination_due (suc zero) max_attempts u = ground arith
destination_due (suc (suc attempt)) max_attempts u = ground arith

failure_destination-due :
    (message : Message) (max_attempts : ℕ) (u : Bool)
    → let rung = rung_due message.attempt max_attempts u in
      failure_destination message max_attempts u ≡ (ingest_rung rung, delay_due rung)
unfolding failure_destination
failure_destination-due message max_attempts u = destination_due message.attempt max_attempts u

outcome_of-rung : (rung : Rung) → outcome_of (ingest_rung rung) ≡ outcome_due rung
unfolding topic_eq
outcome_of-rung main = refl
outcome_of-rung retry_1m = refl
outcome_of-rung retry_10m = refl
outcome_of-rung dlq = refl

-- One message more, to the rung that is due, for the same project, as the next attempt.
abbrev pub IsSentOn :
    Message → ℕ → ℕ → Bool → ProjectSession → Option (JobOutcome × ProjectSession) → Type 0
IsSentOn message max_attempts new_job_id is_unexpected s result =
    let rung = rung_due message.attempt max_attempts is_unexpected in
    (s' : ProjectSession) × (result ≡ some (outcome_due rung, s'))
    × (s'.produced
        ≡ s.produced
          ++ (
            ingest_rung rung,
            record {
              target_id = message.target_id;
              job_id = new_job_id;
              attempt = message.attempt + 1;
              not_before_ms = s.clock / 1000 + delay_due rung * 1000;
              original_topic = message.original_topic;
            },
          )
            ∷ [])

-- What the handler owes a run, by how it ended in the session `s`.
abbrev pub IsHandled :
    Message → ℕ → ℕ → Ran → ProjectSession → Option (JobOutcome × ProjectSession) → Type 0
IsHandled message max_attempts new_job_id ran s result = result ≡ some (completed, s)
IsHandled message max_attempts new_job_id terminal s result = result ≡ some (completed, s)
IsHandled message max_attempts new_job_id (retryable reason) s result =
    IsSentOn message max_attempts new_job_id false s result
IsHandled message max_attempts new_job_id (unexpected reason) s result =
    IsSentOn message max_attempts new_job_id true s result

route_failure-IsSentOn :
    (clip : Clip) (message : Message) (w max_attempts fresh late : ℕ) (reason : String) (u : Bool)
    (s : ProjectSession)
    → HasKeys row_key s.rows
    → s.broker_up ≡ true
    → IsSentOn message max_attempts fresh u s
        (route_failure clip message w max_attempts fresh late reason u s)
unfolding forwarded now_ms
route_failure-IsSentOn clip message w max_attempts fresh late reason u s keys up =
    let rung = rung_due message.attempt max_attempts u in
    let due = failure_destination-due message max_attempts u in
    let (s', e, made) =
      route_failure-produced clip message w max_attempts fresh late reason u s keys up in
    (
      s',
      e ∙ ap (λ d. some (outcome_of d.0, s')) due ∙ ap (λ o. some (o, s')) (outcome_of-rung rung),
      made ∙ ap (λ d. s.produced ++ (d.0, forwarded message fresh s.clock d.1) ∷ []) due,
    )

after_run-IsHandled :
    (clip : Clip) (message : Message) (w max_attempts fresh late : ℕ) (r : Ran) (s : ProjectSession)
    → HasKeys row_key s.rows
    → s.broker_up ≡ true
    → IsHandled message max_attempts fresh r s
        (after_run clip message w max_attempts fresh late (r, s))
unfolding after_run
after_run-IsHandled clip message w max_attempts fresh late ran s keys up = refl
after_run-IsHandled clip message w max_attempts fresh late terminal s keys up = refl
after_run-IsHandled clip message w max_attempts fresh late (retryable reason) s keys up =
    route_failure-IsSentOn clip message w max_attempts fresh late reason false s keys up
after_run-IsHandled clip message w max_attempts fresh late (unexpected reason) s keys up =
    route_failure-IsSentOn clip message w max_attempts fresh late reason true s keys up

handle_message-claimed :
    (clip : Clip) (pipeline : Pipeline) (message : Message) (w max_attempts fresh late : ℕ)
    (start claimed_row : ProjectSession) (ended : Ran × ProjectSession)
    → claim message.target_id message.job_id w lease_seconds_default start
      ≡ some (true, claimed_row)
    → pipeline message.target_id message.job_id w (commit claimed_row) ≡ ended
    → after_run clip message w max_attempts fresh late ended
      ≡ handle_message clip pipeline message w max_attempts fresh late start
unfolding handle_message
handle_message-claimed clip pipeline message w max_attempts fresh late start claimed_row ended won
      e =
    ground (arith, won, e)

-- A message is claimed and its run ends; row ids are distinct then, and the broker takes messages. After
-- a run that returned or failed terminally the handler completes and sends nothing. After any other
-- failure it returns too, whether or not its worker still holds the lease, and has sent exactly one
-- message more: for the same project, under the fresh id, with the attempt counted by one, and due
-- as many seconds after the failure as its rung's delay. The first attempt leads to the one-minute rung, if two
-- attempts are allowed at least; the second to the ten-minute rung, if three are allowed at least and the error
-- was classified; and any other to the dead letters, at once. The outcome says which.
pub handle_message-IsHandled :
    (clip : Clip) (pipeline : Pipeline) (message : Message) (w max_attempts fresh late : ℕ)
    (start claimed_row s : ProjectSession) (r : Ran)
    → claim message.target_id message.job_id w lease_seconds_default start
      ≡ some (true, claimed_row)
    → pipeline message.target_id message.job_id w (commit claimed_row) ≡ (r, s)
    → HasKeys row_key s.rows
    → s.broker_up ≡ true
    → IsHandled message max_attempts fresh r s
        (handle_message clip pipeline message w max_attempts fresh late start)
handle_message-IsHandled clip pipeline message w max_attempts fresh late start claimed_row s r won e
      keys up =
    subst (IsHandled message max_attempts fresh r s)
      (handle_message-claimed clip pipeline message w max_attempts fresh late start claimed_row
        (r, s) won e)
      (after_run-IsHandled clip message w max_attempts fresh late r s keys up)
