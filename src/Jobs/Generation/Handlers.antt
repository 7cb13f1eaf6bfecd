-- ===== src/Jobs/Generation/Handlers.antt =====
-- The two handlers on a job that they have claimed.
use mathlib.Core.Path.{subst}
use Prim.Native.String.{String}
use ask_repo.Prelude.{
  ℕ, ◌+◌, ◌≤◌, ◌<◌, ◌≡◌, ap, ◌∙◌, ◌≢◌, Bool, true, false, some, [], ◌∷◌, ◌++◌, arith, ltb, leb,
}
use ask_repo.Table.{find}
use ask_repo.Jobs.Lease.{Row, lease_seconds_default, row_key, seconds, stranded}
use ask_repo.Jobs.Ladder.{
  Destination, checklist_dlq_topic, checklist_next_destination, checklist_retries_exhausted,
  mock_data_next_destination, mock_data_retries_exhausted,
}
use ask_repo.Jobs.Session.{Message, Session, commit}
use ask_repo.Jobs.Ingestion.{retry_scheduled}
use ask_repo.Jobs.Generation.{
  Generated, GenerationStatus, Worker, after_generation, claim, handle_checklist_message,
  handle_generation, handle_mock_data_message, is_generating, other_error,
}
use ask_repo.Jobs.Generation.Outcomes.{sent}
use ask_repo.Jobs.Generation.Settled.{
  Holds, IsFailure, Settled, destination, failure_settles, gives_up, test_row, tried_again,
}

handle_generation-claimed :
    {E : Type 0} (ladder : ℕ → ℕ → Destination) (spent : ℕ → ℕ → Bool) (message : Message)
    (w : Worker)
    (generator : Message → ℕ → Session GenerationStatus E → Generated × Session GenerationStatus E)
    (start claimed_row : Session GenerationStatus E)
    (ended : Generated × Session GenerationStatus E)
    → claim message.target_id message.job_id w.worker_id lease_seconds_default start
      ≡ some (true, claimed_row)
    → generator message w.worker_id (commit claimed_row) ≡ ended
    → after_generation ladder spent message w ended
      ≡ handle_generation ladder spent generator message w start
unfolding handle_generation
handle_generation-claimed ladder spent message w generator start claimed_row ended won e =
    ground (arith, won, e)

-- A claimed job whose generation fails while its worker still holds the row ends in one of two ways,
-- with exactly one message sent on under a fresh id, if the broker takes it. A terminal failure, a
-- retryable one with the ladder spent, and an unclassified one on a second attempt are recorded and
-- dead-lettered: the sweep never takes the row again, and a claim with the fresh id is let in at once.
-- Any other failure is deferred and goes to its rung: the sweep takes the row only once both the delay
-- of that rung, counted from the lease statement, and the sweep's own threshold have passed, and the
-- claim is refused up to the end of the delay. So no second job is published for one that is scheduled.
pub failed_job_settles :
    {E : Type 0} (message : Message) (w : Worker)
    (generator : Message → ℕ → Session GenerationStatus E → Generated × Session GenerationStatus E)
    (start claimed_row s : Session GenerationStatus E) (g : Generated) (r : Row GenerationStatus E)
    (now older : ℕ)
    → claim message.target_id message.job_id w.worker_id lease_seconds_default start
      ≡ some (true, claimed_row)
    → generator message w.worker_id (commit claimed_row) ≡ (g, s)
    → IsFailure g
    → Holds message w r s
    → s.broker_up ≡ true
    → w.new_job_id ≢ message.job_id
    → Settled message w
        (handle_checklist_message generator message w start)
        (gives_up message w checklist_retries_exhausted g)
        (destination message w checklist_next_destination g)
        s
        now
        older
      × Settled message w
          (handle_mock_data_message generator message w start)
          (gives_up message w mock_data_retries_exhausted g)
          (destination message w mock_data_next_destination g)
          s
          now
          older
unfolding handle_checklist_message handle_mock_data_message
failed_job_settles message w generator start claimed_row s g r now older won e fails holds up
      fresh =
    (
      subst
          (λ result.
            Settled message w result (gives_up message w checklist_retries_exhausted g)
              (destination message w checklist_next_destination g) s now older)
          (handle_generation-claimed checklist_next_destination checklist_retries_exhausted message
            w generator start claimed_row (g, s) won e)
          (failure_settles message w checklist_next_destination checklist_retries_exhausted g s r
            now older fails holds up fresh),
      subst
          (λ result.
            Settled message w result (gives_up message w mock_data_retries_exhausted g)
              (destination message w mock_data_next_destination g) s now older)
          (handle_generation-claimed mock_data_next_destination mock_data_retries_exhausted message
            w generator start claimed_row (g, s) won e)
          (failure_settles message w mock_data_next_destination mock_data_retries_exhausted g s r
            now older fails holds up fresh),
    )

-- With a limit of at most one attempt, an unclassified failure of the first attempt goes straight to
-- the dead letters, and is yet reported as a scheduled retry and not recorded: the row stays
-- generating, and once the sweep's threshold has passed the sweep takes it for a new job.
pub unexpected_at_limit :
    {E : Type 0} (message : Message) (w : Worker) (name : String) (s : Session GenerationStatus E)
    (r : Row GenerationStatus E) (now older : ℕ)
    → w.max_attempts ≤ 1
    → message.attempt ≡ 0
    → Holds message w r s
    → s.broker_up ≡ true
    → w.new_job_id ≢ message.job_id
    → 0 < older
    → (s' : Session GenerationStatus E) × (after_generation checklist_next_destination
          checklist_retries_exhausted message w
          (other_error name, s)
        ≡ some (retry_scheduled, s'))
      × (s'.produced ≡ s.produced ++ sent message w s.clock (checklist_dlq_topic, 0) ∷ [])
      × (test_row (stranded now is_generating older) (find row_key message.target_id s'.committed)
          ≡ ltb (s.clock + seconds older) now)
unfolding after_generation
unexpected_at_limit message w name s r now older few first holds up fresh positive =
    let none_left : checklist_next_destination message.attempt w.max_attempts
        ≡ (checklist_dlq_topic, 0) =
      unfold checklist_next_destination in ground (arith, few, first) in
    let new : leb 1 message.attempt ≡ false = ground (arith, first) in
    let (s', e, made, (seen, claims)) =
      tried_again message w checklist_next_destination checklist_retries_exhausted s r now older
        holds up fresh in
    let none_left_delay = ap (λ (d : Destination). d.1) none_left in
    (
      s',
      rw new e,
      made ∙ ap (λ d. s.produced ++ sent message w s.clock d ∷ []) none_left,
      seen ∙ rw none_left_delay (ground (arith, positive)),
    )
