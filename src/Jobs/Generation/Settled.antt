-- ===== src/Jobs/Generation/Settled.antt =====
-- Whether a failed generation is found again.
use Prim.Native.String.{String}
use ask_repo.Prelude.{
  ℕ, ◌+◌, ◌≡◌, ◌≢◌, inl, inr, Bool, true, false, not, ◌&&◌, ◌||◌, Option, none, some, [], ◌∷◌, ◌++◌,
  arith, ltb, leb, if◌then◌else◌, Bool-cases,
}
use ask_repo.Table.{HasKeys, find}
use ask_repo.Jobs.Lease.{Row, claimable, extended, finished, held_by, row_key, seconds, stranded}
use ask_repo.Jobs.Ladder.{Destination}
use ask_repo.Jobs.Session.{Message, Session}
use ask_repo.Jobs.Ingestion.{retry_scheduled, dead_lettered, JobOutcome}
use ask_repo.Jobs.Generation.{
  Generated, GenerationStatus, Worker, after_generation, failed, generated, generating,
  is_generating, other_error, retryable_error, terminal_error, give_up, try_again,
}
use ask_repo.Jobs.Generation.Outcomes.{sent, give_up-row, try_again-row}

abbrev pub IsFailure : Generated → Type 0
IsFailure generated = ⊥
IsFailure _ = Unit {0}

-- A test of the row of a message.
abbrev pub test_row {ℓ} : {R : Type ℓ} → (R → Bool) → Option R → Bool
test_row p none = false
test_row p (some r) = p r

module _ (message : Message) (w : Worker) where
  -- Whether the failure is the job's last.
  abbrev pub gives_up : (ℕ → ℕ → Bool) → Generated → Bool
  gives_up spent generated = false
  gives_up spent (terminal_error name) = true
  gives_up spent (retryable_error name) = spent message.attempt w.max_attempts
  gives_up spent (other_error name) = leb 1 message.attempt

  -- Where its message goes.
  abbrev pub destination : (ℕ → ℕ → Destination) → Generated → Destination
  destination ladder generated = ladder message.attempt 0
  destination ladder (terminal_error name) = ladder message.attempt 0
  destination ladder (retryable_error name) = ladder message.attempt w.max_attempts
  destination ladder (other_error name) =
      if leb 1 message.attempt
      then ladder message.attempt 0
      else ladder message.attempt w.max_attempts

  module _ {E : Type 0} where
    -- The run holds its row, which it has left as it is committed.
    abbrev pub Holds : Row GenerationStatus E → Session GenerationStatus E → Type 0
    Holds r s =
        HasKeys row_key s.committed
        × HasKeys row_key s.rows
        × (find row_key message.target_id s.committed ≡ some r)
        × (find row_key message.target_id s.rows ≡ some r)
        × (r.deleted_at ≡ none)
        × (r.lease_owner ≡ some w.worker_id)
        × (r.last_job_id ≡ some message.job_id)
        × (r.status ≡ generating)

    -- What the sweep and a later claim see.
    abbrev pub Settles : Bool → ℕ → ℕ → ℕ → ℕ → Option (Row GenerationStatus E) → Type 0
    Settles final due clock now older found =
        (test_row (stranded now is_generating older) found
          ≡ (not final && (ltb (clock + seconds older) now && ltb due now)))
        × (test_row (claimable now w.new_job_id (λ _. true)) found ≡ (final || ltb due now))

    finished-Settles :
        (due clock now older : ℕ) (reason : String) (r : Row GenerationStatus E)
        → r.deleted_at ≡ none
        → w.new_job_id ≢ message.job_id
        → Settles true due clock now older
            (some (finished clock message.job_id failed (some reason) (λ q. q.own) r))
    unfolding finished stranded claimable
    finished-Settles due clock now older reason r live fresh = ground (arith, live, fresh)

    extended-Settles :
        (delay clock now older : ℕ) (r : Row GenerationStatus E)
        → r.deleted_at ≡ none
        → r.last_job_id ≡ some message.job_id
        → r.status ≡ generating
        → w.new_job_id ≢ message.job_id
        → Settles false (clock + seconds delay) clock now older (some (extended clock delay r))
    unfolding extended stranded claimable
    extended-Settles delay clock now older r live last working fresh =
        rw working (ground (arith, live, last, fresh))

    abbrev pub Settled :
        Option (JobOutcome × Session GenerationStatus E)
        → Bool
        → Destination
        → Session GenerationStatus E
        → ℕ
        → ℕ
        → Type 0
    Settled result final sent_to s now older =
        (s' : Session GenerationStatus E) × (result
          ≡ some (if final then dead_lettered else retry_scheduled, s'))
        × (s'.produced ≡ s.produced ++ sent message w s.clock sent_to ∷ [])
        × Settles final (s.clock + seconds sent_to.1) s.clock now older
            (find row_key message.target_id s'.committed)

    held_by-mine :
        (r : Row GenerationStatus E)
        → r.deleted_at ≡ none
        → r.lease_owner ≡ some w.worker_id
        → held_by w.worker_id true r ≡ true
    unfolding held_by
    held_by-mine r live mine = ground arith

    module _ (ladder : ℕ → ℕ → Destination) (spent : ℕ → ℕ → Bool) where
      given_up :
          (limit : ℕ) (reason : String) (s : Session GenerationStatus E)
          (r : Row GenerationStatus E) (now older : ℕ)
          → Holds r s
          → s.broker_up ≡ true
          → w.new_job_id ≢ message.job_id
          → Settled
              (give_up ladder spent message w limit reason s)
              true
              (ladder message.attempt limit)
              s
              now
              older
      given_up limit reason s r now older (keys, keys', found, found', live, mine, last, working) up
            fresh =
          let (s', e, made, at) =
            give_up-row ladder spent message w s r limit reason keys' found'
              (held_by-mine r live mine) up in
          (
            s',
            e,
            made,
            rw at (
                finished-Settles (s.clock + seconds (ladder message.attempt limit).1) s.clock now
                  older reason r live fresh),
          )

      pub tried_again :
          (s : Session GenerationStatus E) (r : Row GenerationStatus E) (now older : ℕ)
          → Holds r s
          → s.broker_up ≡ true
          → w.new_job_id ≢ message.job_id
          → Settled
              (try_again ladder spent message w s)
              false
              (ladder message.attempt w.max_attempts)
              s
              now
              older
      tried_again s r now older (keys, keys', found, found', live, mine, last, working) up fresh =
          let (s', e, made, at) =
            try_again-row ladder spent message w s r keys found (held_by-mine r live mine) up in
          (
            s',
            e,
            made,
            rw at (
                extended-Settles (ladder message.attempt w.max_attempts).1 s.clock now older r live
                  last working fresh),
          )

      pub failure_settles :
          (g : Generated) (s : Session GenerationStatus E) (r : Row GenerationStatus E)
          (now older : ℕ)
          → IsFailure g
          → Holds r s
          → s.broker_up ≡ true
          → w.new_job_id ≢ message.job_id
          → Settled
              (after_generation ladder spent message w (g, s))
              (gives_up spent g)
              (destination ladder g)
              s
              now
              older
      unfolding after_generation
      failure_settles generated s r now older fails = absurd fails
      failure_settles (terminal_error name) s r now older fails = given_up 0 _ s r now older
      failure_settles (retryable_error name) s r now older fails =
          elim (Bool-cases (spent message.attempt w.max_attempts)) [
            | inl last ↦ rw last (given_up w.max_attempts _ s r now older)
            | inr rungs ↦ rw rungs (tried_again s r now older)
          ]
      failure_settles (other_error name) s r now older fails =
          elim (Bool-cases (leb 1 message.attempt)) [
            | inl last ↦ rw last (given_up 0 _ s r now older)
            | inr first ↦ rw first (tried_again s r now older)
          ]
