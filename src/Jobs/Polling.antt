-- ===== src/Jobs/Polling.antt =====
-- backend/app/queue/consumer.py: the polling loop of PausingConsumer, from a record that its poll handed
-- over to the end of `_process`. The aiokafka client is a parameter with its documented laws, those that
-- tests/fakes.py names: a partition that is paused hands nothing over, and a rebalance starts the
-- partitions afresh, unpaused. Partitions are numbers. What happens in each keep-alive poll, how the
-- record decodes, whether the job returns or raises, and whether the broker accepts a commit are given.
pub mod Kept
pub mod Stalled
mod Examples
use ask_repo.Prelude.{
  ℕ, suc, ◌≡◌, Bool, true, false, not, ◌&&◌, ◌||◌, Option, none, some, List, [], ◌∷◌, ◌++◌, All,
  if◌then◌else◌,
}
use ask_repo.Access.{member}
use ask_repo.Jobs.Session.{Message}

-- Every partition of a list is assigned.
abbrev pub AllIn : List ℕ → List ℕ → Type 0
AllIn assigned = All (λ k. member k assigned ≡ true)

pub record Kafka : Type 1 where
  pub Consumer : Type 0
  pub assignment : Consumer → List ℕ
  pub is_paused : ℕ → Consumer → Bool
  pub pause : List ℕ → Consumer → Consumer
  pub resume : List ℕ → Consumer → Consumer
  -- The partitions that the next `getmany` hands records of, and the consumer after it.
  pub handed : Consumer → List ℕ
  pub polled : Consumer → Consumer
  -- A new assignment, before the listener is told of it.
  pub rebalanced : List ℕ → Consumer → Consumer
  pub assignment-pause : (ks : List ℕ) (c : Consumer) → assignment (pause ks c) ≡ assignment c
  pub assignment-resume : (ks : List ℕ) (c : Consumer) → assignment (resume ks c) ≡ assignment c
  pub assignment-polled : (c : Consumer) → assignment (polled c) ≡ assignment c
  pub assignment-rebalanced : (ks : List ℕ) (c : Consumer) → assignment (rebalanced ks c) ≡ ks
  pub is_paused-pause :
      (k : ℕ) (ks : List ℕ) (c : Consumer)
      → AllIn (assignment c) ks
      → is_paused k (pause ks c) ≡ (is_paused k c || member k ks)
  pub is_paused-resume :
      (k : ℕ) (ks : List ℕ) (c : Consumer)
      → AllIn (assignment c) ks
      → is_paused k (resume ks c) ≡ (is_paused k c && not (member k ks))
  pub is_paused-polled : (k : ℕ) (c : Consumer) → is_paused k (polled c) ≡ is_paused k c
  pub is_paused-rebalanced :
      (k : ℕ) (ks : List ℕ) (c : Consumer) → is_paused k (rebalanced ks c) ≡ false
  pub All-handed :
      (c : Consumer)
      → All (λ k. (member k (assignment c) ≡ true) × (is_paused k c ≡ false)) (handed c)

-- One keep-alive poll: a quiet one, one in which the partitions are assigned anew, or one that raises.
pub data Tick : Type 0 where
  quiet : Tick
  rebalances : List ℕ → Tick
  breaks : Tick

-- A record that a poll of `run` hands over, and what becomes of it.
pub record Delivery : Type 0 where
  pub decoded : Option Message
  pub ticks : List Tick
  pub returns : Bool
  pub accepts : Bool
  pub offset : ℕ

-- `[partition for partition in paused if partition in consumer.assignment()]`.
unfoldable pub still_ours : List ℕ → List ℕ → List ℕ
still_ours [] held = []
still_ours (k ∷ ks) held = let rest = still_ours ks held in if member k held then k ∷ rest else rest

module _ (kafka : Kafka) where
  pub record Polling : Type 0 where
    pub consumer : kafka.Consumer
    pub job_in_flight : Bool
    -- The jobs that were started, newest first.
    pub started : List Message
    -- The partitions with the offsets that were committed, newest first.
    pub committed : List (ℕ × ℕ)
    -- The partitions whose records a keep-alive poll read and threw away, newest first.
    pub discarded : List ℕ

  -- `if partitions: consumer.pause(*partitions)`.
  abbrev pub pause_given : List ℕ → kafka.Consumer → kafka.Consumer
  pause_given [] c = c
  pause_given (k ∷ ks) c = kafka.pause (k ∷ ks) c

  -- `_pause_assigned`, which returns the assignment.
  unfoldable pub pause_assigned : kafka.Consumer → kafka.Consumer
  pause_assigned c = pause_given (kafka.assignment c) c

  -- `_RepauseOnRebalance.on_partitions_assigned`.
  unfoldable pub on_partitions_assigned : List ℕ → Bool → kafka.Consumer → kafka.Consumer
  on_partitions_assigned assigned is_busy c = if is_busy then pause_given assigned c else c

  abbrev pub rebalance : List ℕ → Bool → kafka.Consumer → kafka.Consumer
  rebalance ks is_busy c = on_partitions_assigned ks is_busy (kafka.rebalanced ks c)

  -- `_resume`.
  abbrev pub resume_given : List ℕ → kafka.Consumer → kafka.Consumer
  resume_given [] c = c
  resume_given (k ∷ ks) c = kafka.resume (k ∷ ks) c

  unfoldable pub resume_paused : List ℕ → kafka.Consumer → kafka.Consumer
  unfolding still_ours
  resume_paused paused c = resume_given (still_ours paused (kafka.assignment c)) c

  -- A `getmany` whose records are thrown away.
  abbrev pub throw_away : Polling → Polling
  throw_away p = record p {
    consumer = kafka.polled p.consumer;
    discarded = kafka.handed p.consumer ++ p.discarded;
  }

  -- The keep-alive poll. A fetch that a rebalance interrupts goes on with the new partitions.
  abbrev pub keep_alive_poll : Tick → Polling → Polling
  keep_alive_poll quiet p = throw_away p
  keep_alive_poll (rebalances ks) p =
      let q = throw_away p in
      throw_away (record q { consumer = rebalance ks q.job_in_flight q.consumer })
  keep_alive_poll breaks p = p

  abbrev pub re_paused : Polling → Polling
  re_paused p = record p { consumer = pause_assigned p.consumer }

  -- `while not job.done()`, one poll for each entry; and whether the job ended, or a poll raised, in
  -- which case the job's task goes on by itself.
  unfoldable pub keep_alive : List Tick → Polling → Bool × Polling
  unfolding pause_assigned on_partitions_assigned
  keep_alive [] p = (true, p)
  keep_alive (breaks ∷ ticks) p = (false, re_paused p)
  keep_alive (quiet ∷ ticks) p = keep_alive ticks (keep_alive_poll quiet (re_paused p))
  keep_alive (rebalances ks ∷ ticks) p =
      keep_alive ticks (keep_alive_poll (rebalances ks) (re_paused p))

  -- `_commit`: the offset after the record, if the partition is still ours.
  abbrev pub commit_record : Bool → ℕ → ℕ → Polling → Polling
  commit_record true partition offset p = record p {
    committed = (partition, suc offset) ∷ p.committed;
  }
  commit_record false partition offset p = p

  -- After the loop: `await job` and the commit, unless one of them or a poll raised.
  abbrev pub after_job : Bool → Bool → ℕ → ℕ → Bool × Polling → Polling
  after_job returns accepts partition offset (true, p) =
      if returns then commit_record accepts partition offset p else p
  after_job returns accepts partition offset (false, p) = p

  -- The `finally`.
  abbrev pub finally_resume : List ℕ → Polling → Polling
  finally_resume paused p = record p {
    job_in_flight = false;
    consumer = resume_paused paused p.consumer;
  }

  abbrev pub begin_job : Message → Polling → Polling
  begin_job message p = record p {
    consumer = pause_assigned p.consumer;
    job_in_flight = true;
    started = message ∷ p.started;
  }

  -- `_process`, with what it raises absorbed by `_process_guarded`.
  unfoldable pub process : Option Message → List Tick → Bool → Bool → ℕ → ℕ → Polling → Polling
  unfolding pause_assigned keep_alive resume_paused
  process none ticks returns accepts partition offset p = commit_record accepts partition offset p
  process (some message) ticks returns accepts partition offset p =
      finally_resume (kafka.assignment p.consumer)
        (after_job returns accepts partition offset (keep_alive ticks (begin_job message p)))

  unfoldable pub process_each : (ℕ → Delivery) → List ℕ → Polling → Polling
  unfolding process
  process_each delivery [] p = p
  process_each delivery (k ∷ ks) p =
      let d = delivery k in
      process_each delivery ks (process d.decoded d.ticks d.returns d.accepts k d.offset p)

  -- The loop of `run`, with one poll for each entry, which gives the record of each partition.
  unfoldable pub run_polls : List (ℕ → Delivery) → Polling → Polling
  unfolding process_each
  run_polls [] p = p
  run_polls (delivery ∷ polls) p = run_polls polls (
      process_each delivery (kafka.handed p.consumer)
        (record p { consumer = kafka.polled p.consumer }))
