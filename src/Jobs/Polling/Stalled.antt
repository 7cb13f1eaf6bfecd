-- ===== src/Jobs/Polling/Stalled.antt =====
-- A worker whose partitions were all handed over in the middle of a job.
use ask_repo.Jobs.Polling.Kept.{newcomers_stay_paused, polled-AllPaused, none_handed, AllPaused}
use ask_repo.Access.{member}
use ask_repo.Jobs.Session.{Message}
use ask_repo.Jobs.Polling.{process, Polling, Delivery, process_each, Tick, run_polls, Kafka}
use ask_repo.Prelude.{ℕ, ◌≡◌, refl, ap, ◌∙◌, Bool, true, false, not, some, List, [], ◌∷◌}

module _ (kafka : Kafka) where
  -- A loop all of whose partitions are paused starts no job.
  paused-run_polls :
      (polls : List (ℕ → Delivery)) (p : Polling kafka)
      → AllPaused kafka p.consumer
      → (run_polls kafka polls p).started ≡ p.started
  unfolding run_polls process_each
  paused-run_polls [] p paused = refl
  paused-run_polls (delivery ∷ polls) p paused =
      let next = record p { consumer = kafka.polled p.consumer } in
      let empty : kafka.handed p.consumer ≡ [] =
        none_handed kafka (kafka.handed p.consumer) p.consumer (kafka.All-handed p.consumer)
          paused in
      ap (λ ks. (run_polls kafka polls (process_each kafka delivery ks next)).started) empty
      ∙ paused-run_polls polls next (polled-AllPaused kafka p.consumer paused)

  -- When rebalances during a job leave the worker with partitions none of which it held when the job
  -- began, the worker starts no job again, however often it polls, as long as nothing is rebalanced.
  pub handed_over_stalls :
      (message : Message) (ticks : List Tick) (returns accepts : Bool) (partition offset : ℕ)
      → (polls : List (ℕ → Delivery)) (p : Polling kafka)
      → ((k : ℕ)
          → member k (
              kafka.assignment
                ((process kafka (some message) ticks returns accepts partition offset p).consumer))
            ≡ true
          → member k (kafka.assignment p.consumer) ≡ false)
      → (run_polls kafka polls
          (process kafka (some message) ticks returns accepts partition offset p)).started
        ≡ (process kafka (some message) ticks returns accepts partition offset p).started
  handed_over_stalls message ticks returns accepts partition offset polls p fresh =
      paused-run_polls polls (process kafka (some message) ticks returns accepts partition offset p)
        (λ k h.
          newcomers_stay_paused kafka message ticks returns accepts partition offset k p h
          ∙ ap not (fresh k h))
