-- ===== src/Jobs/Retry/Examples.antt =====
-- Two logs of retries, the first of which is due after five seconds.
use ask_repo.Jobs.Ladder.{ingest_topic}
use ask_repo.Jobs.Retry.{is_reassigned, takes_turn, fresh, run_events, turn, nth}
use ask_repo.Jobs.Retry.Order.{acknowledged_was_sent, failed_release_lost, IsSent}
use ask_repo.Jobs.Session.{Message}
use ask_repo.Prelude.{ℕ, ◌≡◌, refl, true, false, none, some, [], ◌∷◌, arith}

abbrev held : ℕ → ℕ → Message
held id at = record {
  target_id = 4;
  job_id = id;
  attempt = 1;
  not_before_ms = at;
  original_topic = ingest_topic;
}

abbrev first_held : Message
first_held = held 1 5000

abbrev second_held : Message
second_held = held 2 6000

acknowledged_was_sent_example :
    IsSent first_held
      (run_events 1000
        (takes_turn false ∷ is_reassigned ∷ takes_turn true ∷ takes_turn true ∷ [])
        (fresh (some first_held ∷ none ∷ []) 2500)).sent
unfolding run_events nth
acknowledged_was_sent_example =
    acknowledged_was_sent 1000
      (takes_turn false ∷ is_reassigned ∷ takes_turn true ∷ takes_turn true ∷ [])
      (some first_held ∷ none ∷ []) 2500 0 first_held (omega arith) (omega arith) refl

failed_release_lost_example :
    (now : ℕ) × ((turn 1000 true true
        (turn 1000 false false (fresh (some first_held ∷ some second_held ∷ []) 2500))).sent
      ≡ (now, second_held) ∷ [])
    × ((turn 1000 true true
          (turn 1000 false false (fresh (some first_held ∷ some second_held ∷ []) 2500))).offset
        ≡ 2)
unfolding nth
failed_release_lost_example =
    failed_release_lost 1000 false first_held second_held
      (fresh (some first_held ∷ some second_held ∷ []) 2500) (omega arith) refl refl
