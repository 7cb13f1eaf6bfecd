-- ===== src/Jobs/Polling/Examples.antt =====
-- A client that keeps its assignment and its pauses, and hands over every partition that is open.
use ask_repo.Jobs.Polling.Stalled.{handed_over_stalls}
use ask_repo.Jobs.Polling.Kept.{process_discards_nothing, newcomers_stay_paused, AllIn-self}
use ask_repo.Jobs.Ladder.{ingest_topic}
use ask_repo.Jobs.Session.{Message}
use ask_repo.Access.{member}
use ask_repo.Jobs.Polling.{
  resume_paused, rebalances, pause_assigned, quiet, keep_alive, process_each, Delivery, Polling,
  run_polls, Kafka, AllIn, process,
}
use ask_repo.Prelude.{
  ℕ, ◌≡◌, refl, Bool, true, false, not, ◌&&◌, ◌||◌, some, List, [], ◌∷◌, arith, All, if◌then◌else◌,
}

record Fake : Type 0 where
  held : List ℕ
  paused : ℕ → Bool

open_of : (ℕ → Bool) → List ℕ → List ℕ
open_of paused [] = []
open_of paused (k ∷ ks) = let rest = open_of paused ks in if paused k then rest else k ∷ rest

All-if :
    (P : ℕ → Type 0) (k : ℕ) (ks : List ℕ) (b : Bool)
    → (b ≡ false → P k)
    → All P ks
    → All P (if b then ks else k ∷ ks)
All-if P k ks true h all = all
All-if P k ks false h all = (h refl, all)

All-open_of :
    (held : List ℕ) (paused : ℕ → Bool) (ks : List ℕ)
    → AllIn held ks
    → All (λ k. (member k held ≡ true) × (paused k ≡ false)) (open_of paused ks)
unfolding open_of
All-open_of held paused [] h = tt
All-open_of held paused (k ∷ ks) h =
    All-if (λ j. (member j held ≡ true) × (paused j ≡ false)) k (open_of paused ks) (paused k)
      (λ e. (h.0, e)) (All-open_of held paused ks h.1)

abbrev fake : Kafka
fake = record {
  Consumer = Fake;
  assignment = λ c. c.held;
  is_paused = λ k c. c.paused k;
  pause = λ ks c. record c { paused = λ k. c.paused k || member k ks };
  resume = λ ks c. record c { paused = λ k. c.paused k && not (member k ks) };
  handed = λ c. open_of c.paused c.held;
  polled = λ c. c;
  rebalanced = λ ks c. record { held = ks; paused = λ k. false };
  assignment-pause = λ ks c. refl;
  assignment-resume = λ ks c. refl;
  assignment-polled = λ c. refl;
  assignment-rebalanced = λ ks c. refl;
  is_paused-pause = λ k ks c h. refl;
  is_paused-resume = λ k ks c h. refl;
  is_paused-polled = λ k c. refl;
  is_paused-rebalanced = λ k ks c. refl;
  All-handed = λ c. All-open_of c.held c.paused c.held (AllIn-self c.held);
}

abbrev index_job : Message
index_job = record {
  target_id = 4;
  job_id = 1;
  attempt = 0;
  not_before_ms = 0;
  original_topic = ingest_topic;
}

abbrev idle : Polling fake
idle = record {
  consumer = record { held = 0 ∷ []; paused = λ k. false };
  job_in_flight = false;
  started = [];
  committed = [];
  discarded = [];
}

abbrev next_record : ℕ → Delivery
next_record k = record {
  decoded = some index_job;
  ticks = [];
  returns = true;
  accepts = true;
  offset = 8;
}

-- Without a rebalance the partition is open again, the offset is committed, and the next record is read.
reads_on :
    (run_polls fake
      (next_record ∷ [])
      (process fake (some index_job) (quiet ∷ []) true true 0 7 idle)).committed
    ≡ (0, 9) ∷ (0, 8) ∷ []
unfolding run_polls process process_each open_of member pause_assigned keep_alive resume_paused
reads_on = refl

process_discards_nothing_example :
    (process fake
      (some index_job)
      (quiet ∷ rebalances (0 ∷ 1 ∷ []) ∷ quiet ∷ [])
      true
      true
      0
      7
      idle).discarded
    ≡ []
process_discards_nothing_example =
    process_discards_nothing fake (some index_job) (quiet ∷ rebalances (0 ∷ 1 ∷ []) ∷ quiet ∷ [])
      true true 0 7 idle

newcomers_stay_paused_example :
    fake.is_paused 1 (
      (process fake
        (some index_job)
        (quiet ∷ rebalances (0 ∷ 1 ∷ []) ∷ quiet ∷ [])
        true
        true
        0
        7
        idle).consumer)
    ≡ true
unfolding member process
newcomers_stay_paused_example =
    newcomers_stay_paused fake index_job (quiet ∷ rebalances (0 ∷ 1 ∷ []) ∷ quiet ∷ []) true true 0
      7 1 idle refl

handed_over_stalls_example :
    (run_polls fake
      (next_record ∷ next_record ∷ [])
      (process fake (some index_job) (rebalances (1 ∷ []) ∷ []) true true 0 7 idle)).started
    ≡ index_job ∷ []
unfolding process keep_alive member
handed_over_stalls_example =
    handed_over_stalls fake index_job (rebalances (1 ∷ []) ∷ []) true true 0 7
      (next_record ∷ next_record ∷ []) idle (λ k h. ground (arith, h))
