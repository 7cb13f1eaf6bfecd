-- ===== src/Jobs/Ladder/Laws.antt =====
-- The ladders of topics.py are bounded, and their two questions agree.
use ask_repo.Prelude.{
  ℕ, zero, suc, ◌+◌, ◌≡◌, ◌↔◌, true, Option, none, some, List, [], ◌∷◌, arith, leb, if◌then◌else◌,
}
use ask_repo.Jobs.Ladder.{
  JobKind, Rung, dlq, retry_1m, retry_10m, checklist_next_destination, mock_data_next_destination,
  eval_next_destination, checklist_retries_exhausted, mock_data_retries_exhausted,
  eval_retries_exhausted, router,
}

-- The rungs that a job climbs which fails on every attempt from `attempt` on, up to and with the
-- dead letters; `none` means that the fuel ran out.
unfoldable pub climb : ℕ → JobKind → ℕ → ℕ → Option (List Rung)
climb zero k m attempt = none
climb (suc fuel) k m attempt = elim (router k attempt m).0.rung [
  | dlq ↦ some (dlq ∷ [])
  | _ ↦ elim (climb fuel k m (attempt + 1)) [
    | none ↦ none
    | some rs ↦ some ((router k attempt m).0.rung ∷ rs)
  ]
]

-- The full ladder of a job that may be tried `m` times.
abbrev pub full_climb : ℕ → List Rung
full_climb m =
    if leb m 1
    then dlq ∷ []
    else if leb m 2
    then retry_1m ∷ dlq ∷ []
    else retry_1m ∷ retry_10m ∷ dlq ∷ []

-- Whatever the kind of job and the configured number of attempts, a job that always fails climbs
-- the one-minute rung, then the ten-minute rung, as far as its attempts allow, and then reaches the
-- dead letters: fuel 3 is enough.
climb-eq-full_climb : (k : JobKind) (m : ℕ) → climb 3 k m 0 ≡ some (full_climb m)
unfolding climb router
climb-eq-full_climb JobKind.ingest m = ground arith
climb-eq-full_climb JobKind.checklist m = ground arith
climb-eq-full_climb JobKind.mock_data m = ground arith
climb-eq-full_climb JobKind.eval m = ground arith

-- Of the three kinds of job that ask it, "are the retries spent?" is answered yes exactly when the
-- router sends the job to the dead letters, and otherwise the router gives a rung with a delay.
retries_exhausted_agree :
    (attempt m : ℕ)
    → ((checklist_retries_exhausted attempt m ≡ true)
        ↔ ((checklist_next_destination attempt m).1 ≡ 0))
      × ((mock_data_retries_exhausted attempt m ≡ true)
          ↔ ((mock_data_next_destination attempt m).1 ≡ 0))
      × ((eval_retries_exhausted attempt m ≡ true) ↔ ((eval_next_destination attempt m).1 ≡ 0))
unfolding checklist_retries_exhausted mock_data_retries_exhausted eval_retries_exhausted
retries_exhausted_agree attempt m = ground arith
