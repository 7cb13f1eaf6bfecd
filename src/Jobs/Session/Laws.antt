-- ===== src/Jobs/Session/Laws.antt =====
-- What was rolled back is not announced.
use ask_repo.Prelude.{ℕ, ◌≡◌, List, [], ◌∷◌, arith}
use ask_repo.Jobs.Session.{stage}

-- The same event twice in one transaction is announced once.
pub stage-stage : (e : ℕ) (xs : List ℕ) → stage e (stage e xs) ≡ stage e xs
unfolding stage
stage-stage e [] = ground arith
stage-stage e (x ∷ xs) = ground (arith, stage-stage e xs)
