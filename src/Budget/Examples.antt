-- ===== src/Budget/Examples.antt =====
-- The budget at concrete inputs.
use ask_repo.Prelude.{ℕ, ◌+◌, ◌≤◌, ◌<◌, ◌≡◌, refl, ◌⊎◌, List, [], ◌∷◌}
use ask_repo.Budget.{RetrievedChunk, apply_budget, keep_fitting, truncated}
use ask_repo.Budget.Laws.{Prefix, apply_budget_keeps, total}

abbrev span : List ℕ → RetrievedChunk ℕ ℕ
span content = record { content = content; rest = 0 }

-- The second span does not fit, and the third, which would, is not looked at.
skips_nothing :
    apply_budget (0 ∷ []) 3 (span (1 ∷ 2 ∷ []) ∷ span (3 ∷ 4 ∷ []) ∷ span (5 ∷ []) ∷ [])
    ≡ span (1 ∷ 2 ∷ []) ∷ []
unfolding apply_budget keep_fitting
skips_nothing = refl

apply_budget_keeps_example :
    ((2 ≤ 3)
      × (total (0 ∷ []) (apply_budget (0 ∷ []) 3 (span (1 ∷ 2 ∷ []) ∷ span (3 ∷ 4 ∷ []) ∷ [])) ≤ 3)
      × (ks : List (RetrievedChunk ℕ ℕ)) × (apply_budget
            (0 ∷ [])
            3
            (span (1 ∷ 2 ∷ []) ∷ span (3 ∷ 4 ∷ []) ∷ [])
          ≡ span (1 ∷ 2 ∷ []) ∷ ks)
      × Prefix (0 ∷ []) ks (span (3 ∷ 4 ∷ []) ∷ []))
    ⊎ ((3 < 2)
        × (apply_budget (0 ∷ []) 3 (span (1 ∷ 2 ∷ []) ∷ span (3 ∷ 4 ∷ []) ∷ [])
            ≡ truncated (0 ∷ []) 3 (span (1 ∷ 2 ∷ [])) ∷ [])
        × (total (0 ∷ []) (apply_budget (0 ∷ []) 3 (span (1 ∷ 2 ∷ []) ∷ span (3 ∷ 4 ∷ []) ∷ []))
            ≤ 3 + 1))
apply_budget_keeps_example =
    apply_budget_keeps (0 ∷ []) 3 (span (1 ∷ 2 ∷ [])) (span (3 ∷ 4 ∷ []) ∷ [])
