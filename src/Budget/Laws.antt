-- ===== src/Budget/Laws.antt =====
-- What the budget keeps.
use ask_repo.Prelude.{
  ℕ, zero, suc, ◌+◌, ◌-◌, ◌≤◌, ◌<◌, ◌≡◌, refl, ◌⊎◌, inl, inr, true, List, [], ◌∷◌, arith, length,
  length-append, leb, Bool-cases,
}
use ask_repo.Budget.{RetrievedChunk, apply_budget, keep_fitting, take, truncated}

length-take : {A : Type 0} (n : ℕ) (xs : List A) → length (take n xs) ≤ n
unfolding take
length-take n [] = omega arith
length-take zero (x ∷ xs) = omega arith
length-take (suc n) (x ∷ xs) = omega (arith, length-take n xs)

module _ {C X : Type 0} (marker : List C) where
  abbrev pub total : List (RetrievedChunk C X) → ℕ
  total [] = 0
  total (c ∷ cs) = length c.content + total cs

  -- The spans that are kept whole are the first ones.
  abbrev pub Prefix : List (RetrievedChunk C X) → List (RetrievedChunk C X) → Type 0
  Prefix [] cs = Unit {0}
  Prefix (k ∷ ks) [] = ⊥
  Prefix (k ∷ ks) (c ∷ cs) = (k ≡ c) × Prefix ks cs

  keep_fitting-fits :
      (remaining : ℕ) (cs : List (RetrievedChunk C X))
      → (total (keep_fitting marker true remaining cs) ≤ remaining)
        × Prefix (keep_fitting marker true remaining cs) cs
  unfolding keep_fitting
  keep_fitting-fits remaining [] = (omega arith, tt)
  keep_fitting-fits remaining (c ∷ cs) =
      let (fits, first) = keep_fitting-fits (remaining - length c.content) cs in
      elim (Bool-cases (leb (length c.content) remaining)) [
        | inl fit ↦
            let small : length c.content ≤ remaining = ground (arith, fit) in
            rw fit (omega (arith, fits, small), (refl, first))
        | inr large ↦ rw large (omega arith, tt)
      ]

  -- The spans that are kept are the first ones, whole, and fit into the budget together, when the first
  -- one fits. When it does not, it alone is kept, cut to the budget and marked. So the prompt is never
  -- longer than the budget and the marker, and never without a span where one was found.
  pub apply_budget_keeps :
      (max_chars : ℕ) (c : RetrievedChunk C X) (cs : List (RetrievedChunk C X))
      → ((length c.content ≤ max_chars)
          × (total (apply_budget marker max_chars (c ∷ cs)) ≤ max_chars)
          × (ks : List (RetrievedChunk C X)) × (apply_budget marker max_chars (c ∷ cs) ≡ c ∷ ks)
          × Prefix ks cs)
        ⊎ ((max_chars < length c.content)
            × (apply_budget marker max_chars (c ∷ cs) ≡ truncated marker max_chars c ∷ [])
            × (total (apply_budget marker max_chars (c ∷ cs)) ≤ max_chars + length marker))
  unfolding apply_budget keep_fitting truncated
  apply_budget_keeps max_chars c cs =
      let (fits, first) = keep_fitting-fits (max_chars - length c.content) cs in
      elim (Bool-cases (leb (length c.content) max_chars)) [
        | inl fit ↦
            let small : length c.content ≤ max_chars = ground (arith, fit) in
            rw fit (inl (small, omega (arith, fits, small), _, refl, first))
        | inr large ↦ rw large (
            inr (
              ground (arith, large),
              refl,
              omega (
                arith,
                length-take max_chars c.content,
                length-append (take max_chars c.content) marker,
              ),
            ))
      ]
