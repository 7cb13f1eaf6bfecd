-- ===== src/Budget.antt =====
-- backend/app/rag/retriever.py: `apply_budget`, which keeps the best spans that fit into the prompt. A text
-- is a list of characters of any type, and the rest of a span, which the budget passes on, any value.
mod Examples
pub mod Laws
use ask_repo.Prelude.{
  ℕ, zero, suc, ◌-◌, Bool, true, false, List, [], ◌∷◌, ◌++◌, length, leb, if◌then◌else◌,
}

pub record RetrievedChunk (C X : Type 0) : Type 0 where
  pub content : List C
  pub rest : X

-- `text[:n]`.
unfoldable pub take {ℓ} : {A : Type ℓ} → ℕ → List A → List A
take n [] = []
take zero (x ∷ xs) = []
take (suc n) (x ∷ xs) = x ∷ take n xs

module _ {C X : Type 0} (truncation_marker : List C) where
  unfoldable pub truncated : ℕ → RetrievedChunk C X → RetrievedChunk C X
  truncated remaining c = record c { content = take remaining c.content ++ truncation_marker }

  -- The loop, with whether something is kept already.
  unfoldable pub keep_fitting : Bool → ℕ → List (RetrievedChunk C X) → List (RetrievedChunk C X)
  keep_fitting kept remaining [] = []
  keep_fitting kept remaining (c ∷ cs) =
      let more = keep_fitting true (remaining - length c.content) cs in
      if leb (length c.content) remaining
      then c ∷ more
      else if kept
      then []
      else truncated remaining c ∷ []

  unfoldable pub apply_budget : ℕ → List (RetrievedChunk C X) → List (RetrievedChunk C X)
  apply_budget max_chars chunks = keep_fitting false max_chars chunks
