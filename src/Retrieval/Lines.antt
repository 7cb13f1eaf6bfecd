-- ===== src/Retrieval/Lines.antt =====
-- Pieces of a list.
use ask_repo.Prelude.{
  ℕ, zero, suc, ◌+◌, ◌-◌, ◌≤◌, ◌≡◌, refl, sym, ap, ◌∙◌, List, [], ◌∷◌, ◌++◌, arith,
}
use ask_repo.Budget.{take}
use ask_repo.Retrieval.{drop}
use Prim.Native.Nat.{max}

module _ {A : Type 0} where
  drop_zero : (xs : List A) → drop 0 xs ≡ xs
  unfolding drop
  drop_zero [] = refl
  drop_zero (x ∷ xs) = refl

  take_zero : (xs : List A) → take 0 xs ≡ []
  unfolding take
  take_zero [] = refl
  take_zero (x ∷ xs) = refl

  pub take-drop : (n : ℕ) (xs : List A) → take n xs ++ drop n xs ≡ xs
  unfolding take drop
  take-drop n [] = refl
  take-drop zero (x ∷ xs) = refl
  take-drop (suc n) (x ∷ xs) = ap (λ ys. x ∷ ys) (take-drop n xs)

  pub take_and_drop : (m n : ℕ) (xs : List A) → take m xs ++ take n (drop m xs) ≡ take (m + n) xs
  unfolding take drop
  take_and_drop m n [] = refl
  take_and_drop zero n (x ∷ xs) = let e : n ≡ 0 + n = omega arith in ap (λ k. take k (x ∷ xs)) e
  take_and_drop (suc m) n (x ∷ xs) =
      let e : suc (m + n) ≡ suc m + n = omega arith in
      ap (λ ys. x ∷ ys) (take_and_drop m n xs) ∙ ap (λ k. take k (x ∷ xs)) e

  drop-take : (k n : ℕ) (xs : List A) → drop k (take n xs) ≡ take (n - k) (drop k xs)
  unfolding take drop
  drop-take k n [] = refl
  drop-take zero n (x ∷ xs) =
      let e : n ≡ n - 0 = omega arith in drop_zero (take n (x ∷ xs)) ∙ ap (λ k. take k (x ∷ xs)) e
  drop-take (suc k) zero (x ∷ xs) =
      let e : 0 ≡ 0 - suc k = omega arith in
      sym (take_zero (drop k xs)) ∙ ap (λ j. take j (drop k xs)) e
  drop-take (suc k) (suc n) (x ∷ xs) =
      let e : n - k ≡ suc n - suc k = omega arith in
      drop-take k n xs ∙ ap (λ j. take j (drop k xs)) e

  pub drop-drop : (k j : ℕ) (xs : List A) → drop k (drop j xs) ≡ drop (j + k) xs
  unfolding drop
  drop-drop k j [] = refl
  drop-drop k zero (x ∷ xs) = let e : k ≡ 0 + k = omega arith in ap (λ j. drop j (x ∷ xs)) e
  drop-drop k (suc j) (x ∷ xs) =
      let e : suc (j + k) ≡ suc j + k = omega arith in
      drop-drop k j xs ∙ ap (λ i. drop i (x ∷ xs)) e

  -- Lines `a` to `b`, counted from 1.
  abbrev pub slice : ℕ → ℕ → List A → List A
  slice a b xs = take (suc b - a) (drop (a - 1) xs)

  -- Two pieces that overlap or touch, joined without the shared lines.
  pub slice-slice :
      (a b c d : ℕ) (xs : List A)
      → 1 ≤ a
      → a ≤ c
      → c ≤ suc b
      → slice a b xs ++ drop (suc b - c) (slice c d xs) ≡ slice a (max b d) xs
  slice-slice a b c d xs h i j =
      let m = suc b - a in
      let k = suc b - c in
      let n = suc d - c in
      let from : (c - 1) + k ≡ (a - 1) + m = omega (arith, h, i, j) in
      let to : m + (n - k) ≡ suc (max b d) - a = omega (arith, h, i, j) in
      ap (λ ys. take m (drop (a - 1) xs) ++ ys)
        (drop-take k n (drop (c - 1) xs)
          ∙ ap (take (n - k))
              (drop-drop k (c - 1) xs ∙ ap (λ e. drop e xs) from ∙ sym (drop-drop m (a - 1) xs)))
      ∙ take_and_drop m (n - k) (drop (a - 1) xs)
      ∙ ap (λ e. take e (drop (a - 1) xs)) to
