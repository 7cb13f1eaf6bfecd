-- ===== src/RateLimit/Examples.antt =====
-- Counters that keep every hit in a list, newest first.
use Prim.Native.String.{String}
use text.Mathlib.Text.{◌==◌ as str_eq}
use text.Mathlib.TextEquality.{eq_iff}
use ask_repo.Prelude.{
  ℕ, suc, ◌≡◌, refl, ap, ◌∙◌, ◌≢◌, ◌⊎◌, inl, inr, true, ◌&&◌, none, some, List, [], ◌∷◌, arith,
  ◌==◌, if◌then◌else◌, Bool-cases,
}
use ask_repo.RateLimit.{Counters, client_ip, entries_of, not_blank}
use ask_repo.RateLimit.Address.{client_ip_ignores_prefix}
use ask_repo.RateLimit.Counting.{let_through, let_through_lem}

abbrev Counts : Type 0
Counts = String → ℕ → ℕ

-- Another count for one key and window.
abbrev recount : String → ℕ → ℕ → Counts → Counts
recount j v n f k w = if str_eq k j && w == v then n else f k w

recount_here : (k : String) (w n : ℕ) (f : Counts) → recount k w n f k w ≡ n
recount_here k w n f =
    let same : str_eq k k ≡ true = (eq_iff k k).1 refl in
    ap (λ b. if b && w == w then n else f k w) same ∙ ground arith

recount_elsewhere :
    (k j : String) (w v n : ℕ) (f : Counts) → (k ≢ j) ⊎ (w ≢ v) → recount j v n f k w ≡ f k w
recount_elsewhere k j w v n f (inl other) = elim (Bool-cases (str_eq k j)) [
  | inl same ↦ absurd (other ((eq_iff k j).0 same))
  | inr no_match ↦ ap (λ b. if b && w == v then n else f k w) no_match
]
recount_elsewhere k j w v n f (inr other) = elim (Bool-cases (str_eq k j)) [
  | inl same ↦ ap (λ b. if b && w == v then n else f k w) same ∙ ground arith
  | inr no_match ↦ ap (λ b. if b && w == v then n else f k w) no_match
]

abbrev counters : Counters
counters = record {
  State = Counts;
  count = λ k w f. f k w;
  incr = λ k w f. recount k w (suc (f k w)) f;
  delete = λ k w f. recount k w 0 f;
  count-incr = λ k w f. recount_here k w (suc (f k w)) f;
  count-incr_other = λ k j w v f n. recount_elsewhere k j w v (suc (f j v)) f n;
  count-delete = λ k w f. recount_here k w 0 f;
}

abbrev no_hits : Counts
no_hits k w = 0

abbrev strip : String → String
strip t = t

-- The header's text is not looked into: a client that sends one entry of its own.
abbrev split : String → List String
split t = "forged" ∷ "" ∷ "caller" ∷ "proxy" ∷ []

client_ip_ignores_prefix_example :
    client_ip strip split none (some "forged,,caller,proxy") 2 ≡ "caller"
unfolding entries_of not_blank
client_ip_ignores_prefix_example =
    client_ip_ignores_prefix strip split none "forged,,caller,proxy" ("forged" ∷ []) "caller"
      ("proxy" ∷ []) (λ e. cc e) refl

let_through_lem_example :
    let_through counters 2 60 "rl" 1
      (("rl", 60) ∷ ("other", 70) ∷ ("rl", 90) ∷ ("rl", 119) ∷ ("rl", 120) ∷ [])
      no_hits
    ≡ 2
let_through_lem_example =
    let_through_lem counters 2 60 "rl" 1
      (("rl", 60) ∷ ("other", 70) ∷ ("rl", 90) ∷ ("rl", 119) ∷ ("rl", 120) ∷ []) no_hits
