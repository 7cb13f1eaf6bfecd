-- ===== src/RateLimit/Counting.antt =====
-- How many attempts a window lets through.
use Prim.Native.Nat.{min}
use Prim.Native.String.{String}
use text.Mathlib.Text.{◌==◌ as str_eq}
use text.Mathlib.TextEquality.{eq_iff}
use ask_repo.Prelude.{
  ℕ, ◌+◌, ◌-◌, ◌/◌, ◌≡◌, refl, sym, ap, ◌∙◌, ◌≢◌, ◌⊎◌, inl, inr, Bool, true, false, ◌&&◌, List, [],
  ◌∷◌, arith, ltb, ◌==◌, if◌then◌else◌, ==_iff, Bool-cases,
}
use ask_repo.Access.{Call, ok, raised, ErrorCode, ensure, rate_limited}
use ask_repo.RateLimit.{Counters, hit}

abbrev passed : Call (Unit {0}) → ℕ
passed (ok a) = 1
passed (raised e) = 0

-- Whether an attempt counts for a key in a window.
abbrev pub counts_for : ℕ → String → ℕ → String × ℕ → Bool
counts_for window_seconds key window a = str_eq a.0 key && (a.1 / window_seconds) == window

abbrev pub attempts_for : ℕ → String → ℕ → List (String × ℕ) → ℕ
attempts_for window_seconds key window [] = 0
attempts_for window_seconds key window (a ∷ rest) =
    (if counts_for window_seconds key window a then 1 else 0)
    + attempts_for window_seconds key window rest

and-true : (a b : Bool) → (a && b) ≡ true → (a ≡ true) × (b ≡ true)
and-true true b h = (refl, h)
and-true false b h = cc

counts_for-true :
    (window_seconds : ℕ) (key : String) (window : ℕ) (a : String × ℕ)
    → counts_for window_seconds key window a ≡ true
    → (a.0 ≡ key) × (a.1 / window_seconds ≡ window)
counts_for-true window_seconds key window a h =
    let both = and-true (str_eq a.0 key) ((a.1 / window_seconds) == window) h in
    ((eq_iff a.0 key).0 both.0, (==_iff _ _).0 both.1)

counts_for-false :
    (window_seconds : ℕ) (key : String) (window : ℕ) (a : String × ℕ)
    → counts_for window_seconds key window a ≡ false
    → (key ≢ a.0) ⊎ (window ≢ a.1 / window_seconds)
counts_for-false window_seconds key window a h = elim (Bool-cases (str_eq a.0 key)) [
  | inr other ↦
      inl (λ e. let same : str_eq a.0 key ≡ true = (eq_iff a.0 key).1 (sym e) in cc (same, other))
  | inl same ↦
      let later : ((a.1 / window_seconds) == window) ≡ false =
        ap (λ b. b && ((a.1 / window_seconds) == window)) (sym same) ∙ h in
      inr (λ e.
        let now : ((a.1 / window_seconds) == window) ≡ true = (==_iff _ _).1 (sym e) in
        cc (now, later))
]

-- One attempt and the rest, whether or not it counts.
step_min :
    (b : Bool) (p l m c d limit : ℕ)
    → (b ≡ true → p ≡ (if ltb c limit then 1 else 0))
    → d ≡ (if b then 1 else 0) + c
    → l ≡ min m (limit - d)
    → (if b then p else 0) + l ≡ min ((if b then 1 else 0) + m) (limit - c)
step_min true p l m c d limit h e f = ground (arith, h refl)
step_min false p l m c d limit h e f = ground arith

passed-ensure : (b : Bool) (e : ErrorCode) → passed (ensure b e) ≡ (if b then 1 else 0)
passed-ensure true e = refl
passed-ensure false e = refl

module _ (redis : Counters) (limit window_seconds : ℕ) where
  -- The attempts for a key in a window that get through, of attempts that all reach the server.
  unfoldable pub let_through : String → ℕ → List (String × ℕ) → redis.State → ℕ
  let_through key window [] s = 0
  let_through key window (a ∷ rest) s =
      let (answer, t) = hit redis true a.0 limit window_seconds a.1 s in
      (if counts_for window_seconds key window a then passed answer else 0)
      + let_through key window rest t

  passed-hit :
      (key : String) (now : ℕ) (s : redis.State)
      → passed (hit redis true key limit window_seconds now s).0
        ≡ (if ltb (redis.count key (now / window_seconds) s) limit then 1 else 0)
  unfolding hit
  passed-hit key now s =
      passed-ensure _ rate_limited ∙ ground (arith, redis.count-incr key (now / window_seconds) s)

  count-hit :
      (key : String) (window : ℕ) (a : String × ℕ) (s : redis.State)
      → redis.count key window (hit redis true a.0 limit window_seconds a.1 s).1
        ≡ (if counts_for window_seconds key window a then 1 else 0) + redis.count key window s
  unfolding hit
  count-hit key window a s = elim (Bool-cases (counts_for window_seconds key window a)) [
    | inl yours ↦
        let (same, now) = counts_for-true window_seconds key window a yours in
        ap (λ k. redis.count key window (redis.incr k (a.1 / window_seconds) s)) same
        ∙ ap (λ w. redis.count key window (redis.incr key w s)) now
        ∙ redis.count-incr key window s
        ∙ omega arith
        ∙ ap (λ b. (if b then 1 else 0) + redis.count key window s) (sym yours)
    | inr other ↦
        redis.count-incr_other key a.0 window (a.1 / window_seconds) s
          (counts_for-false window_seconds key window a other)
        ∙ omega arith
        ∙ ap (λ b. (if b then 1 else 0) + redis.count key window s) (sym other)
  ]

  -- Of any sequence of attempts that all reach the server and are not reset, those for one key in one window
  -- get through as long as the counter is below the limit: as many as there are, and at most the limit less the
  -- counter at the start.
  pub let_through_lem :
      (key : String) (window : ℕ) (rest : List (String × ℕ)) (s : redis.State)
      → let_through key window rest s
        ≡ min (attempts_for window_seconds key window rest) (limit - redis.count key window s)
  unfolding let_through
  let_through_lem key window [] s = omega arith
  let_through_lem key window (a ∷ rest) s =
      let t = (hit redis true a.0 limit window_seconds a.1 s).1 in
      let counted : counts_for window_seconds key window a ≡ true
          → passed (hit redis true a.0 limit window_seconds a.1 s).0
            ≡ (if ltb (redis.count key window s) limit then 1 else 0) =
        λ yours.
          let (same, now) = counts_for-true window_seconds key window a yours in
          passed-hit a.0 a.1 s
          ∙ ap (λ k. if ltb (redis.count k (a.1 / window_seconds) s) limit then 1 else 0) same
          ∙ ap (λ w. if ltb (redis.count key w s) limit then 1 else 0) now in
      step_min (counts_for window_seconds key window a) _ _
        (attempts_for window_seconds key window rest) (redis.count key window s)
        (redis.count key window t) limit counted (count-hit key window a s)
        (let_through_lem key window rest t)
