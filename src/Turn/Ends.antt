-- ===== src/Turn/Ends.antt =====
-- A turn ends, within its budget of searches.
use ask_repo.Prelude.{
  ℕ, zero, suc, ◌+◌, ◌≡◌, refl, Bool, true, false, Option, some, arith, if◌then◌else◌,
}
use ask_repo.Turn.{
  at_propose, at_end, at_generate, at_answer_from_history, at_refuse, Setup, TurnState,
  answer_from_history, generate, propose_changes, refuse, run_from, step,
}
use ask_repo.Turn.Bounds.{
  Adds, answer_from_history-Adds, generate-Adds, propose_changes-Adds, refuse-Adds,
}

module _ {A : Type 0} (setup : Setup A) where
  pub run_from-at_end : (f : ℕ) (s : TurnState A) → run_from f setup at_end s ≡ some s
  unfolding run_from step
  run_from-at_end zero s = refl
  run_from-at_end (suc f) s = run_from-at_end f s

  -- The run ends, and has added so many events.
  abbrev pub Ends : ℕ → ℕ → Option (TurnState A) → TurnState A → Type 0
  Ends c k result s = (s' : TurnState A) × (result ≡ some s') × Adds c k s s'

  Adds-trans :
      (c k d l : ℕ) (s t u : TurnState A) → Adds c k s t → Adds d l t u → Adds (c + d) (k + l) s u
  Adds-trans c k d l s t u (a, b) (a', b') = (omega (arith, a, a'), omega (arith, b, b'))

  from_tail :
      (proposes : Bool) (f : ℕ) (s : TurnState A)
      → Ends 0 0 (run_from (suc f) setup (if proposes then at_propose else at_end) s) s
  unfolding run_from step
  from_tail true f s = (
    propose_changes setup s,
    run_from-at_end f (propose_changes setup s),
    propose_changes-Adds setup s,
  )
  from_tail false f s = (s, run_from-at_end f s, (omega arith, omega arith))

  pub from_generate :
      (f : ℕ) (s : TurnState A) → Ends 0 0 (run_from (suc (suc f)) setup at_generate s) s
  unfolding run_from step
  from_generate f s =
      let (s', e, adds) = from_tail setup.proposes f (generate setup s) in
      (s', e, Adds-trans 0 0 0 0 s (generate setup s) s' (generate-Adds setup s) adds)

  pub from_history :
      (f : ℕ) (s : TurnState A) → Ends 1 0 (run_from (suc (suc f)) setup at_answer_from_history s) s
  unfolding run_from step
  from_history f s =
      let (s', e, adds) = from_tail setup.proposes f (answer_from_history setup s) in
      (
        s',
        e,
        Adds-trans 1 0 0 0 s (answer_from_history setup s) s' (answer_from_history-Adds setup s)
            adds,
      )

  pub from_refuse : (f : ℕ) (s : TurnState A) → Ends 1 0 (run_from (suc f) setup at_refuse s) s
  unfolding run_from step
  from_refuse f s = (refuse setup s, run_from-at_end f (refuse setup s), refuse-Adds setup s)
