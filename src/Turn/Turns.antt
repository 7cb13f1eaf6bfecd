-- ===== src/Turn/Turns.antt =====
-- Whole turns.
use Prim.Native.String.{String}
use ask_repo.Prelude.{
  ℕ, zero, suc, ◌+◌, ◌-◌, ◌*◌, ◌≤◌, ◌≡◌, ap, ◌∙◌, Bool, true, Option, some, List, arith, ◌==◌,
  if◌then◌else◌,
}
use ask_repo.Turn.{
  Setup, TurnState, run_turn, run_from, step, classify, route_intent, intent_node, Intent,
  codebase_question, conversational, out_of_scope,
}
use ask_repo.Turn.Bounds.{count_events, is_citations, Adds, classify-Adds}
use ask_repo.Turn.Ends.{from_history, from_refuse, Ends}
use ask_repo.Turn.Loop.{loop, loop_fuel, loop_fuel-eq}

module _ {A : Type 0} (setup : Setup A) where
  -- The run from the node of an intent, where nothing has been searched for.
  abbrev Answered : ℕ → Option (TurnState A) → TurnState A → Type 0
  Answered k result s =
      (s' : TurnState A) × (searches : ℕ) × (result ≡ some s')
      × Adds 1 searches s s'
      × (searches ≤ suc k)

  unsearched :
      (k : ℕ) (result : Option (TurnState A)) (s : TurnState A)
      → Ends setup 1 0 result s
      → Answered k result s
  unsearched k result s (s', e, adds) = (s', 0, e, adds, omega arith)

  history_route-Answered :
      (f k : ℕ) (s : TurnState A)
      → Answered k (run_from (loop_fuel setup f k) setup (intent_node conversational) s) s
  history_route-Answered f zero s = unsearched zero _ s (from_history setup (suc (suc f)) s)
  history_route-Answered f (suc k) s =
      unsearched (suc k) _ s (from_history setup (loop_fuel setup f k) s)

  refuse_route-Answered :
      (f k : ℕ) (s : TurnState A)
      → Answered k (run_from (loop_fuel setup f k) setup (intent_node out_of_scope) s) s
  refuse_route-Answered f zero s = unsearched zero _ s (from_refuse setup (suc (suc (suc f))) s)
  refuse_route-Answered f (suc k) s =
      unsearched (suc k) _ s (from_refuse setup (suc (loop_fuel setup f k)) s)

  any_route-Answered :
      (i : Intent) (f k : ℕ) (s : TurnState A)
      → ((query : String) → (spans : List A) × (setup.search query ≡ some spans))
      → setup.max_attempts ≤ suc k
      → s.attempts ≡ 0
      → Answered k (run_from (loop_fuel setup f k) setup (intent_node i) s) s
  any_route-Answered conversational f k s finds enough first = history_route-Answered f k s
  any_route-Answered out_of_scope f k s finds enough first = refuse_route-Answered f k s
  any_route-Answered codebase_question f k s finds enough first =
      let (s', more, e, (c, l), few) = loop setup f k s finds (omega (arith, enough, first)) in
      let new : (s.attempts == 0) ≡ true = ground (arith, first) in
      (
        s',
        suc more,
        e,
        (c ∙ ap (λ (b : Bool). count_events is_citations s.emitted + (if b then 1 else 0)) new, l),
        omega (arith, few),
      )

  -- A turn, with a retriever that does not raise, ends within two steps for each search that the budget
  -- allows and three more. It streams its citations exactly once, whichever way the question is routed,
  -- and searches no more often than the budget allows, whatever the model calls give.
  pub turn_ends :
      (s : TurnState A) (extra : ℕ)
      → 1 ≤ setup.max_attempts
      → ((query : String) → (spans : List A) × (setup.search query ≡ some spans))
      → (s' : TurnState A) × (searches : ℕ) × (run_turn (2 * setup.max_attempts + 3 + extra) setup s
          ≡ some s')
        × Adds 1 searches s s'
        × (searches ≤ setup.max_attempts)
  unfolding run_turn run_from step route_intent
  turn_ends s extra some_budget finds =
      let k = setup.max_attempts - 1 in
      let c = classify setup s in
      let ((ca, cs), first) = classify-Adds setup s in
      let (s', n, e, (a, b), few) =
        any_route-Answered c.intent extra k c finds (omega arith) first in
      let steps : 2 * setup.max_attempts + 3 + extra ≡ suc (loop_fuel setup extra k) =
        omega (arith, loop_fuel-eq setup extra k, some_budget) in
      (
        s',
        n,
        ap (λ fuel. run_turn fuel setup s) steps ∙ e,
        (omega (arith, a, ca), omega (arith, b, cs)),
        omega (arith, few, some_budget),
      )
