-- ===== src/Turn/Answerer/Nodes.antt =====
-- The nodes of a turn and what holds before each.
use mathlib.Core.Path.{subst}
use ask_repo.Turn.Answerer.{is_question}
use ask_repo.Turn.Answerer.Texts.{
  write_answer-IsSaid, texts-append, lacks_spans, texts-status, IsSilent, Holds, IsSaid,
}
use ask_repo.Turn.{
  at_end, at_propose, at_refuse, at_answer_from_history, at_generate, at_grade, at_retrieve,
  at_classify, change_set, generating, out_of_scope, conversational, propose_changes, to_citations,
  codebase_question, token, grading, answer_from_history, retrieving, classifying, citations,
  after_answer, status, intent_node, no_spans, generate, judge, route_intent, emit, accept,
  retrieve, Intent, TurnState, found_spans, Setup, refuse, route_after_grading, Node, step,
  run_from, grade, classify, route_after_retrieval,
}
use Prim.Native.String.append
use Prim.Native.String.{◌++◌ as ◌^^◌}
use ask_repo.Prelude.{
  ℕ, zero, suc, ◌≡◌, refl, sym, ap, ◌∙◌, inl, inr, false, ◌&&◌, ◌||◌, Option, none, some, List, [],
  ◌∷◌, ◌++◌, arith, leb, Bool-cases,
}

module _ {A : Type 0} where
  route_intent-Holds :
      (s : TurnState A) (i : Intent) → s.intent ≡ i → IsSilent s → Holds (intent_node i) s
  route_intent-Holds s codebase_question e h = h
  route_intent-Holds s conversational e h = (h, ap (λ i. is_question i && no_spans s.spans) e)
  route_intent-Holds s out_of_scope e h = (h, ap (λ i. is_question i && no_spans s.spans) e)

  classify-IsSilent : (setup : Setup A) (s : TurnState A) → IsSilent s → IsSilent (classify setup s)
  unfolding classify accept emit
  classify-IsSilent setup s h = ground (arith, texts-status s.emitted (status classifying) refl)

  found_spans-IsSilent :
      (spans : List A) (s : TurnState A)
      → IsSilent s
      → IsSilent (found_spans spans (emit (status retrieving) s))
        × ((found_spans spans (emit (status retrieving) s)).spans ≡ spans)
  unfolding found_spans emit
  found_spans-IsSilent spans s h =
      let es = s.emitted ++ status retrieving ∷ [] in
      ground (
        arith,
        texts-status s.emitted (status retrieving) refl,
        texts-status es (citations (to_citations spans)) refl,
      )

  route_after_retrieval-Holds : (s : TurnState A) → IsSilent s → Holds (route_after_retrieval s) s
  unfolding route_after_retrieval
  route_after_retrieval-Holds s h = elim (Bool-cases (no_spans s.spans)) [
    | inl nothing ↦ rw nothing (h.0 ∙ sym h.1, inr h)
    | inr something ↦ rw something (h, ground (arith, something))
  ]

  grade-kept :
      (setup : Setup A) (s : TurnState A)
      → IsSilent s
      → IsSilent (grade setup s) × (lacks_spans (grade setup s) ≡ lacks_spans s)
  unfolding grade judge emit
  grade-kept setup s h = ground (arith, texts-status s.emitted (status grading) refl)

  route_after_grading-Holds :
      (s : TurnState A) (budget : ℕ)
      → IsSilent s
      → lacks_spans s ≡ false
      → Holds (route_after_grading s budget) s
  unfolding route_after_grading
  route_after_grading-Holds s budget h spans =
      elim (Bool-cases (s.evidence_ok || leb budget s.attempts)) [
        | inl over ↦ rw over (h, spans)
        | inr again ↦ rw again h
      ]

  after_answer-Holds :
      (setup : Setup A) (s : TurnState A)
      → IsSaid s × (lacks_spans s ≡ false)
      → Holds (after_answer setup) s
  after_answer-Holds setup s h = elim (Bool-cases setup.proposes) [
    | inl proposes ↦ rw proposes h
    | inr ends ↦ rw ends (h.0, inl h.1)
  ]

  refuse-IsSaid : (setup : Setup A) (s : TurnState A) → IsSilent s → IsSaid (refuse setup s)
  unfolding refuse emit
  refuse-IsSaid setup s h =
      texts-append (s.emitted ++ citations [] ∷ []) (token setup.refusal)
      ∙ ap (λ t. t ^^ setup.refusal) (texts-status s.emitted (citations []) refl ∙ h.0)
      ∙ append.nil setup.refusal

  abbrev HoldsNext : Option (Node × TurnState A) → Type 0
  HoldsNext none = Unit {0}
  HoldsNext (some (node, s)) = Holds node s

  abbrev after_search : Option (List A) → TurnState A → Option (Node × TurnState A)
  after_search none s = none
  after_search (some spans) s =
      let s' = found_spans spans (emit (status retrieving) s) in some (route_after_retrieval s', s')

  step-at_retrieve :
      (setup : Setup A) (s : TurnState A) (found : Option (List A))
      → setup.search s.search_query ≡ found
      → after_search found s ≡ step setup at_retrieve s
  unfolding step retrieve
  step-at_retrieve setup s none e = ground (arith, e)
  step-at_retrieve setup s (some spans) e = ground (arith, e)

  after_search-HoldsNext :
      (found : Option (List A)) (s : TurnState A) → IsSilent s → HoldsNext (after_search found s)
  after_search-HoldsNext none s h = tt
  after_search-HoldsNext (some spans) s h =
      route_after_retrieval-Holds (found_spans spans (emit (status retrieving) s))
        (found_spans-IsSilent spans s h).0

  -- Each node keeps what holds before the next.
  step-Holds :
      (setup : Setup A) (node : Node) (s : TurnState A)
      → Holds node s
      → HoldsNext (step setup node s)
  unfolding step route_intent generate answer_from_history propose_changes emit refuse
  step-Holds setup at_classify s h =
      route_intent-Holds (classify setup s) (classify setup s).intent refl
        (classify-IsSilent setup s h)
  step-Holds setup at_retrieve s h =
      let found = setup.search s.search_query in
      subst HoldsNext (step-at_retrieve setup s found refl) (after_search-HoldsNext found s h)
  step-Holds setup at_grade s (h, spans) =
      let (silent, same) = grade-kept setup s h in
      route_after_grading-Holds (grade setup s) setup.max_attempts silent (same ∙ spans)
  step-Holds setup at_generate s (h, spans) = after_answer-Holds setup (generate setup s) (
      write_answer-IsSaid (setup.written s) (emit (status generating) s)
        (texts-status s.emitted (status generating) refl ∙ h.0) spans)
  step-Holds setup at_answer_from_history s (h, spans) =
      after_answer-Holds setup (answer_from_history setup s) (
        write_answer-IsSaid (setup.written s) (emit (status generating) (emit (citations []) s))
          (texts-status (s.emitted ++ citations [] ∷ []) (status generating) refl
            ∙ texts-status s.emitted (citations []) refl
            ∙ h.0)
          spans)
  step-Holds setup at_refuse s (h, spans) = (refuse-IsSaid setup s h, inl spans)
  step-Holds setup at_propose s (said, spans) = elim (Bool-cases (setup.proposal s)) [
    | inl offers ↦ rw offers (texts-status s.emitted change_set refl ∙ said, inl spans)
    | inr quiet ↦ rw quiet (said, inl spans)
  ]
  step-Holds setup at_end s h = h

  abbrev run_next : ℕ → Setup A → Option (Node × TurnState A) → Option (TurnState A)
  run_next fuel setup none = none
  run_next fuel setup (some (node, s)) = run_from fuel setup node s

  run_from-step :
      (setup : Setup A) (fuel : ℕ) (node : Node) (s : TurnState A)
      → (next : Option (Node × TurnState A)) → step setup node s ≡ next
      → run_from (suc fuel) setup node s ≡ run_next fuel setup next
  unfolding run_from
  run_from-step setup fuel node s none e = ground (arith, e)
  run_from-step setup fuel node s (some (node', s')) e = ground (arith, e)

  out_of_fuel :
      (setup : Setup A) (node : Node) (s final : TurnState A)
      → run_from zero setup node s ≡ some final
      → Holds node s
      → Holds at_end final
  unfolding run_from
  out_of_fuel setup at_end s final e h = let same : s ≡ final = cc in subst (Holds at_end) same h
  out_of_fuel setup node s final e h = cc

  next-Holds :
      (setup : Setup A) (fuel : ℕ) (next : Option (Node × TurnState A)) (final : TurnState A)
      → ((node : Node) (s final : TurnState A)
          → run_from fuel setup node s ≡ some final
          → Holds node s
          → Holds at_end final)
      → run_next fuel setup next ≡ some final
      → HoldsNext next
      → Holds at_end final
  next-Holds setup fuel none final later e h = cc
  next-Holds setup fuel (some (node, s)) final later e h = later node s final e h

  pub run_from-Holds :
      (setup : Setup A) (fuel : ℕ) (node : Node) (s final : TurnState A)
      → run_from fuel setup node s ≡ some final
      → Holds node s
      → Holds at_end final
  run_from-Holds setup zero node s final e h = out_of_fuel setup node s final e h
  run_from-Holds setup (suc fuel) node s final e h =
      next-Holds setup fuel (step setup node s) final (run_from-Holds setup fuel)
        (sym (run_from-step setup fuel node s (step setup node s) refl) ∙ e)
        (step-Holds setup node s h)
