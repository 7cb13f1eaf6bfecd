-- ===== src/Turn/Bounds.antt =====
-- How often a turn searches, and what it streams.
use Prim.Native.String.{String, count}
use Prim.Native.String.{[] as empty_text}
use ask_repo.Prelude.{
  ℕ, ◌+◌, ◌≡◌, refl, ◌∙◌, inl, inr, Bool, true, false, ◌||◌, Option, none, some, List, [], ◌∷◌,
  ◌++◌, arith, ltb, ◌==◌, if◌then◌else◌, Bool-cases,
}
use ask_repo.Turn.{
  Ending, Event, Intent, Setup, TurnState, Verdict, accept, answer_from_history, change_set,
  citations, classify, classifying, emit, found_spans, generate, generating, grade, grading,
  is_blank, judge, max_query_chars, propose_changes, refuse, retrieving, status, stream,
  to_citations, token, write_answer, keep_text,
}

module _ {A : Type 0} where
  abbrev pub is_citations : Event A → Bool
  is_citations (citations cs) = true
  is_citations _ = false

  abbrev pub is_search : Event A → Bool
  is_search (status retrieving) = true
  is_search _ = false

  abbrev pub count_events : (Event A → Bool) → List (Event A) → ℕ
  count_events p [] = 0
  count_events p (e ∷ es) = (if p e then 1 else 0) + count_events p es

  -- What a node adds to the two counts.
  abbrev pub Adds : ℕ → ℕ → TurnState A → TurnState A → Type 0
  Adds c k s s' =
      (count_events is_citations s'.emitted ≡ count_events is_citations s.emitted + c)
      × (count_events is_search s'.emitted ≡ count_events is_search s.emitted + k)

  count_events-append :
      (p : Event A → Bool) (es : List (Event A)) (e : Event A)
      → count_events p (es ++ e ∷ []) ≡ count_events p es + (if p e then 1 else 0)
  count_events-append p [] e = omega arith
  count_events-append p (x ∷ es) e = omega (arith, count_events-append p es e)

  pub emit-Adds :
      (e : Event A) (s : TurnState A)
      → Adds (if is_citations e then 1 else 0) (if is_search e then 1 else 0) s (emit e s)
  unfolding emit
  emit-Adds e s =
      (count_events-append is_citations s.emitted e, count_events-append is_search s.emitted e)

  keep_text-Adds : (t : String) (s : TurnState A) → Adds 0 0 s (keep_text t s)
  unfolding keep_text emit
  keep_text-Adds t s = elim (Bool-cases (is_blank t)) [
    | inl blank ↦ rw blank (omega arith, omega arith)
    | inr text ↦ rw text (emit-Adds (token t) s)
  ]

  stream-Adds : (ts : List String) (s : TurnState A) → Adds 0 0 s (stream ts s)
  unfolding stream
  stream-Adds [] s = (omega arith, omega arith)
  stream-Adds (t ∷ ts) s =
      let (c, k) = stream-Adds ts (keep_text t s) in
      let (c', k') = keep_text-Adds t s in (omega (arith, c, c'), omega (arith, k, k'))

  pub write_answer-Adds :
      (w : List String × Ending) (s : TurnState A) → Adds 0 0 s (write_answer w s)
  unfolding write_answer
  write_answer-Adds (ts, ending) s = stream-Adds ts (record s { answer = empty_text })

  pub generate-Adds : (setup : Setup A) (s : TurnState A) → Adds 0 0 s (generate setup s)
  unfolding generate
  generate-Adds setup s =
      let (c, k) = write_answer-Adds (setup.written s) (emit (status generating) s) in
      let (c', k') = emit-Adds (status generating) s in (omega (arith, c, c'), omega (arith, k, k'))

  pub answer_from_history-Adds :
      (setup : Setup A) (s : TurnState A) → Adds 1 0 s (answer_from_history setup s)
  unfolding answer_from_history
  answer_from_history-Adds setup s =
      let (c, k) =
        write_answer-Adds (setup.written s) (emit (status generating) (emit (citations []) s)) in
      let (c', k') = emit-Adds (status generating) (emit (citations []) s) in
      let (c'', k'') = emit-Adds (citations []) s in
      (omega (arith, c, c', c''), omega (arith, k, k', k''))

  pub refuse-Adds : (setup : Setup A) (s : TurnState A) → Adds 1 0 s (refuse setup s)
  unfolding refuse
  refuse-Adds setup s =
      let (c, k) = emit-Adds (token setup.refusal) (emit (citations []) s) in
      let (c', k') = emit-Adds (citations []) s in (omega (arith, c, c'), omega (arith, k, k'))

  pub propose_changes-Adds :
      (setup : Setup A) (s : TurnState A) → Adds 0 0 s (propose_changes setup s)
  unfolding propose_changes
  propose_changes-Adds setup s = elim (Bool-cases (setup.proposal s)) [
    | inl proposed ↦ rw proposed (emit-Adds change_set s)
    | inr nothing ↦ rw nothing (omega arith, omega arith)
  ]

  accept-Adds :
      (strip : String → String) (o : Option (Intent × String)) (s : TurnState A)
      → Adds 0 0 s (accept strip o s) × ((accept strip o s).attempts ≡ 0)
  unfolding accept
  accept-Adds strip none s = ((omega arith, omega arith), refl)
  accept-Adds strip (some (intent, query)) s =
      elim (Bool-cases (is_blank (strip query) || ltb max_query_chars (count (strip query)))) [
        | inl bad ↦ rw bad ((omega arith, omega arith), refl)
        | inr good ↦ rw good ((omega arith, omega arith), refl)
      ]

  pub classify-Adds :
      (setup : Setup A) (s : TurnState A)
      → Adds 0 0 s (classify setup s) × ((classify setup s).attempts ≡ 0)
  unfolding classify
  classify-Adds setup s = elim (Bool-cases setup.classify_intent) [
    | inl on ↦
        let ((c, k), z) =
          accept-Adds setup.strip (setup.classification s) (emit (status classifying) s) in
        let (c', k') = emit-Adds (status classifying) s in
        rw on ((omega (arith, c, c'), omega (arith, k, k')), z)
    | inr off ↦ rw off ((omega arith, omega arith), refl)
  ]

  judge-Adds :
      (strip : String → String) (o : Option Verdict) (s : TurnState A)
      → Adds 0 0 s (judge strip o s) × ((judge strip o s).attempts ≡ s.attempts)
  unfolding judge
  judge-Adds strip none s = ((omega arith, omega arith), refl)
  judge-Adds strip (some v) s = elim (Bool-cases v.sufficient) [
    | inl enough ↦ rw enough ((omega arith, omega arith), refl)
    | inr lacking ↦ rw lacking ((omega arith, omega arith), refl)
  ]

  pub grade-Adds :
      (setup : Setup A) (s : TurnState A)
      → Adds 0 0 s (grade setup s) × ((grade setup s).attempts ≡ s.attempts)
  unfolding grade
  grade-Adds setup s = elim (Bool-cases setup.grade_evidence) [
    | inl on ↦
        let ((c, k), z) = judge-Adds setup.strip (setup.verdict s) (emit (status grading) s) in
        let (c', k') = emit-Adds (status grading) s in
        rw on ((omega (arith, c, c'), omega (arith, k, k')), z ∙ unfold emit in refl)
    | inr off ↦ rw off ((omega arith, omega arith), refl)
  ]

  pub found_spans-Adds :
      (spans : List A) (s : TurnState A)
      → Adds (if s.attempts == 0 then 1 else 0) 1 s (found_spans spans (emit (status retrieving) s))
        × ((found_spans spans (emit (status retrieving) s)).attempts ≡ s.attempts + 1)
  unfolding found_spans emit
  found_spans-Adds spans s = elim (Bool-cases (s.attempts == 0)) [
    | inl first ↦
        let (c, k) = emit-Adds (citations (to_citations spans)) (emit (status retrieving) s) in
        let (c', k') = emit-Adds (status retrieving) s in
        rw first ((omega (arith, c, c'), omega (arith, k, k')), refl)
    | inr later ↦
        let (c', k') = emit-Adds (status retrieving) s in
        rw later ((omega (arith, c'), omega (arith, k')), refl)
  ]
