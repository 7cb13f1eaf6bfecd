-- ===== src/Turn.antt =====
-- backend/app/rag/graph: one turn of the answer graph, its nodes (nodes.py) and its wiring (build.py).
-- The chat model, the retriever and Python's `str.strip` are arguments: what a call of the model gives is
-- `none` where it raised or timed out, and the retriever gives `none` where it raises. A span is an element
-- of any type. A node writes its events to the turn's stream. Prompts, logging and the content of a
-- proposed change set are not modelled; a proposer emits one event at most, after the answer.
mod Examples
pub mod Bounds
pub mod Ends
pub mod Loop
pub mod Turns
pub mod Answerer
use Prim.Native.String.{String, count}
use Prim.Native.String.{[] as empty_text, ◌∷◌ as ◌∷∷◌, ◌++◌ as ◌^^◌}
use ask_repo.Prelude.{
  ℕ, zero, suc, ◌+◌, Bool, true, false, ◌||◌, Option, none, some, List, [], ◌∷◌, ◌++◌, ltb, leb,
  ◌==◌, if◌then◌else◌,
}

pub data Intent : Type 0 where
  codebase_question conversational out_of_scope : Intent

pub data Phase : Type 0 where
  classifying retrieving grading generating : Phase

pub data Event (A : Type 0) : Type 0 where
  status : Phase → Event A
  citations : List (ℕ × A) → Event A
  token : String → Event A
  change_set : Event A

pub data Failure : Type 0 where
  timeout broken : Failure

-- How the model's stream of texts ended.
pub data Ending : Type 0 where
  finished : Ending
  stopped : Failure → Ending

pub record Verdict : Type 0 where
  pub sufficient : Bool
  pub gap : String
  pub better_query : String

pub record TurnState (A : Type 0) : Type 0 where
  pub question : String
  pub intent : Intent
  pub search_query : String
  pub spans : List A
  pub attempts : ℕ
  pub gap : Option String
  pub evidence_ok : Bool
  pub answer : String
  pub failure : Option Failure
  pub emitted : List (Event A)

-- The instance's configuration, and what stands outside the repository. The answering calls see the
-- whole state, from which their prompts are made.
pub record Setup (A : Type 0) : Type 0 where
  pub classify_intent : Bool
  pub grade_evidence : Bool
  pub max_attempts : ℕ
  pub proposes : Bool
  pub strip : String → String
  pub classification : TurnState A → Option (Intent × String)
  pub verdict : TurnState A → Option Verdict
  pub search : String → Option (List A)
  pub written : TurnState A → List String × Ending
  pub refusal : String
  pub proposal : TurnState A → Bool

abbrev pub max_query_chars : ℕ
max_query_chars = 512

-- `not text`.
abbrev pub is_blank : String → Bool
is_blank empty_text = true
is_blank (c ∷∷ cs) = false

-- `if not spans`.
abbrev pub no_spans {ℓ} : {A : Type ℓ} → List A → Bool
no_spans [] = true
no_spans (x ∷ xs) = false

-- `enumerate(chunks, start=1)`.
unfoldable pub numbered {ℓ} : {A : Type ℓ} → ℕ → List A → List (ℕ × A)
numbered n [] = []
numbered n (x ∷ xs) = (n, x) ∷ numbered (suc n) xs

unfoldable pub to_citations {ℓ} : {A : Type ℓ} → List A → List (ℕ × A)
unfolding numbered
to_citations = numbered 1

abbrev pub failure_of : Ending → Option Failure
failure_of finished = none
failure_of (stopped f) = some f

module _ {A : Type 0} where
  unfoldable pub emit : Event A → TurnState A → TurnState A
  emit e s = record s { emitted = s.emitted ++ e ∷ [] }

  abbrev pub routed : Intent → String → TurnState A → TurnState A
  routed intent query s = record s { intent = intent; search_query = query; attempts = 0 }

  unfoldable pub accept : (String → String) → Option (Intent × String) → TurnState A → TurnState A
  accept strip none s = routed codebase_question s.question s
  accept strip (some (intent, search_query)) s =
      let query = strip search_query in
      if is_blank query || ltb max_query_chars (count query)
      then routed codebase_question s.question s
      else routed intent query s

  unfoldable pub classify : Setup A → TurnState A → TurnState A
  classify setup s =
      if setup.classify_intent
      then accept setup.strip (setup.classification s) (emit (status classifying) s)
      else routed codebase_question s.question s

  unfoldable pub found_spans : List A → TurnState A → TurnState A
  found_spans spans s =
      let s' = if s.attempts == 0 then emit (citations (to_citations spans)) s else s in
      record s' { spans = spans; attempts = s.attempts + 1 }

  unfoldable pub retrieve : Setup A → TurnState A → Option (TurnState A)
  retrieve setup s = elim (setup.search s.search_query) [
    | none ↦ none
    | some spans ↦ some (found_spans spans (emit (status retrieving) s))
  ]

  unfoldable pub judge : (String → String) → Option Verdict → TurnState A → TurnState A
  judge strip none s = record s { evidence_ok = true }
  judge strip (some v) s = if v.sufficient then record s { evidence_ok = true } else record s {
    evidence_ok = false;
    gap = if is_blank v.gap then none else some v.gap;
    search_query = if is_blank (strip v.better_query) then s.search_query else strip v.better_query;
  }

  unfoldable pub grade : Setup A → TurnState A → TurnState A
  grade setup s =
      if setup.grade_evidence
      then judge setup.strip (setup.verdict s) (emit (status grading) s)
      else record s { evidence_ok = true }

  -- The texts that are not empty are streamed and kept.
  unfoldable pub keep_text : String → TurnState A → TurnState A
  keep_text t s = if is_blank t then s else record (emit (token t) s) { answer = s.answer ^^ t }

  unfoldable pub stream : List String → TurnState A → TurnState A
  stream [] s = s
  stream (t ∷ ts) s = stream ts (keep_text t s)

  unfoldable pub write_answer : List String × Ending → TurnState A → TurnState A
  write_answer (texts, ending) s = record (stream texts (record s { answer = empty_text })) {
    failure = failure_of ending;
  }

  unfoldable pub generate : Setup A → TurnState A → TurnState A
  generate setup s = write_answer (setup.written s) (emit (status generating) s)

  unfoldable pub answer_from_history : Setup A → TurnState A → TurnState A
  answer_from_history setup s =
      write_answer (setup.written s) (emit (status generating) (emit (citations []) s))

  unfoldable pub refuse : Setup A → TurnState A → TurnState A
  refuse setup s = record (emit (token setup.refusal) (emit (citations []) s)) {
    answer = setup.refusal;
    failure = none;
  }

  unfoldable pub propose_changes : Setup A → TurnState A → TurnState A
  propose_changes setup s = if setup.proposal s then emit change_set s else s

-- The nodes of the graph, and its end.
pub data Node : Type 0 where
  at_classify at_retrieve at_grade at_generate at_answer_from_history at_refuse at_propose at_end :
      Node

abbrev pub intent_node : Intent → Node
intent_node conversational = at_answer_from_history
intent_node out_of_scope = at_refuse
intent_node codebase_question = at_retrieve

module _ {A : Type 0} where
  unfoldable pub route_intent : TurnState A → Node
  route_intent s = intent_node s.intent

  unfoldable pub route_after_retrieval : TurnState A → Node
  route_after_retrieval s = if no_spans s.spans then at_end else at_grade

  unfoldable pub route_after_grading : TurnState A → ℕ → Node
  route_after_grading s max_attempts =
      if s.evidence_ok || leb max_attempts s.attempts then at_generate else at_retrieve

  abbrev pub after_answer : Setup A → Node
  after_answer setup = if setup.proposes then at_propose else at_end

  -- A node with the edge out of it.
  unfoldable pub step : Setup A → Node → TurnState A → Option (Node × TurnState A)
  step setup at_classify s = let s' = classify setup s in some (route_intent s', s')
  step setup at_retrieve s = elim (retrieve setup s) [
    | none ↦ none
    | some s' ↦ some (route_after_retrieval s', s')
  ]
  step setup at_grade s =
      let s' = grade setup s in some (route_after_grading s' setup.max_attempts, s')
  step setup at_generate s = some (after_answer setup, generate setup s)
  step setup at_answer_from_history s = some (after_answer setup, answer_from_history setup s)
  step setup at_refuse s = some (at_end, refuse setup s)
  step setup at_propose s = some (at_end, propose_changes setup s)
  step setup at_end s = some (at_end, s)

  -- The run of the graph from a node, within a number of steps: `none` where it is not enough, or where
  -- the retriever raised.
  unfoldable pub run_from : ℕ → Setup A → Node → TurnState A → Option (TurnState A)
  run_from zero setup node s = elim node [ at_end ↦ some s | _ ↦ none ]
  run_from (suc fuel) setup node s = elim (step setup node s) [
    | none ↦ none
    | some (node', s') ↦ run_from fuel setup node' s'
  ]

  -- A turn: the answer graph from its start.
  unfoldable pub run_turn : ℕ → Setup A → TurnState A → Option (TurnState A)
  run_turn fuel setup s = run_from fuel setup at_classify s
