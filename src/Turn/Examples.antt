-- ===== src/Turn/Examples.antt =====
-- Turns at concrete inputs.
use ask_repo.Turn.Answerer.Whole.{client_reads_answer, stream_texts, ends_stream, IsShown}
use ask_repo.Turn.Answerer.{done, streamed, start_state, StreamEvent, answer_turn}
use ask_repo.Prelude.{ℕ, ◌≤◌, ◌≡◌, refl, true, false, none, some, List, [], ◌∷◌, ◌++◌, arith, All}
use ask_repo.Turn.{
  Setup, TurnState, run_turn, classify, codebase_question, finished, status, retrieving, citations,
  emit, found_spans, numbered, token, retrieve, route_after_retrieval, route_intent, run_from, step,
  to_citations,
}
use ask_repo.Turn.Bounds.{Adds}
use ask_repo.Turn.Turns.{turn_ends}

-- A grader that is never content, and a retriever that always finds one span, or none.
abbrev setup_with : List ℕ → Setup ℕ
setup_with spans = record {
  classify_intent = false;
  grade_evidence = true;
  max_attempts = 2;
  proposes = false;
  strip = λ t. t;
  classification = λ s. none;
  verdict =
      λ s. some (record { sufficient = false; gap = "callers"; better_query = "who calls it" });
  search = λ query. some spans;
  written = λ s. ("It is in main." ∷ [], finished);
  refusal = "Not about this repository.";
  proposal = λ s. false;
}

abbrev asked : TurnState ℕ
asked = record {
  question = "Where is it?";
  intent = codebase_question;
  search_query = "";
  spans = [];
  attempts = 0;
  gap = none;
  evidence_ok = true;
  answer = "";
  failure = none;
  emitted = [];
}

turn_ends_example :
    (s' : TurnState ℕ) × (searches : ℕ) × (run_turn 7 (setup_with (5 ∷ [])) asked ≡ some s')
    × Adds 1 searches asked s'
    × (searches ≤ 2)
turn_ends_example = turn_ends (setup_with (5 ∷ [])) asked 0 (omega arith) (λ query. (5 ∷ [], refl))

client_reads_answer_example :
    (final : TurnState ℕ) × (body : List (StreamEvent ℕ)) × (last : StreamEvent ℕ) × (run_turn 7
        (setup_with [])
        (start_state "Where is it?")
      ≡ some final)
    × (answer_turn 7 (setup_with []) "Nothing matched." "Where is it?" ≡ some (body ++ last ∷ []))
    × All (λ e. ends_stream e ≡ false) body
    × (ends_stream last ≡ true)
    × IsShown "Nothing matched." final (stream_texts body)
client_reads_answer_example =
    client_reads_answer (setup_with []) "Nothing matched." "Where is it?" 0 (omega arith)
      (λ query. ([], refl))

-- What that stream is.
nothing_matched :
    answer_turn 7 (setup_with []) "Nothing matched." "Where is it?"
    ≡ some (
        streamed (status retrieving)
        ∷ streamed (citations [])
        ∷ streamed (token "Nothing matched.")
        ∷ done codebase_question 1
        ∷ [])
unfolding answer_turn run_turn run_from step classify route_intent retrieve found_spans emit
    to_citations numbered route_after_retrieval
nothing_matched = refl
