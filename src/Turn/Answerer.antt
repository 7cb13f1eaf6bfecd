-- ===== src/Turn/Answerer.antt =====
-- backend/app/rag/answerer.py: `answer` from its first state on, which runs the graph, adds the fixed
-- refusal where nothing was found, and ends the stream. The citations and warnings of the last event,
-- the wait for the semaphore and the check of the answer's style are not modelled.
pub mod Texts
pub mod Nodes
pub mod Whole
use Prim.Native.String.{String}
use Prim.Native.String.{[] as empty_text}
use ask_repo.Prelude.{
  ℕ, Bool, true, false, ◌&&◌, Option, none, some, List, [], ◌∷◌, ◌++◌, map, if◌then◌else◌, is_none,
}
use ask_repo.Turn.{
  Event, Failure, Intent, Setup, TurnState, codebase_question, conversational, out_of_scope,
  no_spans, run_turn, token,
}

-- The graph's events, and the two that end a stream: `DoneEvent`, with the intent and the number of
-- searches, and `ErrorEvent`.
pub data StreamEvent (A : Type 0) : Type 0 where
  streamed : Event A → StreamEvent A
  done : Intent → ℕ → StreamEvent A
  error : Failure → StreamEvent A

abbrev pub is_question : Intent → Bool
is_question codebase_question = true
is_question conversational = false
is_question out_of_scope = false

module _ {A : Type 0} where
  abbrev pub start_state : String → TurnState A
  start_state question = record {
    question = question;
    intent = codebase_question;
    search_query = question;
    spans = [];
    attempts = 0;
    gap = none;
    evidence_ok = false;
    answer = empty_text;
    failure = none;
    emitted = [];
  }

  -- The test before the refusal is streamed.
  abbrev pub is_unfounded : TurnState A → Bool
  is_unfounded final = is_none final.failure && is_question final.intent && no_spans final.spans

  abbrev pub ended_by : Option Failure → Intent → ℕ → StreamEvent A
  ended_by none intent attempts = done intent attempts
  ended_by (some failure) intent attempts = error failure

  -- `_terminate`.
  unfoldable pub terminate : TurnState A → StreamEvent A
  terminate final = ended_by final.failure final.intent final.attempts

  -- What is streamed before the last event.
  unfoldable pub streamed_before : String → TurnState A → List (StreamEvent A)
  streamed_before no_context final =
      let rest = if is_unfounded final then streamed (token no_context) ∷ [] else [] in
      map streamed final.emitted ++ rest

  abbrev pub whole_stream : String → Option (TurnState A) → Option (List (StreamEvent A))
  whole_stream no_context none = none
  whole_stream no_context (some final) =
      some (streamed_before no_context final ++ terminate final ∷ [])

  -- `answer`, with the refusal of the reply's language, within a number of steps of the graph.
  unfoldable pub answer_turn : ℕ → Setup A → String → String → Option (List (StreamEvent A))
  unfolding terminate streamed_before
  answer_turn fuel setup no_context question =
      whole_stream no_context (run_turn fuel setup (start_state question))
