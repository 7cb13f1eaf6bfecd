-- ===== src/Turn/Answerer/Whole.antt =====
-- What a client reads of an answer, from its first event to its last.
use ask_repo.Turn.{codebase_question, conversational, out_of_scope}
use ask_repo.Turn.Answerer.Nodes.{run_from-Holds}
use ask_repo.Turn.Turns.{turn_ends}
use ask_repo.Turn.Answerer.Texts.{Holds, text_of, texts}
use ask_repo.Turn.{
  at_end, at_classify, Setup, TurnState, run_turn, Event, token, Failure, Intent, no_spans,
}
use ask_repo.Turn.Answerer.{
  start_state, is_unfounded, streamed, answer_turn, StreamEvent, terminate, streamed_before,
  ended_by, whole_stream, is_question,
}
use text.Mathlib.TextLemmas.{append-nil, append_assoc}
use Prim.Native.String.append
use Prim.Native.String.{String, [] as empty_text, ◌++◌ as ◌^^◌}
use ask_repo.Prelude.{
  ℕ, ◌+◌, ◌*◌, ◌≤◌, ◌≡◌, refl, sym, ap, ◌∙◌, ◌↔◌, ◌⊎◌, inl, inr, Bool, true, false, ◌&&◌, Option,
  none, some, List, [], ◌∷◌, ◌++◌, map, arith, All, if◌then◌else◌, is_none,
}

abbrev pub ends_stream : {A : Type 0} → StreamEvent A → Bool
ends_stream (streamed e) = false
ends_stream _ = true

ends_stream-ended_by :
    (A : Type 0) (failure : Option Failure) (intent : Intent) (attempts : ℕ)
    → ends_stream (ended_by {A = A} failure intent attempts) ≡ true
ends_stream-ended_by A none intent attempts = refl
ends_stream-ended_by A (some failure) intent attempts = refl

module _ {A : Type 0} where
  abbrev pub text_in_stream : StreamEvent A → String
  text_in_stream (streamed e) = text_of e
  text_in_stream _ = empty_text

  -- The texts of a stream, in a row.
  abbrev pub stream_texts : List (StreamEvent A) → String
  stream_texts [] = empty_text
  stream_texts (e ∷ es) = text_in_stream e ^^ stream_texts es

  stream_texts-append :
      (es : List (Event A)) (rest : List (StreamEvent A))
      → stream_texts (map streamed es ++ rest) ≡ texts es ^^ stream_texts rest
  stream_texts-append [] rest = sym (append.nil (stream_texts rest))
  stream_texts-append (e ∷ es) rest =
      ap (λ t. text_of e ^^ t) (stream_texts-append es rest)
      ∙ sym (append_assoc (text_of e) (texts es) (stream_texts rest))

  All-streamed :
      (es : List (Event A)) (rest : List (StreamEvent A))
      → All (λ e. ends_stream e ≡ false) rest
      → All (λ e. ends_stream e ≡ false) (map streamed es ++ rest)
  All-streamed [] rest h = h
  All-streamed (e ∷ es) rest h = (refl, All-streamed es rest h)

  streamed_before-read :
      (no_context : String) (final : TurnState A) (b : Bool)
      → is_unfounded final ≡ b
      → Holds at_end final
      → (stream_texts (streamed_before no_context final)
          ≡ (if is_unfounded final then no_context else final.answer))
        × All (λ e. ends_stream e ≡ false) (streamed_before no_context final)
  unfolding streamed_before
  streamed_before-read no_context final true e (said, inl spans) = absurd (ground (arith, e, spans))
  streamed_before-read no_context final true e (said, inr silent) = rw e (
    stream_texts-append final.emitted (streamed (token no_context) ∷ [])
        ∙ ap (λ t. t ^^ (no_context ^^ empty_text)) silent.0
        ∙ append.nil (no_context ^^ empty_text)
        ∙ append-nil no_context,
    All-streamed final.emitted (streamed (token no_context) ∷ []) (refl, tt),
  )
  streamed_before-read no_context final false e (said, _) = rw e (
    stream_texts-append final.emitted [] ∙ append-nil (texts final.emitted) ∙ said,
    All-streamed final.emitted [] tt,
  )

  ends_stream-terminate : (final : TurnState A) → ends_stream (terminate final) ≡ true
  unfolding terminate
  ends_stream-terminate final = ends_stream-ended_by A final.failure final.intent final.attempts

  -- A question about the code that ended without a failure and without a span.
  abbrev pub IsUnfounded : TurnState A → Type 0
  IsUnfounded final =
      (final.failure ≡ none) × (final.intent ≡ codebase_question) × (final.spans ≡ [])

  unfounded_tests :
      (failure : Option Failure) (i : Intent) (spans : List A)
      → ((is_none failure && is_question i && no_spans spans) ≡ true)
        ↔ ((failure ≡ none) × (i ≡ codebase_question) × (spans ≡ []))
  unfounded_tests (some f) i spans = (λ e. cc e, λ h. cc (h.0))
  unfounded_tests none conversational spans = (λ e. cc e, λ h. cc (h.1))
  unfounded_tests none out_of_scope spans = (λ e. cc e, λ h. cc (h.1))
  unfounded_tests none codebase_question [] = (λ e. (refl, refl, refl), λ h. refl)
  unfounded_tests none codebase_question (x ∷ xs) = (λ e. cc e, λ h. cc (h.2))

  -- What the texts of a stream are to be.
  abbrev pub IsShown : String → TurnState A → String → Type 0
  IsShown no_context final said =
      (IsUnfounded final × (said ≡ no_context)) ⊎ ((¬ IsUnfounded final) × (said ≡ final.answer))

  read_cases :
      (no_context : String) (final : TurnState A) (said : String) (b : Bool)
      → is_unfounded final ≡ b
      → said ≡ (if is_unfounded final then no_context else final.answer)
      → IsShown no_context final said
  read_cases no_context final said true e h =
      let tests = unfounded_tests final.failure final.intent final.spans in
      inl (tests.0 e, h ∙ ap (λ (b : Bool). if b then no_context else final.answer) e)
  read_cases no_context final said false e h =
      let tests = unfounded_tests final.failure final.intent final.spans in
      inr (
        λ bare. let hit : is_unfounded final ≡ true = tests.1 bare in cc (hit, e),
        h ∙ ap (λ (b : Bool). if b then no_context else final.answer) e,
      )

  -- With one search allowed at least, and a retriever that does not raise, an answer ends within two steps of
  -- the graph for each search that the budget allows and three more. Its stream has one event that ends it, the last; and the texts before it, put
  -- together, are the answer that is kept. Only where a question about the code ends without a span and
  -- without a failure are they the fixed refusal, and nothing that the model wrote.
  pub client_reads_answer :
      (setup : Setup A) (no_context question : String) (extra : ℕ)
      → 1 ≤ setup.max_attempts
      → ((query : String) → (spans : List A) × (setup.search query ≡ some spans))
      → (final : TurnState A) × (body : List (StreamEvent A)) × (last : StreamEvent A) × (run_turn
            (2 * setup.max_attempts + 3 + extra)
            setup
            (start_state question)
          ≡ some final)
        × (answer_turn (2 * setup.max_attempts + 3 + extra) setup no_context question
            ≡ some (body ++ last ∷ []))
        × All (λ e. ends_stream e ≡ false) body
        × (ends_stream last ≡ true)
        × IsShown no_context final (stream_texts body)
  unfolding answer_turn run_turn
  client_reads_answer setup no_context question extra some_budget finds =
      let fuel = 2 * setup.max_attempts + 3 + extra in
      let (final, searches, e, counts, few) =
        turn_ends setup (start_state question) extra some_budget finds in
      let (read, body) =
        streamed_before-read no_context final (is_unfounded final) refl
          (run_from-Holds setup fuel at_classify (start_state question) final e (refl, refl)) in
      (
        final,
        streamed_before no_context final,
        terminate final,
        e,
        ap (whole_stream no_context) e,
        body,
        ends_stream-terminate final,
        read_cases no_context final (stream_texts (streamed_before no_context final))
            (is_unfounded final) refl read,
      )
