-- ===== src/Turn/Answerer/Texts.antt =====
-- What a client reads of an answer.
use ask_repo.Turn.Answerer.{is_question}
use ask_repo.Turn.{
  at_end, at_propose, at_refuse, at_answer_from_history, at_generate, at_grade, no_spans, token,
  is_blank, Ending, at_retrieve, at_classify, emit, TurnState, Event, stream, Node, write_answer,
  keep_text,
}
use text.Mathlib.TextLemmas.{append-nil, append_assoc}
use Prim.Native.String.append
use Prim.Native.String.{String, [] as empty_text, ◌++◌ as ◌^^◌}
use ask_repo.Prelude.{
  ◌≡◌, refl, sym, ap, ◌∙◌, ◌⊎◌, inl, inr, Bool, false, ◌&&◌, List, [], ◌∷◌, ◌++◌, Bool-cases,
}

module _ {A : Type 0} where
  abbrev pub text_of : Event A → String
  text_of (token t) = t
  text_of _ = empty_text

  -- The texts of the graph's events, in a row.
  abbrev pub texts : List (Event A) → String
  texts [] = empty_text
  texts (e ∷ es) = text_of e ^^ texts es

  pub texts-append :
      (es : List (Event A)) (e : Event A) → texts (es ++ e ∷ []) ≡ texts es ^^ text_of e
  texts-append [] e = append-nil (text_of e) ∙ sym (append.nil (text_of e))
  texts-append (x ∷ es) e =
      ap (λ t. text_of x ^^ t) (texts-append es e)
      ∙ sym (append_assoc (text_of x) (texts es) (text_of e))

  -- An event that is no text.
  pub texts-status :
      (es : List (Event A)) (e : Event A) → text_of e ≡ empty_text → texts (es ++ e ∷ []) ≡ texts es
  texts-status es e h = texts-append es e ∙ ap (λ t. texts es ^^ t) h ∙ append-nil (texts es)

  -- Nothing has been said, and the answer is empty.
  abbrev pub IsSilent : TurnState A → Type 0
  IsSilent s = (texts s.emitted ≡ empty_text) × (s.answer ≡ empty_text)

  -- What has been said is the answer.
  abbrev pub IsSaid : TurnState A → Type 0
  IsSaid s = texts s.emitted ≡ s.answer

  abbrev pub lacks_spans : TurnState A → Bool
  lacks_spans s = is_question s.intent && no_spans s.spans

  -- What holds before each node.
  abbrev pub Holds : Node → TurnState A → Type 0
  Holds at_classify s = IsSilent s
  Holds at_retrieve s = IsSilent s
  Holds at_grade s = IsSilent s × (lacks_spans s ≡ false)
  Holds at_generate s = IsSilent s × (lacks_spans s ≡ false)
  Holds at_answer_from_history s = IsSilent s × (lacks_spans s ≡ false)
  Holds at_refuse s = IsSilent s × (lacks_spans s ≡ false)
  Holds at_propose s = IsSaid s × (lacks_spans s ≡ false)
  Holds at_end s = IsSaid s × ((lacks_spans s ≡ false) ⊎ IsSilent s)

  keep_text-IsSaid : (t : String) (s : TurnState A) → IsSaid s → IsSaid (keep_text t s)
  unfolding keep_text emit
  keep_text-IsSaid t s said = elim (Bool-cases (is_blank t)) [
    | inl blank ↦ rw blank said
    | inr text ↦ rw text (texts-append s.emitted (token t) ∙ ap (λ a. a ^^ t) said)
  ]

  stream-IsSaid : (ts : List String) (s : TurnState A) → IsSaid s → IsSaid (stream ts s)
  unfolding stream
  stream-IsSaid [] s said = said
  stream-IsSaid (t ∷ ts) s said = stream-IsSaid ts (keep_text t s) (keep_text-IsSaid t s said)

  keep_text-lacks_spans :
      (t : String) (s : TurnState A) → lacks_spans (keep_text t s) ≡ lacks_spans s
  unfolding keep_text emit
  keep_text-lacks_spans t s = elim (Bool-cases (is_blank t)) [
    | inl blank ↦ rw blank
    | inr text ↦ rw text
  ]

  stream-lacks_spans :
      (ts : List String) (s : TurnState A) → lacks_spans (stream ts s) ≡ lacks_spans s
  unfolding stream
  stream-lacks_spans [] s = refl
  stream-lacks_spans (t ∷ ts) s = stream-lacks_spans ts (keep_text t s) ∙ keep_text-lacks_spans t s

  pub write_answer-IsSaid :
      (w : List String × Ending) (s : TurnState A)
      → texts s.emitted ≡ empty_text
      → lacks_spans s ≡ false
      → IsSaid (write_answer w s) × (lacks_spans (write_answer w s) ≡ false)
  unfolding write_answer
  write_answer-IsSaid (ts, ending) s silent spans =
      let s' = record s { answer = empty_text } in
      (stream-IsSaid ts s' silent, stream-lacks_spans ts s' ∙ spans)
