-- ===== src/Turn/Loop.antt =====
-- The searches of a turn.
use mathlib.Core.Path.{subst}
use Prim.Native.String.{String}
use ask_repo.Prelude.{
  ℕ, zero, suc, ◌+◌, ◌*◌, ◌≤◌, ◌≡◌, refl, sym, ap, ◌∙◌, inl, inr, Bool, true, false, ◌||◌, Option,
  some, List, arith, leb, ◌==◌, if◌then◌else◌, Bool-cases,
}
use ask_repo.Turn.{
  at_grade, at_end, at_generate, at_retrieve, Setup, TurnState, grade, route_after_grading,
  run_from, step,
}
use ask_repo.Turn.{no_spans, retrieve, route_after_retrieval, emit, found_spans, status, retrieving}
use ask_repo.Turn.Ends.{from_generate, run_from-at_end}
use ask_repo.Turn.Bounds.{Adds, found_spans-Adds, grade-Adds, count_events, is_citations}

module _ {A : Type 0} (setup : Setup A) where
  -- The steps that a search takes, with the searches that may follow it.
  abbrev pub loop_fuel : ℕ → ℕ → ℕ
  loop_fuel f zero = suc (suc (suc (suc f)))
  loop_fuel f (suc k) = suc (suc (loop_fuel f k))

  pub loop_fuel-eq : (f k : ℕ) → loop_fuel f k ≡ 2 * k + 4 + f
  loop_fuel-eq f zero = omega arith
  loop_fuel-eq f (suc k) = omega (arith, loop_fuel-eq f k)

  -- The run of searches, from one on: it may search again so many times.
  abbrev pub Searched : ℕ → Option (TurnState A) → TurnState A → Type 0
  Searched k result s =
      (s' : TurnState A) × (more : ℕ) × (result ≡ some s')
      × Adds (if s.attempts == 0 then 1 else 0) (suc more) s s'
      × (more ≤ k)

  -- After a grade that is not followed by a search.
  abbrev Found : TurnState A → List A → TurnState A
  Found s spans = grade setup (found_spans spans (emit (status retrieving) s))

  Found-Adds :
      (s : TurnState A) (spans : List A)
      → Adds (if s.attempts == 0 then 1 else 0) 1 s (Found s spans)
        × ((Found s spans).attempts ≡ s.attempts + 1)
  Found-Adds s spans =
      let s' = found_spans spans (emit (status retrieving) s) in
      let (a, e) = found_spans-Adds spans s in
      let (b, e') = grade-Adds setup s' in
      let (c, k) = a in let (d, l) = b in ((omega (arith, c, d), omega (arith, k, l)), e' ∙ e)

  found-Adds :
      (s : TurnState A) (spans : List A)
      → Adds (if s.attempts == 0 then 1 else 0) 1 s (found_spans spans (emit (status retrieving) s))
  found-Adds s spans = (found_spans-Adds spans s).0

  stops :
      (f k : ℕ) (s : TurnState A) (spans : List A)
      → ((route_after_grading (Found s spans) setup.max_attempts) ≡ at_generate)
      → Searched k
          (run_from
            (suc (suc f))
            setup
            (route_after_grading (Found s spans) setup.max_attempts)
            (Found s spans))
          s
  stops f k s spans e =
      let (s', r, (c, l)) = from_generate setup f (Found s spans) in
      let ((c', l'), z) = Found-Adds s spans in
      (
        s',
        0,
        ap (λ n. run_from (suc (suc f)) setup n (Found s spans)) e ∙ r,
        (omega (arith, c, c'), omega (arith, l, l')),
        omega arith,
      )

  ends_early :
      (f k : ℕ) (s : TurnState A) (spans : List A)
      → Searched k (run_from f setup at_end (found_spans spans (emit (status retrieving) s))) s
  ends_early f k s spans = (
    found_spans spans (emit (status retrieving) s),
    0,
    run_from-at_end setup f _,
    found-Adds s spans,
    omega arith,
  )

  pub searched :
      (g : ℕ) (s : TurnState A) (spans : List A)
      → setup.search s.search_query ≡ some spans
      → run_from (suc g) setup at_retrieve s
        ≡ run_from g setup
            (route_after_retrieval (found_spans spans (emit (status retrieving) s)))
            (found_spans spans (emit (status retrieving) s))
  unfolding run_from step retrieve
  searched g s spans e = ground (arith, e)

  -- What comes after a search that found spans, and after one that found none.
  after_search :
      (k g : ℕ) (s : TurnState A) (spans : List A)
      → Searched k
          (run_from g setup
            (route_after_grading (Found s spans) setup.max_attempts)
            (Found s spans))
          s
      → Searched k
          (run_from
            (suc g)
            setup
            (route_after_retrieval (found_spans spans (emit (status retrieving) s)))
            (found_spans spans (emit (status retrieving) s)))
          s
  unfolding route_after_retrieval run_from step
  after_search k g s spans go =
      elim (Bool-cases (no_spans (found_spans spans (emit (status retrieving) s)).spans)) [
        | inl nothing ↦
            subst
              (λ b.
                Searched k
                  (run_from (suc g) setup (if b then at_end else at_grade)
                    (found_spans spans (emit (status retrieving) s)))
                  s)
              (sym nothing) (ends_early (suc g) k s spans)
        | inr something ↦
            subst
              (λ b.
                Searched k
                  (run_from (suc g) setup (if b then at_end else at_grade)
                    (found_spans spans (emit (status retrieving) s)))
                  s)
              (sym something) go
      ]

  generates :
      (s : TurnState A)
      → (s.evidence_ok || leb setup.max_attempts s.attempts) ≡ true
      → route_after_grading s setup.max_attempts ≡ at_generate
  unfolding route_after_grading
  generates s e = rw e refl

  searches :
      (s : TurnState A)
      → (s.evidence_ok || leb setup.max_attempts s.attempts) ≡ false
      → route_after_grading s setup.max_attempts ≡ at_retrieve
  unfolding route_after_grading
  searches s e = rw e refl

  -- One more search, when the run from there is known.
  goes_on :
      (g k : ℕ) (s : TurnState A) (spans : List A)
      → route_after_grading (Found s spans) setup.max_attempts ≡ at_retrieve
      → Searched k (run_from g setup at_retrieve (Found s spans)) (Found s spans)
      → Searched
          (suc k)
          (run_from g setup
            (route_after_grading (Found s spans) setup.max_attempts)
            (Found s spans))
          s
  goes_on g k s spans e (s', more, r, (c, l), few) =
      let ((c', l'), z) = Found-Adds s spans in
      let later : ((Found s spans).attempts == 0) ≡ false = ground (arith, z) in
      let c0 : count_events is_citations s'.emitted
          ≡ count_events is_citations (Found s spans).emitted =
        c
        ∙ (ap
              (λ (b : Bool).
                count_events is_citations (Found s spans).emitted + (if b then 1 else 0))
              later
            ∙ omega arith) in
      (
        s',
        suc more,
        ap (λ n. run_from g setup n (Found s spans)) e ∙ r,
        (omega (arith, c0, c'), omega (arith, l, l')),
        omega (arith, few),
      )

  stops_within :
      (f k j : ℕ) (s : TurnState A) (spans : List A)
      → route_after_grading (Found s spans) setup.max_attempts ≡ at_generate
      → Searched j
          (run_from
            (loop_fuel f k)
            setup
            (route_after_grading (Found s spans) setup.max_attempts)
            (Found s spans))
          s
  stops_within f zero j = stops (suc (suc f)) j
  stops_within f (suc k) j = stops (loop_fuel f k) j

  pub loop :
      (f k : ℕ) (s : TurnState A)
      → ((query : String) → (spans : List A) × (setup.search query ≡ some spans))
      → setup.max_attempts ≤ s.attempts + suc k
      → Searched k (run_from (loop_fuel f k) setup at_retrieve s) s
  loop f zero s finds enough =
      let (spans, e) = finds s.search_query in
      let (c, z) = Found-Adds s spans in
      let spent : ((Found s spans).evidence_ok || leb setup.max_attempts (Found s spans).attempts)
          ≡ true =
        ground (arith, z, enough) in
      subst (λ run. Searched 0 run s) (sym (searched (suc (suc (suc f))) s spans e))
        (after_search 0 (suc (suc f)) s spans (stops f 0 s spans (generates (Found s spans) spent)))
  loop f (suc k) s finds enough =
      let (spans, e) = finds s.search_query in
      let (c, z) = Found-Adds s spans in
      subst (λ run. Searched (suc k) run s) (sym (searched (suc (loop_fuel f k)) s spans e))
        (after_search (suc k) (loop_fuel f k) s spans
          (elim (Bool-cases
            ((Found s spans).evidence_ok || leb setup.max_attempts (Found s spans).attempts)) [
              | inl over ↦ stops_within f k (suc k) s spans (generates (Found s spans) over)
              | inr again ↦
                  goes_on (loop_fuel f k) k s spans (searches (Found s spans) again)
                    (loop f k (Found s spans) finds (omega (arith, z, enough)))
            ]))
