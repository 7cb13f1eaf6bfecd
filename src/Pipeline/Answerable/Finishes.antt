-- ===== src/Pipeline/Answerable/Finishes.antt =====
-- A run in which nothing fails comes to its end.

use ask_repo.Pipeline.Indexing.Written.{EmbedsEach, points_at, points_for-points}
use ask_repo.Retrieval.{drop}
use ask_repo.Budget.{take}
use ask_repo.Chunker.{embedding_text, SourceFile, Chunk}
use ask_repo.VectorStore.{points_for, upsert, Point}
use ask_repo.Table.{find}
use ask_repo.Pipeline.{
  tell_write, write_points, write_store, checked, lift, ◌>>◌, flush_rest, flush, fetch, index,
  advance_status, index_files, drain, Clone, next, gave, World, Step, Outcome, Services,
}
use ask_repo.Jobs.Projects.{is_ready, ProjectStatus, Project, ProjectSession}
use ask_repo.Jobs.Lease.{row_key, held_by}
use ask_repo.Prelude.{
  ℕ, zero, suc, ◌+◌, ◌≡◌, refl, sym, ap, ◌∙◌, inl, inr, true, Option, none, some, List, [], ◌∷◌,
  ◌++◌, map, length, leb, Bool-cases,
}

-- The worker holds the row.
abbrev pub Owns : ℕ → ℕ → ProjectSession → Type 0
Owns k worker x = (q : Project) × (find row_key k x.rows ≡ some q) × (held_by worker true q ≡ true)

pub record Works (s : Services) (vec : List ℕ → ℕ) (k worker : ℕ) (project : Project)
    (clone : Clone) : Type 0 where
  pub decrypts : s.decrypt project ≡ gave tt
  pub accepts : s.rejected project ≡ none
  pub clones : s.clone project ≡ gave clone
  pub prepares : s.prepare ≡ gave tt
  pub embeds : (texts : List (List ℕ)) → s.embed_documents texts ≡ gave (map vec texts)
  pub writes : (points : List Point) → s.qdrant_upsert points ≡ gave tt
  pub deletes : (g : ℕ) → s.qdrant_delete g ≡ gave tt
  pub leaves : (x : ProjectSession) → Owns k worker x → Owns k worker (s.meanwhile x)

pub Works-EmbedsEach :
    (s : Services) (vec : List ℕ → ℕ) (k worker : ℕ) (project : Project) (clone : Clone)
    → Works s vec k worker project clone
    → EmbedsEach s vec
Works-EmbedsEach s vec k worker project clone works texts vectors e =
    let both = sym (works.embeds texts) ∙ e in
    let same : map vec texts ≡ vectors = cc both in sym same

-- The step returns.
abbrev pub Gives {ℓ} : {A : Type ℓ} → Outcome A × World → Type ℓ
Gives {A = A} r = (a : A) × (r ≡ (gave a, r.1))

pub next-Gives {ℓ κ} :
    {A : Type ℓ} {B : Type κ} (rest : A → Step B) (r : Outcome A × World)
    → Gives r
    → ((a : A) → Gives (rest a r.1))
    → Gives (next rest r)
next-Gives rest r (a, e) more =
    let (b, f) = more a in
    let whole = ap (next rest) e in (b, whole ∙ f ∙ ap (λ t. (gave b, t.1)) (sym whole))

module _ (s : Services) (vec : List ℕ → ℕ) (k worker : ℕ) (project : Project) (clone : Clone)
    (works : Works s vec k worker project clone) where
  module _ (g commit_sha : ℕ) where
    flush-Gives : (cs : List Chunk) (w : World) → Gives (flush s k g commit_sha cs w)
    unfolding flush
    flush-Gives cs w =
        let texts = map (embedding_text s.path_text) cs in
        let points = points_at s vec k g commit_sha cs in
        let e = works.embeds texts in
        let f =
          points_for-points s vec (Works-EmbedsEach s vec k worker project clone works) k g
            commit_sha cs in
        let h = works.writes points in
        let whole : flush s k g commit_sha cs w
            ≡ (gave tt, write_store s.collection (upsert points) w) =
          ap (λ o. next (λ vs. write_points s (points_for s.uuid5 k g commit_sha cs vs)) (o, w)) e
          ∙ ap (λ o. write_points s o w) f
          ∙ ap (λ o. tell_write s points o w) h in
        (tt, whole ∙ ap (λ r. (gave tt, r.1)) (sym whole))

    drain-Gives :
        (fuel : ℕ) (batch : List Chunk) (n : ℕ) (w : World)
        → Gives (drain s k g commit_sha fuel batch n w)
    unfolding drain
    drain-Gives zero batch n w = ((batch, n), refl)
    drain-Gives (suc fuel) batch n w = elim (Bool-cases (leb s.batch_size (length batch))) [
      | inl full ↦
          let head = take s.batch_size batch in
          let more =
            next-Gives
              (λ u. drain s k g commit_sha fuel (drop s.batch_size batch) (n + length head))
              (flush s k g commit_sha head w) (flush-Gives head w)
              (λ u.
                drain-Gives fuel (drop s.batch_size batch) (n + length head)
                  (flush s k g commit_sha head w).1) in
          rw full more
      | inr short ↦ rw short ((batch, n), refl)
    ]

    flush_rest-Gives :
        (batch : List Chunk) (w : World) → Gives (flush_rest s k g commit_sha batch w)
    flush_rest-Gives [] w = (tt, refl)
    flush_rest-Gives (c ∷ cs) w = flush-Gives (c ∷ cs) w

    index_files-Gives :
        (files : List (SourceFile × Option (List ℕ))) (batch : List Chunk) (fc n : ℕ) (w : World)
        → Gives (index_files s k g commit_sha files batch fc n w)
    unfolding index_files
    index_files-Gives [] batch fc n w =
        next-Gives (λ u x. (gave (fc, n + length batch), x)) (flush_rest s k g commit_sha batch w)
          (flush_rest-Gives batch w) (λ u. ((fc, n + length batch), refl))
    index_files-Gives ((file, none) ∷ files) batch fc n w = index_files-Gives files batch fc n w
    index_files-Gives ((file, some source) ∷ files) batch fc n w =
        let full = batch ++ s.split_file file source in
        let drained = drain s k g commit_sha (length full) full n w in
        next-Gives (λ r. index_files s k g commit_sha files r.0 (fc + 1) r.1) drained
          (drain-Gives (length full) full n w)
          (λ r. index_files-Gives files r.0 (fc + 1) r.1 drained.1)

  pub index-Gives : (g : ℕ) (w : World) → Gives (index s k g clone w)
  unfolding index
  index-Gives g w =
      next-Gives (λ u. index_files s k g clone.commit_sha clone.files [] 0 0) (s.prepare, w)
        (tt, ap (λ o. (o, w)) works.prepares)
        (λ u. index_files-Gives g clone.commit_sha clone.files [] 0 0 w)

  advance_status-gave :
      (status : ProjectStatus) (w : World)
      → advance_status s k status w ≡ (gave tt, (advance_status s k status w).1)
  unfolding advance_status
  advance_status-gave status w = elim (Bool-cases (is_ready status)) [
    | inl yes_ready ↦ rw yes_ready refl
    | inr not_ready ↦ rw not_ready refl
  ]

  pub fetch-gives :
      (w : World) → fetch s k project w ≡ (gave clone, (advance_status s k project.status w).1)
  unfolding fetch
  fetch-gives w =
      let rest = λ (cl : Clone). advance_status s k project.status >> lift (gave cl) in
      let e = works.decrypts in
      let f = works.accepts in
      let c = works.clones in
      ap
        (λ o. next rest (
          next (λ u. lift (s.clone project))
            (next (λ u. lift (checked s (s.rejected project))) (o, w))))
        e
      ∙ ap (λ o. next rest (next (λ u. lift (s.clone project)) (checked s o, w))) f
      ∙ ap (λ o. next rest (o, w)) c
      ∙ ap (next (λ u. lift (gave clone))) (advance_status-gave project.status w)
