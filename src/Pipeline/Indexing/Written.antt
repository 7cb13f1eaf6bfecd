-- ===== src/Pipeline/Indexing/Written.antt =====
-- The points of a clone that was indexed to its end.
use ask_repo.Retrieval.Lines.{take-drop}
use ask_repo.Retrieval.{drop}
use ask_repo.VectorStore.Generations.{upsert-append}
use ask_repo.Budget.{take}
use ask_repo.VectorStore.{prepend, Point, upsert, point_of, points_for}
use ask_repo.Chunker.{embedding_text, Chunk, SourceFile}
use ask_repo.Pipeline.{
  write_store, broke, write_points, tell_write, next, World, drain, gave, Outcome, flush, Services,
  Step, Clone, flush_rest, index, index_files,
}
use mathlib.Core.Path.{subst}
use mathlib.Core.List.{append_assoc}
use ask_repo.Prelude.{
  ℕ, zero, suc, ◌+◌, ◌≡◌, refl, sym, ap, ◌∙◌, inl, inr, Option, none, some, List, [], ◌∷◌, ◌++◌,
  map, arith, length, length-append, leb, if◌then◌else◌, ==_refl, Bool-cases,
}

-- The chunks of the files that can be read.
abbrev pub all_chunks : Services → List (SourceFile × Option (List ℕ)) → List Chunk
all_chunks s [] = []
all_chunks s ((file, none) ∷ files) = all_chunks s files
all_chunks s ((file, some source) ∷ files) = s.split_file file source ++ all_chunks s files

abbrev pub readable : List (SourceFile × Option (List ℕ)) → ℕ
readable [] = 0
readable ((file, none) ∷ files) = readable files
readable ((file, some source) ∷ files) = suc (readable files)

-- The embedder embeds each text by itself.
abbrev pub EmbedsEach : Services → (List ℕ → ℕ) → Type 0
EmbedsEach s vec =
    (texts : List (List ℕ)) (vectors : List ℕ)
    → s.embed_documents texts ≡ gave vectors
    → vectors ≡ map vec texts

abbrev pub points_at : Services → (List ℕ → ℕ) → ℕ → ℕ → ℕ → List Chunk → List Point
points_at s vec k g commit_sha =
    map (λ c. point_of s.uuid5 k g commit_sha c (vec (embedding_text s.path_text c)))

-- What a step that returned has done first.
pub next-gave {ℓ κ} :
    {A : Type ℓ} {B : Type κ} (rest : A → Step B) (r : Outcome A × World) (b : B) (w : World)
    → next rest r ≡ (gave b, w)
    → (a : A) × (r ≡ (gave a, r.1)) × (rest a r.1 ≡ (gave b, w))
next-gave rest (broke e, v) b w h = cc h
next-gave rest (gave a, v) b w h = (a, refl, h)

module _ (s : Services) (vec : List ℕ → ℕ) (each : EmbedsEach s vec) (k g commit_sha : ℕ) where
  abbrev pub batch_points : List Chunk → List Point
  batch_points = points_at s vec k g commit_sha

  abbrev Wrote : List Chunk → World → World → Type 0
  Wrote cs w v = v.stores s.collection ≡ upsert (batch_points cs) (w.stores s.collection)

  pub points_for-points :
      (cs : List Chunk)
      → points_for s.uuid5 k g commit_sha cs (map vec (map (embedding_text s.path_text) cs))
        ≡ some (batch_points cs)
  unfolding points_for
  points_for-points [] = refl
  points_for-points (c ∷ cs) =
      ap (prepend (point_of s.uuid5 k g commit_sha c (vec (embedding_text s.path_text c))))
        (points_for-points cs)

  points-append :
      (cs ds : List Chunk) → batch_points (cs ++ ds) ≡ batch_points cs ++ batch_points ds
  points-append [] ds = refl
  points-append (c ∷ cs) ds =
      ap (λ ps. point_of s.uuid5 k g commit_sha c (vec (embedding_text s.path_text c)) ∷ ps)
        (points-append cs ds)

  Wrote-append :
      (cs ds : List Chunk) (u v w : World) → Wrote cs u v → Wrote ds v w → Wrote (cs ++ ds) u w
  Wrote-append cs ds u v w h i =
      i
      ∙ ap (upsert (batch_points ds)) h
      ∙ sym (upsert-append (batch_points cs) (batch_points ds) (u.stores s.collection))
      ∙ ap (λ ps. upsert ps (u.stores s.collection)) (sym (points-append cs ds))

  tell_write-Wrote :
      (cs : List Chunk) (o : Outcome (Unit {0})) (w v : World) (a : Unit {0})
      → tell_write s (batch_points cs) o w ≡ (gave a, v)
      → Wrote cs w v
  tell_write-Wrote cs (broke e) w v a h = cc h
  tell_write-Wrote cs (gave u) w v a h =
      let e : write_store s.collection (upsert (batch_points cs)) w ≡ v = cc h in
      subst (Wrote cs w) e (rw (==_refl s.collection) refl)

  flush-Wrote :
      (cs : List Chunk) (w v : World) (a : Unit {0})
      → flush s k g commit_sha cs w ≡ (gave a, v)
      → Wrote cs w v
  unfolding flush
  flush-Wrote cs w v a h =
      let texts = map (embedding_text s.path_text) cs in
      let rest =
        λ (vectors : List ℕ). write_points s (points_for s.uuid5 k g commit_sha cs vectors) in
      let (vs, got, wrote) = next-gave rest (s.embed_documents texts, w) a v h in
      let same : vs ≡ map vec texts = each texts vs (ap (λ r. r.0) got) in
      let some_points : points_for s.uuid5 k g commit_sha cs vs ≡ some (batch_points cs) =
        ap (points_for s.uuid5 k g commit_sha cs) same ∙ points_for-points cs in
      tell_write-Wrote cs (s.qdrant_upsert (batch_points cs)) w v a
        (sym (ap (λ o. write_points s o w) some_points) ∙ wrote)

  drain-Wrote :
      (fuel : ℕ) (batch : List Chunk) (n : ℕ) (w v : World) (b : List Chunk) (m : ℕ)
      → drain s k g commit_sha fuel batch n w ≡ (gave (b, m), v)
      → (pre : List Chunk) × (batch ≡ pre ++ b) × (m ≡ n + length pre) × Wrote pre w v
  unfolding drain upsert
  drain-Wrote zero batch n w v b m h =
      let e : batch ≡ b = cc h in
      let f : n ≡ m = cc h in
      let i : w ≡ v = cc h in ([], e, omega (arith, f), subst (Wrote [] w) i refl)
  drain-Wrote (suc fuel) batch n w v b m h = elim (Bool-cases (leb s.batch_size (length batch))) [
    | inl full ↦
        let head = take s.batch_size batch in
        let rest = λ (u : Unit {0}).
          drain s k g commit_sha fuel (drop s.batch_size batch) (n + length head) in
        let more = next rest (flush s k g commit_sha head w) in
        let taken : more ≡ (gave (b, m), v) =
          sym (ap (λ c. if c then more else (gave (batch, n), w)) full) ∙ h in
        let (u, first, second) = next-gave rest (flush s k g commit_sha head w) (b, m) v taken in
        let mid = (flush s k g commit_sha head w).1 in
        let (pre, e, f, i) =
          drain-Wrote fuel (drop s.batch_size batch) (n + length head) mid v b m second in
        (
          head ++ pre,
          sym (take-drop s.batch_size batch)
              ∙ ap (λ ys. head ++ ys) e
              ∙ sym (append_assoc head pre b),
          omega (arith, f, length-append head pre),
          Wrote-append head pre w mid v (flush-Wrote head w mid u first) i,
        )
    | inr short ↦
        let stop : ◌≡◌ {A = Outcome (List Chunk × ℕ) × World} (gave (batch, n), w)
            (gave (b, m), v) =
          sym (
            ap
              (λ c.
                if c
                then next
                    (λ u.
                      drain s k g commit_sha fuel (drop s.batch_size batch)
                        (n + length (take s.batch_size batch)))
                    (flush s k g commit_sha (take s.batch_size batch) w)
                else (gave (batch, n), w))
              short)
          ∙ h in
        let e : batch ≡ b = cc stop in
        let f : n ≡ m = cc stop in
        let i : w ≡ v = cc stop in ([], e, omega (arith, f), subst (Wrote [] w) i refl)
  ]

  flush_rest-Wrote :
      (batch : List Chunk) (w v : World) (a : Unit {0})
      → flush_rest s k g commit_sha batch w ≡ (gave a, v)
      → Wrote batch w v
  unfolding upsert
  flush_rest-Wrote [] w v a h = let e : w ≡ v = cc h in subst (Wrote [] w) e refl
  flush_rest-Wrote (c ∷ cs) w v a h = flush-Wrote (c ∷ cs) w v a h

  append_nil : (cs : List Chunk) → cs ≡ cs ++ []
  append_nil [] = refl
  append_nil (c ∷ cs) = ap (λ ds. c ∷ ds) (append_nil cs)

  -- What is batched and what is still to read is written, whatever the batches are.
  pub index_files-Wrote :
      (files : List (SourceFile × Option (List ℕ))) (batch : List Chunk) (fc n fc' n' : ℕ)
      (w v : World)
      → index_files s k g commit_sha files batch fc n w ≡ (gave (fc', n'), v)
      → Wrote (batch ++ all_chunks s files) w v
        × (fc' ≡ fc + readable files)
        × (n' ≡ n + length (batch ++ all_chunks s files))
  unfolding index_files
  index_files-Wrote [] batch fc n fc' n' w v h =
      let rest : Unit {0} → Step (ℕ × ℕ) = λ u x. (gave (fc, n + length batch), x) in
      let (u, first, second) = next-gave rest (flush_rest s k g commit_sha batch w) (fc', n') v h in
      let mid = (flush_rest s k g commit_sha batch w).1 in
      let e : mid ≡ v = cc second in
      let f : fc ≡ fc' = cc second in
      let m : n + length batch ≡ n' = cc second in
      let same = append_nil batch in
      (
        subst (λ cs. Wrote cs w v) same
            (subst (Wrote batch w) e (flush_rest-Wrote batch w mid u first)),
        omega (arith, f),
        omega (arith, m, ap length same),
      )
  index_files-Wrote ((file, none) ∷ files) batch fc n fc' n' w v h =
      index_files-Wrote files batch fc n fc' n' w v h
  index_files-Wrote ((file, some source) ∷ files) batch fc n fc' n' w v h =
      let new = s.split_file file source in
      let full = batch ++ new in
      let rest = λ (r : List Chunk × ℕ). index_files s k g commit_sha files r.0 (fc + 1) r.1 in
      let drained = drain s k g commit_sha (length full) full n w in
      let (r, first, second) = next-gave rest drained (fc', n') v h in
      let (pre, e, f, i) = drain-Wrote (length full) full n w drained.1 r.0 r.1 first in
      let (j, files_counted, counted) =
        index_files-Wrote files r.0 (fc + 1) r.1 fc' n' drained.1 v second in
      let whole : pre ++ (r.0 ++ all_chunks s files) ≡ batch ++ (new ++ all_chunks s files) =
        sym (append_assoc pre r.0 (all_chunks s files))
        ∙ ap (λ cs. cs ++ all_chunks s files) (sym e)
        ∙ append_assoc batch new (all_chunks s files) in
      (
        subst (λ cs. Wrote cs w v) whole
            (Wrote-append pre (r.0 ++ all_chunks s files) w drained.1 v i j),
        omega (arith, files_counted),
        omega (
          arith,
          counted,
          f,
          ap length (sym whole),
          length-append pre (r.0 ++ all_chunks s files),
        ),
      )

-- The indexing of a clone, if it comes to its end, writes the points of all chunks of the files that can be
-- read, in their order, whatever the size of a batch is, and counts the files and the chunks.
pub index-Wrote :
    (s : Services) (vec : List ℕ → ℕ) (k g : ℕ) (clone : Clone) (counts : ℕ × ℕ) (w v : World)
    → EmbedsEach s vec
    → index s k g clone w ≡ (gave counts, v)
    → (v.stores s.collection
        ≡ upsert
            (points_at s vec k g clone.commit_sha (all_chunks s clone.files))
            (w.stores s.collection))
      × (counts.0 ≡ readable clone.files)
      × (counts.1 ≡ length (all_chunks s clone.files))
unfolding index
index-Wrote s vec k g clone counts w v each h =
    let rest = λ (u : Unit {0}). index_files s k g clone.commit_sha clone.files [] 0 0 in
    let (u, first, second) = next-gave rest (s.prepare, w) counts v h in
    let (wrote, files, chunks) =
      index_files-Wrote s vec each k g clone.commit_sha clone.files [] 0 0 counts.0 counts.1 w v
        second in
    (wrote, omega (arith, files), omega (arith, chunks))
