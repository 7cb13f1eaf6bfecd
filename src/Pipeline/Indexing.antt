-- ===== src/Pipeline/Indexing.antt =====
-- What the indexing of a clone writes, and what it leaves alone.
pub mod Written
use ask_repo.Retrieval.{drop}
use ask_repo.Budget.{take}
use ask_repo.Pipeline.Views.{Holds-write, next-Keeps, Keeps, Holds}
use ask_repo.Chunker.{embedding_text, SourceFile, Chunk}
use ask_repo.VectorStore.Generations.{
  points_for-AreOf, upsert-IsKeyed, search_matches-upsert_other, AreOf, IsInjective,
}
use ask_repo.VectorStore.{points_for, upsert, in_generation, Point}
use ask_repo.Pipeline.{
  gave, write_points, flush_rest, tell_write, write_store, Clone, index_files, World, drain, flush,
  index, Outcome, Services, broke,
}
use ask_repo.Prelude.{
  ℕ, zero, suc, ◌+◌, ◌≡◌, refl, inl, inr, false, Option, none, some, List, [], ◌∷◌, ◌++◌, map,
  arith, length, All, All-map, leb, Bool-cases,
}

-- Indexing keeps what no write of points of the generation changes.
module _ (s : Services) (k g commit_sha : ℕ) (P : World → Type 0)
    (stays : (ps : List Point) (w : World)
      → AreOf s.uuid5 k (suc g) ps
      → P w
      → P (write_store s.collection (upsert ps) w)) where
  tell_write-Keeps :
      (ps : List Point) (o : Outcome (Unit {0})) (w : World)
      → AreOf s.uuid5 k (suc g) ps
      → P w
      → P (tell_write s ps o w).1
  tell_write-Keeps ps (gave _) w a h = stays ps w a h
  tell_write-Keeps ps (broke e) w a h = elim (Bool-cases (s.is_written ps)) [
    | inl yes_written ↦ rw yes_written (stays ps w a h)
    | inr not_written ↦ rw not_written h
  ]

  write_points-Keeps :
      (o : Option (List Point))
      → ((ps : List Point) → o ≡ some ps → AreOf s.uuid5 k (suc g) ps)
      → Keeps P (write_points s o)
  write_points-Keeps none a w h = h
  write_points-Keeps (some ps) a w h = tell_write-Keeps ps (s.qdrant_upsert ps) w (a ps refl) h

  flush-Keeps : (chunks : List Chunk) → Keeps P (flush s k (suc g) commit_sha chunks)
  unfolding flush
  flush-Keeps chunks w h =
      next-Keeps P
        (λ vectors. write_points s (points_for s.uuid5 k (suc g) commit_sha chunks vectors))
        (s.embed_documents (map (embedding_text s.path_text) chunks), w)
        (λ vectors.
          write_points-Keeps (points_for s.uuid5 k (suc g) commit_sha chunks vectors)
            (points_for-AreOf s.uuid5 k (suc g) commit_sha chunks vectors))
        h

  drain-Keeps :
      (fuel : ℕ) (batch : List Chunk) (count : ℕ)
      → Keeps P (drain s k (suc g) commit_sha fuel batch count)
  unfolding drain
  drain-Keeps zero batch count w h = h
  drain-Keeps (suc fuel) batch count w h =
      let head = take s.batch_size batch in
      let rest = λ (u : Unit {0}).
        drain s k (suc g) commit_sha fuel (drop s.batch_size batch) (count + length head) in
      let more =
        next-Keeps P rest (flush s k (suc g) commit_sha head w)
          (λ u. drain-Keeps fuel (drop s.batch_size batch) (count + length head))
          (flush-Keeps head w h) in
      elim (Bool-cases (leb s.batch_size (length batch))) [
        | inl full ↦ rw full more
        | inr short ↦ rw short h
      ]

  flush_rest-Keeps : (batch : List Chunk) → Keeps P (flush_rest s k (suc g) commit_sha batch)
  flush_rest-Keeps [] w h = h
  flush_rest-Keeps (c ∷ cs) w h = flush-Keeps (c ∷ cs) w h

  index_files-Keeps :
      (files : List (SourceFile × Option (List ℕ))) (batch : List Chunk) (fc cc' : ℕ)
      → Keeps P (index_files s k (suc g) commit_sha files batch fc cc')
  unfolding index_files
  index_files-Keeps [] batch fc cc' w h =
      next-Keeps P (λ u w. (gave (fc, cc' + length batch), w))
        (flush_rest s k (suc g) commit_sha batch w) (λ u w h. h) (flush_rest-Keeps batch w h)
  index_files-Keeps ((file, none) ∷ files) batch fc cc' w h =
      index_files-Keeps files batch fc cc' w h
  index_files-Keeps ((file, some source) ∷ files) batch fc cc' w h =
      let full = batch ++ s.split_file file source in
      next-Keeps P (λ r. index_files s k (suc g) commit_sha files r.0 (fc + 1) r.1)
        (drain s k (suc g) commit_sha (length full) full cc' w)
        (λ r. index_files-Keeps files r.0 (fc + 1) r.1) (drain-Keeps (length full) full cc' w h)

  pub index-Keeps :
      (files : List (SourceFile × Option (List ℕ)))
      → Keeps P (index s k (suc g) (record { files = files; commit_sha = commit_sha }))
  unfolding index
  index-Keeps files w h =
      next-Keeps P (λ u. index_files s k (suc g) commit_sha files [] 0 0) (s.prepare, w)
        (λ u. index_files-Keeps files [] 0 0) h

module _ (s : Services) (k : ℕ) (before after : List Point) (inj : IsInjective s.uuid5) where
  -- The index that is in place, of an earlier generation than the one being written.
  module _ (collection : Option ℕ) (g : ℕ) (current : List Point) where
    abbrev Kept : World → Type 0
    Kept w = Holds s k before after (some (collection, g)) current w

    off_generation :
        (ps : List Point)
        → AreOf s.uuid5 k (suc g) ps
        → (h : ℕ)
        → ◌≡◌ {A = Option (Option ℕ × ℕ)} (some (collection, g)) (some (some s.collection, h))
        → All (λ p. in_generation k h p ≡ false) ps
    off_generation ps a h e =
        All-map {P = λ p. (p.payload.project_id ≡ k) × (p.payload.generation ≡ suc g)} ps
          (λ p q. let gen = q.1 in let same : g ≡ h = cc e in ground (arith, gen, same)) a.1

    upsert-Kept :
        (ps : List Point) (w : World)
        → AreOf s.uuid5 k (suc g) ps
        → Kept w
        → Kept (write_store s.collection (upsert ps) w)
    upsert-Kept ps w a h =
        Holds-write s k before after (upsert ps) (some (collection, g)) current w h
          (λ j e.
            search_matches-upsert_other s.uuid5 inj k j ps (w.stores s.collection) a.0
              (off_generation ps a j e) h.keyed)
          (upsert-IsKeyed s.uuid5 ps (w.stores s.collection) a.0 h.keyed)

  -- While a clone is indexed, the index in place serves what it did, whatever fails.
  pub index-kept :
      (collection : Option ℕ) (g : ℕ) (current : List Point) (clone : Clone)
      → Keeps (Holds s k before after (some (collection, g)) current) (index s k (suc g) clone)
  unfolding index
  index-kept collection g current clone w h =
      index-Keeps s k g clone.commit_sha (Holds s k before after (some (collection, g)) current)
        (upsert-Kept collection g current) clone.files w h
