-- ===== src/VectorStore.antt =====
-- backend/app/ingestion/vector_store.py: the points of one collection, as `InMemoryVectorStore` keeps them,
-- and the points that a batch of chunks becomes. A vector and a commit are values that are passed on; numbers
-- stand for them. `uuid5` hashes a project and a text, which is a path, an index and a generation.
pub mod Laws
pub mod Generations
use ask_repo.Table.{select_where}
use ask_repo.Prelude.{ℕ, Bool, not, ◌&&◌, Option, none, some, List, [], ◌∷◌, ◌++◌, ◌==◌}
use ask_repo.Chunker.{Chunk}

pub record Payload : Type 0 where
  pub project_id : ℕ
  pub generation : ℕ
  pub file_path : ℕ
  pub start_line : ℕ
  pub end_line : ℕ
  pub language : ℕ
  pub symbol : Option (List ℕ)
  pub chunk_index : ℕ
  pub commit_sha : ℕ
  pub content : List ℕ

pub record Point : Type 0 where
  pub id : ℕ
  pub vector : ℕ
  pub payload : Payload

abbrev pub payload_of : ℕ → ℕ → ℕ → Chunk → Payload
payload_of project_id generation commit_sha chunk = record {
  project_id = project_id;
  generation = generation;
  file_path = chunk.file_path;
  start_line = chunk.start_line;
  end_line = chunk.end_line;
  language = chunk.language;
  symbol = chunk.symbol;
  chunk_index = chunk.chunk_index;
  commit_sha = commit_sha;
  content = chunk.text;
}

abbrev pub prepend {ℓ} : {A : Type ℓ} → A → Option (List A) → Option (List A)
prepend x none = none
prepend x (some xs) = some (x ∷ xs)

module _ (uuid5 : ℕ → ℕ × ℕ × ℕ → ℕ) where
  unfoldable pub point_id : ℕ → ℕ → ℕ → ℕ → ℕ
  point_id project_id file_path chunk_index generation =
      uuid5 project_id (file_path, chunk_index, generation)

  unfoldable pub point_of : ℕ → ℕ → ℕ → Chunk → ℕ → Point
  unfolding point_id
  point_of project_id generation commit_sha chunk vector = record {
    id = point_id project_id chunk.file_path chunk.chunk_index generation;
    vector = vector;
    payload = payload_of project_id generation commit_sha chunk;
  }

  -- `zip(chunks, vectors, strict=True)`: `none` where their numbers differ.
  unfoldable pub points_for : ℕ → ℕ → ℕ → List Chunk → List ℕ → Option (List Point)
  points_for project_id generation commit_sha [] [] = some []
  points_for project_id generation commit_sha [] (v ∷ vs) = none
  points_for project_id generation commit_sha (c ∷ cs) [] = none
  points_for project_id generation commit_sha (c ∷ cs) (v ∷ vs) =
      prepend (point_of project_id generation commit_sha c v)
        (points_for project_id generation commit_sha cs vs)

-- One round of `upsert`: a point replaces those of its id.
unfoldable pub put_point : Point → List Point → List Point
put_point p points = select_where (λ x. not (x.id == p.id)) points ++ p ∷ []

unfoldable pub upsert : List Point → List Point → List Point
unfolding put_point
upsert [] points = points
upsert (p ∷ ps) points = upsert ps (put_point p points)

abbrev pub in_generation : ℕ → ℕ → Point → Bool
in_generation project_id generation p =
    p.payload.project_id == project_id && p.payload.generation == generation

-- The points that a search in one generation ranks.
unfoldable pub search_matches : ℕ → ℕ → List Point → List Point
search_matches project_id generation points =
    select_where (in_generation project_id generation) points

unfoldable pub delete_generation : ℕ → ℕ → List Point → List Point
delete_generation project_id generation points =
    select_where (λ p. not (in_generation project_id generation p)) points

unfoldable pub delete_project : ℕ → List Point → List Point
delete_project project_id points =
    select_where (λ p. not (p.payload.project_id == project_id)) points
