-- ===== src/Pipeline/Swap.antt =====
-- A run replaces the index of a project at one moment.
pub mod Rows
pub mod Cloning
pub mod Released
use ask_repo.Jobs.Projects.Recovery.{rows-set_status}
use ask_repo.Pipeline.Swap.Rows.{rows-abandon, rows-release, Holds-edit}
use Prim.Native.String.{String}
use ask_repo.VectorStore.Generations.{has_id}
use ask_repo.Pipeline.Indexing.Written.{all_chunks, points_at}
use ask_repo.Jobs.Session.{rollback}
use ask_repo.Jobs.Lease.{abandoned, row_key}
use ask_repo.Jobs.Ingestion.{Ran, terminal}
use ask_repo.Pipeline.Views.{pointer_of, next-Keeps, pointer, Holds, Keeps}
use ask_repo.Table.{select_where, HasKeys, update_where}
use ask_repo.Chunker.{Chunk}
use ask_repo.VectorStore.{search_matches, in_generation, Point, point_of}
use ask_repo.Pipeline.{
  other_error, retryable_error, terminal_error, checked, broke, Failure, lift, gave, discard_unless,
  raised_or, ◌>>◌, World, discard_written, get_project, Outcome, Clone, handle_failure,
  discard_unclaimed_generation, fetch, advance_status, Services, commit_session, record_terminal,
}
use ask_repo.Jobs.Projects.{
  failed, release, lowered, is_ready, ProjectStatus, Project, ProjectSession, abandon, indexing,
  set_status,
}
use mathlib.Core.Path.{subst}
use ask_repo.Jobs.Lease.{finished, row_key, held_by}
use ask_repo.Prelude.{
  ℕ, suc, ◌≡◌, refl, sym, ap, ◌∙◌, inl, inr, Bool, true, false, not, ◌&&◌, Option, none, some, List,
  [], ◌∷◌, ◌++◌, All, ◌==◌, ==_refl, Bool-cases, Option-cases,
}

-- What others do to the rows leaves the project's index where it is, and is committed.
abbrev pub Undisturbed : ℕ → (ProjectSession → ProjectSession) → Type 0
Undisturbed k f =
    (x : ProjectSession)
    → x.rows ≡ x.committed
    → HasKeys row_key x.committed
    → ((f x).rows ≡ (f x).committed)
      × (pointer k (f x).committed ≡ pointer k x.committed)
      × HasKeys row_key (f x).committed

-- The index that a run puts in spot: its own points, and what was in its generation before and is not
-- written over.
abbrev pub renewed : Services → (List ℕ → ℕ) → ℕ → Project → Clone → (ℕ → List Point) → List Point
renewed s vec k project clone stores =
    let g = suc project.own.active_generation in
    let points = points_at s vec k g clone.commit_sha (all_chunks s clone.files) in
    select_where (λ x. not (has_id points x.id)) (search_matches k g (stores s.collection))
    ++ points

pub points_at-in_generation :
    (s : Services) (vec : List ℕ → ℕ) (k g commit_sha : ℕ) (cs : List Chunk)
    → All (λ p. in_generation k g p ≡ true) (points_at s vec k g commit_sha cs)
unfolding point_of
points_at-in_generation s vec k g commit_sha [] = tt
points_at-in_generation s vec k g commit_sha (c ∷ cs) =
    (rw (==_refl k, ==_refl g) refl, points_at-in_generation s vec k g commit_sha cs)

pub raised_or-world :
    (s : Services) (r : Ran) (o : Outcome (Unit {0}) × World) → (raised_or s r o).1 ≡ o.1
raised_or-world s r (gave u, w) = refl
raised_or-world s r (broke e, w) = refl

module _ (s : Services) (k job worker : ℕ) (before after : List Point) where
  pub advance_status-kept :
      (spot : Option (Option ℕ × ℕ)) (current : List Point) (status : ProjectStatus)
      → Keeps (Holds s k before after spot current) (advance_status s k status)
  unfolding advance_status
  advance_status-kept spot current status w h = elim (Bool-cases (is_ready status)) [
    | inl yes_ready ↦ rw yes_ready h
    | inr not_ready ↦ rw not_ready (
        Holds-edit s k before after spot current (set_status k indexing w.session) (λ r. r.id == k)
          (λ r. record r { status = indexing; updated_at = w.session.clock }) w h
          (rows-set_status k indexing w.session
            ∙ ap
                (λ rows.
                  (update_where (λ (r : Project). r.id == k)
                    (λ r. record r { status = indexing; updated_at = w.session.clock }) rows).0)
                h.synced)
          (λ r. (refl, refl, refl, refl)))
  ]

  pub fetch-kept :
      (spot : Option (Option ℕ × ℕ)) (current : List Point) (project : Project)
      → Keeps (Holds s k before after spot current) (fetch s k project)
  unfolding fetch
  fetch-kept spot current project w h =
      let P = Holds s k before after spot current in
      next-Keeps P (λ clone. advance_status s k project.status >> lift (gave clone))
        ((lift (s.decrypt project)
            >> lift (checked s (s.rejected project))
            >> lift (s.clone project))
          w)
        (λ clone v i.
          next-Keeps P (λ u. lift (gave clone)) (advance_status s k project.status v) (λ u x j. j)
            (advance_status-kept spot current project.status v i))
        (next-Keeps P (λ u. lift (s.clone project))
          ((lift (s.decrypt project) >> lift (checked s (s.rejected project))) w) (λ u v i. i)
          (next-Keeps P (λ u. lift (checked s (s.rejected project))) (s.decrypt project, w)
            (λ u v i. i) h))

  -- A project whose row is there has nothing to discard.
  pub discard-kept :
      (spot : Option ℕ × ℕ) (current : List Point) (g : ℕ)
      → Keeps (Holds s k before after (some spot) current) (discard_unclaimed_generation s k g)
  unfolding discard_unclaimed_generation
  discard-kept spot current g w h = elim (Option-cases (get_project k w.session.rows)) [
    | inl gone ↦ let bad = sym (ap pointer_of gone) ∙ ap (pointer k) h.synced ∙ h.pointed in cc bad
    | inr (r, there) ↦
        subst (λ o. Holds s k before after (some spot) current (discard_unless s o k g w).1)
          (sym there) h
  ]

  discard_written-kept :
      (spot : Option ℕ × ℕ) (current : List Point) (g : Option ℕ) (released : Bool)
      → Keeps (Holds s k before after (some spot) current) (discard_written s k g released)
  discard_written-kept spot current none released w h = h
  discard_written-kept spot current (some g) true w h = h
  discard_written-kept spot current (some g) false w h = discard-kept spot current g w h

  record_terminal-kept :
      (spot : Option ℕ × ℕ) (current : List Point) (g : Option ℕ) (error : Option String)
      (o : Option (Bool × ProjectSession)) (w : World)
      → release k job worker failed error (λ c. c) w.session ≡ o
      → Holds s k before after (some spot) current w
      → Holds s k before after (some spot) current (record_terminal s k g o w).1
  unfolding finished lowered
  record_terminal-kept spot current g error none w e h = h
  record_terminal-kept spot current g error (some (released, x)) w e h =
      let P = Holds s k before after (some spot) current in
      let p = λ (r : Project). r.id == k && held_by worker true r in
      let f = finished w.session.clock job failed error (lowered (λ c. c)) in
      let kept =
        Holds-edit s k before after (some spot) current x p f w h
          (rows-release k job worker failed error (λ c. c) w.session released x e
            ∙ ap (λ rows. (update_where p f rows).0) h.synced)
          (λ r. (refl, refl, refl, refl)) in
      subst P
        (sym (raised_or-world s terminal (discard_written s k g released (commit_session x w))))
        (discard_written-kept spot current g released (commit_session x w) kept)

  -- However a run fails, its handlers leave the index in spot.
  pub handle_failure-kept :
      (spot : Option ℕ × ℕ) (current : List Point) (g : Option ℕ) (e : Failure) (w : World)
      → Holds s k before after (some spot) current w
      → Holds s k before after (some spot) current (handle_failure s k job worker g e w).1
  unfolding handle_failure rollback abandoned lowered
  handle_failure-kept spot current g (terminal_error reason) w h =
      record_terminal-kept spot current g (some (s.scrubbed reason))
        (release k job worker failed (some (s.scrubbed reason)) (λ c. c) w.session) w refl h
  handle_failure-kept spot current g (retryable_error reason) w h = h
  handle_failure-kept spot current g (other_error reason) w h =
      Holds-edit s k before after (some spot) current (abandon k worker (rollback w.session)).1
        (λ r. r.id == k && held_by worker false r) (abandoned w.session.clock (lowered (λ c. c))) w
        h (rows-abandon k worker (rollback w.session)) (λ r. (refl, refl, refl, refl))
