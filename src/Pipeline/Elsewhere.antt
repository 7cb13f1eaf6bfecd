-- ===== src/Pipeline/Elsewhere.antt =====
-- A run writes to the collection of its own store and to no other.
use ask_repo.Jobs.Ingestion.{terminal}
use ask_repo.Pipeline.Swap.{raised_or-world}
use ask_repo.Pipeline.Indexing.{index-Keeps}
use ask_repo.Pipeline.Views.{next-Keeps, Keeps}
use ask_repo.Jobs.Projects.{
  ready, failed, is_ready, ProjectStatus, Project, ProjectSession, release,
}
use ask_repo.VectorStore.{upsert, delete_generation, Point}
use mathlib.Core.Path.{subst}
use ask_repo.Pipeline.{
  ◌>>◌, Clone, Failure, Outcome, Services, World, advance_status, after_release, broke, checked,
  commit_session, continue_run, delete_points, discard_unclaimed_generation, discard_unless,
  discard_written, fetch, finish_run, gave, get_project, handle_failure, index, index_and_swap,
  lift, other_error, record_terminal, recorded, retryable_error, run, run_project, swap, swap_to,
  terminal_error, write_store,
}
use ask_repo.Prelude.{
  ℕ, suc, ◌≡◌, refl, sym, ap, ◌∙◌, ◌≢◌, inl, inr, Bool, true, false, Option, none, some, List,
  arith, ◌==◌, if◌then◌else◌, Bool-cases,
}

module _ (s : Services) (k job worker j : ℕ) (other : j ≢ s.collection) (points : List Point) where
  abbrev Elsewhere : World → Type 0
  Elsewhere w = w.stores j ≡ points

  write-Elsewhere :
      (f : List Point → List Point) (w : World)
      → Elsewhere w
      → Elsewhere (write_store s.collection f w)
  write-Elsewhere f w h =
      let off : (j == s.collection) ≡ false = ground (arith, other) in
      ap (λ b. if b then f (w.stores j) else w.stores j) off ∙ h

  advance_status-Elsewhere : (status : ProjectStatus) → Keeps Elsewhere (advance_status s k status)
  unfolding advance_status
  advance_status-Elsewhere status w h = elim (Bool-cases (is_ready status)) [
    | inl yes_ready ↦ rw yes_ready h
    | inr not_ready ↦ rw not_ready h
  ]

  fetch-Elsewhere : (project : Project) → Keeps Elsewhere (fetch s k project)
  unfolding fetch
  fetch-Elsewhere project w h =
      next-Keeps Elsewhere (λ clone. advance_status s k project.status >> lift (gave clone))
        ((lift (s.decrypt project)
            >> lift (checked s (s.rejected project))
            >> lift (s.clone project))
          w)
        (λ clone v i.
          next-Keeps Elsewhere (λ u. lift (gave clone)) (advance_status s k project.status v)
            (λ u x i. i) (advance_status-Elsewhere project.status v i))
        (next-Keeps Elsewhere (λ u. lift (s.clone project))
          ((lift (s.decrypt project) >> lift (checked s (s.rejected project))) w) (λ u v i. i)
          (next-Keeps Elsewhere (λ u. lift (checked s (s.rejected project))) (s.decrypt project, w)
            (λ u v i. i) h))

  delete_points-Elsewhere : (g : ℕ) → Keeps Elsewhere (delete_points s k g)
  delete_points-Elsewhere g w h =
      next-Keeps Elsewhere (λ u w. (gave tt, write_store s.collection (delete_generation k g) w))
        (s.qdrant_delete g, w) (λ u v i. write-Elsewhere (delete_generation k g) v i) h

  discard_unless-Elsewhere : (o : Option Project) (g : ℕ) → Keeps Elsewhere (discard_unless s o k g)
  discard_unless-Elsewhere none g w h = delete_points-Elsewhere g w h
  discard_unless-Elsewhere (some r) g w h = h

  discard-Elsewhere : (g : ℕ) → Keeps Elsewhere (discard_unclaimed_generation s k g)
  unfolding discard_unclaimed_generation
  discard-Elsewhere g w h = discard_unless-Elsewhere (get_project k w.session.rows) g w h

  after_release-Elsewhere :
      (g : ℕ) (released : Bool) → Keeps Elsewhere (after_release s k g released)
  after_release-Elsewhere g false w h = discard-Elsewhere (suc g) w h
  after_release-Elsewhere g true w h = elim (Bool-cases (g == 0)) [
    | inl first ↦ rw first h
    | inr later ↦ rw later (delete_points-Elsewhere g w h)
  ]

  swap_to-Elsewhere :
      (g : ℕ) (o : Option (Bool × ProjectSession)) → Keeps Elsewhere (swap_to s k g o)
  swap_to-Elsewhere g none w h = h
  swap_to-Elsewhere g (some (released, x)) w h =
      after_release-Elsewhere g released (commit_session x w) h

  index_and_swap-Elsewhere :
      (project : Project) (clone : Clone)
      → Keeps Elsewhere (index_and_swap s k job worker project clone)
  unfolding index_and_swap swap
  index_and_swap-Elsewhere project clone w h =
      let g = project.own.active_generation in
      next-Keeps Elsewhere (λ counts. swap s k job worker g clone.commit_sha counts)
        (index s k (suc g) clone w)
        (λ counts v i.
          swap_to-Elsewhere g
            (release k job worker ready none (recorded s (suc g) clone.commit_sha counts)
              (s.meanwhile v.session))
            (record v { session = s.meanwhile v.session }) i)
        (index-Keeps s k g clone.commit_sha Elsewhere (λ ps v a i. write-Elsewhere (upsert ps) v i)
          clone.files w h)

  discard_written-Elsewhere :
      (g : Option ℕ) (released : Bool) → Keeps Elsewhere (discard_written s k g released)
  discard_written-Elsewhere none released w h = h
  discard_written-Elsewhere (some g) true w h = h
  discard_written-Elsewhere (some g) false w h = discard-Elsewhere g w h

  record_terminal-Elsewhere :
      (g : Option ℕ) (o : Option (Bool × ProjectSession)) (w : World)
      → Elsewhere w
      → Elsewhere (record_terminal s k g o w).1
  record_terminal-Elsewhere g none w h = h
  record_terminal-Elsewhere g (some (released, x)) w h =
      subst Elsewhere
        (sym (raised_or-world s terminal (discard_written s k g released (commit_session x w))))
        (discard_written-Elsewhere g released (commit_session x w) h)

  handle_failure-Elsewhere :
      (g : Option ℕ) (e : Failure) (w : World)
      → Elsewhere w
      → Elsewhere (handle_failure s k job worker g e w).1
  unfolding handle_failure
  handle_failure-Elsewhere g (terminal_error reason) w h =
      record_terminal-Elsewhere g
        (release k job worker failed (some (s.scrubbed reason)) (λ c. c) w.session) w h
  handle_failure-Elsewhere g (retryable_error reason) w h = h
  handle_failure-Elsewhere g (other_error reason) w h = h

  finish_run-Elsewhere :
      (g : Option ℕ) (r : Outcome (Unit {0}) × World)
      → Elsewhere r.1
      → Elsewhere (finish_run s k job worker g r).1
  finish_run-Elsewhere g (gave u, w) h = h
  finish_run-Elsewhere g (broke e, w) h = handle_failure-Elsewhere g e w h

  continue_run-Elsewhere :
      (project : Project) (r : Outcome Clone × World)
      → Elsewhere r.1
      → Elsewhere (continue_run s k job worker project r).1
  continue_run-Elsewhere project (broke e, w) h = handle_failure-Elsewhere none e w h
  continue_run-Elsewhere project (gave clone, w) h =
      finish_run-Elsewhere (some (suc project.own.active_generation))
        (index_and_swap s k job worker project clone w) (index_and_swap-Elsewhere project clone w h)

  run_project-Elsewhere :
      (o : Option Project) (w : World) → Elsewhere w → Elsewhere (run_project s k job worker o w).1
  run_project-Elsewhere none w h = h
  run_project-Elsewhere (some project) w h =
      continue_run-Elsewhere project (fetch s k project w) (fetch-Elsewhere project w h)

-- Whatever a run does, the points of another collection are as they were.
pub run-elsewhere :
    (s : Services) (k job worker j : ℕ) (w : World)
    → j ≢ s.collection
    → (run s k job worker w).1.stores j ≡ w.stores j
unfolding run
run-elsewhere s k job worker j w other =
    run_project-Elsewhere s k job worker j other (w.stores j) (get_project k w.session.rows) w refl
