-- ===== src/Pipeline/Swap/Rows.antt =====
-- What the statements of a run do to the rows.
use ask_repo.Table.Laws.{update_where-HasKeys}
use ask_repo.Pipeline.Views.{pointer-update_where, pointer, Holds-commit, KeepsIndex, Holds}
use Prim.Native.String.{String}
use ask_repo.Table.{HasKeys, rowcount, one_or_none, fetched, update_where, Fetched}
use ask_repo.Jobs.Lease.{row_key, abandoned, held_by, abandon_lease, release_lease}
use ask_repo.VectorStore.{Point}
use ask_repo.Jobs.Session.{announced, stage_live_event}
use ask_repo.Pipeline.{commit_session, World, Services}
use ask_repo.Jobs.Projects.{
  lowered, ProjectColumns, ProjectSession, ProjectStatus, Project, abandon, release,
}
use mathlib.Core.Path.{subst}
use ask_repo.Table.{multiple_results}
use ask_repo.Jobs.Lease.{finished, row_key}
use ask_repo.Prelude.{
  ℕ, ◌≡◌, refl, sym, ap, ◌∙◌, inl, inr, Bool, true, false, ◌&&◌, Option, none, some, List, arith,
  ◌==◌, Bool-cases,
}

announced-rows :
    (result : Fetched Project) (rows : List Project) (k : ℕ) (s x : ProjectSession) (b : Bool)
    → announced (result, rows) k s ≡ some (b, x)
    → x.rows ≡ rows
unfolding stage_live_event
announced-rows (fetched (some r)) rows k s x b h = ground (arith, h)
announced-rows (fetched none) rows k s x b h = ground (arith, h)
announced-rows multiple_results rows k s x b h = cc h

pub rows-release :
    (k job worker : ℕ) (status : ProjectStatus) (error : Option String)
    (fields : ProjectColumns → ProjectColumns) (s : ProjectSession) (b : Bool) (x : ProjectSession)
    → release k job worker status error fields s ≡ some (b, x)
    → x.rows
      ≡ (update_where
          (λ (r : Project). r.id == k && held_by worker true r)
          (finished s.clock job status error (lowered fields))
          s.rows).0
unfolding release release_lease
rows-release k job worker status error fields s b x h =
    let changed =
      update_where (λ (r : Project). r.id == k && held_by worker true r)
        (finished s.clock job status error (lowered fields)) s.rows in
    announced-rows (one_or_none changed.1) changed.0 k s x b h

pub rows-abandon :
    (k worker : ℕ) (s : ProjectSession)
    → (abandon k worker s).1.rows
      ≡ (update_where
          (λ (r : Project). r.id == k && held_by worker false r)
          (abandoned s.clock (lowered (λ c. c)))
          s.rows).0
unfolding abandon abandon_lease stage_live_event
rows-abandon k worker s =
    let changed =
      update_where (λ (r : Project). r.id == k && held_by worker false r)
        (abandoned s.clock (lowered (λ c. c))) s.rows in
    elim (Bool-cases (rowcount changed.1 == 1)) [
      | inl one ↦ rw one refl
      | inr other ↦ rw other refl
    ]

-- A commit of rows that one statement has edited.
pub Holds-edit :
    (s : Services) (k : ℕ) (before after : List Point) (spot : Option (Option ℕ × ℕ))
    (current : List Point) (x : ProjectSession) (p : Project → Bool) (f : Project → Project)
    (w : World)
    → Holds s k before after spot current w
    → x.rows ≡ (update_where p f w.session.committed).0
    → KeepsIndex f
    → Holds s k before after spot current (commit_session x w)
Holds-edit s k before after spot current x p f w h e keeps =
    Holds-commit s k before after spot current x w h
      (ap (pointer k) e ∙ pointer-update_where k p f w.session.committed keeps ∙ h.pointed)
      (subst (HasKeys row_key) (sym e)
        (update_where-HasKeys row_key p f w.session.committed (λ r. (keeps r).0) h.unique))
