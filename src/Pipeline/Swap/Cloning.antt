-- ===== src/Pipeline/Swap/Cloning.antt =====
-- What a fetch that returned has done.
use ask_repo.Pipeline.Indexing.Written.{next-gave}
use ask_repo.Jobs.Projects.{is_ready, Project, ProjectStatus}
use ask_repo.Pipeline.{
  ◌>>◌, checked, gave, lift, Clone, World, fetch, Services, advance_status, Outcome, broke,
}
use ask_repo.Prelude.{ℕ, ◌≡◌, refl, sym, ap, ◌∙◌, inl, inr, Bool-cases}

pub three_lifts :
    (a b : Outcome (Unit {0})) (c : Outcome Clone) (clone : Clone) (w v : World)
    → (lift a >> lift b >> lift c) w ≡ (gave clone, v)
    → (c ≡ gave clone) × (w ≡ v)
three_lifts (broke e) b c clone w v h = cc h
three_lifts (gave _) (broke e) c clone w v h = cc h
three_lifts (gave _) (gave _) c clone w v h = (ap (λ r. r.0) h, ap (λ r. r.1) h)

pub advance_status-stores :
    (s : Services) (k : ℕ) (status : ProjectStatus) (w : World)
    → (advance_status s k status w).1.stores ≡ w.stores
unfolding advance_status
advance_status-stores s k status w = elim (Bool-cases (is_ready status)) [
  | inl yes_ready ↦ rw yes_ready refl
  | inr not_ready ↦ rw not_ready refl
]

-- A fetch that returned gives the clone, and has written no point.
pub fetch-gave :
    (s : Services) (k : ℕ) (project : Project) (clone : Clone) (w v : World)
    → fetch s k project w ≡ (gave clone, v)
    → (s.clone project ≡ gave clone) × (v.stores ≡ w.stores)
unfolding fetch
fetch-gave s k project clone w v h =
    let calls =
      (lift (s.decrypt project) >> lift (checked s (s.rejected project)) >> lift (s.clone project))
        w in
    let (cl, cloned, rest) =
      next-gave (λ clone. advance_status s k project.status >> lift (gave clone)) calls clone v h in
    let (answer, same) =
      three_lifts (s.decrypt project) (checked s (s.rejected project)) (s.clone project) cl w
        calls.1 cloned in
    let advanced = advance_status s k project.status calls.1 in
    let (u, first, second) = next-gave (λ u. lift (gave cl)) advanced clone v rest in
    let e : cl ≡ clone = cc second in
    let f : advanced.1 ≡ v = cc second in
    (
      answer ∙ ap gave e,
      ap (λ x. x.stores) (sym f)
          ∙ advance_status-stores s k project.status calls.1
          ∙ ap (λ x. x.stores) (sym same),
    )
