-- ===== src/Pipeline/Views.antt =====
-- What a reader of a project is answered from, and what keeps it.
use ask_repo.Table.Laws.{find-update_where, edited}
use ask_repo.Jobs.Lease.{row_key}
use ask_repo.VectorStore.Generations.{IsKeyed}
use ask_repo.Jobs.Session.{commit}
use ask_repo.Table.{find, HasKeys, update_where}
use ask_repo.VectorStore.{search_matches, Point}
use ask_repo.Jobs.Projects.{ProjectSession, Project}
use ask_repo.Pipeline.{
  commit_session, next, Outcome, write_store, live, get_project, Step, view, View, World, Services,
  broke, gave,
}
use mathlib.Core.Path.{subst}
use ask_repo.Prelude.{
  ℕ, ◌≡◌, refl, sym, ap, ◌∙◌, ◌⊎◌, inl, inr, Bool, Option, none, some, List, [], arith, All, ◌==◌,
  if◌then◌else◌, ==_iff, ==_refl, Bool-cases,
}

-- The collection and the generation that the project's row names.
abbrev pub pointer_of : Option Project → Option (Option ℕ × ℕ)
pointer_of none = none
pointer_of (some r) = some (r.own.embedding_collection, r.own.active_generation)

abbrev pub pointer : ℕ → List Project → Option (Option ℕ × ℕ)
pointer k rows = pointer_of (get_project k rows)

abbrev pub served_from : ℕ → (ℕ → List Point) → Option (Option ℕ × ℕ) → List Point
served_from k stores none = []
served_from k stores (some (none, g)) = []
served_from k stores (some (some c, g)) = search_matches k g (stores c)

-- The points that a search in the project ranks.
abbrev pub served : ℕ → View → List Point
served k v = served_from k v.0 (pointer k v.1)

-- An edit of a row that moves neither the row nor its index.
abbrev pub KeepsIndex : (Project → Project) → Type 0
KeepsIndex f =
    (r : Project)
    → ((f r).id ≡ r.id)
      × ((f r).deleted_at ≡ r.deleted_at)
      × ((f r).own.active_generation ≡ r.own.active_generation)
      × ((f r).own.embedding_collection ≡ r.own.embedding_collection)

pointer-edited :
    (p : Project → Bool) (f : Project → Project) (o : Option Project)
    → KeepsIndex f
    → pointer_of (live (edited p f o)) ≡ pointer_of (live o)
pointer-edited p f none h = refl
pointer-edited p f (some r) h = elim (Bool-cases (p r)) [
  | inl on ↦ let (i, d, g, c) = h r in ground (arith, on, d, g, c)
  | inr off ↦ rw off refl
]

pub pointer-update_where :
    (k : ℕ) (p : Project → Bool) (f : Project → Project) (rows : List Project)
    → KeepsIndex f
    → pointer k (update_where p f rows).0 ≡ pointer k rows
pointer-update_where k p f rows h =
    ap (λ o. pointer_of (live o)) (find-update_where row_key p f k rows (λ r. (h r).0))
    ∙ pointer-edited p f (find row_key k rows) h

-- A step that keeps what holds of the world, whether it returns or raises.
abbrev pub Keeps {ℓ} : {A : Type ℓ} → (World → Type 0) → Step A → Type 0
Keeps P m = (w : World) → P w → P (m w).1

pub next-Keeps {ℓ κ} :
    {A : Type ℓ} {B : Type κ} (P : World → Type 0) (rest : A → Step B) (r : Outcome A × World)
    → ((a : A) → Keeps P (rest a))
    → P r.1
    → P (next rest r).1
next-Keeps P rest (broke e, w) k h = h
next-Keeps P rest (gave a, w) k h = k a w h

-- Every view so far was the one index or the other; the present one is `current`, at `spot`.
module _ (s : Services) (k : ℕ) (before after : List Point) where
  abbrev pub IsOne : List Point → Type 0
  IsOne points = (points ≡ before) ⊎ (points ≡ after)

  pub record Holds (spot : Option (Option ℕ × ℕ)) (current : List Point) (w : World) : Type 0 where
    pub is_one : IsOne current
    pub synced : w.session.rows ≡ w.session.committed
    pub pointed : pointer k w.session.committed ≡ spot
    pub unique : HasKeys row_key w.session.committed
    pub keyed : All (IsKeyed s.uuid5) (w.stores s.collection)
    pub serves : served_from k w.stores spot ≡ current
    pub past : All (λ v. IsOne (served k v)) w.seen

  pub Holds-view :
      (spot : Option (Option ℕ × ℕ)) (current : List Point) (w : World)
      → Holds spot current w
      → IsOne (served k (view w))
  Holds-view spot current w h =
      subst IsOne (sym (ap (served_from k w.stores) h.pointed ∙ h.serves)) h.is_one

  -- A commit of rows that name the same index.
  pub Holds-commit :
      (spot : Option (Option ℕ × ℕ)) (current : List Point) (x : ProjectSession) (w : World)
      → Holds spot current w
      → pointer k x.rows ≡ spot
      → HasKeys row_key x.rows
      → Holds spot current (commit_session x w)
  unfolding commit
  Holds-commit spot current x w h e u =
      let seen : IsOne (served k (w.stores, x.rows)) =
        subst IsOne (sym (ap (served_from k w.stores) e ∙ h.serves)) h.is_one in
      record {
        is_one = h.is_one;
        synced = refl;
        pointed = e;
        unique = u;
        keyed = h.keyed;
        serves = h.serves;
        past = (seen, h.past);
      }

  write-served :
      (f : List Point → List Point) (spot : Option (Option ℕ × ℕ)) (stores : ℕ → List Point)
      → ((g : ℕ)
          → spot ≡ some (some s.collection, g)
          → search_matches k g (f (stores s.collection)) ≡ search_matches k g (stores s.collection))
      → served_from k (λ j. if j == s.collection then f (stores j) else stores j) spot
        ≡ served_from k stores spot
  write-served f none stores h = refl
  write-served f (some (none, g)) stores h = refl
  write-served f (some (some j, g)) stores h = elim (Bool-cases (j == s.collection)) [
    | inl here ↦
        let e : j ≡ s.collection = (==_iff j s.collection).0 here in
        let moved : search_matches k g (f (stores j)) ≡ search_matches k g (stores j) =
          ap (λ i. search_matches k g (f (stores i))) e
          ∙ h g (ap (λ i. some (some i, g)) e)
          ∙ ap (λ i. search_matches k g (stores i)) (sym e) in
        subst
          (λ b.
            search_matches k g (if b then f (stores j) else stores j)
            ≡ search_matches k g (stores j))
          (sym here) moved
    | inr away ↦
        subst
          (λ b.
            search_matches k g (if b then f (stores j) else stores j)
            ≡ search_matches k g (stores j))
          (sym away) refl
  ]

  -- A write to the collection that no search at the present spot sees.
  pub Holds-write :
      (f : List Point → List Point) (spot : Option (Option ℕ × ℕ)) (current : List Point)
      (w : World)
      → Holds spot current w
      → ((g : ℕ)
          → spot ≡ some (some s.collection, g)
          → search_matches k g (f (w.stores s.collection))
            ≡ search_matches k g (w.stores s.collection))
      → All (IsKeyed s.uuid5) (f (w.stores s.collection))
      → Holds spot current (write_store s.collection f w)
  Holds-write f spot current w h same keyed =
      let stores = λ (j : ℕ). if j == s.collection then f (w.stores j) else w.stores j in
      let serves = write-served f spot w.stores same ∙ h.serves in
      let seen : IsOne (served k (stores, w.session.committed)) =
        subst IsOne (sym (ap (served_from k stores) h.pointed ∙ serves)) h.is_one in
      let own : (if s.collection == s.collection
            then f (w.stores s.collection)
            else w.stores s.collection)
          ≡ f (w.stores s.collection) =
        rw (==_refl s.collection) refl in
      record {
        is_one = h.is_one;
        synced = h.synced;
        pointed = h.pointed;
        unique = h.unique;
        keyed = subst (All (IsKeyed s.uuid5)) (sym own) keyed;
        serves = serves;
        past = (seen, h.past);
      }
