-- ===== src/ChangeSets/Pending.antt =====
-- The check before a decision, before and after one.
use ask_repo.Members.Found.{first_row-found, unit-ok}
use ask_repo.Access.Permissions.{Permission}
use mathlib.Core.Path.{subst}
use ask_repo.Prelude.{
  ℕ, ◌≡◌, refl, sym, ap, ◌∙◌, ◌⊎◌, inl, inr, Bool, true, false, ◌&&◌, Option, none, some, List, [],
  ◌∷◌, arith, ◌==◌, is_none,
}
use ask_repo.Table.{first_row, update_where}
use ask_repo.Access.{
  AuthenticatedUser, Call, ErrorCode, ProjectScope, ok, raised, resolve_project_scope, ◌>>=◌,
  in_scope, require_permission, ◌>>◌,
}
use ask_repo.ChangeSets.{
  ChangeSet, Module, Store, check_pending, get_change_set, get_in_scope, is_pending,
  require_pending, check_scope, ChangeSetStatus, decided, resolve, with_pending,
}

-- A lookup after an update whose rows it would have found anyway.
pub first_row-updated :
    {R : Type 0} (p q : R → Bool) (f : R → R) (rs : List R) (r : R)
    → ((r : R) → p (f r) ≡ p r)
    → ((r : R) → p r ≡ true → q r ≡ true)
    → first_row p rs ≡ some r
    → first_row p (update_where q f rs).0 ≡ some (f r)
unfolding first_row update_where
first_row-updated p q f [] r same hits h = cc
first_row-updated p q f (s ∷ rs) r same hits h =
    ground (arith, same s, hits s, first_row-updated p q f rs r same hits)

-- A call that ended in one of the two errors of the check.
abbrev pub IsRefused {ℓ} : {A : Type ℓ} → ErrorCode → ErrorCode → Call A → Type ℓ
IsRefused not_found resolved call = (call ≡ raised not_found) ⊎ (call ≡ raised resolved)

module _ {Raw : Type 0} (not_found resolved : ErrorCode) where
  scoped-ok :
      (d c : ChangeSet Raw) (o : Option Module) (m : Module)
      → check_scope not_found resolved d o ≡ ok (c, m)
      → (d ≡ c) × (o ≡ some m) × (is_pending d.status ≡ true)
  scoped-ok d c none m h = cc
  scoped-ok d c (some n) m h = ground arith

  scoped-IsRefused :
      (c : ChangeSet Raw) (o : Option Module)
      → is_pending c.status ≡ false
      → IsRefused not_found resolved (check_scope not_found resolved c o)
  scoped-IsRefused c none h = inl refl
  scoped-IsRefused c (some m) h = inr (rw h)

module _ {Raw Item : Type 0} (not_found resolved : ErrorCode) (k : ℕ) (s : Store Raw Item) where
  checked-ok :
      (o : Option (ChangeSet Raw)) (scope : ProjectScope) (c : ChangeSet Raw) (m : Module)
      → check_pending not_found resolved scope s o ≡ ok (c, m)
      → (o ≡ some c) × (get_in_scope c.module_id scope s ≡ some m) × (is_pending c.status ≡ true)
  checked-ok none scope c m h = cc
  checked-ok (some d) scope c m h =
      let (e, at, waiting) =
        scoped-ok not_found resolved d c (get_in_scope d.module_id scope s) m h in
      (
        ap (λ c. some c) e,
        ap (λ c. get_in_scope c.module_id scope s) (sym e) ∙ at,
        ap (λ c. is_pending c.status) (sym e) ∙ waiting,
      )

  pub require_pending-ok :
      (actor : AuthenticatedUser) (c : ChangeSet Raw) (m : Module)
      → require_pending not_found resolved k actor s ≡ ok (c, m)
      → (get_change_set k s ≡ some c)
        × (get_in_scope c.module_id (resolve_project_scope actor) s ≡ some m)
        × (is_pending c.status ≡ true)
  unfolding require_pending
  require_pending-ok actor c m h =
      checked-ok (get_change_set k s) (resolve_project_scope actor) c m h

  -- Nobody passes the check of a change set that is not pending.
  pub require_pending-IsRefused :
      (actor : AuthenticatedUser) (c : ChangeSet Raw)
      → get_change_set k s ≡ some c
      → is_pending c.status ≡ false
      → IsRefused not_found resolved (require_pending not_found resolved k actor s)
  unfolding require_pending
  require_pending-IsRefused actor c e h =
      subst
        (λ o.
          IsRefused not_found resolved
            (check_pending not_found resolved (resolve_project_scope actor) s o))
        (sym e) (scoped-IsRefused not_found resolved c _ h)

-- An error of the check is an error of what comes after it.
pub IsRefused-then {ℓ κ} :
    {A : Type ℓ} {B : Type κ} (e f : ErrorCode) (call : Call A) (rest : A → Call B)
    → IsRefused e f call
    → IsRefused e f (call >>= rest)
IsRefused-then e f call rest (inl h) = inl (ap (λ c. c >>= rest) h)
IsRefused-then e f call rest (inr h) = inr (ap (λ c. c >>= rest) h)

module _ {Raw Item : Type 0} (s : Store Raw Item) (t : Store Raw Item) where
  -- A decision leaves the change set resolved.
  pub get_change_set-resolve :
      (status : ChangeSetStatus) (k actor_id : ℕ) (c : ChangeSet Raw)
      → get_change_set k s ≡ some c
      → t.change_sets ≡ (resolve status c.id actor_id s).change_sets
      → get_change_set k t ≡ some (decided status actor_id s.clock c)
  unfolding get_change_set resolve
  get_change_set-resolve status k actor_id c h e =
      let here : (c.id == k && is_none c.deleted_at) ≡ true =
        first_row-found (λ c. c.id == k && is_none c.deleted_at) s.change_sets c h in
      let own : c.id ≡ k = ground arith in
      ap (first_row (λ c. c.id == k && is_none c.deleted_at)) e
      ∙ first_row-updated (λ c. c.id == k && is_none c.deleted_at) (λ r. r.id == c.id)
          (decided status actor_id s.clock) s.change_sets c (λ r. refl)
          (λ r hit. ground (arith, own, hit)) h

  -- The module of a scope is the one that was asked for.
  pub get_in_scope-id :
      (k : ℕ) (scope : ProjectScope) (m : Module) → get_in_scope k scope s ≡ some m → m.id ≡ k
  unfolding get_in_scope
  get_in_scope-id k scope m h =
      let here : (is_none m.deleted_at && in_scope scope m.project_id && m.id == k) ≡ true =
        first_row-found _ s.modules m h in
      ground arith

module _ {Raw : Type 0} where
  with_pending-checked :
      {A : Type 0} (call : Call (ChangeSet Raw × Module)) (actor : AuthenticatedUser)
      (body : ChangeSet Raw → Module → A) (a : A)
      → (call >>= λ p.
          require_permission actor p.1.project_id Permission.changeset_apply >> ok (body p.0 p.1))
        ≡ ok a
      → (c : ChangeSet Raw) × (m : Module) × (call ≡ ok (c, m)) × (a ≡ body c m)
  with_pending-checked (raised e) actor body a h = cc
  with_pending-checked (ok (c, m)) actor body a h =
      let (allowed, end) = unit-ok (require_permission actor m.project_id _) h in
      (c, m, refl, cc end)

module _ {Raw Item : Type 0} (not_found resolved : ErrorCode) where
  -- A decision that returned has found a pending change set, and its module.
  pub with_pending-ok :
      {A : Type 0} (body : ChangeSet Raw → Module → A) (k : ℕ) (actor : AuthenticatedUser)
      (s : Store Raw Item) (a : A)
      → with_pending not_found resolved body k actor s ≡ ok a
      → (c : ChangeSet Raw) × (m : Module) × (get_change_set k s ≡ some c)
        × (get_in_scope c.module_id (resolve_project_scope actor) s ≡ some m)
        × (a ≡ body c m)
  unfolding with_pending
  with_pending-ok body k actor s a h =
      let (c, m, found, e) =
        with_pending-checked (require_pending not_found resolved k actor s) actor body a h in
      let (here, scoped, waiting) = require_pending-ok not_found resolved k s actor c m found in
      (c, m, here, scoped, e)

  pub with_pending-IsRefused :
      {A : Type 0} (body : ChangeSet Raw → Module → A) (k : ℕ) (actor : AuthenticatedUser)
      (s : Store Raw Item) (c : ChangeSet Raw)
      → get_change_set k s ≡ some c
      → is_pending c.status ≡ false
      → IsRefused not_found resolved (with_pending not_found resolved body k actor s)
  unfolding with_pending
  with_pending-IsRefused body k actor s c at h =
      IsRefused-then not_found resolved (require_pending not_found resolved k actor s) _
        (require_pending-IsRefused not_found resolved k s actor c at h)
