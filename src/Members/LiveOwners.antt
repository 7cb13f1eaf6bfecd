-- ===== src/Members/LiveOwners.antt =====
-- Who can act on a project, and on the instance, told by the rows and not by the counts of the services.
use ask_repo.Members.Owners.{HasOwner}
use ask_repo.Members.Admins.{is_live_admin, HasAdmin}
use ask_repo.Members.{
  Membership, owner_name, User, count_where, Db, Role, any_row, count_live_owners, is_live_owner,
  is_live_user, is_other, is_owner_role,
}
use ask_repo.Prelude.{
  ℕ, ◌+◌, ◌≤◌, ◌≡◌, refl, ◌↔◌, ◌⊎◌, inl, inr, Bool, true, false, not, ◌&&◌, ◌||◌, none, List, [],
  ◌∷◌, arith, ◌==◌, if◌then◌else◌, ==_iff,
}

abbrev pub Any : {R : Type 0} → (R → Type 0) → List R → Type 0
Any P [] = ⊥
Any P (r ∷ rs) = P r ⊎ Any P rs

abbrev IsOwnerRole : ℕ → Role → Type 0
IsOwnerRole k r = (r.id ≡ k) × (r.name ≡ owner_name) × (r.deleted ≡ false)

abbrev IsLiveUser : ℕ → User → Type 0
IsLiveUser k u = (u.id ≡ k) × (u.deleted ≡ false)

abbrev IsLiveOwner : Db → ℕ → Membership → Type 0
IsLiveOwner db j m =
    (m.project_id ≡ j)
    × (m.deleted ≡ false)
    × Any (IsOwnerRole m.role_id) db.roles
    × Any (IsLiveUser m.user_id) db.users

-- A membership on the project that is not deleted, of the owner's role, of an account that is not
-- deleted.
abbrev pub HasLiveOwner : ℕ → Db → Type 0
HasLiveOwner j db = Any (IsLiveOwner db j) db.memberships

-- An administrator's account that is not deleted.
abbrev pub HasLiveAdmin : Db → Type 0
HasLiveAdmin db = Any (λ u. (u.is_admin ≡ true) × (u.deleted ≡ false)) db.users

or_cases : (a b : Bool) → (a || b) ≡ true → (a ≡ true) ⊎ (b ≡ true)
or_cases true b h = inl refl
or_cases false b h = inr h

one_cases : (a : Bool) (n : ℕ) → 1 ≤ (if a then 1 else 0) + n → (a ≡ true) ⊎ (1 ≤ n)
one_cases true n h = inl refl
one_cases false n h = inr (omega (arith, h))

any_row-Any :
    {R : Type 0} (p : R → Bool) (P : R → Type 0) (rs : List R)
    → ((r : R) → (p r ≡ true) ↔ P r)
    → (any_row p rs ≡ true) ↔ Any P rs
unfolding any_row
any_row-Any p P [] h = (λ e. cc e, λ e. elim e [ ])
any_row-Any p P (r ∷ rs) h =
    let rest = any_row-Any p P rs h in
    (
      λ e. elim (or_cases (p r) (any_row p rs) e) [
        | inl here ↦ inl ((h r).0 here)
        | inr later ↦ inr (rest.0 later)
      ],
      λ e. elim e [
        | inl here ↦ let at : p r ≡ true = (h r).1 here in ground arith
        | inr later ↦ let at : any_row p rs ≡ true = rest.1 later in ground arith
      ],
    )

count_where-Any :
    {R : Type 0} (p : R → Bool) (P : R → Type 0) (rs : List R)
    → ((r : R) → (p r ≡ true) ↔ P r)
    → (1 ≤ count_where p rs) ↔ Any P rs
unfolding count_where
count_where-Any p P [] h = (λ e. absurd (omega (arith, e)), λ e. elim e [ ])
count_where-Any p P (r ∷ rs) h =
    let rest = count_where-Any p P rs h in
    (
      λ e. elim (one_cases (p r) (count_where p rs) e) [
        | inl here ↦ inl ((h r).0 here)
        | inr later ↦ inr (rest.0 later)
      ],
      λ e. elim e [
        | inl here ↦ let at : p r ≡ true = (h r).1 here in ground arith
        | inr later ↦ let at : 1 ≤ count_where p rs = rest.1 later in ground arith
      ],
    )

IsOwnerRole-iff :
    (k : ℕ) (r : Role)
    → ((r.id == k && (r.name == owner_name && not r.deleted)) ≡ true) ↔ IsOwnerRole k r
IsOwnerRole-iff k r = ground arith

IsLiveUser-iff : (k : ℕ) (u : User) → ((u.id == k && not u.deleted) ≡ true) ↔ IsLiveUser k u
IsLiveUser-iff k u = ground arith

live_admin_iff : (u : User) → (is_live_admin u ≡ true) ↔ ((u.is_admin ≡ true) × (u.deleted ≡ false))
live_admin_iff u = ground arith

four_tests :
    (a b c d : Bool)
    → (((a && (not b && (c && d))) && true) ≡ true)
      ↔ ((a ≡ true) × (b ≡ false) × (c ≡ true) × (d ≡ true))
four_tests a b c d =
    (λ e. (ground arith, ground arith, ground arith, ground arith), λ e. ground arith)

IsLiveOwner-iff :
    (db : Db) (j : ℕ) (m : Membership)
    → ((is_live_owner db.roles db.users j m && is_other none m) ≡ true) ↔ IsLiveOwner db j m
unfolding is_live_owner is_owner_role is_live_user
IsLiveOwner-iff db j m =
    let roles =
      any_row-Any (λ r. r.id == m.role_id && (r.name == owner_name && not r.deleted))
        (IsOwnerRole m.role_id) db.roles (IsOwnerRole-iff m.role_id) in
    let users =
      any_row-Any (λ u. u.id == m.user_id && not u.deleted) (IsLiveUser m.user_id) db.users
        (IsLiveUser-iff m.user_id) in
    let owner_role =
      any_row (λ r. r.id == m.role_id && (r.name == owner_name && not r.deleted)) db.roles in
    let live_user = any_row (λ u. u.id == m.user_id && not u.deleted) db.users in
    let tests = four_tests (m.project_id == j) m.deleted owner_role live_user in
    (
      λ e.
          let (on_project, live, role, user) = tests.0 e in
          ((==_iff m.project_id j).0 on_project, live, roles.0 role, users.0 user),
      λ h. tests.1 ((==_iff m.project_id j).1 h.0, h.1, roles.1 h.2, users.1 h.3),
    )

pub HasOwner-iff : (j : ℕ) (db : Db) → HasOwner j db ↔ HasLiveOwner j db
unfolding count_live_owners
HasOwner-iff j db =
    count_where-Any (λ m. is_live_owner db.roles db.users j m && is_other none m) (IsLiveOwner db j)
      db.memberships (IsLiveOwner-iff db j)

pub HasAdmin-iff : (db : Db) → HasAdmin db ↔ HasLiveAdmin db
HasAdmin-iff db =
    count_where-Any is_live_admin (λ u. (u.is_admin ≡ true) × (u.deleted ≡ false)) db.users
      live_admin_iff
