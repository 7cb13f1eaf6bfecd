-- ===== src/Members/Effects.antt =====
-- What an operation that ended well has found, checked and written.
use ask_repo.Prelude.{
  ℕ, ◌≤◌, ◌≡◌, refl, ◌⊎◌, inl, inr, true, false, some, [], ◌∷◌, ◌++◌, arith, ◌==◌, Option-cases,
}
use ask_repo.Table.{update_where}
use ask_repo.Access.{AuthenticatedUser, ok}
use ask_repo.Members.{
  Db, Membership, Role, User, change_role, count_live_owners, deactivate, get_for, get_role_by_name,
  get_user, grant, guard_last_admin, is_empty, owner_name, projects_solely_owned_by,
  refuse_if_last_owner, revoke, save,
}
use ask_repo.Members.Found.{first_row-found}

-- What `get_for` found, by its key.
pub found_for :
    (user_id k : ℕ) (db : Db) (m : Membership)
    → get_for user_id k db ≡ some m
    → (m.user_id ≡ user_id) × (m.project_id ≡ k)
unfolding get_for
found_for user_id k db m h = ground (arith, first_row-found _ db.memberships m h)

pub others_left :
    (k user_id : ℕ) (db : Db)
    → refuse_if_last_owner k user_id db ≡ ok tt
    → 1 ≤ count_live_owners k (some user_id) db
unfolding refuse_if_last_owner
others_left k user_id db h = ground arith

pub revoke-save :
    (k user_id : ℕ) (actor : AuthenticatedUser) (db db' : Db)
    → revoke k user_id actor db ≡ ok db'
    → (m : Membership) × (get_for user_id k db ≡ some m)
      × (refuse_if_last_owner k user_id db ≡ ok tt)
      × (save m.id (λ r. record r { deleted = true }) db ≡ db')
unfolding revoke
revoke-save k user_id actor db db' h = elim (Option-cases (get_for user_id k db)) [
  | inl missing ↦ ground arith
  | inr (m, found) ↦ (m, found, ground arith, ground arith)
]

pub change_role-save :
    (k user_id role_name : ℕ) (actor : AuthenticatedUser) (db db' : Db)
    → change_role k user_id role_name actor db ≡ ok db'
    → (m : Membership) × (role : Role) × (get_for user_id k db ≡ some m)
      × (get_role_by_name role_name db ≡ some role)
      × (((role.name == owner_name) ≡ true) ⊎ (refuse_if_last_owner k user_id db ≡ ok tt))
      × (save m.id (λ r. record r { role_id = role.id }) db ≡ db')
unfolding change_role
change_role-save k user_id role_name actor db db' h = elim (Option-cases (get_for user_id k db)) [
  | inl missing ↦ ground arith
  | inr (m, found) ↦ elim (Option-cases (get_role_by_name role_name db)) [
    | inl missing ↦ ground arith
    | inr (role, named) ↦ (m, role, found, named, ground arith, ground arith)
  ]
]

pub grant-appends :
    (k user_id role_name new_id : ℕ) (actor : AuthenticatedUser) (db db' : Db)
    → grant k user_id role_name new_id actor db ≡ ok db'
    → (m : Membership) × (m.id ≡ new_id)
      × (db' ≡ record db { memberships = db.memberships ++ m ∷ [] })
unfolding grant
grant-appends k user_id role_name new_id actor db db' h =
    elim (Option-cases (get_role_by_name role_name db)) [
      | inl missing ↦ ground arith
      | inr (role, named) ↦ elim (Option-cases (get_user user_id db)) [
        | inl missing ↦ ground arith
        | inr (user, found) ↦
            let m : Membership = record {
              id = new_id;
              user_id = user.id;
              project_id = k;
              role_id = role.id;
              deleted = false;
            } in
            (m, refl, ground arith)
      ]
    ]

pub deactivate-updates :
    (user_id : ℕ) (db db' : Db)
    → deactivate user_id db ≡ ok db'
    → (u : User) × (get_user user_id db ≡ some u)
      × (guard_last_admin u db ≡ ok tt)
      × (is_empty (projects_solely_owned_by user_id db) ≡ true)
      × (db' ≡ record db {
        users = (update_where (λ v. v.id == u.id) (λ v. record v { deleted = true }) db.users).0;
      })
unfolding deactivate
deactivate-updates user_id db db' h = elim (Option-cases (get_user user_id db)) [
  | inl missing ↦ ground arith
  | inr (u, found) ↦ (u, found, ground arith, ground arith, ground arith)
]
