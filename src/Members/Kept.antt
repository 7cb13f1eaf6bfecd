-- ===== src/Members/Kept.antt =====
-- Each operation keeps an owner on every project that has one.
use ask_repo.Members.Counting.{count_where_mono}
use mathlib.Core.Path.{subst}
use ask_repo.Prelude.{
  ℕ, ◌≤◌, ◌≡◌, sym, inl, inr, Bool, true, not, ◌&&◌, none, some, List, [], ◌∷◌, ◌++◌, arith, ◌==◌,
  Bool-cases,
}
use ask_repo.Table.{HasKeys, update_where}
use ask_repo.Access.{AuthenticatedUser, ok}
use ask_repo.Members.{
  Db, Role, change_role, count_live_owners, count_where, deactivate, get_for, get_role_by_name,
  get_user, grant, is_live_owner, is_other, is_owner_role, owner_name, projects_solely_owned_by,
  revoke, is_empty,
}
use ask_repo.Members.Found.{any_row-first_row, first_row-found, first_row-only}
use ask_repo.Members.Effects.{
  change_role-save, deactivate-updates, found_for, grant-appends, others_left, revoke-save,
}
use ask_repo.Members.Owners.{HasOwner, save-others, save-owner, is_live_user-update, owned-alone}

pub revoke-kept :
    (k user_id : ℕ) (actor : AuthenticatedUser) (db db' : Db)
    → HasKeys (λ m. m.id) db.memberships
    → revoke k user_id actor db ≡ ok db'
    → (j : ℕ) → HasOwner j db
    → HasOwner j db'
unfolding get_for
revoke-kept k user_id actor db db' keys h j owned =
    let (m, found, left, e) = revoke-save k user_id actor db db' h in
    let kept =
      save-others db m (λ r. record r { deleted = true }) user_id k j
        (first_row-only _ (λ r. r.id) db.memberships m keys found) (found_for user_id k db m found)
        (others_left k user_id db left) owned in
    subst (HasOwner j) e kept

-- A live role that is named owner is one for the joins.
owner_role-named :
    (role_name : ℕ) (db : Db) (role : Role)
    → get_role_by_name role_name db ≡ some role
    → (role.name == owner_name) ≡ true
    → is_owner_role db.roles role.id ≡ true
unfolding get_role_by_name is_owner_role
owner_role-named role_name db role named owner =
    let live = first_row-found _ db.roles role named in
    any_row-first_row _ (λ r. r.id == role.id && (r.name == owner_name && not r.deleted)) db.roles
      role named (ground (arith, live, owner))

pub change_role-kept :
    (k user_id role_name : ℕ) (actor : AuthenticatedUser) (db db' : Db)
    → HasKeys (λ m. m.id) db.memberships
    → change_role k user_id role_name actor db ≡ ok db'
    → (j : ℕ) → HasOwner j db
    → HasOwner j db'
unfolding get_for is_live_owner
change_role-kept k user_id role_name actor db db' keys h j owned =
    let (m, role, found, named, safe, e) = change_role-save k user_id role_name actor db db' h in
    subst (HasOwner j) e (elim safe [
      | inl owner ↦
          let live = owner_role-named role_name db role named owner in
          save-owner db m (λ r. record r { role_id = role.id }) j
            (λ r owns. ground (arith, owns, live)) owned
      | inr left ↦
          save-others db m (λ r. record r { role_id = role.id }) user_id k j
            (first_row-only _ (λ r. r.id) db.memberships m keys found)
            (found_for user_id k db m found) (others_left k user_id db left) owned
    ])

count_where-append :
    {R : Type 0} (p : R → Bool) (rs ss : List R) → count_where p rs ≤ count_where p (rs ++ ss)
unfolding count_where
count_where-append p [] ss = omega arith
count_where-append p (r ∷ rs) ss = omega (arith, count_where-append p rs ss)

pub grant-kept :
    (k user_id role_name new_id : ℕ) (actor : AuthenticatedUser) (db db' : Db)
    → grant k user_id role_name new_id actor db ≡ ok db'
    → (j : ℕ) → HasOwner j db
    → HasOwner j db'
unfolding count_live_owners
grant-kept k user_id role_name new_id actor db db' h j owned =
    let (m, named, e) = grant-appends k user_id role_name new_id actor db db' h in
    let more =
      count_where-append (λ r. is_live_owner db.roles db.users j r && is_other none r)
        db.memberships (m ∷ []) in
    subst (HasOwner j) (sym e) (omega (arith, more, owned))

owned_by_others :
    (user_id j : ℕ) (db : Db)
    → is_empty (projects_solely_owned_by user_id db) ≡ true
    → HasOwner j db
    → 1 ≤ count_live_owners j (some user_id) db
unfolding count_live_owners projects_solely_owned_by
owned_by_others user_id j db empty owned =
    elim (Bool-cases (count_live_owners j (some user_id) db == 0)) [
      | inl none_left ↦
          ground (arith, owned-alone db user_id j db.memberships owned, none_left, empty)
      | inr more ↦ ground (arith, more)
    ]

-- The owners who are not the user are owners after the user is gone.
owners_left :
    (user_id id j : ℕ) (db : Db)
    → id ≡ user_id
    → 1 ≤ count_live_owners j (some user_id) db
    → HasOwner j (record db {
      users = (update_where (λ v. v.id == id) (λ v. record v { deleted = true }) db.users).0;
    })
unfolding count_live_owners is_live_owner
owners_left user_id id j db same others =
    let users' = (update_where (λ v. v.id == id) (λ v. record v { deleted = true }) db.users).0 in
    let mono =
      count_where_mono (λ r. is_live_owner db.roles db.users j r && is_other (some user_id) r)
        (λ r. is_live_owner db.roles users' j r && is_other none r) db.memberships
        (λ r h. ground (arith, h, is_live_user-update db.users id r.user_id)) in
    omega (arith, mono, others)

pub deactivate-kept :
    (user_id : ℕ) (db db' : Db)
    → deactivate user_id db ≡ ok db'
    → (j : ℕ) → HasOwner j db
    → HasOwner j db'
unfolding get_user
deactivate-kept user_id db db' h j owned =
    let (u, found, guarded, none_alone, e) = deactivate-updates user_id db db' h in
    let same : u.id ≡ user_id = ground (arith, first_row-found _ db.users u found) in
    subst (HasOwner j) (sym e)
      (owners_left user_id u.id j db same (owned_by_others user_id j db none_alone owned))
