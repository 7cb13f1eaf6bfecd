-- ===== src/Members.antt =====
-- backend/app/services/membership.py and the deactivation of backend/app/services/user.py: who holds
-- which role on which project. Rows keep the columns that these operations read or write. A row has at
-- most one role and one user by their primary keys, so the joins of the queries are tests on a row.
-- Notifications, the grant cache and the audit trail are not modelled, nor is the database's refusal of a
-- second live row for one user and project.
pub mod Counting
mod Examples
pub mod Effects
pub mod Found
pub mod Kept
pub mod Owners
pub mod Admins
pub mod LiveOwners
pub mod Runs
use ask_repo.Prelude.{
  ℕ, ◌+◌, Bool, true, false, not, ◌&&◌, ◌||◌, Option, none, some, List, [], ◌∷◌, ◌++◌, map, ◌==◌,
  if◌then◌else◌, is_none,
}
use ask_repo.Table.{first_row, update_where, select_where}
use ask_repo.Access.{
  AuthenticatedUser, ErrorCode, Call, ensure, raised, last_admin, last_owner, membership_exists,
  membership_not_found, ok, require_permission, role_not_found, user_not_found, ◌>>=◌, ◌>>◌,
}
use ask_repo.Access.Permissions.{membership_grant, membership_revoke}

pub record Membership : Type 0 where
  pub id : ℕ
  pub user_id : ℕ
  pub project_id : ℕ
  pub role_id : ℕ
  pub deleted : Bool

pub record Role : Type 0 where
  pub id : ℕ
  pub name : ℕ
  pub deleted : Bool

pub record User : Type 0 where
  pub id : ℕ
  pub is_admin : Bool
  pub deleted : Bool

pub record Db : Type 0 where
  pub memberships : List Membership
  pub roles : List Role
  pub users : List User

abbrev pub owner_name : ℕ
owner_name = 0

unfoldable pub any_row : {R : Type 0} → (R → Bool) → List R → Bool
any_row p [] = false
any_row p (r ∷ rs) = p r || any_row p rs

unfoldable pub count_where : {R : Type 0} → (R → Bool) → List R → ℕ
count_where p [] = 0
count_where p (r ∷ rs) = (if p r then 1 else 0) + count_where p rs

-- The joins to `roles` and `users`.
unfoldable pub is_owner_role : List Role → ℕ → Bool
is_owner_role roles k = any_row (λ r. r.id == k && (r.name == owner_name && not r.deleted)) roles

unfoldable pub is_live_user : List User → ℕ → Bool
is_live_user users k = any_row (λ u. u.id == k && not u.deleted) users

unfoldable pub is_live_owner : List Role → List User → ℕ → Membership → Bool
is_live_owner roles users project_id m =
    m.project_id == project_id
    && (not m.deleted && (is_owner_role roles m.role_id && is_live_user users m.user_id))

abbrev pub is_other : Option ℕ → Membership → Bool
is_other none m = true
is_other (some user_id) m = not (m.user_id == user_id)

unfoldable pub count_live_owners : ℕ → Option ℕ → Db → ℕ
count_live_owners project_id excluding_user db =
    count_where (λ m. is_live_owner db.roles db.users project_id m && is_other excluding_user m)
      db.memberships

unfoldable pub get_for : ℕ → ℕ → Db → Option Membership
get_for user_id project_id db =
    first_row (λ m. not m.deleted && (m.user_id == user_id && m.project_id == project_id))
      db.memberships

unfoldable pub get_role_by_name : ℕ → Db → Option Role
get_role_by_name name db = first_row (λ r. not r.deleted && r.name == name) db.roles

unfoldable pub get_user : ℕ → Db → Option User
get_user user_id db = first_row (λ u. not u.deleted && u.id == user_id) db.users

abbrev pub or_raise {ℓ} : {A : Type ℓ} → Option A → ErrorCode → Call A
or_raise none e = raised e
or_raise (some a) e = ok a

unfoldable pub refuse_if_last_owner : ℕ → ℕ → Db → Call (Unit {0})
refuse_if_last_owner project_id user_id db =
    ensure (not (count_live_owners project_id (some user_id) db == 0)) last_owner

-- A write to a loaded row, by its primary key.
unfoldable pub save : ℕ → (Membership → Membership) → Db → Db
save id f db = record db { memberships = (update_where (λ m. m.id == id) f db.memberships).0 }

-- `new_id` is the fresh `uuid.uuid4()`.
unfoldable pub grant : ℕ → ℕ → ℕ → ℕ → AuthenticatedUser → Db → Call Db
grant project_id user_id role_name new_id actor db = do
  require_permission actor project_id membership_grant
  role ← or_raise (get_role_by_name role_name db) role_not_found
  user ← or_raise (get_user user_id db) user_not_found
  ensure (is_none (get_for user_id project_id db)) membership_exists
  ok (record db {
    memberships =
        db.memberships
        ++ record {
          id = new_id;
          user_id = user.id;
          project_id = project_id;
          role_id = role.id;
          deleted = false;
        }
          ∷ [];
  })

unfoldable pub change_role : ℕ → ℕ → ℕ → AuthenticatedUser → Db → Call Db
change_role project_id user_id role_name actor db = do
  require_permission actor project_id membership_grant
  membership ← or_raise (get_for user_id project_id db) membership_not_found
  role ← or_raise (get_role_by_name role_name db) role_not_found
  (if role.name == owner_name then ok tt else refuse_if_last_owner project_id user_id db)
  user ← or_raise (get_user user_id db) user_not_found
  ok (save membership.id (λ m. record m { role_id = role.id }) db)

unfoldable pub revoke : ℕ → ℕ → AuthenticatedUser → Db → Call Db
revoke project_id user_id actor db = do
  require_permission actor project_id membership_revoke
  membership ← or_raise (get_for user_id project_id db) membership_not_found
  refuse_if_last_owner project_id user_id db
  ok (save membership.id (λ m. record m { deleted = true }) db)

-- `UserRepository.count_active_admins`.
unfoldable pub count_active_admins : ℕ → Db → ℕ
count_active_admins excluding db =
    count_where (λ u. not u.deleted && (u.is_admin && not (u.id == excluding))) db.users

-- `if stranded: raise`.
abbrev pub is_empty : List ℕ → Bool
is_empty [] = true
is_empty (k ∷ ks) = false

unfoldable pub guard_last_admin : User → Db → Call (Unit {0})
guard_last_admin user db =
    if user.is_admin then ensure (not (count_active_admins user.id db == 0)) last_admin else ok tt

unfoldable pub projects_solely_owned_by : ℕ → Db → List ℕ
projects_solely_owned_by user_id db =
    let owned =
      select_where
        (λ m. m.user_id == user_id && (not m.deleted && is_owner_role db.roles m.role_id))
        db.memberships in
    select_where (λ k. count_live_owners k (some user_id) db == 0) (map (λ m. m.project_id) owned)

-- `UserService.soft_delete`, which revokes the tokens and drops the notes and conversations of the account
-- besides.
unfoldable pub deactivate : ℕ → Db → Call Db
deactivate user_id db = do
  user ← or_raise (get_user user_id db) user_not_found
  guard_last_admin user db
  ensure (is_empty (projects_solely_owned_by user_id db)) last_owner
  ok (record db {
    users = (update_where (λ u. u.id == user.id) (λ u. record u { deleted = true }) db.users).0;
  })

abbrev pub with_admin : Option Bool → User → User
with_admin none u = u
with_admin (some b) u = record u { is_admin = b }

-- `UserService.update`, without the name; `none` is a flag that the request leaves out.
unfoldable pub update_user : ℕ → Option Bool → Db → Call Db
update_user user_id is_admin db = do
  user ← or_raise (get_user user_id db) user_not_found
  elim is_admin [ none ↦ ok tt | some b ↦ if b then ok tt else guard_last_admin user db ]
  ok (record db { users = (update_where (λ u. u.id == user.id) (with_admin is_admin) db.users).0 })
