-- ===== src/Members/Runs.antt =====
-- Any sequence of operations, by any actors.
use ask_repo.Members.LiveOwners.{HasAdmin-iff, HasOwner-iff, HasLiveAdmin, HasLiveOwner}
use mathlib.Core.Path.{subst}
use ask_repo.Prelude.{
  ℕ, ◌≡◌, refl, sym, ◌≢◌, Bool, Option, none, some, List, [], ◌∷◌, ◌++◌, All, ◌==◌,
}
use ask_repo.Table.{HasKeys, update_where}
use ask_repo.Table.Laws.{update_where-HasKeys}
use ask_repo.Access.{AuthenticatedUser, ok}
use ask_repo.Members.{
  Db, Membership, User, change_role, deactivate, grant, revoke, save, update_user, with_admin,
}
use ask_repo.Members.Effects.{change_role-save, deactivate-updates, grant-appends, revoke-save}
use ask_repo.Members.Owners.{HasOwner}
use ask_repo.Members.Kept.{change_role-kept, deactivate-kept, grant-kept, revoke-kept}
use ask_repo.Members.Admins.{
  HasAdmin, deactivate-HasAdmin, update_user-HasAdmin, update_user-kept, update_user-updates,
}

-- The primary keys of the two tables that are written.
abbrev pub IsKeyed : Db → Type 0
IsKeyed db = HasKeys (λ m. m.id) db.memberships × HasKeys (λ u. u.id) db.users

-- One operation that ended well. An id from `uuid4` is the id of no row.
pub data Operated : Db → Db → Type 0 where
  by_grant :
      (k user_id role_name new_id : ℕ) (actor : AuthenticatedUser) (db db' : Db)
      → All (λ m. m.id ≢ new_id) db.memberships
      → grant k user_id role_name new_id actor db ≡ ok db'
      → Operated db db'
  by_change_role :
      (k user_id role_name : ℕ) (actor : AuthenticatedUser) (db db' : Db)
      → change_role k user_id role_name actor db ≡ ok db'
      → Operated db db'
  by_revoke :
      (k user_id : ℕ) (actor : AuthenticatedUser) (db db' : Db)
      → revoke k user_id actor db ≡ ok db'
      → Operated db db'
  by_deactivate : (user_id : ℕ) (db db' : Db) → deactivate user_id db ≡ ok db' → Operated db db'
  by_update :
      (user_id : ℕ) (flag : Option Bool) (db db' : Db)
      → update_user user_id flag db ≡ ok db'
      → Operated db db'

pub data Run : Db → Db → Type 0 where
  done : (db : Db) → Run db db
  next : (db db' db'' : Db) → Operated db db' → Run db' db'' → Run db db''

All-append :
    {R : Type 0} (P : R → Type 0) (rs : List R) (m : R) → All P rs → P m → All P (rs ++ m ∷ [])
All-append P [] m a p = (p, tt)
All-append P (r ∷ rs) m a p = (a.0, All-append P rs m a.1 p)

append-HasKeys :
    {R : Type 0} (key : R → ℕ) (rs : List R) (m : R)
    → HasKeys key rs
    → All (λ r. key r ≢ key m) rs
    → HasKeys key (rs ++ m ∷ [])
append-HasKeys key [] m k a = (tt, tt)
append-HasKeys key (r ∷ rs) m k a =
    (All-append _ rs m k.0 (λ e. a.0 (sym e)), append-HasKeys key rs m k.1 a.1)

save-IsKeyed :
    (id : ℕ) (f : Membership → Membership) (db : Db)
    → ((m : Membership) → (f m).id ≡ m.id)
    → IsKeyed db
    → IsKeyed (save id f db)
unfolding save
save-IsKeyed id f db e keyed =
    (update_where-HasKeys (λ m. m.id) (λ m. m.id == id) f db.memberships e keyed.0, keyed.1)

account-IsKeyed :
    (id : ℕ) (f : User → User) (db : Db)
    → ((u : User) → (f u).id ≡ u.id)
    → IsKeyed db
    → IsKeyed (record db { users = (update_where (λ u. u.id == id) f db.users).0 })
account-IsKeyed id f db e keyed =
    (keyed.0, update_where-HasKeys (λ u. u.id) (λ u. u.id == id) f db.users e keyed.1)

with_admin-id : (flag : Option Bool) (u : User) → (with_admin flag u).id ≡ u.id
with_admin-id none u = refl
with_admin-id (some b) u = refl

Operated-IsKeyed : (db db' : Db) → Operated db db' → IsKeyed db → IsKeyed db'
Operated-IsKeyed _ _ (by_grant k user_id role_name new_id actor db db' fresh h) keyed =
    let (m, named, e) = grant-appends k user_id role_name new_id actor db db' h in
    subst IsKeyed (sym e) (
      append-HasKeys (λ r. r.id) db.memberships m keyed.0
          (subst (λ i. All (λ r. r.id ≢ i) db.memberships) (sym named) fresh),
      keyed.1,
    )
Operated-IsKeyed _ _ (by_change_role k user_id role_name actor db db' h) keyed =
    let (m, role, found, named, safe, e) = change_role-save k user_id role_name actor db db' h in
    subst IsKeyed e (save-IsKeyed m.id _ db (λ r. refl) keyed)
Operated-IsKeyed _ _ (by_revoke k user_id actor db db' h) keyed =
    let (m, found, left, e) = revoke-save k user_id actor db db' h in
    subst IsKeyed e (save-IsKeyed m.id _ db (λ r. refl) keyed)
Operated-IsKeyed _ _ (by_deactivate user_id db db' h) keyed =
    let (u, found, guarded, none_alone, e) = deactivate-updates user_id db db' h in
    subst IsKeyed (sym e) (account-IsKeyed u.id _ db (λ v. refl) keyed)
Operated-IsKeyed _ _ (by_update user_id flag db db' h) keyed =
    let (u, found, safe, e) = update_user-updates user_id flag db db' h in
    subst IsKeyed (sym e) (account-IsKeyed u.id _ db (with_admin-id flag) keyed)

Operated-HasOwner :
    (db db' : Db) → Operated db db' → IsKeyed db → (j : ℕ) → HasOwner j db → HasOwner j db'
Operated-HasOwner _ _ (by_grant k user_id role_name new_id actor db db' fresh h) keyed =
    grant-kept k user_id role_name new_id actor db db' h
Operated-HasOwner _ _ (by_change_role k user_id role_name actor db db' h) keyed =
    change_role-kept k user_id role_name actor db db' keyed.0 h
Operated-HasOwner _ _ (by_revoke k user_id actor db db' h) keyed =
    revoke-kept k user_id actor db db' keyed.0 h
Operated-HasOwner _ _ (by_deactivate user_id db db' h) keyed = deactivate-kept user_id db db' h
Operated-HasOwner _ _ (by_update user_id flag db db' h) keyed =
    update_user-kept user_id flag db db' h

save-HasAdmin :
    (id : ℕ) (f : Membership → Membership) (db : Db) → HasAdmin db → HasAdmin (save id f db)
unfolding save
save-HasAdmin id f db admin = admin

Operated-HasAdmin : (db db' : Db) → Operated db db' → IsKeyed db → HasAdmin db → HasAdmin db'
Operated-HasAdmin _ _ (by_grant k user_id role_name new_id actor db db' fresh h) keyed admin =
    let (m, named, e) = grant-appends k user_id role_name new_id actor db db' h in
    subst HasAdmin (sym e) admin
Operated-HasAdmin _ _ (by_change_role k user_id role_name actor db db' h) keyed admin =
    let (m, role, found, named, safe, e) = change_role-save k user_id role_name actor db db' h in
    subst HasAdmin e (save-HasAdmin m.id _ db admin)
Operated-HasAdmin _ _ (by_revoke k user_id actor db db' h) keyed admin =
    let (m, found, left, e) = revoke-save k user_id actor db db' h in
    subst HasAdmin e (save-HasAdmin m.id _ db admin)
Operated-HasAdmin _ _ (by_deactivate user_id db db' h) keyed admin =
    deactivate-HasAdmin user_id db db' keyed.1 h admin
Operated-HasAdmin _ _ (by_update user_id flag db db' h) keyed admin =
    update_user-HasAdmin user_id flag db db' keyed.1 h admin

-- In the counts of the services.
counts_kept :
    (db db' : Db)
    → Run db db'
    → IsKeyed db
    → ((j : ℕ) → HasOwner j db → HasOwner j db') × (HasAdmin db → HasAdmin db')
counts_kept _ _ (done db) keyed = ((λ j owned. owned), (λ admin. admin))
counts_kept _ _ (next db db' db'' step run) keyed =
    let rest = counts_kept db' db'' run (Operated-IsKeyed db db' step keyed) in
    (
      λ j owned. rest.0 j (Operated-HasOwner db db' step keyed j owned),
      λ admin. rest.1 (Operated-HasAdmin db db' step keyed admin),
    )

-- Whatever memberships are granted, changed and revoked, and whatever accounts are deactivated, promoted
-- and demoted, by operations that end well, each with a fresh id where it inserts a row: a project that
-- has a live owner keeps at least one, and an instance that has a live administrator keeps at least one.
-- A live owner is a membership with the owner's role whose account is not deleted either.
pub owners_and_admins_kept :
    (db db' : Db)
    → Run db db'
    → IsKeyed db
    → ((j : ℕ) → HasLiveOwner j db → HasLiveOwner j db') × (HasLiveAdmin db → HasLiveAdmin db')
owners_and_admins_kept db db' run keyed =
    let kept = counts_kept db db' run keyed in
    (
      λ j owned. (HasOwner-iff j db').0 (kept.0 j ((HasOwner-iff j db).1 owned)),
      λ admin. (HasAdmin-iff db').0 (kept.1 ((HasAdmin-iff db).1 admin)),
    )
