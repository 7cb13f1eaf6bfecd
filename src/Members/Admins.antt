-- ===== src/Members/Admins.antt =====
-- The instance keeps a live administrator.
use mathlib.Core.Path.{subst}
use ask_repo.Prelude.{
  ℕ, ◌≤◌, ◌≡◌, refl, sym, ◌⊎◌, inl, inr, Bool, true, false, not, ◌&&◌, Option, none, some, List, [],
  ◌∷◌, arith, All, All-each, ◌==◌, Bool-cases, Option-cases,
}
use ask_repo.Table.{HasKeys, update_where}
use ask_repo.Access.{ok}
use ask_repo.Members.{
  Db, User, count_active_admins, count_where, deactivate, get_user, guard_last_admin, update_user,
  with_admin, any_row, count_live_owners, is_live_owner, is_live_user, is_other,
}
use ask_repo.Members.Counting.{count_where_mono, count_where-update}
use ask_repo.Members.Found.{first_row-only}
use ask_repo.Members.Effects.{deactivate-updates}
use ask_repo.Members.Owners.{count_where-spared, HasOwner}

abbrev pub is_live_admin : User → Bool
is_live_admin u = not u.deleted && u.is_admin

abbrev pub HasAdmin : Db → Type 0
HasAdmin db = 1 ≤ count_where is_live_admin db.users

-- A guarded write to one account.
guarded-kept :
    (u : User) (f : User → User) (db : Db)
    → HasKeys (λ v. v.id) db.users
    → All (λ v. v.id ≡ u.id → v ≡ u) db.users
    → guard_last_admin u db ≡ ok tt
    → HasAdmin db
    → 1 ≤ count_where is_live_admin (update_where (λ v. v.id == u.id) f db.users).0
unfolding guard_last_admin count_active_admins
guarded-kept u f db keys only guarded admin = elim (Bool-cases u.is_admin) [
  | inl is ↦
      let kept =
        count_where-update (λ v. not v.deleted && (v.is_admin && not (v.id == u.id)))
          (λ v. v.id == u.id) f db.users (All-each db.users (λ v hit counted. ground arith)) in
      let mono =
        count_where_mono (λ v. not v.deleted && (v.is_admin && not (v.id == u.id))) is_live_admin
          (update_where (λ v. v.id == u.id) f db.users).0 (λ v h. ground arith) in
      let left : 1
          ≤ count_where (λ v. not v.deleted && (v.is_admin && not (v.id == u.id))) db.users =
        ground arith in
      omega (arith, kept, mono, left)
  | inr plain ↦
      let spared = count_where-spared (λ v. v.id) is_live_admin u f db.users only (ground arith) in
      omega (arith, spared, admin)
]

pub update_user-updates :
    (user_id : ℕ) (flag : Option Bool) (db db' : Db)
    → update_user user_id flag db ≡ ok db'
    → (u : User) × (get_user user_id db ≡ some u)
      × ((guard_last_admin u db ≡ ok tt)
          ⊎ ((v : User) → is_live_admin v ≡ true → is_live_admin (with_admin flag v) ≡ true))
      × (db'
          ≡ record db { users = (update_where (λ v. v.id == u.id) (with_admin flag) db.users).0 })
unfolding update_user
update_user-updates user_id none db db' h = elim (Option-cases (get_user user_id db)) [
  | inl missing ↦ ground arith
  | inr (u, found) ↦ (u, found, inr (λ v l. l), ground arith)
]
update_user-updates user_id (some true) db db' h = elim (Option-cases (get_user user_id db)) [
  | inl missing ↦ ground arith
  | inr (u, found) ↦ (u, found, inr (λ v l. ground arith), ground arith)
]
update_user-updates user_id (some false) db db' h = elim (Option-cases (get_user user_id db)) [
  | inl missing ↦ ground arith
  | inr (u, found) ↦ (u, found, inl (ground arith), ground arith)
]

pub deactivate-HasAdmin :
    (user_id : ℕ) (db db' : Db)
    → HasKeys (λ v. v.id) db.users
    → deactivate user_id db ≡ ok db'
    → HasAdmin db
    → HasAdmin db'
unfolding get_user
deactivate-HasAdmin user_id db db' keys h admin =
    let (u, found, guarded, none_alone, e) = deactivate-updates user_id db db' h in
    subst HasAdmin (sym e) (
      guarded-kept u (λ v. record v { deleted = true }) db keys
        (first_row-only _ (λ v. v.id) db.users u keys found) guarded admin)

pub update_user-HasAdmin :
    (user_id : ℕ) (flag : Option Bool) (db db' : Db)
    → HasKeys (λ v. v.id) db.users
    → update_user user_id flag db ≡ ok db'
    → HasAdmin db
    → HasAdmin db'
unfolding get_user
update_user-HasAdmin user_id flag db db' keys h admin =
    let (u, found, safe, e) = update_user-updates user_id flag db db' h in
    subst HasAdmin (sym e) (elim safe [
      | inl guarded ↦
          guarded-kept u (with_admin flag) db keys
            (first_row-only _ (λ v. v.id) db.users u keys found) guarded admin
      | inr spares ↦
          let kept =
            count_where-update is_live_admin (λ v. v.id == u.id) (with_admin flag) db.users
              (All-each db.users (λ v hit l. spares v l)) in
          omega (arith, kept, admin)
    ])

-- The flag is not read by the joins.
is_live_user-with_admin :
    (flag : Option Bool) (id k : ℕ) (us : List User)
    → is_live_user (update_where (λ v. v.id == id) (with_admin flag) us).0 k ≡ is_live_user us k
unfolding is_live_user any_row update_where
is_live_user-with_admin flag id k [] = refl
is_live_user-with_admin none id k (u ∷ us) = ground (arith, is_live_user-with_admin none id k us)
is_live_user-with_admin (some b) id k (u ∷ us) =
    ground (arith, is_live_user-with_admin (some b) id k us)

pub update_user-kept :
    (user_id : ℕ) (flag : Option Bool) (db db' : Db)
    → update_user user_id flag db ≡ ok db'
    → (j : ℕ) → HasOwner j db
    → HasOwner j db'
unfolding count_live_owners is_live_owner
update_user-kept user_id flag db db' h j owned =
    let (u, found, safe, e) = update_user-updates user_id flag db db' h in
    let users' = (update_where (λ v. v.id == u.id) (with_admin flag) db.users).0 in
    let mono =
      count_where_mono (λ r. is_live_owner db.roles db.users j r && is_other none r)
        (λ r. is_live_owner db.roles users' j r && is_other none r) db.memberships
        (λ r h. ground (arith, h, is_live_user-with_admin flag u.id r.user_id db.users)) in
    subst (HasOwner j) (sym e) (omega (arith, mono, owned))
