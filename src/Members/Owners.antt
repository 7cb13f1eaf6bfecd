-- ===== src/Members/Owners.antt =====
-- No operation strands a project, or the instance.
use ask_repo.Prelude.{
  ℕ, ◌≤◌, ◌≡◌, refl, sym, ap, inl, inr, Bool, true, false, not, ◌&&◌, none, some, List, [], ◌∷◌,
  map, arith, All, All-map, All-each, ◌==◌, ==_iff, Bool-cases,
}
use ask_repo.Table.{update_where, select_where}
use mathlib.Core.Path.{subst}
use ask_repo.Members.{
  Db, Membership, count_live_owners, count_where, is_live_owner, is_other, save, User, any_row,
  is_empty, is_live_user, is_owner_role,
}
use ask_repo.Members.Counting.{count_where_mono, count_where-update}

abbrev pub HasOwner : ℕ → Db → Type 0
HasOwner k db = 1 ≤ count_live_owners k none db

-- A write to a row that is not counted.
pub count_where-spared :
    {R : Type 0} (key : R → ℕ) (p : R → Bool) (m : R) (f : R → R) (rs : List R)
    → All (λ r. key r ≡ key m → r ≡ m) rs
    → p m ≡ false
    → count_where p rs ≤ count_where p (update_where (λ r. key r == key m) f rs).0
count_where-spared key p m f rs only spared =
    count_where-update p (λ r. key r == key m) f rs
      (All-map rs
        (λ r same hit counted.
          let e : r ≡ m = same ((==_iff (key r) (key m)).0 hit) in let l : p r ≡ p m = ap p e in cc)
        only)

live_owner-other :
    (db : Db) (user_id j : ℕ) (rs : List Membership)
    → count_where (λ r. is_live_owner db.roles db.users j r && is_other (some user_id) r) rs
      ≤ count_where (λ r. is_live_owner db.roles db.users j r && is_other none r) rs
live_owner-other db user_id j rs = count_where_mono _ _ rs (λ r h. ground (arith, h))

-- A write to one membership, of a user on a project that keeps another live owner.
pub save-others :
    (db : Db) (m : Membership) (f : Membership → Membership) (user_id k j : ℕ)
    → All (λ r. r.id ≡ m.id → r ≡ m) db.memberships
    → (m.user_id ≡ user_id) × (m.project_id ≡ k)
    → 1 ≤ count_live_owners k (some user_id) db
    → HasOwner j db
    → HasOwner j (save m.id f db)
unfolding count_live_owners save is_live_owner
save-others db m f user_id k j only is_m others owned = elim (Bool-cases (j == k)) [
  | inl hit ↦
      let spared =
        count_where-spared (λ r. r.id)
          (λ r. is_live_owner db.roles db.users j r && is_other (some user_id) r) m f db.memberships
          only (ground (arith, is_m)) in
      let mono = live_owner-other db user_id j (save m.id f db).memberships in
      let e : j ≡ k = (==_iff j k).0 hit in
      let others' = subst (λ i. 1 ≤ count_live_owners i (some user_id) db) (sym e) others in
      omega (arith, spared, mono, others')
  | inr miss ↦
      let spared =
        count_where-spared (λ r. r.id) (λ r. is_live_owner db.roles db.users j r && is_other none r)
          m f db.memberships only (ground (arith, is_m)) in
      omega (arith, spared, owned)
]

-- A write that leaves a live owner one.
pub save-owner :
    (db : Db) (m : Membership) (f : Membership → Membership) (j : ℕ)
    → ((r : Membership)
        → is_live_owner db.roles db.users j r ≡ true
        → is_live_owner db.roles db.users j (f r) ≡ true)
    → HasOwner j db
    → HasOwner j (save m.id f db)
unfolding count_live_owners save
save-owner db m f j h owned =
    let kept =
      count_where-update (λ r. is_live_owner db.roles db.users j r && is_other none r)
        (λ r. r.id == m.id) f db.memberships
        (All-each db.memberships (λ r hit counted. ground (arith, h r))) in
    omega (arith, kept, owned)

-- The projects of the owner rows of a user, when the user owns a project alone.
pub owned-alone :
    (db : Db) (user_id j : ℕ) (rs : List Membership)
    → 1 ≤ count_where (λ r. is_live_owner db.roles db.users j r && is_other none r) rs
    → count_where (λ r. is_live_owner db.roles db.users j r && is_other (some user_id) r) rs ≡ 0
    → (count_live_owners j (some user_id) db == 0) ≡ true
    → is_empty (
        select_where
          (λ k. count_live_owners k (some user_id) db == 0)
          (map
            (λ m. m.project_id)
            (select_where
              (λ m. m.user_id == user_id && (not m.deleted && is_owner_role db.roles m.role_id))
              rs)))
      ≡ false
unfolding count_where select_where is_live_owner
owned-alone db user_id j [] c e z = let absurd : ⊥ = omega (arith, c) in elim absurd [ ]
owned-alone db user_id j (r ∷ rs) c e z = elim (Bool-cases (r.project_id == j)) [
  | inl hit ↦
      let same : j ≡ r.project_id = sym ((==_iff r.project_id j).0 hit) in
      let z' = subst (λ i. (count_live_owners i (some user_id) db == 0) ≡ true) same z in
      ground (arith, z', owned-alone db user_id j rs)
  | inr miss ↦ ground (arith, owned-alone db user_id j rs)
]

-- Nobody else is touched by a deactivation.
pub is_live_user-update :
    (us : List User) (user_id k : ℕ)
    → (k == user_id) ≡ false
    → is_live_user (update_where (λ u. u.id == user_id) (λ u. record u { deleted = true }) us).0 k
      ≡ is_live_user us k
unfolding is_live_user any_row update_where
is_live_user-update [] user_id k ne = refl
is_live_user-update (u ∷ us) user_id k ne = ground (arith, is_live_user-update us user_id k ne)
