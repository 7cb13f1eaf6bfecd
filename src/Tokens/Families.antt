-- ===== src/Tokens/Families.antt =====
-- A family that was revoked stays revoked.
use ask_repo.Members.Found.{All-first_row}
use ask_repo.Jobs.Lease.{seconds}
use ask_repo.Prelude.{
  ℕ, ◌+◌, ◌≡◌, refl, ◌≢◌, inl, inr, Bool, false, ◌&&◌, Option, none, some, List, [], ◌∷◌, ◌++◌,
  arith, All, ltb, leb, ◌==◌, is_none, Bool-cases,
}
use ask_repo.Table.{update_where}
use ask_repo.Tokens.{
  RefreshToken, RevokedReason, Store, issue, revoke_family, revoked, Settings, mark_used,
  refresh_token, revoke_one, rotated, Exchange, get_by_hash, by_logout, logout, refresh,
  refresh_unused, refresh_used, replay, user_deactivated, Request, changes_password, load_token,
  logout_loaded, logs_in, logs_out, logs_out_everywhere, password_change, refresh_loaded, refreshes,
  revoke_all_for_user, serve, serve_all, by_logout_all, waits,
}

abbrev pub IsDead : ℕ → RefreshToken → Type 0
IsDead f t = t.family_id ≡ f → is_none t.revoked_at ≡ false

-- No token of the family is unrevoked.
abbrev pub FamilyDead : ℕ → Store → Type 0
FamilyDead f s = All (IsDead f) s.tokens

All-updated :
    {R : Type 0} (P : R → Type 0) (p : R → Bool) (g : R → R) (rs : List R)
    → ((r : R) → P r → P (g r))
    → All P rs
    → All P (update_where p g rs).0
unfolding update_where
All-updated P p g [] h a = tt
All-updated P p g (r ∷ rs) h a = elim (Bool-cases (p r)) [
  | inl hit ↦ rw hit (h r a.0, All-updated P p g rs h a.1)
  | inr miss ↦ rw miss (a.0, All-updated P p g rs h a.1)
]

-- After the statement, whatever was there before.
revoked_rows :
    (f now : ℕ) (reason : RevokedReason) (ts : List RefreshToken)
    → All
        (IsDead f)
        (update_where (λ t. t.family_id == f && is_none t.revoked_at) (revoked reason now) ts).0
unfolding update_where
revoked_rows f now reason [] = tt
revoked_rows f now reason (t ∷ ts) = elim (Bool-cases (t.family_id == f && is_none t.revoked_at)) [
  | inl hit ↦ rw hit ((λ same. refl), revoked_rows f now reason ts)
  | inr miss ↦ rw miss ((λ same. ground (arith, same, miss)), revoked_rows f now reason ts)
]

pub revoke_family-FamilyDead :
    (f : ℕ) (reason : RevokedReason) (s : Store) → FamilyDead f (revoke_family f reason s)
unfolding revoke_family
revoke_family-FamilyDead f reason s = revoked_rows f s.clock reason s.tokens

revoking-FamilyDead :
    (f : ℕ) (p : RefreshToken → Bool) (reason : RevokedReason) (now : ℕ) (ts : List RefreshToken)
    → All (IsDead f) ts
    → All (IsDead f) (update_where p (revoked reason now) ts).0
revoking-FamilyDead f p reason now ts dead =
    All-updated (IsDead f) p (revoked reason now) ts (λ t d same. refl) dead

All-then :
    (P : RefreshToken → Type 0) (ts : List RefreshToken) (t : RefreshToken)
    → All P ts
    → P t
    → All P (ts ++ t ∷ [])
All-then P [] t a p = (p, tt)
All-then P (u ∷ ts) t a p = (a.0, All-then P ts t a.1 p)

issue-FamilyDead :
    (f user_id g expires_at new_id new_hash : ℕ) (s : Store)
    → g ≢ f
    → FamilyDead f s
    → FamilyDead f (issue user_id g expires_at new_id new_hash s).1
unfolding issue
issue-FamilyDead f user_id g expires_at new_id new_hash s other dead =
    All-then (IsDead f) s.tokens _ dead (λ same. absurd (other same))

mark_used-FamilyDead :
    (f : ℕ) (t : RefreshToken) (s : Store) → FamilyDead f s → FamilyDead f (mark_used t s)
unfolding mark_used
mark_used-FamilyDead f t s dead =
    All-updated (IsDead f) _
      (λ u. record u { used_at = some s.clock; revoked_reason = some rotated }) s.tokens (λ u d. d)
      dead

revoke_one-FamilyDead :
    (f : ℕ) (t : RefreshToken) (reason : RevokedReason) (s : Store)
    → FamilyDead f s
    → FamilyDead f (revoke_one t reason s)
unfolding revoke_one
revoke_one-FamilyDead f t reason s dead = elim (Bool-cases (is_none t.revoked_at)) [
  | inl live ↦ rw live (revoking-FamilyDead f _ reason s.clock s.tokens dead)
  | inr gone ↦ rw gone dead
]

module _ (settings : Settings) (is_live : ℕ → Bool) where
  revoke_family_kept :
      (f g : ℕ) (reason : RevokedReason) (s : Store)
      → FamilyDead f s
      → FamilyDead f (revoke_family g reason s)
  unfolding revoke_family
  revoke_family_kept f g reason s dead = revoking-FamilyDead f _ reason s.clock s.tokens dead

  -- A token of another family.
  used_kept :
      (f new_id new_hash u : ℕ) (t : RefreshToken) (s : Store)
      → t.family_id ≢ f
      → FamilyDead f s
      → FamilyDead f (refresh_used settings is_live new_id new_hash t u s).1
  unfolding refresh_used
  used_kept f new_id new_hash u t s other dead =
      elim (Bool-cases (ltb (u + seconds settings.grace_seconds) s.clock)) [
        | inl late ↦ rw late (revoke_family_kept f t.family_id replay s dead)
        | inr raced ↦ rw raced (elim (Bool-cases (is_live t.user_id)) [
          | inl live ↦
              rw live
                (issue-FamilyDead f t.user_id t.family_id t.expires_at new_id new_hash s other dead)
          | inr gone ↦ rw gone (revoke_family_kept f t.family_id user_deactivated s dead)
        ])
      ]

  unused_kept :
      (f new_id new_hash : ℕ) (t : RefreshToken) (s : Store)
      → t.family_id ≢ f
      → FamilyDead f s
      → FamilyDead f (refresh_unused settings is_live new_id new_hash t s).1
  unfolding refresh_unused
  unused_kept f new_id new_hash t s other dead = elim (Bool-cases (is_live t.user_id)) [
    | inl live ↦ rw live (
        issue-FamilyDead f t.user_id t.family_id (s.clock + seconds settings.ttl_seconds) new_id
          new_hash (mark_used t s) other (mark_used-FamilyDead f t s dead))
    | inr gone ↦ rw gone (revoke_family_kept f t.family_id user_deactivated s dead)
  ]

  open_kept :
      (f new_id new_hash : ℕ) (t : RefreshToken) (o : Option ℕ) (s : Store)
      → t.family_id ≢ f
      → FamilyDead f s
      → FamilyDead f
          (elim o as (λ o. Exchange × Store) [
            | some u ↦ refresh_used settings is_live new_id new_hash t u s
            | none ↦ refresh_unused settings is_live new_id new_hash t s
          ]).1
  open_kept f new_id new_hash t none s other dead = unused_kept f new_id new_hash t s other dead
  open_kept f new_id new_hash t (some u) s other dead = used_kept f new_id new_hash u t s other dead

  refresh_token-FamilyDead :
      (f new_id new_hash : ℕ) (t : RefreshToken) (s : Store)
      → IsDead f t
      → FamilyDead f s
      → FamilyDead f (refresh_token settings is_live new_id new_hash t s).1
  unfolding refresh_token
  refresh_token-FamilyDead f new_id new_hash t s mine dead =
      elim (Bool-cases (leb t.expires_at s.clock)) [
        | inl stale ↦ rw stale dead
        | inr fresh ↦ rw fresh (elim (Bool-cases (is_none t.revoked_at)) [
          | inr gone ↦ rw gone (revoke_family_kept f t.family_id replay s dead)
          | inl open_token ↦ rw open_token (
              open_kept f new_id new_hash t t.used_at s
                (λ same. ground (arith, mine same, open_token)) dead)
        ])
      ]

  pub loaded-IsDead :
      (f : ℕ) (presented : Option ℕ) (s : Store) (t : RefreshToken)
      → FamilyDead f s
      → load_token presented s ≡ some t
      → IsDead f t
  unfolding load_token get_by_hash
  loaded-IsDead f none s t dead e = cc
  loaded-IsDead f (some h) s t dead e = All-first_row _ (IsDead f) s.tokens t dead e

  refresh_loaded-FamilyDead :
      (f new_id new_hash : ℕ) (o : Option RefreshToken) (s : Store)
      → FamilyDead f s
      → ((t : RefreshToken) → o ≡ some t → IsDead f t)
      → FamilyDead f (refresh_loaded settings is_live new_id new_hash o s).1
  unfolding refresh_loaded
  refresh_loaded-FamilyDead f new_id new_hash none s dead mine = dead
  refresh_loaded-FamilyDead f new_id new_hash (some t) s dead mine =
      refresh_token-FamilyDead f new_id new_hash t s (mine t refl) dead

  logout_loaded-FamilyDead :
      (f : ℕ) (o : Option RefreshToken) (s : Store)
      → FamilyDead f s
      → FamilyDead f (logout_loaded o s)
  unfolding logout_loaded
  logout_loaded-FamilyDead f none s dead = dead
  logout_loaded-FamilyDead f (some t) s dead = revoke_one-FamilyDead f t by_logout s dead

  -- A login opens another family.
  abbrev pub IsForeign : ℕ → Request → Type 0
  IsForeign f (logs_in user_id g new_id new_hash) = g ≢ f
  IsForeign f _ = Unit {0}

  serve-FamilyDead :
      (f : ℕ) (r : Request) (s : Store)
      → IsForeign f r
      → FamilyDead f s
      → FamilyDead f (serve settings is_live r s)
  unfolding serve refresh logout revoke_all_for_user
  serve-FamilyDead f (logs_in user_id g new_id new_hash) s other dead =
      issue-FamilyDead f user_id g (s.clock + seconds settings.ttl_seconds) new_id new_hash s other
        dead
  serve-FamilyDead f (refreshes new_id new_hash presented) s other dead =
      refresh_loaded-FamilyDead f new_id new_hash (load_token presented s) s dead
        (λ t. loaded-IsDead f presented s t dead)
  serve-FamilyDead f (logs_out presented) s other dead =
      logout_loaded-FamilyDead f (load_token presented s) s dead
  serve-FamilyDead f (logs_out_everywhere user_id) s other dead =
      revoking-FamilyDead f _ by_logout_all s.clock s.tokens dead
  serve-FamilyDead f (changes_password user_id session_id) s other dead =
      revoking-FamilyDead f _ password_change s.clock s.tokens dead
  serve-FamilyDead f (waits d) s other dead = dead

  pub serve_all-FamilyDead :
      (f : ℕ) (rs : List Request) (s : Store)
      → All (IsForeign f) rs
      → FamilyDead f s
      → FamilyDead f (serve_all settings is_live rs s)
  unfolding serve_all
  serve_all-FamilyDead f [] s others dead = dead
  serve_all-FamilyDead f (r ∷ rs) s others dead =
      serve_all-FamilyDead f rs (serve settings is_live r s) others.1
        (serve-FamilyDead f r s others.0 dead)
