-- ===== src/Tokens.antt =====
-- backend/app/services/auth.py and backend/app/repositories/refresh_token.py: the refresh tokens of a
-- sign-in. A sign-in is a family of tokens, each exchanged for the next. A raw token is its digest, a
-- number; the digest and the id of a new token are arguments, and so is the test whether an account is
-- live. One reading of the clock stands for the readings of one call. Access tokens, audit entries and
-- the device columns are not modelled.
mod Examples
pub mod Families
pub mod Replay
pub mod Logout
use ask_repo.Prelude.{
  ℕ, ◌+◌, Bool, not, ◌&&◌, Option, none, some, List, [], ◌∷◌, ◌++◌, ltb, leb, ◌==◌, if◌then◌else◌,
  is_none, is_some_eq,
}
use ask_repo.Table.{first_row, update_where}
use ask_repo.Jobs.Lease.{seconds}

pub data RevokedReason : Type 0 where
  rotated replay by_logout by_logout_all password_change admin_reset user_deactivated password_reset
        user_revoked :
      RevokedReason

pub record RefreshToken : Type 0 where
  pub id : ℕ
  pub user_id : ℕ
  pub family_id : ℕ
  pub token_hash : ℕ
  pub issued_at : ℕ
  pub expires_at : ℕ
  pub used_at : Option ℕ
  pub revoked_at : Option ℕ
  pub revoked_reason : Option RevokedReason

pub record Settings : Type 0 where
  pub ttl_seconds : ℕ
  pub grace_seconds : ℕ

pub record Store : Type 0 where
  pub clock : ℕ
  pub tokens : List RefreshToken

pub data TokenError : Type 0 where
  invalid_token token_expired refresh_token_reused : TokenError

-- The digest of the token that was issued, or the error.
pub data Exchange : Type 0 where
  issued : ℕ → Exchange
  denied : TokenError → Exchange

unfoldable pub get_by_hash : ℕ → Store → Option RefreshToken
get_by_hash token_hash s = first_row (λ t. t.token_hash == token_hash) s.tokens

unfoldable pub mark_used : RefreshToken → Store → Store
mark_used token s = record s {
  tokens =
      (update_where (λ t. t.id == token.id)
        (λ t. record t { used_at = some s.clock; revoked_reason = some rotated }) s.tokens).0;
}

abbrev pub revoked : RevokedReason → ℕ → RefreshToken → RefreshToken
revoked reason now t = record t { revoked_at = some now; revoked_reason = some reason }

unfoldable pub revoke_one : RefreshToken → RevokedReason → Store → Store
revoke_one token reason s =
    if is_none token.revoked_at
    then record s {
      tokens = (update_where (λ t. t.id == token.id) (revoked reason s.clock) s.tokens).0;
    }
    else s

unfoldable pub revoke_family : ℕ → RevokedReason → Store → Store
revoke_family family_id reason s = record s {
  tokens =
      (update_where (λ t. t.family_id == family_id && is_none t.revoked_at) (revoked reason s.clock)
        s.tokens).0;
}

unfoldable pub revoke_all_for_user : ℕ → RevokedReason → Option ℕ → Store → Store
revoke_all_for_user user_id reason except_family_id s = record s {
  tokens =
      (update_where
        (λ t.
          t.user_id == user_id
          && (is_none t.revoked_at && not (is_some_eq except_family_id t.family_id)))
        (revoked reason s.clock) s.tokens).0;
}

-- `_issue`, for a family and an expiry.
unfoldable pub issue : ℕ → ℕ → ℕ → ℕ → ℕ → Store → Exchange × Store
issue user_id family_id expires_at new_id new_hash s = (
  issued new_hash,
  record s {
    tokens =
        s.tokens
        ++ record {
          id = new_id;
          user_id = user_id;
          family_id = family_id;
          token_hash = new_hash;
          issued_at = s.clock;
          expires_at = expires_at;
          used_at = none;
          revoked_at = none;
          revoked_reason = none;
        }
          ∷ [];
  },
)

-- A token that was exchanged before: within the grace window two tabs raced.
unfoldable pub refresh_used :
    Settings → (ℕ → Bool) → ℕ → ℕ → RefreshToken → ℕ → Store → Exchange × Store
refresh_used settings is_live new_id new_hash token used_at s =
    if ltb (used_at + seconds settings.grace_seconds) s.clock
    then (denied refresh_token_reused, revoke_family token.family_id replay s)
    else if is_live token.user_id
    then issue token.user_id token.family_id token.expires_at new_id new_hash s
    else (denied invalid_token, revoke_family token.family_id user_deactivated s)

unfoldable pub refresh_unused :
    Settings → (ℕ → Bool) → ℕ → ℕ → RefreshToken → Store → Exchange × Store
refresh_unused settings is_live new_id new_hash token s =
    if is_live token.user_id
    then issue token.user_id token.family_id (s.clock + seconds settings.ttl_seconds) new_id
        new_hash (mark_used token s)
    else (denied invalid_token, revoke_family token.family_id user_deactivated s)

unfoldable pub refresh_token :
    Settings → (ℕ → Bool) → ℕ → ℕ → RefreshToken → Store → Exchange × Store
refresh_token settings is_live new_id new_hash token s =
    if leb token.expires_at s.clock
    then (denied token_expired, s)
    else if not (is_none token.revoked_at)
    then (denied refresh_token_reused, revoke_family token.family_id replay s)
    else elim token.used_at [
      | some used_at ↦ refresh_used settings is_live new_id new_hash token used_at s
      | none ↦ refresh_unused settings is_live new_id new_hash token s
    ]

-- `_load_token`: `none` is a request without the cookie.
unfoldable pub load_token : Option ℕ → Store → Option RefreshToken
load_token none s = none
load_token (some token_hash) s = get_by_hash token_hash s

unfoldable pub refresh_loaded :
    Settings → (ℕ → Bool) → ℕ → ℕ → Option RefreshToken → Store → Exchange × Store
refresh_loaded settings is_live new_id new_hash none s = (denied invalid_token, s)
refresh_loaded settings is_live new_id new_hash (some token) s =
    refresh_token settings is_live new_id new_hash token s

unfoldable pub refresh : Settings → (ℕ → Bool) → ℕ → ℕ → Option ℕ → Store → Exchange × Store
refresh settings is_live new_id new_hash presented s =
    refresh_loaded settings is_live new_id new_hash (load_token presented s) s

unfoldable pub logout_loaded : Option RefreshToken → Store → Store
logout_loaded none s = s
logout_loaded (some token) s = revoke_one token by_logout s

unfoldable pub logout : Option ℕ → Store → Store
logout presented s = logout_loaded (load_token presented s) s

-- The requests of this service that write tokens, and the time between them. A login and a change of
-- password have checked the password.
pub data Request : Type 0 where
  logs_in : ℕ → ℕ → ℕ → ℕ → Request
  refreshes : ℕ → ℕ → Option ℕ → Request
  logs_out : Option ℕ → Request
  logs_out_everywhere : ℕ → Request
  changes_password : ℕ → Option ℕ → Request
  waits : ℕ → Request

unfoldable pub serve : Settings → (ℕ → Bool) → Request → Store → Store
serve settings is_live (logs_in user_id family_id new_id new_hash) s =
    (issue user_id family_id (s.clock + seconds settings.ttl_seconds) new_id new_hash s).1
serve settings is_live (refreshes new_id new_hash presented) s =
    (refresh settings is_live new_id new_hash presented s).1
serve settings is_live (logs_out presented) s = logout presented s
serve settings is_live (logs_out_everywhere user_id) s =
    revoke_all_for_user user_id by_logout_all none s
serve settings is_live (changes_password user_id session_id) s =
    revoke_all_for_user user_id password_change session_id s
serve settings is_live (waits d) s = record s { clock = s.clock + d }

unfoldable pub serve_all : Settings → (ℕ → Bool) → List Request → Store → Store
serve_all settings is_live [] s = s
serve_all settings is_live (r ∷ rs) s = serve_all settings is_live rs (serve settings is_live r s)
