-- ===== src/PasswordReset.antt =====
-- backend/app/services/password_reset.py and backend/app/repositories/password_reset_token.py: the reset
-- of a password by a link. A link is the digest of its token, an email address its normal form, and a
-- password its hash, all numbers; the digest and the id of a new token are arguments. `hash_new` is
-- `validate_and_hash_new_password`, which may refuse. One reading of the clock stands for the readings of
-- one call. The email itself and the audit entries are not modelled.
mod Examples
pub mod Links
use ask_repo.Prelude.{
  ℕ, ◌+◌, Bool, false, not, ◌&&◌, Option, none, some, List, [], ◌∷◌, ◌++◌, ltb, ◌==◌, is_none,
}
use ask_repo.Table.{first_row, update_where}
use ask_repo.Access.{
  Call, ensure, ok, password_reset_token_invalid, password_reset_unavailable, raised, ◌>>=◌, ◌>>◌,
}
use ask_repo.Tokens.{revoke_all_for_user, password_reset}
use ask_repo.Tokens

pub record ResetToken : Type 0 where
  pub id : ℕ
  pub user_id : ℕ
  pub token_hash : ℕ
  pub created_at : ℕ
  pub expires_at : ℕ
  pub used_at : Option ℕ
  pub revoked_at : Option ℕ

pub record Account : Type 0 where
  pub id : ℕ
  pub email : ℕ
  pub password_hash : ℕ
  pub must_change_password : Bool
  pub updated_at : ℕ
  pub deleted : Bool

-- `sessions` are the refresh tokens, with the clock.
pub record Accounts : Type 0 where
  pub reset_tokens : List ResetToken
  pub accounts : List Account
  pub sessions : Tokens.Store

abbrev pub clock_of : Accounts → ℕ
clock_of s = s.sessions.clock

-- Unused, not revoked, and not expired.
abbrev pub is_live_token : ℕ → ResetToken → Bool
is_live_token now t = is_none t.used_at && (is_none t.revoked_at && ltb now t.expires_at)

unfoldable pub revoke_live_for_user : ℕ → Accounts → Accounts
revoke_live_for_user user_id s = record s {
  reset_tokens =
      (update_where (λ t. t.user_id == user_id && is_live_token (clock_of s) t)
        (λ t. record t { revoked_at = some (clock_of s) }) s.reset_tokens).0;
}

unfoldable pub get_usable_by_hash : ℕ → Accounts → Option ResetToken
get_usable_by_hash token_hash s =
    first_row (λ t. t.token_hash == token_hash && is_live_token (clock_of s) t) s.reset_tokens

unfoldable pub get_account_by_email : ℕ → Accounts → Option Account
get_account_by_email email s = first_row (λ u. not u.deleted && u.email == email) s.accounts

unfoldable pub get_account : ℕ → Accounts → Option Account
get_account user_id s = first_row (λ u. not u.deleted && u.id == user_id) s.accounts

abbrev pub new_token : ℕ → ℕ → ℕ → ℕ → ℕ → ResetToken
new_token new_id new_hash user_id now ttl = record {
  id = new_id;
  user_id = user_id;
  token_hash = new_hash;
  created_at = now;
  expires_at = now + ttl;
  used_at = none;
  revoked_at = none;
}

-- An unknown address gets no link, and the same answer.
abbrev pub request_for : ℕ → ℕ → ℕ → Option Account → Accounts → Option ℕ × Accounts
request_for ttl new_id new_hash none s = (none, s)
request_for ttl new_id new_hash (some user) s =
    let t = revoke_live_for_user user.id s in
    (
      some new_hash,
      record t {
        reset_tokens = t.reset_tokens ++ new_token new_id new_hash user.id (clock_of s) ttl ∷ [];
      },
    )

-- `request`: the digest of the link to send, if any.
unfoldable pub request_reset : Bool → ℕ → ℕ → ℕ → ℕ → Accounts → Call (Option ℕ × Accounts)
unfolding get_account_by_email revoke_live_for_user
request_reset mail_enabled ttl new_id new_hash email s = do
  ensure mail_enabled password_reset_unavailable
  ok (request_for ttl new_id new_hash (get_account_by_email email s) s)

-- The new password, the spent link, and the end of every session.
unfoldable pub reset_password : ResetToken → Account → ℕ → Accounts → Accounts
reset_password token user password_hash s = record {
  reset_tokens =
      (update_where (λ t. t.id == token.id) (λ t. record t { used_at = some (clock_of s) })
        s.reset_tokens).0;
  accounts =
      (update_where (λ u. u.id == user.id)
        (λ u. record u {
          password_hash = password_hash;
          must_change_password = false;
          updated_at = clock_of s;
        })
        s.accounts).0;
  sessions = revoke_all_for_user user.id password_reset none s.sessions;
}

abbrev pub confirm_for : (ℕ → Call ℕ) → ResetToken → Option Account → ℕ → Accounts → Call Accounts
confirm_for hash_new token none password s = raised password_reset_token_invalid
confirm_for hash_new token (some user) password s = do
  password_hash ← hash_new password
  ok (reset_password token user password_hash s)

abbrev pub confirm_with : (ℕ → Call ℕ) → Option ResetToken → ℕ → Accounts → Call Accounts
confirm_with hash_new none password s = raised password_reset_token_invalid
confirm_with hash_new (some token) password s =
    confirm_for hash_new token (get_account token.user_id s) password s

unfoldable pub confirm : (ℕ → Call ℕ) → ℕ → ℕ → Accounts → Call Accounts
unfolding get_usable_by_hash get_account reset_password
confirm hash_new token_hash password s =
    confirm_with hash_new (get_usable_by_hash token_hash s) password s

-- Time passes.
unfoldable pub wait : ℕ → Accounts → Accounts
wait d s = record s { sessions = record s.sessions { clock = s.sessions.clock + d } }
