-- ===== src/PasswordReset/Links.antt =====
-- When a link no longer works.
use ask_repo.Prelude.{
  ℕ, ◌+◌, ◌≡◌, refl, sym, ap, ◌∙◌, inl, inr, Bool, true, false, ◌&&◌, Option, none, some, [], ◌∷◌,
  ◌++◌, arith, ◌==◌, if◌then◌else◌, ==_refl, Bool-cases,
}
use ask_repo.Table.{HasKeys, find, update_where}
use ask_repo.Table.Laws.{
  edited, find-first_row, find-update_where, first_row-find, tested, update_where-HasKeys,
  append-HasKeys, find-append,
}
use ask_repo.Access.{Call, ok, password_reset_token_invalid, raised, ◌>>=◌}
use ask_repo.PasswordReset.{
  Account, Accounts, ResetToken, clock_of, confirm, confirm_for, confirm_with, get_account,
  get_account_by_email, get_usable_by_hash, is_live_token, request_reset, reset_password,
  revoke_live_for_user, wait, new_token, request_for,
}

abbrev pub HasUniqueLinks : Accounts → Type 0
HasUniqueLinks s = HasKeys (λ t. t.token_hash) s.reset_tokens

-- A link whose token is not live is refused.
confirm-dead :
    (hash_new : ℕ → Call ℕ) (h password : ℕ) (s : Accounts) (token : ResetToken)
    → HasUniqueLinks s
    → find (λ t. t.token_hash) h s.reset_tokens ≡ some token
    → is_live_token (clock_of s) token ≡ false
    → confirm hash_new h password s ≡ raised password_reset_token_invalid
unfolding confirm get_usable_by_hash
confirm-dead hash_new h password s token unique at dead =
    let found : get_usable_by_hash h s ≡ none =
      first_row-find (λ t. t.token_hash) (is_live_token (clock_of s)) h s.reset_tokens unique
      ∙ ap (tested (is_live_token (clock_of s))) at
      ∙ ap (λ b. if b then some token else none) dead in
    ap (λ o. confirm_with hash_new o password s) found

hashed-ok :
    (call : Call ℕ) (token : ResetToken) (user : Account) (s t : Accounts)
    → (call >>= λ p. ok (reset_password token user p s)) ≡ ok t
    → (p : ℕ) × (t ≡ reset_password token user p s)
hashed-ok (raised e) token user s t h = cc
hashed-ok (ok p) token user s t h = (p, cc h)

confirm_for-ok :
    (hash_new : ℕ → Call ℕ) (token : ResetToken) (o : Option Account) (password : ℕ)
    (s t : Accounts)
    → confirm_for hash_new token o password s ≡ ok t
    → (user : Account) × (p : ℕ) × (t ≡ reset_password token user p s)
confirm_for-ok hash_new token none password s t h = cc
confirm_for-ok hash_new token (some user) password s t h =
    let (p, e) = hashed-ok (hash_new password) token user s t h in (user, p, e)

confirm_with-ok :
    (hash_new : ℕ → Call ℕ) (o : Option ResetToken) (password : ℕ) (s t : Accounts)
    → confirm_with hash_new o password s ≡ ok t
    → (token : ResetToken) × (user : Account) × (p : ℕ) × (o ≡ some token)
      × (t ≡ reset_password token user p s)
confirm_with-ok hash_new none password s t h = cc
confirm_with-ok hash_new (some token) password s t h =
    let (user, p, e) = confirm_for-ok hash_new token (get_account token.user_id s) password s t h in
    (token, user, p, refl, e)

-- Digests are unique. After a link has set a password, it is refused at any later time, whatever the new
-- password.
pub confirm_once :
    (hash_new : ℕ → Call ℕ) (h first second d : ℕ) (s t : Accounts)
    → HasUniqueLinks s
    → confirm hash_new h first s ≡ ok t
    → confirm hash_new h second (wait d t) ≡ raised password_reset_token_invalid
unfolding confirm get_usable_by_hash reset_password wait
confirm_once hash_new h first second d s t unique done =
    let (token, user, p, got, e) = confirm_with-ok hash_new _ first s t done in
    let spent : ResetToken → ResetToken = λ x. record x { used_at = some (clock_of s) } in
    let at : find (λ x. x.token_hash) h s.reset_tokens ≡ some token =
      find-first_row (λ x. x.token_hash) (is_live_token (clock_of s)) h s.reset_tokens unique got in
    let self : (token.id == token.id) ≡ true = ==_refl token.id in
    let later : find (λ x. x.token_hash) h (reset_password token user p s).reset_tokens
        ≡ some (spent token) =
      find-update_where (λ x. x.token_hash) (λ x. x.id == token.id) spent h s.reset_tokens
        (λ x. refl)
      ∙ ap (edited (λ x. x.id == token.id) spent) at
      ∙ ap (λ b. if b then some (spent token) else some token) self in
    ap (λ t. confirm hash_new h second (wait d t)) e
    ∙ confirm-dead hash_new h second (wait d (reset_password token user p s)) (spent token)
        (update_where-HasKeys (λ x. x.token_hash) (λ x. x.id == token.id) spent s.reset_tokens
          (λ x. refl) unique)
        later refl

-- What a request makes of an older token of the account: it is not live at any later time.
superseded :
    (token : ResetToken) (user_id now d : ℕ)
    → token.user_id ≡ user_id
    → let hit : ResetToken → Bool = λ x. x.user_id == user_id && is_live_token now x in
      let revoke : ResetToken → ResetToken = λ x. record x { revoked_at = some now } in
      (x : ResetToken) × (edited hit revoke (some token) ≡ some x)
      × (is_live_token (now + d) x ≡ false)
superseded token user_id now d own = elim (Bool-cases (is_live_token now token)) [
  | inl live ↦ (record token { revoked_at = some now }, ground (arith, own, live), ground arith)
  | inr over ↦ (token, ground (arith, own, over), ground (arith, over))
]

-- Digests are unique and the new one is not in use. After a request of a new link for an address of a
-- live account, every older link of that account is refused, at any later time.
pub request_supersedes :
    (hash_new : ℕ → Call ℕ) (ttl new_id new_hash email h password d : ℕ) (link : Option ℕ)
    (user : Account) (token : ResetToken) (s t : Accounts)
    → HasUniqueLinks s
    → find (λ x. x.token_hash) new_hash s.reset_tokens ≡ none
    → get_account_by_email email s ≡ some user
    → find (λ x. x.token_hash) h s.reset_tokens ≡ some token
    → token.user_id ≡ user.id
    → request_reset true ttl new_id new_hash email s ≡ ok (link, t)
    → confirm hash_new h password (wait d t) ≡ raised password_reset_token_invalid
unfolding request_reset revoke_live_for_user wait
request_supersedes hash_new ttl new_id new_hash email h password d link user token s t unique new
      account at own done =
    let now = clock_of s in
    let hit : ResetToken → Bool = λ x. x.user_id == user.id && is_live_token now x in
    let revoke : ResetToken → ResetToken = λ x. record x { revoked_at = some now } in
    let fresh = new_token new_id new_hash user.id now ttl in
    let rest = (update_where hit revoke s.reset_tokens).0 in
    let after = record s { reset_tokens = rest ++ fresh ∷ [] } in
    let answer : ok (some new_hash, after) ≡ ok (link, t) =
      ap (λ o. ok (request_for ttl new_id new_hash o s)) (sym account) ∙ done in
    let same : after ≡ t = cc answer in
    let looked : (k : ℕ)
        → find (λ x. x.token_hash) k rest
          ≡ edited hit revoke (find (λ x. x.token_hash) k s.reset_tokens) =
      λ k. find-update_where (λ x. x.token_hash) hit revoke k s.reset_tokens (λ x. refl) in
    let uniqueness : HasKeys (λ x. x.token_hash) (rest ++ fresh ∷ []) =
      append-HasKeys (λ x. x.token_hash) rest fresh
        (update_where-HasKeys (λ x. x.token_hash) hit revoke s.reset_tokens (λ x. refl) unique)
        (looked new_hash ∙ ap (edited hit revoke) new) in
    let (x, e, dead) = superseded token user.id now d own in
    ap (λ t. confirm hash_new h password (wait d t)) (sym same)
    ∙ confirm-dead hash_new h password (wait d after) x uniqueness
        (find-append (λ x. x.token_hash) h rest (fresh ∷ [])
          (looked h ∙ ap (edited hit revoke) at ∙ e))
        dead
