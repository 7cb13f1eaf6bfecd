-- ===== src/Access.antt =====
-- backend/app/core/access.py: which projects a caller may see, and what they may do to one.
-- Ids and role names are numbers; a frozenset is a list that only membership is asked of, and a
-- mapping is a list of pairs. An error is its code; its text and status go with the code.
mod Examples
pub mod Permissions
pub mod Laws
use ask_repo.Prelude.{
  ℕ, Bool, true, false, not, ◌&&◌, ◌||◌, Option, none, some, List, [], ◌∷◌, ◌==◌, if◌then◌else◌,
  is_none, is_some_eq,
}
use Permissions.{Permission, all_permissions, has}

pub data ErrorCode : Type 0 where
  project_not_found insufficient_role project_not_ready embedding_model_changed : ErrorCode
  role_not_found user_not_found membership_exists membership_not_found last_owner last_admin :
      ErrorCode
  change_set_not_found change_set_already_resolved rate_limited : ErrorCode
  mock_data_change_set_not_found mock_data_change_set_already_resolved : ErrorCode
  eval_run_in_progress vector_store_unavailable : ErrorCode
  password_reset_unavailable password_reset_token_invalid weak_password : ErrorCode

-- What a call returns, or the `AppError` that it raises.
pub data Call {ℓ} (A : Type ℓ) : Type ℓ where
  raised : ErrorCode → Call A
  ok : A → Call A

infixl 5 ◌>>=◌
-- An error skips what comes after it.
abbrev pub ◌>>=◌ {ℓ κ} : {A : Type ℓ} {B : Type κ} → Call A → (A → Call B) → Call B
raised code >>= rest = raised code
ok answer >>= rest = rest answer

infixl 5 ◌>>◌
abbrev pub ◌>>◌ {κ} : {B : Type κ} → Call (Unit {0}) → Call B → Call B
first >> rest = first >>= λ _. rest

-- `if not test: raise error`.
abbrev pub ensure : Bool → ErrorCode → Call (Unit {0})
ensure true e = ok tt
ensure false e = raised e

-- backend/app/core/middleware.py: `ProjectGrant` and `AuthenticatedUser`.
pub record ProjectGrant : Type 0 where
  pub project_id : ℕ
  pub role : ℕ
  pub permissions : List Permission

pub record AuthenticatedUser : Type 0 where
  pub id : ℕ
  pub is_admin : Bool
  pub grants : List (ℕ × ProjectGrant)

-- `mapping.get(key)`.
unfoldable pub get_grant : ℕ → List (ℕ × ProjectGrant) → Option ProjectGrant
get_grant k [] = none
get_grant k ((j, g) ∷ gs) = if j == k then some g else get_grant k gs

unfoldable pub member : ℕ → List ℕ → Bool
member k [] = false
member k (j ∷ js) = j == k || member k js

pub record ProjectScope : Type 0 where
  pub unrestricted : Bool
  pub ids : List ℕ

abbrev pub scope_all : ProjectScope
scope_all = record { unrestricted = true; ids = [] }

abbrev pub scope_of : List ℕ → ProjectScope
scope_of ids = record { unrestricted = false; ids = ids }

-- `ids & requested`.
unfoldable pub intersect : List ℕ → List ℕ → List ℕ
intersect [] js = []
intersect (k ∷ ks) js = let rest = intersect ks js in if member k js then k ∷ rest else rest

unfoldable pub narrowed_to : List ℕ → ProjectScope → ProjectScope
narrowed_to requested s =
    if s.unrestricted then scope_of requested else scope_of (intersect s.ids requested)

-- `grant.project_id for grant in user.grants.values()`.
unfoldable pub granted_ids : List (ℕ × ProjectGrant) → List ℕ
granted_ids [] = []
granted_ids ((j, g) ∷ gs) = g.project_id ∷ granted_ids gs

unfoldable pub resolve_project_scope : AuthenticatedUser → ProjectScope
resolve_project_scope user = if user.is_admin then scope_all else scope_of (granted_ids user.grants)

-- `scope.unrestricted or project_id in scope.ids`.
unfoldable pub in_scope : ProjectScope → ℕ → Bool
in_scope s k = s.unrestricted || member k s.ids

unfoldable pub check_grant : Option ProjectGrant → Permission → Call (Unit {0})
check_grant none permission = raised project_not_found
check_grant (some g) permission = ensure (has permission g.permissions) insufficient_role

unfoldable pub require_permission : AuthenticatedUser → ℕ → Permission → Call (Unit {0})
unfolding check_grant
require_permission user project_id permission =
    if user.is_admin then ok tt else check_grant (get_grant project_id user.grants) permission

-- A project row, as `require_readable_project` and `require_answerable` read it. Model names are
-- numbers, and `none` is no name or the empty one.
pub record ProjectView : Type 0 where
  pub id : ℕ
  pub is_ready : Bool
  pub embedding_collection : Option ℕ
  pub embedding_model : Option ℕ

-- `not_found` is the caller's own error for a child resource.
abbrev pub missing_error : Option ErrorCode → ErrorCode
missing_error none = project_not_found
missing_error (some e) = e

unfoldable pub require_readable_project :
    (ℕ → Option ProjectView) → ℕ → AuthenticatedUser → Option ErrorCode → Call ProjectView
require_readable_project get project_id actor not_found = elim (get project_id) [
  | none ↦ raised (missing_error not_found)
  | some p ↦
      if in_scope (resolve_project_scope actor) p.id then ok p else raised (missing_error not_found)
]

-- backend/app/core/indexed.py.
unfoldable pub require_indexed : ProjectView → Call (Unit {0})
require_indexed p = ensure (p.is_ready && not (is_none p.embedding_collection)) project_not_ready

unfoldable pub require_answerable : ProjectView → ℕ → Call (Unit {0})
unfolding require_indexed
require_answerable p embedding_model = do
  require_indexed p
  ensure (is_some_eq p.embedding_model embedding_model) embedding_model_changed

abbrev pub granted : Option ProjectGrant → List Permission
granted none = []
granted (some g) = g.permissions

unfoldable pub permissions_for : AuthenticatedUser → ℕ → List Permission
permissions_for user project_id =
    if user.is_admin then all_permissions else granted (get_grant project_id user.grants)

unfoldable pub role_for : AuthenticatedUser → ℕ → Option ℕ
role_for user project_id = elim (get_grant project_id user.grants) [
  | none ↦ none
  | some g ↦ some g.role
]

-- `recipients - {excluding}`.
unfoldable pub without : ℕ → List ℕ → List ℕ
without k [] = []
without k (j ∷ js) = let rest = without k js in if j == k then rest else j ∷ rest

-- `recipients_for` is the membership query's answer.
unfoldable pub resolve_notification_recipients : List ℕ → Option ℕ → List ℕ
unfolding without
resolve_notification_recipients recipients none = recipients
resolve_notification_recipients recipients (some k) = without k recipients

pub record LiveEvent : Type 0 where
  pub is_notification : Bool
  pub project_id : Option ℕ
  pub recipients : List ℕ

unfoldable pub live_event_visible_to : AuthenticatedUser → LiveEvent → Bool
live_event_visible_to user event =
    if event.is_notification
    then member user.id event.recipients
    else elim event.project_id [ none ↦ false | some k ↦ in_scope (resolve_project_scope user) k ]
