-- ===== src/Access/Laws.antt =====
-- The answers of access.py agree with one another.
use ask_repo.Prelude.{
  ℕ, ◌≡◌, refl, ◌↔◌, Bool, true, false, not, ◌&&◌, ◌||◌, Option, none, some, List, [], ◌∷◌, arith,
  ◌==◌, if◌then◌else◌, is_none, is_some_eq,
}
use ask_repo.Access.{
  AuthenticatedUser, ProjectGrant, ProjectScope, ProjectView, raised, get_grant, granted_ids,
  in_scope, intersect, live_event_visible_to, member, narrowed_to, ok, permissions_for,
  require_answerable, require_permission, require_readable_project, resolve_notification_recipients,
  resolve_project_scope, without, embedding_model_changed, insufficient_role, project_not_found,
  project_not_ready, ◌>>=◌, ◌>>◌,
}
use ask_repo.Access.Permissions.{Permission, all_permissions, has, project_read}

-- The loader keys each grant by its own project.
abbrev pub IsKeyed : List (ℕ × ProjectGrant) → Type 0
IsKeyed [] = Unit {0}
IsKeyed ((j, g) ∷ gs) = (j ≡ g.project_id) × IsKeyed gs

abbrev granted_some : Option ProjectGrant → Bool
granted_some none = false
granted_some (some g) = true

member-granted_ids :
    (k : ℕ) (gs : List (ℕ × ProjectGrant))
    → IsKeyed gs
    → member k (granted_ids gs) ≡ granted_some (get_grant k gs)
unfolding member granted_ids get_grant
member-granted_ids k [] h = refl
member-granted_ids k ((j, g) ∷ gs) h = ground (arith, member-granted_ids k gs h.1)

-- Every permission is somewhere in the catalogue.
all_permissions-has : (p : Permission) → has p all_permissions ≡ true
unfolding has
all_permissions-has project_read = refl
all_permissions-has _ = refl

has-nil : (p : Permission) → has p [] ≡ false
unfolding has
has-nil p = refl

-- `require_permission` lets a caller through exactly where `permissions_for` lists the permission, so
-- the controls that the frontend hides are the ones that it would be refused; where it refuses, it
-- answers 404 exactly for the projects outside the caller's read scope and 403 exactly for those
-- inside it.
pub require_permission_agrees :
    (user : AuthenticatedUser) (k : ℕ) (p : Permission)
    → IsKeyed user.grants
    → ((require_permission user k p ≡ ok tt) ↔ (has p (permissions_for user k) ≡ true))
      × ((require_permission user k p ≡ raised project_not_found)
          ↔ (in_scope (resolve_project_scope user) k ≡ false))
      × ((require_permission user k p ≡ raised insufficient_role) ↔ (
          (in_scope (resolve_project_scope user) k ≡ true)
          × (has p (permissions_for user k) ≡ false)))
unfolding require_permission permissions_for in_scope resolve_project_scope member
require_permission_agrees user k p keyed =
    ground (arith, has-nil p, all_permissions-has p, member-granted_ids k user.grants keyed)

member-intersect :
    (k : ℕ) (is js : List ℕ) → member k (intersect is js) ≡ (member k is && member k js)
unfolding member intersect
member-intersect k [] js = refl
member-intersect k (i ∷ is) js = ground (arith, member-intersect k is js)

-- A filter on top of a scope only narrows it: a project is in the narrowed scope exactly when it was in
-- the scope and the filter asked for it.
narrowed_to_exact :
    (s : ProjectScope) (requested : List ℕ) (k : ℕ)
    → in_scope (narrowed_to requested s) k ≡ (in_scope s k && member k requested)
unfolding in_scope narrowed_to
narrowed_to_exact s requested k = ground (arith, member-intersect k s.ids requested)

-- An open stream forwards an event that is no notification to a caller exactly where no call on its
-- project would answer that caller 404, and an event without a project to nobody; it forwards a
-- notification to its recipients alone, whatever its project and the caller's grants, administrators
-- not excepted.
live_event_visible_exact :
    (user : AuthenticatedUser) (k : ℕ) (p : Permission) (project : Option ℕ) (recipients : List ℕ)
    → IsKeyed user.grants
    → ((live_event_visible_to user
            (record { is_notification = false; project_id = some k; recipients = recipients })
          ≡ false)
        ↔ (require_permission user k p ≡ raised project_not_found))
      × (live_event_visible_to user
            (record { is_notification = false; project_id = none; recipients = recipients })
          ≡ false)
      × (live_event_visible_to user
            (record { is_notification = true; project_id = project; recipients = recipients })
          ≡ member user.id recipients)
unfolding live_event_visible_to
live_event_visible_exact user k p project recipients keyed =
    let agree = (require_permission_agrees user k p keyed).1 in
    ((λ h. agree.1 h, λ h. agree.0 h), refl, refl)

member-without : (k j : ℕ) (rs : List ℕ) → member k (without j rs) ≡ (member k rs && not (k == j))
unfolding member without
member-without k j [] = refl
member-without k j (r ∷ rs) = ground (arith, member-without k j rs)

-- The one who caused an event is not told of it, and nobody else is left out.
recipients_exact :
    (recipients : List ℕ) (actor k : ℕ)
    → member k (resolve_notification_recipients recipients (some actor))
      ≡ (member k recipients && not (k == actor))
unfolding resolve_notification_recipients
recipients_exact recipients actor k = member-without k actor recipients

-- A project is answered from only when the caller may read it, it is indexed, and it was indexed with
-- the instance's embedding model; where one of these fails the call raises the error of the first.
answerable_exact :
    (get : ℕ → Option ProjectView) (k : ℕ) (actor : AuthenticatedUser) (p : ProjectView) (model : ℕ)
    → get k ≡ some p
    → (do q ← require_readable_project get k actor none; require_answerable q model; ok q) ≡ (
        if not (in_scope (resolve_project_scope actor) p.id)
        then raised project_not_found
        else if not p.is_ready || is_none p.embedding_collection
        then raised project_not_ready
        else if is_some_eq p.embedding_model model
        then ok p
        else raised embedding_model_changed)
unfolding require_readable_project require_answerable
answerable_exact get k actor p model found = ground arith
