-- ===== src/Rbac/Middleware/Guarded.antt =====
-- What a request has proved when a guarded route is served.
use d_plane_os.Prelude.{
  ◌≡◌, refl, ℕ, Str, str_eq, Bool, true, false, Bool-cases, Option, some, none, inl, inr, [],
  if◌then◌else◌,
}
use d_plane_os.Rbac.Tables.{Tables, Moment}
use d_plane_os.Rbac.Cache.{PermissionCache}
use d_plane_os.Rbac.Check.{user_has_permission}
use d_plane_os.Rbac.Session.{SessionTables, SessionUser, Answer, answer, failed}
use d_plane_os.Rbac.Session.Opens.{Opens, validate_session_and_get_user-Opens}
use d_plane_os.Rbac.Middleware.{
  ContextUser, present, served, gate, gated, user_of, context_of, session_token, require_auth,
  require_permission,
}

gate-served : (has : Option Bool) → gate has ≡ served → has ≡ some true
unfolding gate
gate-served none h = cc
gate-served (some true) h = refl
gate-served (some false) h = cc

-- The context that RequireAuth makes is that of the user it found.
context_of-found :
    (a : Answer SessionUser) (context : ContextUser)
    → context_of a ≡ some context
    → (found : SessionUser) × ((a ≡ answer found) × (present (user_of found) ≡ context))
unfolding context_of
context_of-found (failed e) context h = cc
context_of-found (answer found) context h = (found, (refl, cc h))

-- A route behind RequireAuth and RequirePermission is served only to a request whose token, from the header
-- or else from the cookie, opens a session of an active user, and that user passed the permission check.
pub require_permission-served :
    (now : ℕ) (available : Bool) (header : Str) (cookie : Option Str) (sessions : SessionTables)
    (context : ContextUser) (m : Moment) (t : Tables) (resource action : Str) (c : PermissionCache)
    → require_auth now available header cookie (some sessions) ≡ some context
    → (require_permission m t resource action context c).0 ≡ served
    → (id : ℕ) × (Opens now (session_token header cookie) sessions.users sessions.sessions id
        × ((user_has_permission m t id resource action c).0 ≡ some true))
unfolding require_auth require_permission gated user_of
require_permission-served now available header cookie sessions context m t resource action c h k =
    elim (Bool-cases (str_eq (session_token header cookie) [])) [
      | inl e ↦ cc (rw (e, if◌then◌else◌) at h)
      | inr e ↦
          let (found, (valid, same)) = context_of-found _ context (rw (e, if◌then◌else◌) at h) in
          let reached : (require_permission m t resource action (present (user_of found)) c).0
              ≡ served =
            rw (← same) at k in
          (
            found.id,
            (
              validate_session_and_get_user-Opens now available (session_token header cookie)
                  sessions found valid,
              gate-served _ reached,
            ),
          )
    ]
