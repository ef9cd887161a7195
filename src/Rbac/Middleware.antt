-- ===== src/Rbac/Middleware.antt =====
-- The middleware in front of the routes: daemon/internal/middleware/rbac.go. `served` is a call of the
-- handler behind it. The messages of the responses are left out.
pub mod Guarded
use d_plane_os.Prelude.{
  ℕ, Str, str_eq, Bool, true, false, Option, some, none, List, [], ◌∷◌, if◌then◌else◌,
}
use d_plane_os.Rbac.Tables.{Tables, Moment, user_has_role}
use d_plane_os.Rbac.Cache.{PermissionCache}
use d_plane_os.Rbac.Check.{
  Checked, user_has_permission, user_has_any_permission, user_has_all_permissions,
}
use d_plane_os.Rbac.Session.{
  SessionTables, SessionUser, Answer, answer, failed, validate_session_and_get_user,
}

pub record User : Type 0 where
  pub id : ℕ
  pub username : Str
  pub email : Str

-- What the context of a request holds under UserContextKey.
pub data ContextUser : Type 0 where
  missing nil_user : ContextUser
  present : User → ContextUser

pub data Response : Type 0 where
  unauthorized internal_error forbidden served panicked : Response

-- The two tests on the answer of a check.
gate : Option Bool → Response
gate none = internal_error
gate (some false) = forbidden
gate (some true) = served

gated : Checked Bool → Response × PermissionCache
unfolding gate
gated (has, c) = (gate has, c)

-- A nil user passes the type assertion, and its id is read.
unfoldable pub require_permission :
    Moment → Tables → Str → Str → ContextUser → PermissionCache → Response × PermissionCache
unfolding gated user_has_permission
require_permission m t resource action missing c = (unauthorized, c)
require_permission m t resource action nil_user c = (panicked, c)
require_permission m t resource action (present u) c =
    gated (user_has_permission m t u.id resource action c)

-- The three others assert the type without a test.
unfoldable pub require_any_permission :
    Moment → Tables → List (Str × Str) → ContextUser → PermissionCache → Response × PermissionCache
unfolding gated user_has_any_permission
require_any_permission m t ps missing c = (panicked, c)
require_any_permission m t ps nil_user c = (unauthorized, c)
require_any_permission m t ps (present u) c = gated (user_has_any_permission m t u.id ps c)

unfoldable pub require_all_permissions :
    Moment → Tables → List (Str × Str) → ContextUser → PermissionCache → Response × PermissionCache
unfolding gated user_has_all_permissions
require_all_permissions m t ps missing c = (panicked, c)
require_all_permissions m t ps nil_user c = (unauthorized, c)
require_all_permissions m t ps (present u) c = gated (user_has_all_permissions m t u.id ps c)

unfoldable pub require_role : Moment → Tables → Str → ContextUser → Response
unfolding gate user_has_role
require_role m t name missing = panicked
require_role m t name nil_user = unauthorized
require_role m t name (present u) = gate (user_has_role m t u.id name)

-- The header, then the cookie.
unfoldable pub session_token : Str → Option Str → Str
session_token [] none = []
session_token [] (some cookie) = cookie
session_token (c ∷ token) cookie = c ∷ token

user_of : SessionUser → User
user_of u = record { id = u.id; username = u.username; email = u.email }

context_of : Answer SessionUser → Option ContextUser
unfolding user_of
context_of (failed e) = none
context_of (answer u) = some (present (user_of u))

-- The context for the handler behind it, or nothing where the request ends as unauthorized.
unfoldable pub require_auth :
    ℕ → Bool → Str → Option Str → Option SessionTables → Option ContextUser
unfolding session_token context_of validate_session_and_get_user str_eq
require_auth now available header cookie db =
    let token = session_token header cookie in
    if str_eq token []
    then none
    else context_of (validate_session_and_get_user now available token db)

-- PermissionChecker drops the error of a check.
dropped : Checked Bool → Bool × PermissionCache
dropped (none, c) = (false, c)
dropped (some has, c) = (has, c)

unfoldable pub can : Moment → Tables → ℕ → Str → Str → PermissionCache → Bool × PermissionCache
unfolding dropped user_has_permission
can m t user resource action c = dropped (user_has_permission m t user resource action c)

unfoldable pub can_any :
    Moment → Tables → ℕ → List (Str × Str) → PermissionCache → Bool × PermissionCache
unfolding dropped user_has_any_permission
can_any m t user ps c = dropped (user_has_any_permission m t user ps c)

unfoldable pub can_all :
    Moment → Tables → ℕ → List (Str × Str) → PermissionCache → Bool × PermissionCache
unfolding dropped user_has_all_permissions
can_all m t user ps c = dropped (user_has_all_permissions m t user ps c)

unfoldable pub has_role : Moment → Tables → ℕ → Str → Bool
unfolding user_has_role
has_role m t user name = elim (user_has_role m t user name) [ none ↦ false | some has ↦ has ]
