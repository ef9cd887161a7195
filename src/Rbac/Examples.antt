-- ===== src/Rbac/Examples.antt =====
-- A user with a role on a small set of tables.

use d_plane_os.Prelude.{
  arith, ◌≡◌, ◌≢◌, ◌↔◌, refl, ℕ, str, str_eq, true, false, none, some, In, List, [], ◌∷◌, ◌++◌,
}
use d_plane_os.Rbac.Tables.{Permission, Role, Tables, Moment, unexpired}
use d_plane_os.Rbac.Tables.Expiry.{unexpired-same_day}
use d_plane_os.Rbac.Cache.{PermissionCache, initial_cache, is_fresh, get_permissions}
use d_plane_os.Rbac.Check.{user_has_permission, get_user_roles}
use d_plane_os.Rbac.Check.Fresh.{Grants, user_has_permission_iff}
use d_plane_os.Rbac.Check.Revived.{get_user_roles-revives}
use d_plane_os.Rbac.Manage.{Store, find_role, delete_role}
use d_plane_os.Rbac.Manage.System.{
  Operation, delete, update, remove_permission, perform_all, perform_all-system,
}
use d_plane_os.Rbac.Manage.Deleted.{delete_role-user_has_permission}
use d_plane_os.Rbac.Session.{SessionTables, is_open_session, validate_session_and_get_user}
use d_plane_os.Rbac.Session.Opens.{Opens}
use d_plane_os.Rbac.Middleware.{
  User, present, served, session_token, require_auth, require_permission,
}
use d_plane_os.Rbac.Middleware.Guarded.{require_permission-served}

abbrev read_pools : Permission
read_pools = record {
  id = 1;
  resource = str "storage";
  action = str "read";
  display_name = [];
  description = [];
  category = str "storage";
  created_at = [];
}

abbrev viewer : Role
viewer = record {
  id = 4;
  name = str "viewer";
  display_name = [];
  description = [];
  is_system = true;
  permissions = [];
  created_at = [];
  updated_at = [];
}

abbrev tables : Tables
tables = record {
  roles = viewer ∷ [];
  permissions = read_pools ∷ [];
  role_permissions = (4, 1) ∷ [];
  user_roles = (record { user_id = 7; role_id = 4; granted_by = none; expires_at = none }) ∷ [];
  next_role = 5;
}

abbrev noon : Moment
noon = record { time = 1000; date = str "2026-01-01 12:00:00"; available = true }

seven : ◌≢◌ {A = ℕ} 7 1
seven e = omega (arith, e)

nothing_cached : get_permissions 1000 initial_cache 7 ≡ none
unfolding get_permissions initial_cache is_fresh
nothing_cached = refl

user_has_permission_iff_example :
    ((user_has_permission noon tables 7 (str "storage") (str "read") initial_cache).0 ≡ some true)
    ↔ Grants tables (str "2026-01-01 12:00:00") 7 (str "storage") (str "read")
user_has_permission_iff_example =
    user_has_permission_iff noon tables 7 (str "storage") (str "read") initial_cache seven refl
      nothing_cached

-- Permissions that were cached at time 0 and are long stale.
abbrev stale_cache : PermissionCache
stale_cache = record {
  permissions = λ user. some (read_pools ∷ []);
  roles = λ user. none;
  last_update = λ user. some 0;
  ttl = 100;
}

is_stale : is_fresh 1000 stale_cache 7 ≡ false
unfolding is_fresh
is_stale = refl

get_user_roles-revives_example :
    get_permissions 1050 (get_user_roles noon tables 7 stale_cache).1 7 ≡ some (read_pools ∷ [])
get_user_roles-revives_example =
    get_user_roles-revives noon tables 7 1050 stale_cache (read_pools ∷ []) refl is_stale refl
      (omega arith)

abbrev store : Store
store = record { tables = tables; cache = initial_cache }

abbrev attempts : List (Moment × Operation)
attempts = (noon, delete 4) ∷ (noon, remove_permission 4 1) ∷ (noon, update 4 (str "x") []) ∷ []

viewer_row : find_role 4 (viewer ∷ []) ≡ some viewer
unfolding find_role
viewer_row = refl

perform_all-system_example :
    (find_role 4 (perform_all attempts store).tables.roles ≡ some viewer)
    × ((permission : ℕ)
        → In (4, permission) tables.role_permissions
        → In (4, permission) (perform_all attempts store).tables.role_permissions)
perform_all-system_example = perform_all-system attempts 4 viewer store viewer_row refl

delete_role-user_has_permission_example :
    user_has_permission noon
      (delete_role noon 4 store).1.tables
      7
      (str "storage")
      (str "read")
      (delete_role noon 4 store).1.cache
    ≡ user_has_permission noon tables 7 (str "storage") (str "read") initial_cache
delete_role-user_has_permission_example =
    delete_role-user_has_permission noon noon 4 7 (str "storage") (str "read") store

unexpired-same_day_example :
    unexpired
      (str "2026-01-01" ++ (b' ' ∷ str "23:59:59"))
      (some (str "2026-01-01" ++ (b'T' ∷ str "00:00:00Z")))
    ≡ true
unexpired-same_day_example =
    unexpired-same_day (str "2026-01-01") (str "23:59:59") (str "00:00:00Z")

abbrev sessions : SessionTables
sessions = record {
  sessions =
      (record {
        session_id = str "t0k3n";
        username = str "eve";
        expires_at = none;
        last_activity = 0;
        status = none;
      })
      ∷ [];
  users = (record { id = 7; username = str "eve"; email = none; active = true }) ∷ [];
}

abbrev eve : User
eve = record { id = 7; username = str "eve"; email = [] }

eve_logged_in : require_auth 50 true (str "t0k3n") none (some sessions) ≡ some (present eve)
unfolding require_auth validate_session_and_get_user is_open_session session_token str_eq str
eve_logged_in = refl

eve_served :
    (require_permission noon tables (str "storage") (str "read") (present eve) initial_cache).0
    ≡ served
unfolding require_permission user_has_permission initial_cache get_permissions str_eq str
eve_served = refl

require_permission-served_example :
    (id : ℕ) × (Opens 50 (session_token (str "t0k3n") none) sessions.users sessions.sessions id
      × ((user_has_permission noon tables id (str "storage") (str "read") initial_cache).0
          ≡ some true))
require_permission-served_example =
    require_permission-served 50 true (str "t0k3n") none sessions (present eve) noon tables
      (str "storage") (str "read") initial_cache eve_logged_in eve_served
