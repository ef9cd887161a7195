-- ===== src/Rbac/Tables.antt =====
-- The tables, their rows, and the queries on them.
pub mod Expiry
use d_plane_os.Prelude.{
  ℕ, ◌==◌, Str, str_eq, str_lt, Bool, true, false, not, ◌&&◌, ◌||◌, Option, some, none, List, [],
  ◌∷◌, any, filter, sort_by, if◌then◌else◌,
}

pub record Permission : Type 0 where
  pub id : ℕ
  pub resource : Str
  pub action : Str
  pub display_name : Str
  pub description : Str
  pub category : Str
  pub created_at : Str

-- A row of the table roles has no permissions of its own.
pub record Role : Type 0 where
  pub id : ℕ
  pub name : Str
  pub display_name : Str
  pub description : Str
  pub is_system : Bool
  pub permissions : List Permission
  pub created_at : Str
  pub updated_at : Str

-- The table has no column for granted_at; a missing granted_by becomes the column's default.
pub record UserRole : Type 0 where
  pub user_id : ℕ
  pub role_id : ℕ
  pub granted_by : Option ℕ
  pub expires_at : Option Str

pub record Tables : Type 0 where
  pub roles : List Role
  pub permissions : List Permission
  pub role_permissions : List (ℕ × ℕ)
  pub user_roles : List UserRole
  pub next_role : ℕ

-- Times count nanoseconds.
pub record Moment : Type 0 where
  pub time : ℕ
  pub date : Str
  pub available : Bool

-- expires_at IS NULL OR expires_at > datetime('now'), a comparison of texts
unfoldable pub unexpired : Str → Option Str → Bool
unfolding str_lt
unexpired date none = true
unexpired date (some e) = str_lt date e

unfoldable pub granted_role : Str → ℕ → UserRole → Bool
unfolding unexpired
granted_role date user ur = (ur.user_id == user) && unexpired date ur.expires_at

unfoldable pub links : ℕ → ℕ → ℕ × ℕ → Bool
links role permission rp = (rp.0 == role) && (rp.1 == permission)

-- The two joins of the query: the table of roles is not among those that are joined.
unfoldable pub holds_permission : Tables → Str → ℕ → Permission → Bool
unfolding granted_role links
holds_permission t date user p =
    any
      (λ (ur : UserRole).
        granted_role date user ur && any (links ur.role_id p.id) t.role_permissions)
      t.user_roles

-- ORDER BY category, resource, action
permission_before : Permission → Permission → Bool
unfolding str_lt str_eq
permission_before p q =
    str_lt p.category q.category
    || (str_eq p.category q.category
        && (str_lt p.resource q.resource
            || (str_eq p.resource q.resource && str_lt p.action q.action)))

-- A permission has one row, so that DISTINCT drops nothing. `none` is an error of the database.
unfoldable pub load_user_permissions : Moment → Tables → ℕ → Option (List Permission)
unfolding holds_permission permission_before
load_user_permissions m t user =
    if m.available
    then some (sort_by permission_before (filter (holds_permission t m.date user) t.permissions))
    else none

role_before : Role → Role → Bool
unfolding str_lt
role_before r s = str_lt r.name s.name

unfoldable pub holds_role : Tables → Str → ℕ → Role → Bool
unfolding granted_role
holds_role t date user r =
    any (λ (ur : UserRole). granted_role date user ur && (ur.role_id == r.id)) t.user_roles

unfoldable pub load_user_roles : Moment → Tables → ℕ → Option (List Role)
unfolding holds_role role_before
load_user_roles m t user =
    if m.available
    then some (sort_by role_before (filter (holds_role t m.date user) t.roles))
    else none

unfoldable pub user_has_role : Moment → Tables → ℕ → Str → Option Bool
unfolding holds_role str_eq
user_has_role m t user name =
    if m.available
    then some (any (λ (r : Role). holds_role t m.date user r && str_eq r.name name) t.roles)
    else none

unfoldable pub get_role_permissions : Moment → Tables → ℕ → Option (List Permission)
unfolding links permission_before
get_role_permissions m t role =
    if m.available
    then some (
        sort_by permission_before
          (filter (λ (p : Permission). any (links role p.id) t.role_permissions) t.permissions))
    else none

unfoldable pub get_all_permissions : Moment → Tables → Option (List Permission)
unfolding permission_before
get_all_permissions m t =
    if m.available then some (sort_by permission_before t.permissions) else none

-- ORDER BY is_system DESC, name ASC
system_first : Role → Role → Bool
unfolding role_before
system_first r s =
    (r.is_system && not s.is_system)
    || (not (not r.is_system && s.is_system)
        && not (r.is_system && not s.is_system)
        && role_before r s)

unfoldable pub get_all_roles : Moment → Tables → Option (List Role)
unfolding system_first
get_all_roles m t = if m.available then some (sort_by system_first t.roles) else none
