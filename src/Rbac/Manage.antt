-- ===== src/Rbac/Manage.antt =====
-- The calls that change roles, their permissions and their assignments. A statement of the database
-- that fails, or finds no row to read, is an error; nothing is changed then.
pub mod System
pub mod Deleted
use d_plane_os.Prelude.{
  ℕ, suc, ◌==◌, Str, str_eq, Bool, true, false, not, ◌&&◌, ◌||◌, Option, some, none, List, [], ◌∷◌,
  ◌++◌, map, any, filter, if◌then◌else◌,
}
use d_plane_os.Rbac.Tables.{Permission, Role, UserRole, Tables, Moment, links, get_role_permissions}
use d_plane_os.Rbac.Cache.{PermissionCache, invalidate}

pub data RbacError : Type 0 where
  database_error no_rows name_taken cannot_modify_system_role cannot_delete_system_role
        cannot_modify_system_permissions :
      RbacError

pub record Store : Type 0 where
  pub tables : Tables
  pub cache : PermissionCache

abbrev pub Result : Type 0
Result = Option RbacError × Store

unfoldable pub find_role : ℕ → List Role → Option Role
find_role id [] = none
find_role id (r ∷ rs) = if r.id == id then some r else find_role id rs

-- The row with the permissions of the role.
unfoldable pub get_role_by_id : Moment → Tables → ℕ → Option Role
unfolding find_role get_role_permissions
get_role_by_id m t id = elim (find_role id t.roles) [
  | none ↦ none
  | some r ↦ elim (get_role_permissions m t id) [
    | none ↦ none
    | some ps ↦ some (record r { permissions = ps })
  ]
]

new_role : Str → ℕ → Str → Str → Str → Role
new_role date id name display_name description = record {
  id = id;
  name = name;
  display_name = display_name;
  description = description;
  is_system = false;
  permissions = [];
  created_at = date;
  updated_at = date;
}

-- The name is unique in the table.
unfoldable pub create_role : Moment → Str → Str → Str → Store → Result
unfolding str_eq new_role
create_role m name display_name description s =
    if not m.available
    then (some database_error, s)
    else if any (λ (r : Role). str_eq r.name name) s.tables.roles
    then (some name_taken, s)
    else (
      none,
      record s {
        tables = record s.tables {
          roles =
              s.tables.roles
              ++ (new_role m.date s.tables.next_role name display_name description ∷ []);
          next_role = suc s.tables.next_role;
        };
      },
    )

-- The query of is_system that precedes a change, then the change.
unfoldable pub guarded : RbacError → Moment → ℕ → (Tables → Tables) → Store → Result
unfolding find_role
guarded refusal m role change s =
    if not m.available then (some database_error, s) else elim (find_role role s.tables.roles) [
      | none ↦ (some no_rows, s)
      | some r ↦
          if r.is_system then (some refusal, s) else (none, record s { tables = change s.tables })
    ]

-- UPDATE of the rows that the condition selects.
changed_role : Str → ℕ → Str → Str → Role → Role
changed_role date role display_name description r =
    if r.id == role && not r.is_system
    then record r { display_name = display_name; description = description; updated_at = date }
    else r

change_role : Str → ℕ → Str → Str → Tables → Tables
unfolding changed_role
change_role date role display_name description t = record t {
  roles = map (changed_role date role display_name description) t.roles;
}

unfoldable pub update_role : Moment → ℕ → Str → Str → Store → Result
unfolding guarded change_role
update_role m role display_name description s =
    guarded cannot_modify_system_role m role (change_role m.date role display_name description) s

-- Nothing cascades.
drop_role : ℕ → Tables → Tables
drop_role role t = record t {
  roles = filter (λ (r : Role). not (r.id == role && not r.is_system)) t.roles;
}

unfoldable pub delete_role : Moment → ℕ → Store → Result
unfolding guarded drop_role
delete_role m role s = guarded cannot_delete_system_role m role (drop_role role) s

-- INSERT OR IGNORE
unfoldable pub assign_permission_to_role : Moment → ℕ → ℕ → Store → Result
unfolding links
assign_permission_to_role m role permission s =
    if not m.available
    then (some database_error, s)
    else if any (links role permission) s.tables.role_permissions
    then (none, s)
    else (
      none,
      record s {
        tables = record s.tables {
          role_permissions = s.tables.role_permissions ++ ((role, permission) ∷ []);
        };
      },
    )

unlink : ℕ → ℕ → Tables → Tables
unfolding links
unlink role permission t = record t {
  role_permissions = filter (λ (rp : ℕ × ℕ). not (links role permission rp)) t.role_permissions;
}

unfoldable pub remove_permission_from_role : Moment → ℕ → ℕ → Store → Result
unfolding guarded unlink
remove_permission_from_role m role permission s =
    guarded cannot_modify_system_permissions m role (unlink role permission) s

same_assignment : ℕ → ℕ → UserRole → Bool
same_assignment user role ur = (ur.user_id == user) && (ur.role_id == role)

-- The rows of a user and a role that are dropped, before another one is put in their place.
without : ℕ → ℕ → List UserRole → List UserRole
unfolding same_assignment
without user role urs = filter (λ (ur : UserRole). not (same_assignment user role ur)) urs

-- The new rows, and the cache without the user.
store_assignments : ℕ → List UserRole → Store → Store
unfolding invalidate
store_assignments user urs s = record s {
  tables = record s.tables { user_roles = urs };
  cache = invalidate user s.cache;
}

-- INSERT OR REPLACE
unfoldable pub assign_role_to_user : Moment → ℕ → ℕ → Option ℕ → Option Str → Store → Result
unfolding without store_assignments
assign_role_to_user m user role granted_by expires_at s =
    if not m.available
    then (some database_error, s)
    else let added : UserRole = record {
      user_id = user;
      role_id = role;
      granted_by = granted_by;
      expires_at = expires_at;
    } in
      (none, store_assignments user (without user role s.tables.user_roles ++ (added ∷ [])) s)

unfoldable pub remove_role_from_user : Moment → ℕ → ℕ → Store → Result
unfolding without store_assignments
remove_role_from_user m user role s =
    if not m.available
    then (some database_error, s)
    else (none, store_assignments user (without user role s.tables.user_roles) s)
