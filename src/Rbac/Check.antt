-- ===== src/Rbac/Check.antt =====
-- The permission checks, which read and fill the cache, and GetUserRoles. `none` is an error.
pub mod Fresh
pub mod Revived
use d_plane_os.Prelude.{
  ℕ, ◌==◌, Str, str, str_eq, Bool, true, false, ◌&&◌, ◌||◌, Option, some, none, List, [], ◌∷◌, any,
  if◌then◌else◌,
}
use d_plane_os.Rbac.Tables.{
  Permission, Role, Tables, Moment, load_user_permissions, load_user_roles,
}
use d_plane_os.Rbac.Cache.{PermissionCache, get_permissions, set_permissions, get_roles, set_roles}

-- The body of the loop over the permissions of a user.
unfoldable pub allows : Str → Str → Permission → Bool
unfolding str_eq str
allows resource action p =
    (str_eq p.resource resource && str_eq p.action action)
    || ((str_eq p.resource resource && str_eq p.action (str "*"))
        || (str_eq p.resource (str "*") && str_eq p.action (str "*")))

abbrev pub Checked : Type 0 → Type 0
Checked A = Option A × PermissionCache

-- What was loaded is stored before it is looked through.
decide_loaded : Moment → ℕ → Str → Str → PermissionCache → Option (List Permission) → Checked Bool
unfolding allows set_permissions
decide_loaded m user resource action c none = (none, c)
decide_loaded m user resource action c (some ps) =
    (some (any (allows resource action) ps), set_permissions m.time user ps c)

decide : Moment → Tables → ℕ → Str → Str → PermissionCache → Option (List Permission) → Checked Bool
unfolding allows decide_loaded load_user_permissions
decide m t user resource action c (some ps) = (some (any (allows resource action) ps), c)
decide m t user resource action c none =
    decide_loaded m user resource action c (load_user_permissions m t user)

unfoldable pub user_has_permission :
    Moment → Tables → ℕ → Str → Str → PermissionCache → Checked Bool
unfolding decide get_permissions
user_has_permission m t user resource action c =
    if user == 1
    then (some true, c)
    else decide m t user resource action c (get_permissions m.time c user)

-- The two loops: the first answer that settles the question ends them, and an error does as well.
unfoldable pub user_has_any_permission :
    Moment → Tables → ℕ → List (Str × Str) → PermissionCache → Checked Bool
unfolding user_has_permission
user_has_any_permission m t user [] c = (some false, c)
user_has_any_permission m t user (p ∷ ps) c =
    let (has, c') = user_has_permission m t user p.0 p.1 c in
    elim has [
      | none ↦ (none, c')
      | some true ↦ (some true, c')
      | some false ↦ user_has_any_permission m t user ps c'
    ]

unfoldable pub user_has_all_permissions :
    Moment → Tables → ℕ → List (Str × Str) → PermissionCache → Checked Bool
unfolding user_has_permission
user_has_all_permissions m t user [] c = (some true, c)
user_has_all_permissions m t user (p ∷ ps) c =
    let (has, c') = user_has_permission m t user p.0 p.1 c in
    elim has [
      | none ↦ (none, c')
      | some true ↦ user_has_all_permissions m t user ps c'
      | some false ↦ (some false, c')
    ]

store_roles : Moment → ℕ → PermissionCache → Option (List Role) → Checked (List Role)
unfolding set_roles
store_roles m user c none = (none, c)
store_roles m user c (some rs) = (some rs, set_roles m.time user rs c)

cached_or_loaded : Moment → Tables → ℕ → PermissionCache → Option (List Role) → Checked (List Role)
unfolding store_roles load_user_roles
cached_or_loaded m t user c (some rs) = (some rs, c)
cached_or_loaded m t user c none = store_roles m user c (load_user_roles m t user)

unfoldable pub get_user_roles : Moment → Tables → ℕ → PermissionCache → Checked (List Role)
unfolding cached_or_loaded get_roles
get_user_roles m t user c = cached_or_loaded m t user c (get_roles m.time c user)
