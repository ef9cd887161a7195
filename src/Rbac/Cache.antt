-- ===== src/Rbac/Cache.antt =====
-- PermissionCache and its operations. A map is a function.
use d_plane_os.Prelude.{
  ℕ, ◌-◌, ◌*◌, ltb, ◌==◌, Bool, false, not, Option, some, none, List, if◌then◌else◌,
}
use d_plane_os.Rbac.Tables.{Permission, Role}

pub record PermissionCache : Type 0 where
  pub permissions : ℕ → Option (List Permission)
  pub roles : ℕ → Option (List Role)
  pub last_update : ℕ → Option ℕ
  pub ttl : ℕ

unfoldable pub set_at : {A : Type 0} → ℕ → Option A → (ℕ → Option A) → ℕ → Option A
set_at k v m j = if j == k then v else m j

-- permCache
unfoldable pub initial_cache : PermissionCache
initial_cache = record {
  permissions = λ user. none;
  roles = λ user. none;
  last_update = λ user. none;
  ttl = 5 * (60 * 1000000000);
}

-- Both maps share the time of their last update.
unfoldable pub is_fresh : ℕ → PermissionCache → ℕ → Bool
is_fresh now c user = elim (c.last_update user) [
  | none ↦ false
  | some at ↦ not (ltb c.ttl (now - at))
]

unfoldable pub get_permissions : ℕ → PermissionCache → ℕ → Option (List Permission)
unfolding is_fresh
get_permissions now c user = if is_fresh now c user then c.permissions user else none

unfoldable pub set_permissions : ℕ → ℕ → List Permission → PermissionCache → PermissionCache
unfolding set_at
set_permissions now user ps c = record c {
  permissions = set_at user (some ps) c.permissions;
  last_update = set_at user (some now) c.last_update;
}

unfoldable pub get_roles : ℕ → PermissionCache → ℕ → Option (List Role)
unfolding is_fresh
get_roles now c user = if is_fresh now c user then c.roles user else none

unfoldable pub set_roles : ℕ → ℕ → List Role → PermissionCache → PermissionCache
unfolding set_at
set_roles now user rs c = record c {
  roles = set_at user (some rs) c.roles;
  last_update = set_at user (some now) c.last_update;
}

unfoldable pub invalidate : ℕ → PermissionCache → PermissionCache
unfolding set_at
invalidate user c = record c {
  permissions = set_at user none c.permissions;
  roles = set_at user none c.roles;
  last_update = set_at user none c.last_update;
}

unfoldable pub invalidate_all : PermissionCache → PermissionCache
invalidate_all c = record c {
  permissions = λ user. none;
  roles = λ user. none;
  last_update = λ user. none;
}
