-- ===== src/Rbac/Check/Revived.antt =====
-- How a load of roles acts on the cached permissions.
use d_plane_os.Prelude.{
  arith, ◌≡◌, refl, ◌∙◌, ℕ, ◌==◌, ◌≤◌, ◌+◌, ◌-◌, ltb, true, false, Option, some, Option-cases, inl,
  inr, List, if◌then◌else◌,
}
use d_plane_os.Rbac.Tables.{Permission, Role, Tables, Moment, load_user_roles}
use d_plane_os.Rbac.Cache.{PermissionCache, is_fresh, get_permissions, get_roles, set_roles, set_at}
use d_plane_os.Rbac.Check.{get_user_roles}

loaded :
    (m : Moment) (t : Tables) (user : ℕ)
    → m.available ≡ true
    → (rs : List Role) × (load_user_roles m t user ≡ some rs)
unfolding load_user_roles
loaded m t user up = elim (Option-cases (load_user_roles m t user)) [
  | inl e ↦ cc (rw (up, if◌then◌else◌) at e)
  | inr found ↦ found
]

reloaded :
    (m : Moment) (t : Tables) (user : ℕ) (c : PermissionCache)
    → m.available ≡ true
    → is_fresh m.time c user ≡ false
    → (rs : List Role) × ((get_user_roles m t user c).1 ≡ set_roles m.time user rs c)
unfolding get_user_roles get_roles
reloaded m t user c up stale =
    let (rs, e) = loaded m t user up in (rs, rw (stale, if◌then◌else◌, e) refl)

set_at-same : {A : Type 0} (k : ℕ) (v : Option A) (f : ℕ → Option A) → set_at k v f k ≡ v
unfolding set_at
set_at-same k v f = let same : (k == k) ≡ true = ground arith in rw (same, if◌then◌else◌) refl

updated_recently :
    (now user at : ℕ) (c : PermissionCache)
    → c.last_update user ≡ some at
    → now ≤ at + c.ttl
    → is_fresh now c user ≡ true
unfolding is_fresh
updated_recently now user at c h k =
    let young : ltb c.ttl (now - at) ≡ false = ground arith in rw (is_fresh, h, young) refl

-- An entry that was set is fresh for its lifetime.
set_roles-is_fresh :
    (now later user : ℕ) (rs : List Role) (c : PermissionCache)
    → later ≤ now + c.ttl
    → is_fresh later (set_roles now user rs c) user ≡ true
unfolding set_roles
set_roles-is_fresh now later user rs c k =
    updated_recently later user now (set_roles now user rs c)
      (set_at-same user (some now) c.last_update) k

get_permissions_fresh :
    (now user : ℕ) (c : PermissionCache)
    → is_fresh now c user ≡ true
    → get_permissions now c user ≡ c.permissions user
unfolding get_permissions
get_permissions_fresh now user c h = rw (h, if◌then◌else◌) refl

-- Permissions that were cached at any time in the past count as fresh again for the whole lifetime of an
-- entry after a load of the user's roles: both kinds share the time of the last update.
pub get_user_roles-revives :
    (m : Moment) (t : Tables) (user later : ℕ) (c : PermissionCache) (old : List Permission)
    → m.available ≡ true
    → is_fresh m.time c user ≡ false
    → c.permissions user ≡ some old
    → later ≤ m.time + c.ttl
    → get_permissions later (get_user_roles m t user c).1 user ≡ some old
unfolding set_roles
get_user_roles-revives m t user later c old up stale cached k =
    let (rs, e) = reloaded m t user c up stale in
    let again = get_permissions_fresh later user _ (set_roles-is_fresh m.time later user rs c k) in
    rw e (again ∙ cached)
