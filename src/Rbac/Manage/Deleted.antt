-- ===== src/Rbac/Manage/Deleted.antt =====
-- What a deletion leaves.
use d_plane_os.Prelude.{◌≡◌, refl, ℕ, Str, Bool-cases, Option-cases, inl, inr, if◌then◌else◌}
use d_plane_os.Rbac.Tables.{Tables, Moment, load_user_permissions, holds_permission}
use d_plane_os.Rbac.Check.{user_has_permission}
use d_plane_os.Rbac.Manage.{
  Store, RbacError, cannot_delete_system_role, find_role, guarded, drop_role, delete_role,
}

module _ {A : Type 0} (view : Store → A) (refusal : RbacError) (m : Moment) (role : ℕ)
    (change : Tables → Tables) (s : Store) where
  -- A guarded change ends in one of two stores.
  guarded-cases :
      view (record s { tables = change s.tables }) ≡ view s
      → view (guarded refusal m role change s).1 ≡ view s
  unfolding guarded
  guarded-cases h = elim (Bool-cases m.available) [
    | inr e ↦ rw (e, if◌then◌else◌) refl
    | inl e ↦ elim (Option-cases (find_role role s.tables.roles)) [
      | inl e' ↦ rw (e, if◌then◌else◌, e') refl
      | inr (r, e') ↦ elim (Bool-cases r.is_system) [
        | inl e'' ↦ rw (e, if◌then◌else◌, e', e'') refl
        | inr e'' ↦ rw (e, if◌then◌else◌, e', e'') h
      ]
    ]
  ]

-- The deletion of a role takes no permission from anyone: every check afterwards answers as it did before,
-- from the cache or from the tables, whose assignments and links still name the role.
pub delete_role-user_has_permission :
    (m later : Moment) (role user : ℕ) (resource action : Str) (s : Store)
    → user_has_permission later
        (delete_role m role s).1.tables
        user
        resource
        action
        (delete_role m role s).1.cache
      ≡ user_has_permission later s.tables user resource action s.cache
unfolding delete_role drop_role user_has_permission load_user_permissions holds_permission
delete_role-user_has_permission m later role user resource action s =
    guarded-cases (λ (x : Store). user_has_permission later x.tables user resource action x.cache)
      cannot_delete_system_role m role (drop_role role) s refl
