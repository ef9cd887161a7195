-- ===== src/Rbac/Check/Fresh.antt =====
-- What a check answers when the cache has nothing on the user.
use d_plane_os.Prelude.{
  arith, ◌≡◌, ◌≢◌, ◌↔◌, refl, ap, ℕ, ◌==◌, ==_iff, Str, str, str_eq_iff, Bool, true, false, ◌&&◌,
  ◌||◌, Option, some, none, In, any, any_iff, any-sort_by, any-filter, inl, inr, ◌⊎◌, List, [], ◌∷◌,
}
use d_plane_os.Rbac.Tables.{
  Permission, Tables, Moment, UserRole, unexpired, granted_role, links, holds_permission,
}
use d_plane_os.Rbac.Cache.{PermissionCache, get_permissions}
use d_plane_os.Rbac.Check.{allows, user_has_permission}

-- A permission covers a request when it names its resource and its action, or every action of that
-- resource, or every action of every resource.
Covers : Permission → Str → Str → Type 0
Covers p resource action =
    ((p.resource ≡ resource) × (p.action ≡ action))
    ⊎ (((p.resource ≡ resource) × (p.action ≡ str "*"))
        ⊎ ((p.resource ≡ str "*") × (p.action ≡ str "*")))

-- The tables grant a request to a user at a date: a role that the user holds by an assignment that has
-- not expired is linked to a permission that covers it.
pub Grants : Tables → Str → ℕ → Str → Str → Type 0
unfolding Covers
Grants t date user resource action =
    (p : Permission) × (In p t.permissions
      × (Covers p resource action
          × ((ur : UserRole) × (In ur t.user_roles
                × ((ur.user_id ≡ user)
                    × ((unexpired date ur.expires_at ≡ true)
                        × In (ur.role_id, p.id) t.role_permissions))))))

-- Tests and what they decide, put together.
both_iff :
    {P Q : Type 0} (a b : Bool) → ((a ≡ true) ↔ P) → ((b ≡ true) ↔ Q) → ((a && b) ≡ true) ↔ (P × Q)
both_iff true b f g = (λ h. (f.0 refl, g.0 h), λ h. g.1 h.1)
both_iff false b f g = (λ h. cc, λ h. cc (f.1 h.0))

either_iff :
    {P Q : Type 0} (a b : Bool) → ((a ≡ true) ↔ P) → ((b ≡ true) ↔ Q) → ((a || b) ≡ true) ↔ (P ⊎ Q)
either_iff true b f g = (λ h. inl (f.0 refl), λ h. refl)
either_iff false b f g = (λ h. inr (g.0 h), λ h. elim h [ inl q ↦ cc (f.1 q) | inr q ↦ g.1 q ])

allows_iff :
    (resource action : Str) (p : Permission)
    → (allows resource action p ≡ true) ↔ Covers p resource action
unfolding allows Covers
allows_iff resource action p =
    let on_resource = str_eq_iff p.resource resource in
    let on_all = str_eq_iff p.action (str "*") in
    either_iff _ _ (both_iff _ _ on_resource (str_eq_iff p.action action)) (
      either_iff _ _ (both_iff _ _ on_resource on_all)
        (both_iff _ _ (str_eq_iff p.resource (str "*")) on_all))

same_pair : (rp : ℕ × ℕ) (a b : ℕ) → ((rp.0 == a && rp.1 == b) ≡ true) ↔ (rp ≡ (a, b))
same_pair rp a b =
    let both = both_iff (rp.0 == a) (rp.1 == b) (==_iff rp.0 a) (==_iff rp.1 b) in
    (
      λ h. let (p, q) = both.0 h in rw (p, q) refl,
      λ e. both.1 (ap (λ (x : ℕ × ℕ). x.0) e, ap (λ (x : ℕ × ℕ). x.1) e),
    )

links_iff :
    (role permission : ℕ) (rps : List (ℕ × ℕ))
    → (any (links role permission) rps ≡ true) ↔ In (role, permission) rps
unfolding links
links_iff role permission [] = (λ h. cc, λ h. absurd h)
links_iff role permission (rp ∷ rps) =
    either_iff _ _ (same_pair rp role permission) (links_iff role permission rps)

holds_iff :
    (t : Tables) (date : Str) (user : ℕ) (p : Permission)
    → (holds_permission t date user p ≡ true) ↔ (
        (ur : UserRole) × (In ur t.user_roles
          × ((ur.user_id ≡ user)
              × ((unexpired date ur.expires_at ≡ true)
                  × In (ur.role_id, p.id) t.role_permissions))))
unfolding holds_permission granted_role
holds_iff t date user p =
    let found =
      any_iff
        (λ (ur : UserRole).
          granted_role date user ur && any (links ur.role_id p.id) t.role_permissions)
        t.user_roles in
    let at = λ (ur : UserRole).
      both_iff _ _ (both_iff _ _ (==_iff ur.user_id user) ((λ h. h, λ h. h)))
        (links_iff ur.role_id p.id t.role_permissions) in
    (
      λ h.
          let (ur, (i, e)) = found.0 h in
          let ((mine, valid), linked) = (at ur).0 e in (ur, (i, (mine, (valid, linked)))),
      λ (ur, (i, (mine, (valid, linked)))). found.1 (ur, (i, (at ur).1 ((mine, valid), linked))),
    )

granting_iff :
    (t : Tables) (date : Str) (user : ℕ) (resource action : Str)
    → (◌≡◌ {A = Option Bool}
        (some (
          any
            (λ (p : Permission). holds_permission t date user p && allows resource action p)
            t.permissions))
        (some true))
      ↔ Grants t date user resource action
unfolding Grants
granting_iff t date user resource action =
    let found =
      any_iff (λ (p : Permission). holds_permission t date user p && allows resource action p)
        t.permissions in
    let at =
      λ (p : Permission). both_iff _ _ (holds_iff t date user p) (allows_iff resource action p) in
    (
      λ h.
          let (p, (i, e)) = found.0 (cc h) in
          let (held, covers) = (at p).0 e in (p, (i, (covers, held))),
      λ (p, (i, (covers, held))).
          ap (λ (b : Bool). some b) (found.1 (p, (i, (at p).1 (held, covers)))),
    )

-- On a miss of the cache, and with a database that answers, a user other than the first has a permission
-- exactly if the tables grant it.
pub user_has_permission_iff :
    (m : Moment) (t : Tables) (user : ℕ) (resource action : Str) (c : PermissionCache)
    → user ≢ 1
    → m.available ≡ true
    → get_permissions m.time c user ≡ none
    → ((user_has_permission m t user resource action c).0 ≡ some true)
      ↔ Grants t m.date user resource action
unfolding user_has_permission
user_has_permission_iff m t user resource action c h k miss =
    let other : (user == 1) ≡ false = ground (arith, h) in
    rw (other, miss, k, any-sort_by, any-filter) (granting_iff t m.date user resource action)
