-- ===== src/Rbac/Manage/System.antt =====
-- System roles under every sequence of calls.
use d_plane_os.Prelude.{
  ==_iff, pick, ◌≡◌, refl, ℕ, ◌==◌, Str, str_eq, Bool, true, false, not, ◌&&◌, Bool-cases, Option,
  Option-cases, some, inl, inr, In, In-append, In-filter, List, [], ◌∷◌, ◌++◌, map, any, filter,
  if◌then◌else◌,
}
use d_plane_os.Rbac.Tables.{Role, Tables, Moment, links}
use d_plane_os.Rbac.Manage.{
  Store, Result, RbacError, find_role, guarded, create_role, changed_role, update_role, delete_role,
  assign_permission_to_role, remove_permission_from_role, assign_role_to_user,
  remove_role_from_user, store_assignments, change_role, drop_role, unlink,
}

-- A call that changes the tables.
pub data Operation : Type 0 where
  create : Str → Str → Str → Operation
  update : ℕ → Str → Str → Operation
  delete : ℕ → Operation
  assign_permission remove_permission : ℕ → ℕ → Operation
  assign_role : ℕ → ℕ → Option ℕ → Option Str → Operation
  remove_role : ℕ → ℕ → Operation

unfoldable pub perform : Moment → Operation → Store → Result
unfolding create_role update_role delete_role assign_permission_to_role remove_permission_from_role
    assign_role_to_user remove_role_from_user
perform m (create name display_name description) s = create_role m name display_name description s
perform m (update role display_name description) s = update_role m role display_name description s
perform m (delete role) s = delete_role m role s
perform m (assign_permission role permission) s = assign_permission_to_role m role permission s
perform m (remove_permission role permission) s = remove_permission_from_role m role permission s
perform m (assign_role user role granted_by expires_at) s =
    assign_role_to_user m user role granted_by expires_at s
perform m (remove_role user role) s = remove_role_from_user m user role s

unfoldable pub perform_all : List (Moment × Operation) → Store → Store
unfolding perform
perform_all [] s = s
perform_all (call ∷ calls) s = perform_all calls (perform call.0 call.1 s).1

-- The role's row is `r`, and the permissions that `s` linked to it are still linked.
Stands : ℕ → Role → Store → Store → Type 0
Stands role r s s' =
    (find_role role s'.tables.roles ≡ some r)
    × ((permission : ℕ)
        → In (role, permission) s.tables.role_permissions
        → In (role, permission) s'.tables.role_permissions)

find_role-append :
    (role : ℕ) (r : Role) (rs qs : List Role)
    → find_role role rs ≡ some r
    → find_role role (rs ++ qs) ≡ some r
unfolding find_role
find_role-append role r [] qs h = cc h
find_role-append role r (q ∷ rs) qs h = elim (Bool-cases (q.id == role)) [
  | inl e ↦ rw (e, if◌then◌else◌) (rw (e, if◌then◌else◌) at h)
  | inr e ↦ rw (e, if◌then◌else◌) (find_role-append role r rs qs (rw (e, if◌then◌else◌) at h))
]

and_not : (a b : Bool) → b ≡ true → (a && not b) ≡ false
and_not true b h = rw h refl
and_not false b h = refl

changed_role_system :
    (date : Str) (other : ℕ) (display_name description : Str) (q : Role)
    → q.is_system ≡ true
    → changed_role date other display_name description q ≡ q
unfolding changed_role
changed_role_system date other display_name description q h =
    rw (and_not (q.id == other) q.is_system h, if◌then◌else◌) refl

changed_role-id :
    (date : Str) (other : ℕ) (display_name description : Str) (q : Role)
    → (changed_role date other display_name description q).id ≡ q.id
unfolding changed_role
changed_role-id date other display_name description q =
    elim (Bool-cases (q.id == other && not q.is_system)) [
      | inl e ↦ rw (e, if◌then◌else◌) refl
      | inr e ↦ rw (e, if◌then◌else◌) refl
    ]

module _ (role : ℕ) (r : Role) (system : r.is_system ≡ true) where
  find_role-changed :
      (date : Str) (other : ℕ) (display_name description : Str) (rs : List Role)
      → find_role role rs ≡ some r
      → find_role role (map (changed_role date other display_name description) rs) ≡ some r
  unfolding find_role changed_role
  find_role-changed date other display_name description [] h = h
  find_role-changed date other display_name description (q ∷ rs) h =
      elim (Bool-cases (q.id == role)) [
        | inl e ↦
            let same : some q ≡ some r = rw (e, if◌then◌else◌) at h in
            let unchanged =
              changed_role_system date other display_name description q (cc (same, system)) in
            rw (unchanged, e, if◌then◌else◌) same
        | inr e ↦
            rw (changed_role-id date other display_name description q, e, if◌then◌else◌)
              (find_role-changed date other display_name description rs
                (rw (e, if◌then◌else◌) at h))
      ]

  find_role-deleted :
      (other : ℕ) (rs : List Role)
      → find_role role rs ≡ some r
      → find_role role (filter (λ (q : Role). not (q.id == other && not q.is_system)) rs) ≡ some r
  unfolding find_role
  find_role-deleted other [] h = h
  find_role-deleted other (q ∷ rs) h = elim (Bool-cases (q.id == role)) [
    | inl e ↦
        let same : some q ≡ some r = rw (e, if◌then◌else◌) at h in
        rw (and_not (q.id == other) q.is_system (cc (same, system)), if◌then◌else◌, e) same
    | inr e ↦ elim (Bool-cases (q.id == other && not q.is_system)) [
      | inl d ↦ rw (d, if◌then◌else◌) (find_role-deleted other rs (rw (e, if◌then◌else◌) at h))
      | inr d ↦ rw (d, if◌then◌else◌, e) (find_role-deleted other rs (rw (e, if◌then◌else◌) at h))
    ]
  ]

-- A guarded change keeps what the state before it has and what the change of a role that is no system role
-- has.
guarded-keeps :
    (P : Store → Type 0) (refusal : RbacError) (m : Moment) (other : ℕ) (change : Tables → Tables)
    (s : Store)
    → P s
    → ((q : Role)
        → find_role other s.tables.roles ≡ some q
        → q.is_system ≡ false
        → P (record s { tables = change s.tables }))
    → P (guarded refusal m other change s).1
unfolding guarded
guarded-keeps P refusal m other change s h k = elim (Bool-cases m.available) [
  | inr e ↦ rw (e, if◌then◌else◌) h
  | inl e ↦ elim (Option-cases (find_role other s.tables.roles)) [
    | inl e' ↦ rw (e, if◌then◌else◌, e') h
    | inr (q, e') ↦ elim (Bool-cases q.is_system) [
      | inl e'' ↦ rw (e, if◌then◌else◌, e', e'') h
      | inr e'' ↦ rw (e, if◌then◌else◌, e', e'') (k q e' e'')
    ]
  ]
]

module _ (role : ℕ) (r : Role) (system : r.is_system ≡ true) where
  unlink-keeps :
      (other permission : ℕ) (q : Role) (rs : List Role) (linked : ℕ) (rps : List (ℕ × ℕ))
      → find_role role rs ≡ some r
      → find_role other rs ≡ some q
      → q.is_system ≡ false
      → In (role, linked) rps
      → In (role, linked) (filter (λ (rp : ℕ × ℕ). not (links other permission rp)) rps)
  unfolding links
  unlink-keeps other permission q rs linked rps h e n i = elim (Bool-cases (role == other)) [
    | inl d ↦
        let same : role ≡ other = (==_iff role other).0 d in
        let found : find_role other rs ≡ some r = rw same at h in
        let one : some q ≡ some r = cc (found, e) in cc (one, n, system)
    | inr d ↦ In-filter _ (role, linked) rps (rw d refl) i
  ]

  perform-Stands :
      (m : Moment) (call : Operation) (s0 s : Store)
      → Stands role r s0 s
      → Stands role r s0 (perform m call s).1
  unfolding perform Stands create_role assign_permission_to_role assign_role_to_user
      remove_role_from_user store_assignments update_role delete_role remove_permission_from_role
      change_role drop_role unlink
  perform-Stands m (create name display_name description) s0 s h =
      pick (λ (x : Result). Stands role r s0 x.1) (not m.available) _ _ h
        (pick (λ (x : Result). Stands role r s0 x.1)
          (any (λ (q : Role). str_eq q.name name) s.tables.roles) _ _ h
          (find_role-append role r s.tables.roles _ h.0, h.1))
  perform-Stands m (update other display_name description) s0 s h =
      guarded-keeps (Stands role r s0) _ m other (change_role m.date other display_name description)
        s h
        (λ q e n. (
          find_role-changed role r system m.date other display_name description s.tables.roles h.0,
          h.1,
        ))
  perform-Stands m (delete other) s0 s h =
      guarded-keeps (Stands role r s0) _ m other (drop_role other) s h
        (λ q e n. (find_role-deleted role r system other s.tables.roles h.0, h.1))
  perform-Stands m (assign_permission other permission) s0 s h =
      pick (λ (x : Result). Stands role r s0 x.1) (not m.available) _ _ h
        (pick (λ (x : Result). Stands role r s0 x.1)
          (any (links other permission) s.tables.role_permissions) _ _ h
          (h.0, λ linked i. In-append (role, linked) s.tables.role_permissions _ (h.1 linked i)))
  perform-Stands m (remove_permission other permission) s0 s h =
      guarded-keeps (Stands role r s0) _ m other (unlink other permission) s h (λ q e n. (
        h.0,
        λ linked i.
            unlink-keeps other permission q s.tables.roles linked s.tables.role_permissions h.0 e n
              (h.1 linked i),
      ))
  perform-Stands m (assign_role user other granted_by expires_at) s0 s h =
      pick (λ (x : Result). Stands role r s0 x.1) (not m.available) _ _ h h
  perform-Stands m (remove_role user other) s0 s h =
      pick (λ (x : Result). Stands role r s0 x.1) (not m.available) _ _ h h

  perform_all-Stands :
      (calls : List (Moment × Operation)) (s0 s : Store)
      → Stands role r s0 s
      → Stands role r s0 (perform_all calls s)
  unfolding perform_all
  perform_all-Stands [] s0 s h = h
  perform_all-Stands (call ∷ calls) s0 s h =
      perform_all-Stands calls s0 _ (perform-Stands call.0 call.1 s0 s h)

-- Whatever calls are made, and whatever the database answers, the row of a system role stays as it is and
-- no permission is taken from the role.
pub perform_all-system :
    (calls : List (Moment × Operation)) (role : ℕ) (r : Role) (s : Store)
    → find_role role s.tables.roles ≡ some r
    → r.is_system ≡ true
    → (find_role role (perform_all calls s).tables.roles ≡ some r)
      × ((permission : ℕ)
          → In (role, permission) s.tables.role_permissions
          → In (role, permission) (perform_all calls s).tables.role_permissions)
unfolding Stands
perform_all-system calls role r s h system =
    perform_all-Stands role r system calls s s (h, λ permission i. i)
