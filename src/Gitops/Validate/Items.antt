-- ===== src/Gitops/Validate/Items.antt =====
-- A resource gives no message exactly when it meets the rules and its name is new.
use d_plane_os.Prelude.{
  ◌≡◌, refl, ◌≢◌, ◌↔◌, ◌⊎◌, inl, inr, Str, str, str_eq, member, has_prefix, All, In, Bool, true,
  false, not, ◌&&◌, ◌||◌, List, [], ◌∷◌, ◌++◌, ℤ, pos, negsuc, arith, str_eq_iff, member_iff,
  has_prefix_iff, contains_any_iff,
}
use d_plane_os.Gitops.State.{DesiredPool, DesiredDataset, DesiredShare}
use d_plane_os.Gitops.Validate.{
  PoolError, DatasetError, ShareError, when, by_id_prefix, shell_chars, disk_errors, valid_vdev,
  valid_comp, valid_atime, disks_errors, ashift_bad, is_empty, pool_errors, dataset_errors,
  share_errors,
}
use d_plane_os.Gitops.Validate.Rules.{IsSafeDisk, IsAshift, IsPool, IsDataset, IsShare, StartsWith}
use d_plane_os.Gitops.Validate.Chars.{valid_pool_re_iff, valid_dataset_re_iff}

-- The last test, and a test in front of the others.
module _ {ℓ} {E : Type ℓ} {P : Type 0} where
  when_iff : (b : Bool) (e : E) → (b ≡ false) ↔ P → (when b e ≡ []) ↔ P
  when_iff true e h = (λ k. cc, λ k. cc (h.1 k))
  when_iff false e h = (λ k. h.0 refl, λ k. refl)

  pub when-append_iff :
      {Q : Type 0} (b : Bool) (e : E) (es : List E)
      → (b ≡ false) ↔ P
      → (es ≡ []) ↔ Q
      → (when b e ++ es ≡ []) ↔ (P × Q)
  when-append_iff true e es h k = (λ m. cc, λ m. cc (h.1 m.0))
  when-append_iff false e es h k = (λ m. (h.0 refl, k.0 m), λ m. k.1 m.1)

  pub append_iff :
      {Q : Type 0} (xs ys : List E) → (xs ≡ []) ↔ P → (ys ≡ []) ↔ Q → (xs ++ ys ≡ []) ↔ (P × Q)
  append_iff [] ys h k = (λ m. (h.0 refl, k.0 m), λ m. k.1 m.1)
  append_iff (x ∷ xs) ys h k = (λ m. cc, λ m. cc (h.1 m.0))

pub not_iff : {P : Type 0} (b : Bool) → (b ≡ true) ↔ P → (not b ≡ false) ↔ P
not_iff true h = (λ k. h.0 refl, λ k. refl)
not_iff false h = (λ k. cc, λ k. cc (h.1 k))

false_iff : {P : Type 0} (b : Bool) → (b ≡ true) ↔ P → (b ≡ false) ↔ (¬ P)
false_iff true h = (λ k. cc, λ k. absurd (k (h.0 refl)))
false_iff false h = (λ k p. cc (h.1 p), λ k. refl)

disk_errors_iff : (d : Str) → (disk_errors d ≡ []) ↔ IsSafeDisk d
unfolding disk_errors
disk_errors_iff d =
    when-append_iff _ _ _ (not_iff _ (has_prefix_iff by_id_prefix d))
      (when_iff _ _ (contains_any_iff shell_chars d))

disks_errors_iff : (ds : List Str) → (disks_errors ds ≡ []) ↔ All IsSafeDisk ds
unfolding disks_errors
disks_errors_iff [] = (λ h. tt, λ h. refl)
disks_errors_iff (d ∷ ds) = append_iff _ _ (disk_errors_iff d) (disks_errors_iff ds)

ashift_bad_iff : (a : ℤ) → (ashift_bad a ≡ false) ↔ IsAshift a
unfolding ashift_bad
ashift_bad_iff (pos n) = ground arith
ashift_bad_iff (negsuc n) = (λ h. cc, λ h. absurd h)

is_empty_iff {ℓ} : {A : Type ℓ} (xs : List A) → (is_empty xs ≡ false) ↔ (xs ≢ [])
unfolding is_empty
is_empty_iff [] = (λ h. cc, λ h. absurd (h refl))
is_empty_iff (x ∷ xs) = (λ h e. cc, λ h. refl)

name_is_new : (n : Str) (seen : List Str) → (member n seen ≡ false) ↔ (¬ In n seen)
name_is_new n seen = false_iff _ (member_iff n seen)

pub pool_errors_iff :
    (seen : List Str) (p : DesiredPool)
    → (pool_errors seen p ≡ []) ↔ (IsPool p × (¬ In p.name seen))
unfolding pool_errors
pool_errors_iff seen p =
    let h = when-append_iff _ PoolError.invalid_name _ (not_iff _ (valid_pool_re_iff p.name)) (
      when-append_iff _ PoolError.duplicate_name _ (name_is_new p.name seen) (
        when-append_iff _ (PoolError.unknown_vdev_type p.vdev_type) _
          (not_iff _ (member_iff p.vdev_type valid_vdev))
          (when-append_iff _ PoolError.no_disks _ (is_empty_iff p.disks) (
            append_iff _ _ (disks_errors_iff p.disks)
              (when_iff _ (PoolError.ashift_out_of_range p.ashift) (ashift_bad_iff p.ashift)))))) in
    (λ e. let (n, (new, rest)) = h.0 e in ((n, rest), new), λ k. h.1 (k.0.0, (k.1, k.0.1)))

or_iff :
    {P Q : Type 0} (a b : Bool)
    → (a ≡ true) ↔ P
    → (b ≡ true) ↔ Q
    → (not a && not b ≡ false) ↔ (P ⊎ Q)
or_iff true b h k = (λ m. inl (h.0 refl), λ m. refl)
or_iff false true h k = (λ m. inr (k.0 refl), λ m. refl)
or_iff false false h k = (λ m. cc, λ m. elim m [ inl p ↦ cc (h.1 p) | inr q ↦ cc (k.1 q) ])

pub dataset_errors_iff :
    (seen : List Str) (d : DesiredDataset)
    → (dataset_errors seen d ≡ []) ↔ (IsDataset d × (¬ In d.name seen))
unfolding dataset_errors
dataset_errors_iff seen d =
    let h =
      when-append_iff _ DatasetError.invalid_name _ (not_iff _ (valid_dataset_re_iff d.name)) (
        when-append_iff _ DatasetError.duplicate_name _ (name_is_new d.name seen) (
          when-append_iff _ (DatasetError.unknown_compression d.compression) _
            (not_iff _ (member_iff d.compression valid_comp))
            (when-append_iff _ DatasetError.bad_atime _ (not_iff _ (member_iff d.atime valid_atime))
              (when_iff _ DatasetError.relative_mountpoint (
                or_iff _ _ (str_eq_iff d.mountpoint (str ""))
                  (has_prefix_iff (str "/") d.mountpoint)))))) in
    (λ e. let (n, (new, rest)) = h.0 e in ((n, rest), new), λ k. h.1 (k.0.0, (k.1, k.0.1)))

-- A path that begins with a slash is not empty.
path_iff :
    (p : Str) → (str_eq p (str "") || not (has_prefix (str "/") p) ≡ false) ↔ StartsWith (str "/") p
unfolding str str_eq has_prefix
path_iff [] = (λ h. cc, λ h. cc h.1)
path_iff (c ∷ p) = (λ h. (p, ground arith), λ h. ground (arith, h.1))

pub share_errors_iff :
    (seen : List Str) (s : DesiredShare)
    → (share_errors seen s ≡ []) ↔ (IsShare s × (¬ In s.name seen))
unfolding share_errors
share_errors_iff seen s =
    let h = when-append_iff _ ShareError.invalid_name _ (not_iff _ (valid_pool_re_iff s.name)) (
      when-append_iff _ ShareError.duplicate_name _ (name_is_new s.name seen)
        (when_iff _ ShareError.bad_path (path_iff s.path))) in
    (λ e. let (n, (new, rest)) = h.0 e in ((n, rest), new), λ k. h.1 (k.0.0, (k.1, k.0.1)))
