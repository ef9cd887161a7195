-- ===== src/Gitops/Apply/Safety/Pools.antt =====
-- The pool operations keep the trace safe.

use d_plane_os.Prelude.{
  ◌≡◌, refl, Str, str, has_prefix, trim_space, All, true, none, List, [], ◌∷◌, arith, Bool-cases,
  Option-cases, inl, inr,
}
use d_plane_os.Gitops.State.{DesiredPool}
use d_plane_os.Gitops.System.{System, zpool_create, zpool_add}
use d_plane_os.Gitops.Validate.{by_id_prefix}
use d_plane_os.Gitops.Apply.Outcome.{command_failed, not_by_id}
use d_plane_os.Gitops.Apply.Zfs.{
  bad_disk, create_args, create_pool, second_part, add_disk, modify_pool_change, modify_pool,
}
use d_plane_os.Gitops.Apply.Safety.{
  KeepsSafe, KeepsSafe-if, KeepsSafe-pure, KeepsSafe-err, KeepsSafe-bind, KeepsSafe-command,
}

bad_disk-eq_none :
    (ds : List Str) → bad_disk ds ≡ none → All (λ d. has_prefix by_id_prefix d ≡ true) ds
unfolding bad_disk
bad_disk-eq_none [] h = tt
bad_disk-eq_none (d ∷ ds) h = ground (arith, bad_disk-eq_none ds)

pub create_pool-KeepsSafe : (sys : System) (dp : DesiredPool) → KeepsSafe sys (create_pool sys dp)
unfolding create_pool
create_pool-KeepsSafe sys dp = elim (Option-cases (bad_disk dp.disks)) [
  | inl e ↦
      rw (e, create_pool)
        (KeepsSafe-command (zpool_create (create_args sys dp)) (command_failed dp.name)
          (λ t. (dp, refl, bad_disk-eq_none dp.disks e)))
  | inr (d, e) ↦ rw (e, create_pool) (KeepsSafe-err (not_by_id d))
]

add_disk-KeepsSafe : (sys : System) (name disk : Str) → KeepsSafe sys (add_disk sys name disk)
unfolding add_disk
add_disk-KeepsSafe sys name disk = elim (Bool-cases (has_prefix by_id_prefix disk)) [
  | inl e ↦
      rw (e, add_disk) (KeepsSafe-command (zpool_add name disk) (command_failed name) (λ t. e))
  | inr e ↦ rw (e, add_disk) (KeepsSafe-err (not_by_id disk))
]

modify_pool_change-KeepsSafe :
    (sys : System) (name change : Str) → KeepsSafe sys (modify_pool_change sys name change)
unfolding modify_pool_change
modify_pool_change-KeepsSafe sys name change =
    KeepsSafe-if (has_prefix (str "disk-add:") change) _ _
      (elim (Option-cases (second_part change)) [
        | inl e ↦ rw e (KeepsSafe-pure tt)
        | inr (d, e) ↦ rw e (add_disk-KeepsSafe sys name (trim_space d))
      ])
      (KeepsSafe-pure tt)

pub modify_pool-KeepsSafe :
    (sys : System) (name : Str) (changes : List Str) → KeepsSafe sys (modify_pool sys name changes)
unfolding modify_pool
modify_pool-KeepsSafe sys name [] = KeepsSafe-pure tt
modify_pool-KeepsSafe sys name (c ∷ cs) =
    KeepsSafe-bind _ _ (modify_pool_change-KeepsSafe sys name c)
      (λ _. modify_pool-KeepsSafe sys name cs)
