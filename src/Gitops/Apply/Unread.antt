-- ===== src/Gitops/Apply/Unread.antt =====
-- What the safety checks do when the size of a dataset cannot be read.
use d_plane_os.Prelude.{◌≡◌, refl, ap, Str, true, ◌∷◌, if◌then◌else◌}
use d_plane_os.Gitops.State.{LiveDataset, delete}
use d_plane_os.Gitops.System.{
  System, World, Effect, Reply, zfs_get_used, zfs_list_used, zfs_destroy, zpool_destroy, call,
}
use d_plane_os.Gitops.Live.{used_of_reply, dataset_used_bytes}
use d_plane_os.Gitops.Plan.{dataset_verdict, blocked_check_dataset}
use d_plane_os.Gitops.Apply.Outcome.{Outcome, ok}
use d_plane_os.Gitops.Apply.Zfs.{check_listing, delete_dataset, destroy_pool}
use d_plane_os.Gitops.Apply.Safety.{world-check}

-- The query of a dataset's size, or the listing of a pool, fails in this world.
abbrev pub Fails : System → Effect → World → Type 0
Fails sys e w = (sys.answer w.trace e).failed ≡ true

used_of_failed :
    (sys : System) (e : Effect) (w : World)
    → Fails sys e w
    → used_of_reply (sys.answer w.trace e) ≡ 0
unfolding used_of_reply
used_of_failed sys e w h = rw (h, if◌then◌else◌) refl

-- If the used bytes of a dataset cannot be read, the plan deletes it without approval, and the
-- deletion runs `zfs destroy` on it right after a query that fails.
pub delete_dataset-unread :
    (sys : System) (ld : LiveDataset) (w : World)
    → Fails sys (zfs_get_used ld.name) w
    → ((blocked_check_dataset sys ld w).0.action ≡ delete)
      × ((delete_dataset sys ld.name w).1.trace
          ≡ zfs_destroy ld.name ∷ zfs_get_used ld.name ∷ w.trace)
unfolding blocked_check_dataset dataset_verdict delete_dataset dataset_used_bytes call
delete_dataset-unread sys ld w h =
    let zero = used_of_failed sys (zfs_get_used ld.name) w h in
    (rw zero refl, rw (zero, world-check) refl)

check_listing_failed :
    (sys : System) (name : Str) (r : Reply) (w : World)
    → r.failed ≡ true
    → check_listing sys name r w ≡ (ok tt, w)
unfolding check_listing
check_listing_failed sys name r w h = rw (h, if◌then◌else◌) refl

-- If the datasets of a pool cannot be listed, an approved destruction of the pool runs
-- `zpool destroy` without having looked at any of them.
pub destroy_pool-unlisted :
    (sys : System) (name : Str) (w : World)
    → Fails sys (zfs_list_used name) w
    → (destroy_pool sys name w).1.trace ≡ zpool_destroy name ∷ zfs_list_used name ∷ w.trace
unfolding destroy_pool call
destroy_pool-unlisted sys name w h =
    let w' = (call sys (zfs_list_used name) w).1 in
    let unseen = check_listing_failed sys name (sys.answer w.trace (zfs_list_used name)) w' h in
    rw (unseen, world-check)
      (ap (λ (p : Outcome (Unit {0}) × World). zpool_destroy name ∷ p.1.trace) unseen)
