-- ===== src/Gitops/Apply/Safety/Whole.antt =====
-- Applying any plan keeps the trace safe.
use d_plane_os.Prelude.{◌≡◌, refl, Str, Option, some, none, List, [], ◌∷◌}
use d_plane_os.Gitops.State.{
  DesiredPool, DiffAction, nop, create, modify, delete, blocked, ResourceKind, pool, dataset, share,
  DiffItem, Plan,
}
use d_plane_os.Gitops.System.{System, World}
use d_plane_os.Gitops.Apply.Outcome.{Action, Outcome, ok, err, no_spec, has_blocked, ◌>>◌}
use d_plane_os.Gitops.Apply.{
  Applied, create_pool_spec, create_by_kind, modify_by_kind, delete_by_kind, execute_create,
  execute_modify, execute_delete, apply_action, apply_item, note, apply_items, apply_plan,
}
use d_plane_os.Gitops.Apply.Safety.{
  IsSafeTrace, KeepsSafe, KeepsSafe-if, KeepsSafe-pure, KeepsSafe-err, KeepsSafe-bind,
}
use d_plane_os.Gitops.Apply.Shares.{modify_share}
use d_plane_os.Gitops.Apply.Safety.Datasets.{
  create_dataset-KeepsSafe, modify_dataset-KeepsSafe, delete_dataset-KeepsSafe,
}
use d_plane_os.Gitops.Apply.Safety.Pools.{create_pool-KeepsSafe, modify_pool-KeepsSafe}
use d_plane_os.Gitops.Apply.Safety.Destroy.{destroy_pool-KeepsSafe}
use d_plane_os.Gitops.Apply.Safety.Shares.{create_share-KeepsSafe, delete_share-KeepsSafe}

module _ (sys : System) where
  create_pool_spec-KeepsSafe :
      (name : Str) (dp : Option DesiredPool) → KeepsSafe sys (create_pool_spec sys name dp)
  unfolding create_pool_spec
  create_pool_spec-KeepsSafe name none = KeepsSafe-err (no_spec name)
  create_pool_spec-KeepsSafe name (some dp) = create_pool-KeepsSafe sys dp

  create_by_kind-KeepsSafe :
      (k : ResourceKind) (it : DiffItem) → KeepsSafe sys (create_by_kind sys k it)
  create_by_kind-KeepsSafe dataset it = create_dataset-KeepsSafe sys it.name it.desired_dataset
  create_by_kind-KeepsSafe share it = create_share-KeepsSafe sys it.name it.desired_share
  create_by_kind-KeepsSafe pool it = create_pool_spec-KeepsSafe it.name it.desired_pool

  modify_by_kind-KeepsSafe :
      (k : ResourceKind) (it : DiffItem) → KeepsSafe sys (modify_by_kind sys k it)
  unfolding modify_share
  modify_by_kind-KeepsSafe dataset it = modify_dataset-KeepsSafe sys it.name it.changes
  modify_by_kind-KeepsSafe share it = create_share-KeepsSafe sys it.name it.desired_share
  modify_by_kind-KeepsSafe pool it = modify_pool-KeepsSafe sys it.name it.changes

  delete_by_kind-KeepsSafe :
      (k : ResourceKind) (it : DiffItem) → KeepsSafe sys (delete_by_kind sys k it)
  delete_by_kind-KeepsSafe dataset it = delete_dataset-KeepsSafe sys it.name
  delete_by_kind-KeepsSafe share it = delete_share-KeepsSafe sys it.name
  delete_by_kind-KeepsSafe pool it = destroy_pool-KeepsSafe sys it.name

  then_noted :
      (m : Action (Unit {0})) (a : Applied)
      → KeepsSafe sys m
      → KeepsSafe sys (m >> λ w. (ok (some a), w))
  then_noted m a h = KeepsSafe-bind m (λ _ w. (ok (some a), w)) h (λ _. KeepsSafe-pure (some a))

  apply_action-KeepsSafe : (a : DiffAction) (it : DiffItem) → KeepsSafe sys (apply_action sys a it)
  unfolding execute_create execute_modify execute_delete
  apply_action-KeepsSafe nop it = KeepsSafe-pure none
  apply_action-KeepsSafe blocked it =
      KeepsSafe-if it.approved _ _
        (then_noted (execute_delete sys it) _ (delete_by_kind-KeepsSafe it.kind it))
        (KeepsSafe-err (has_blocked it.kind it.name it.block_reason))
  apply_action-KeepsSafe create it =
      then_noted (execute_create sys it) _ (create_by_kind-KeepsSafe it.kind it)
  apply_action-KeepsSafe modify it =
      then_noted (execute_modify sys it) _ (modify_by_kind-KeepsSafe it.kind it)
  apply_action-KeepsSafe delete it =
      then_noted (execute_delete sys it) _ (delete_by_kind-KeepsSafe it.kind it)

  apply_item-KeepsSafe : (it : DiffItem) → KeepsSafe sys (apply_item sys it)
  unfolding apply_item
  apply_item-KeepsSafe it = apply_action-KeepsSafe it.action it

  apply_items-safe :
      (its : List DiffItem) (sofar : List Applied) (w : World)
      → IsSafeTrace sys w.trace
      → IsSafeTrace sys (apply_items sys its sofar w).1.trace
  unfolding apply_items
  apply_items-safe [] sofar w h = h
  apply_items-safe (it ∷ its) sofar w h =
      let k = (apply_item-KeepsSafe it).at w h in
      go (λ s. apply_items-safe its s (apply_item sys it w).1 k) k (apply_item sys it w).0 refl
    where
      go :
          ((s : List Applied)
            → IsSafeTrace sys (apply_items sys its s (apply_item sys it w).1).1.trace)
          → IsSafeTrace sys (apply_item sys it w).1.trace
          → (r : Outcome (Option Applied)) → (apply_item sys it w).0 ≡ r
          → IsSafeTrace sys (apply_items sys (it ∷ its) sofar w).1.trace
      go rest k (ok a) e = rw (e, apply_items) (rest (note a sofar))
      go rest k (err x) e = rw (e, apply_items) k

  -- Applying any plan at all, approvals included, to a world whose trace is safe leaves a safe trace:
  -- every `zfs destroy` comes right after a query of the dataset that reads as 0 bytes; every
  -- `zpool destroy` comes after a listing of the pool, and for each other dataset that the listing
  -- shows the trace before it has a query that reads as 0 bytes; every deletion of a share's row comes
  -- right after an answer that shows no client; every pool is created from by-id disks, and every
  -- disk that is added is one. A query that fails reads as 0 bytes, a listing that fails shows no
  -- dataset, and an answer that fails shows no client.
  pub apply_plan-safe :
      (plan : Plan) (w : World)
      → IsSafeTrace sys w.trace
      → IsSafeTrace sys (apply_plan sys plan w).1.trace
  unfolding apply_plan
  apply_plan-safe plan w h = apply_items-safe plan.items [] w h
