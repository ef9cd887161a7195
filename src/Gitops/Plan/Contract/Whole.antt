-- ===== src/Gitops/Plan/Contract/Whole.antt =====
-- Every item of a plan keeps the safety contract.
use mathlib.Core.Path.{subst}
use mathlib.Core.List.{append_assoc}
use d_plane_os.Prelude.{
  All-weaken, ◌≡◌, refl, sym, ap, ◌∙◌, Str, false, All, All-append, List, [], ◌∷◌, ◌++◌,
  Option-cases, inl, inr,
}
use d_plane_os.Gitops.State.{
  DesiredPool, DesiredDataset, DesiredShare, DesiredState, LivePool, LiveDataset, LiveShare,
  LiveState, create, DiffItem,
}
use d_plane_os.Gitops.System.{System, World, Effect}
use d_plane_os.Gitops.Plan.{
  map_get, collect_live, create_pool_item, create_dataset_item, create_share_item, modify_pool_item,
  modify_dataset_item, modify_share_item, delete_dataset_item, delete_share_item, plan_items,
  create_phase, modify_phase, delete_phase, modified_pool, modified_dataset, modified_share,
  compute_diff,
}
use d_plane_os.Gitops.Plan.Tally.{items-tally}
use d_plane_os.Gitops.Plan.Contract.{IsContract}
use d_plane_os.Gitops.Plan.Contract.Deletions.{
  collect-All, harmless, Keeps, later-IsContract, collect_live-Keeps, pool_item-IsContract,
  dataset_item-Keeps, share_item-Keeps,
}

module _ (sys : System) (desired : DesiredState) (t : List Effect) where
  created-IsContract :
      (it : DiffItem) → it.action ≡ create → it.approved ≡ false → IsContract sys desired t it
  created-IsContract it c a = harmless sys desired t it a (λ h. cc) (λ h. cc)

  create_pool_item-IsContract :
      (live : LiveState) (dp : DesiredPool)
      → All (IsContract sys desired t) (create_pool_item live dp)
  unfolding create_pool_item
  create_pool_item-IsContract live dp =
      elim (Option-cases (map_get (λ (p : LivePool). p.name) dp.name live.pools)) [
        | inl e ↦ rw (e, All) (created-IsContract _ refl refl, tt)
        | inr (x, e) ↦ rw (e, All) tt
      ]

  create_dataset_item-IsContract :
      (live : LiveState) (dd : DesiredDataset)
      → All (IsContract sys desired t) (create_dataset_item live dd)
  unfolding create_dataset_item
  create_dataset_item-IsContract live dd =
      elim (Option-cases (map_get (λ (d : LiveDataset). d.name) dd.name live.datasets)) [
        | inl e ↦ rw (e, All) (created-IsContract _ refl refl, tt)
        | inr (x, e) ↦ rw (e, All) tt
      ]

  create_share_item-IsContract :
      (live : LiveState) (ds : DesiredShare)
      → All (IsContract sys desired t) (create_share_item live ds)
  unfolding create_share_item
  create_share_item-IsContract live ds =
      elim (Option-cases (map_get (λ (s : LiveShare). s.name) ds.name live.shares)) [
        | inl e ↦ rw (e, All) (created-IsContract _ refl refl, tt)
        | inr (x, e) ↦ rw (e, All) tt
      ]

  modified_pool-IsContract :
      (dp : DesiredPool) (cs : List Str) → IsContract sys desired t (modified_pool dp cs)
  unfolding modified_pool
  modified_pool-IsContract dp [] = harmless sys desired t _ refl (λ h. cc) (λ h. cc)
  modified_pool-IsContract dp (c ∷ cs) = harmless sys desired t _ refl (λ h. cc) (λ h. cc)

  modified_dataset-IsContract :
      (dd : DesiredDataset) (cs : List Str) → IsContract sys desired t (modified_dataset dd cs)
  unfolding modified_dataset
  modified_dataset-IsContract dd [] = harmless sys desired t _ refl (λ h. cc) (λ h. cc)
  modified_dataset-IsContract dd (c ∷ cs) = harmless sys desired t _ refl (λ h. cc) (λ h. cc)

  modified_share-IsContract :
      (ds : DesiredShare) (cs : List Str) → IsContract sys desired t (modified_share ds cs)
  unfolding modified_share
  modified_share-IsContract ds [] = harmless sys desired t _ refl (λ h. cc) (λ h. cc)
  modified_share-IsContract ds (c ∷ cs) = harmless sys desired t _ refl (λ h. cc) (λ h. cc)

  modify_pool_item-IsContract :
      (live : LiveState) (dp : DesiredPool)
      → All (IsContract sys desired t) (modify_pool_item sys live dp)
  unfolding modify_pool_item
  modify_pool_item-IsContract live dp =
      elim (Option-cases (map_get (λ (p : LivePool). p.name) dp.name live.pools)) [
        | inl e ↦ rw (e, All) tt
        | inr (x, e) ↦ rw (e, All) (modified_pool-IsContract dp _, tt)
      ]

  modify_dataset_item-IsContract :
      (live : LiveState) (dd : DesiredDataset)
      → All (IsContract sys desired t) (modify_dataset_item sys live dd)
  unfolding modify_dataset_item
  modify_dataset_item-IsContract live dd =
      elim (Option-cases (map_get (λ (d : LiveDataset). d.name) dd.name live.datasets)) [
        | inl e ↦ rw (e, All) tt
        | inr (x, e) ↦ rw (e, All) (modified_dataset-IsContract dd _, tt)
      ]

  modify_share_item-IsContract :
      (live : LiveState) (ds : DesiredShare)
      → All (IsContract sys desired t) (modify_share_item sys live ds)
  unfolding modify_share_item
  modify_share_item-IsContract live ds =
      elim (Option-cases (map_get (λ (s : LiveShare). s.name) ds.name live.shares)) [
        | inl e ↦ rw (e, All) tt
        | inr (x, e) ↦ rw (e, All) (modified_share-IsContract ds _, tt)
      ]

  create_phase-IsContract :
      (live : LiveState) → All (IsContract sys desired t) (create_phase desired live)
  unfolding create_phase
  create_phase-IsContract live =
      let P = IsContract sys desired t in
      All-append P _ _ (collect-All P _ (create_pool_item-IsContract live) desired.pools) (
        All-append P _ _ (collect-All P _ (create_dataset_item-IsContract live) desired.datasets)
          (collect-All P _ (create_share_item-IsContract live) desired.shares))

  modify_phase-IsContract :
      (live : LiveState) → All (IsContract sys desired t) (modify_phase sys desired live)
  unfolding modify_phase
  modify_phase-IsContract live =
      let P = IsContract sys desired t in
      All-append P _ _ (collect-All P _ (modify_pool_item-IsContract live) desired.pools) (
        All-append P _ _ (collect-All P _ (modify_dataset_item-IsContract live) desired.datasets)
          (collect-All P _ (modify_share_item-IsContract live) desired.shares))

module _ (sys : System) (desired : DesiredState) where
  delete_phase-Keeps :
      (live : LiveState) (w : World) → Keeps sys desired w (delete_phase sys desired live w)
  unfolding delete_phase
  delete_phase-Keeps live w =
      let ds = collect_live (delete_dataset_item sys desired) live.datasets w in
      let ss = collect_live (delete_share_item sys desired) live.shares ds.1 in
      let ((l, e), d) =
        collect_live-Keeps sys desired _ (dataset_item-Keeps sys desired) live.datasets w in
      let ((m, f), s) =
        collect_live-Keeps sys desired _ (share_item-Keeps sys desired) live.shares ds.1 in
      let P = IsContract sys desired ss.1.trace in
      (
        (m ++ l, f ∙ ap (λ t. m ++ t) e ∙ sym (append_assoc m l w.trace)),
        All-append P _ _ (collect-All P _ (pool_item-IsContract sys desired ss.1.trace) live.pools)
            (All-append P _ _
              (All-weaken
                (λ it c.
                  subst (λ t. IsContract sys desired t it) (sym f)
                    (later-IsContract sys desired m ds.1.trace it c))
                _ d)
              s),
      )

  -- No item of a plan is approved. What a plan deletes or blocks is not declared in state.yaml. A
  -- plan deletes no pool; it deletes a dataset only after an answer of `zfs get used` that reads as 0
  -- bytes, and a share only after an answer of `smbstatus` that shows no client of it. A dataset is
  -- blocked only after an answer above 0 bytes, and a share after one that shows a client.
  pub compute_diff-IsContract :
      (live : LiveState) (w : World)
      → let r = compute_diff sys desired live w in All (IsContract sys desired r.1.trace) r.0.items
  unfolding compute_diff plan_items
  compute_diff-IsContract live w =
      let t = (delete_phase sys desired live w).1.trace in
      let P = IsContract sys desired t in
      rw items-tally (
        All-append P _ _ (create_phase-IsContract sys desired t live) (
          All-append P _ _ (modify_phase-IsContract sys desired t live)
            (delete_phase-Keeps live w).1))
