-- ===== src/Gitops/Plan/Order.antt =====
-- The order of a plan: what it creates, then what it changes or leaves, then what it removes or blocks.
use d_plane_os.Prelude.{
  arith, ℕ, Bool, ◌≡◌, ◌⊎◌, inl, inr, refl, Str, All, All-append, List, [], ◌∷◌, ◌++◌, Option, some,
  none, Option-cases,
}
use d_plane_os.Gitops.State.{
  DesiredPool, DesiredDataset, DesiredShare, DesiredState, LivePool, LiveDataset, LiveShare,
  LiveState, nop, create, modify, delete, blocked, DiffItem,
}
use d_plane_os.Gitops.System.{System, World}
use d_plane_os.Gitops.Plan.{
  map_get, collect_live, create_pool_item, create_dataset_item, create_share_item, modify_pool_item,
  modify_dataset_item, modify_share_item, delete_pool_item, delete_dataset_item, delete_share_item,
  plan_items, create_phase, modify_phase, delete_phase, modified_pool, modified_dataset,
  modified_share, compute_diff, blocked_check_pool, blocked_check_dataset, blocked_check_share,
  dataset_verdict, share_verdict,
}
use d_plane_os.Gitops.Plan.Tally.{items-tally}
use d_plane_os.Gitops.Plan.Contract.Deletions.{collect-All}

abbrev pub Creates : DiffItem → Type 0
Creates it = it.action ≡ create

abbrev pub Changes : DiffItem → Type 0
Changes it = (it.action ≡ modify) ⊎ (it.action ≡ nop)

abbrev pub Removes : DiffItem → Type 0
Removes it = (it.action ≡ delete) ⊎ (it.action ≡ blocked)

-- An item for a resource that is found, or one for a resource that is not.
none_or :
    {A : Type 0} (P : DiffItem → Type 0) (o : Option A) (it : DiffItem)
    → P it
    → All P (elim o [ none ↦ it ∷ [] | some a ↦ [] ])
none_or P none it h = (h, tt)
none_or P (some a) it h = tt

some_or :
    {A : Type 0} (P : DiffItem → Type 0) (o : Option A) (f : A → DiffItem)
    → ((a : A) → P (f a))
    → All P (elim o [ none ↦ [] | some a ↦ f a ∷ [] ])
some_or P none f h = tt
some_or P (some a) f h = (h a, tt)

modified_pool-Changes : (dp : DesiredPool) (cs : List Str) → Changes (modified_pool dp cs)
unfolding modified_pool
modified_pool-Changes dp [] = inr refl
modified_pool-Changes dp (c ∷ cs) = inl refl

modified_dataset-Changes : (dd : DesiredDataset) (cs : List Str) → Changes (modified_dataset dd cs)
unfolding modified_dataset
modified_dataset-Changes dd [] = inr refl
modified_dataset-Changes dd (c ∷ cs) = inl refl

modified_share-Changes : (ds : DesiredShare) (cs : List Str) → Changes (modified_share ds cs)
unfolding modified_share
modified_share-Changes ds [] = inr refl
modified_share-Changes ds (c ∷ cs) = inl refl

collect_live-All :
    {A : Type 0} (P : DiffItem → Type 0) (body : A → World → List DiffItem × World)
    → ((a : A) (w : World) → All P (body a w).0)
    → (xs : List A) (w : World) → All P (collect_live body xs w).0
unfolding collect_live
collect_live-All P body h [] w = tt
collect_live-All P body h (x ∷ xs) w =
    All-append P _ _ (h x w) (collect_live-All P body h xs (body x w).1)

create_phase-Creates :
    (desired : DesiredState) (live : LiveState) → All Creates (create_phase desired live)
unfolding create_phase create_pool_item create_dataset_item create_share_item
create_phase-Creates desired live =
    All-append Creates _ _ (collect-All Creates _ (λ dp. none_or Creates _ _ refl) desired.pools) (
      All-append Creates _ _
        (collect-All Creates _ (λ dd. none_or Creates _ _ refl) desired.datasets)
        (collect-All Creates _ (λ ds. none_or Creates _ _ refl) desired.shares))

modify_phase-Changes :
    (sys : System) (desired : DesiredState) (live : LiveState)
    → All Changes (modify_phase sys desired live)
unfolding modify_phase modify_pool_item modify_dataset_item modify_share_item
modify_phase-Changes sys desired live =
    All-append Changes _ _
      (collect-All Changes _ (λ dp. some_or Changes _ _ (λ lp. modified_pool-Changes dp _))
        desired.pools)
      (All-append Changes _ _
        (collect-All Changes _ (λ dd. some_or Changes _ _ (λ ld. modified_dataset-Changes dd _))
          desired.datasets)
        (collect-All Changes _ (λ ds. some_or Changes _ _ (λ ls. modified_share-Changes ds _))
          desired.shares))

delete_pool_item-Removes :
    (desired : DesiredState) (lp : LivePool) → All Removes (delete_pool_item desired lp)
unfolding delete_pool_item blocked_check_pool
delete_pool_item-Removes desired lp =
    elim (Option-cases (map_get (λ (p : DesiredPool). p.name) lp.name desired.pools)) [
      | inl e ↦ rw (e, All) (inr refl, tt)
      | inr (x, e) ↦ rw (e, All) tt
    ]

dataset_verdict-Removes : (ld : LiveDataset) (used : ℕ) → Removes (dataset_verdict ld used)
unfolding dataset_verdict
dataset_verdict-Removes ld used = ground arith

share_verdict-Removes : (ls : LiveShare) (active : Bool) → Removes (share_verdict ls active)
unfolding share_verdict
share_verdict-Removes ls active = ground arith

delete_dataset_item-Removes :
    (sys : System) (desired : DesiredState) (ld : LiveDataset) (w : World)
    → All Removes (delete_dataset_item sys desired ld w).0
unfolding delete_dataset_item blocked_check_dataset
delete_dataset_item-Removes sys desired ld w =
    elim (Option-cases (map_get (λ (d : DesiredDataset). d.name) ld.name desired.datasets)) [
      | inl e ↦ rw (e, All) (dataset_verdict-Removes ld _, tt)
      | inr (x, e) ↦ rw (e, All) tt
    ]

delete_share_item-Removes :
    (sys : System) (desired : DesiredState) (ls : LiveShare) (w : World)
    → All Removes (delete_share_item sys desired ls w).0
unfolding delete_share_item blocked_check_share
delete_share_item-Removes sys desired ls w =
    elim (Option-cases (map_get (λ (s : DesiredShare). s.name) ls.name desired.shares)) [
      | inl e ↦ rw (e, All) (share_verdict-Removes ls _, tt)
      | inr (x, e) ↦ rw (e, All) tt
    ]

delete_phase-Removes :
    (sys : System) (desired : DesiredState) (live : LiveState) (w : World)
    → All Removes (delete_phase sys desired live w).0
unfolding delete_phase
delete_phase-Removes sys desired live w =
    let ds = collect_live (delete_dataset_item sys desired) live.datasets w in
    All-append Removes _ _ (collect-All Removes _ (delete_pool_item-Removes desired) live.pools) (
      All-append Removes _ _
        (collect_live-All Removes _ (delete_dataset_item-Removes sys desired) live.datasets w)
        (collect_live-All Removes _ (delete_share_item-Removes sys desired) live.shares ds.1))

-- The items fall into three runs, each of one kind of action.
pub record IsOrdered (its : List DiffItem) : Type 0 where
  pub created : List DiffItem
  pub changed : List DiffItem
  pub removed : List DiffItem
  pub whole : its ≡ created ++ (changed ++ removed)
  pub creates : All Creates created
  pub changes : All Changes changed
  pub removes : All Removes removed

-- In a plan all creations come first, then the modifications and the resources that need nothing, and
-- last all deletions and blocked items, so that nothing is removed before what the plan adds is there.
pub compute_diff-IsOrdered :
    (sys : System) (desired : DesiredState) (live : LiveState) (w : World)
    → IsOrdered (compute_diff sys desired live w).0.items
unfolding compute_diff plan_items
compute_diff-IsOrdered sys desired live w = record {
  created = create_phase desired live;
  changed = modify_phase sys desired live;
  removed = (delete_phase sys desired live w).0;
  whole = rw items-tally refl;
  creates = create_phase-Creates desired live;
  changes = modify_phase-Changes sys desired live;
  removes = delete_phase-Removes sys desired live w;
}
