-- ===== src/Gitops/Plan/Settled.antt =====
-- The plan for a machine that is as its declaration says.
use mathlib.Core.Path.{subst}
use d_plane_os.Prelude.{◌≡◌, refl, sym, ap, Str, All, All-append, List, [], ◌∷◌, ◌++◌, some}
use d_plane_os.Gitops.State.{
  DesiredPool, DesiredDataset, DesiredShare, DesiredState, LivePool, LiveDataset, LiveShare,
  LiveState, nop, DiffItem,
}
use d_plane_os.Gitops.System.{System, World}
use d_plane_os.Gitops.Diff.{diff_pool, diff_dataset, diff_share}
use d_plane_os.Gitops.Plan.{
  map_get, collect, collect_live, create_pool_item, create_dataset_item, create_share_item,
  modify_pool_item, modify_dataset_item, modify_share_item, delete_pool_item, delete_dataset_item,
  delete_share_item, plan_items, create_phase, modify_phase, delete_phase, modified_pool,
  modified_dataset, modified_share, compute_diff,
}
use d_plane_os.Gitops.Plan.Tally.{items-tally}

-- The entry that the map has under the name has the property.
abbrev pub Found : {A : Type 0} → (A → Str) → List A → (A → Type 0) → Str → Type 0
Found {A} name xs P n = (x : A) × (map_get name n xs ≡ some x) × P x

-- What is declared is there without a difference, and what is there is declared.
pub record IsSettled (sys : System) (desired : DesiredState) (live : LiveState) : Type 0 where
  pub pools :
      All
        (λ (d : DesiredPool).
          Found (λ (l : LivePool). l.name) live.pools (λ l. diff_pool sys d l ≡ []) d.name)
        desired.pools
  pub datasets :
      All
        (λ (d : DesiredDataset).
          Found (λ (l : LiveDataset). l.name) live.datasets (λ l. diff_dataset sys d l ≡ []) d.name)
        desired.datasets
  pub shares :
      All
        (λ (d : DesiredShare).
          Found (λ (l : LiveShare). l.name) live.shares (λ l. diff_share sys d l ≡ []) d.name)
        desired.shares
  pub known_pools :
      All
        (λ (l : LivePool). Found (λ (d : DesiredPool). d.name) desired.pools (λ d. Unit) l.name)
        live.pools
  pub known_datasets :
      All
        (λ (l : LiveDataset).
          Found (λ (d : DesiredDataset). d.name) desired.datasets (λ d. Unit) l.name)
        live.datasets
  pub known_shares :
      All
        (λ (l : LiveShare). Found (λ (d : DesiredShare). d.name) desired.shares (λ d. Unit) l.name)
        live.shares

abbrev pub IsNop : DiffItem → Type 0
IsNop it = it.action ≡ nop

module _ {A : Type 0} (H : A → Type 0) where
  collect-All_when :
      (body : A → List DiffItem)
      → ((x : A) → H x → All IsNop (body x))
      → (xs : List A) → All H xs
      → All IsNop (collect body xs)
  unfolding collect
  collect-All_when body f [] h = tt
  collect-All_when body f (x ∷ xs) h =
      All-append IsNop _ _ (f x h.0) (collect-All_when body f xs h.1)

  collect_live-nil :
      (body : A → World → List DiffItem × World)
      → ((x : A) (w : World) → H x → body x w ≡ ([], w))
      → (xs : List A) (w : World) → All H xs
      → collect_live body xs w ≡ ([], w)
  unfolding collect_live
  collect_live-nil body f [] w h = refl
  collect_live-nil body f (x ∷ xs) w h = rw (f x w h.0, collect_live-nil body f xs w h.1) refl

module _ (sys : System) (desired : DesiredState) (live : LiveState)
    (h : IsSettled sys desired live) where
  create_phase-IsNop : All IsNop (create_phase desired live)
  unfolding create_phase create_pool_item create_dataset_item create_share_item
  create_phase-IsNop =
      All-append IsNop _ _ (collect-All_when _ _ (λ d f. rw (f.1, All) tt) desired.pools h.pools) (
        All-append IsNop _ _
          (collect-All_when _ _ (λ d f. rw (f.1, All) tt) desired.datasets h.datasets)
          (collect-All_when _ _ (λ d f. rw (f.1, All) tt) desired.shares h.shares))

  modify_phase-IsNop : All IsNop (modify_phase sys desired live)
  unfolding modify_phase modify_pool_item modify_dataset_item modify_share_item modified_pool
      modified_dataset modified_share
  modify_phase-IsNop =
      All-append IsNop _ _
        (collect-All_when _ _ (λ d f. rw (f.1, All, f.2) (refl, tt)) desired.pools h.pools)
        (All-append IsNop _ _
          (collect-All_when _ _ (λ d f. rw (f.1, All, f.2) (refl, tt)) desired.datasets h.datasets)
          (collect-All_when _ _ (λ d f. rw (f.1, All, f.2) (refl, tt)) desired.shares h.shares))

  pools-IsNop : All IsNop (collect (delete_pool_item desired) live.pools)
  unfolding delete_pool_item
  pools-IsNop = collect-All_when _ _ (λ l f. rw (f.1, All) tt) live.pools h.known_pools

  datasets-nil :
      (w : World) → collect_live (delete_dataset_item sys desired) live.datasets w ≡ ([], w)
  unfolding delete_dataset_item
  datasets-nil w =
      collect_live-nil _ _ (λ l w' f. rw (delete_dataset_item, f.1) refl) live.datasets w
        h.known_datasets

  shares-nil : (w : World) → collect_live (delete_share_item sys desired) live.shares w ≡ ([], w)
  unfolding delete_share_item
  shares-nil w =
      collect_live-nil _ _ (λ l w' f. rw (delete_share_item, f.1) refl) live.shares w h.known_shares

  delete_phase-settled :
      (w : World)
      → delete_phase sys desired live w ≡ (collect (delete_pool_item desired) live.pools ++ [], w)
  unfolding delete_phase
  delete_phase-settled w = rw (datasets-nil w, shares-nil w) refl

  -- The plan has only NOP items, and nothing was asked of the system to make it.
  pub compute_diff_settled :
      (w : World)
      → All IsNop (compute_diff sys desired live w).0.items
        × ((compute_diff sys desired live w).1 ≡ w)
  unfolding compute_diff plan_items
  compute_diff_settled w =
      let e = delete_phase-settled w in
      let gone =
        subst (λ (p : List DiffItem × World). All IsNop p.0) (sym e)
          (All-append IsNop _ [] pools-IsNop tt) in
      (
        rw items-tally (
            All-append IsNop _ _ create_phase-IsNop (All-append IsNop _ _ modify_phase-IsNop gone)),
        ap (λ (p : List DiffItem × World). p.1) e,
      )
