-- ===== src/Gitops/Plan.antt =====
-- ComputeDiff of daemon/internal/gitops/diff.go: the loops of its three phases and the tally.
pub mod Tally
pub mod Contract
pub mod Order
pub mod Settled
use d_plane_os.Prelude.{
  ℕ, ◌+◌, Str, str_eq, Bool, true, false, not, Option, some, none, List, [], ◌∷◌, ◌++◌, ltb,
  if◌then◌else◌,
}
use d_plane_os.Gitops.State.{
  DesiredPool, DesiredDataset, DesiredShare, DesiredState, LivePool, LiveDataset, LiveShare,
  LiveState, DiffAction, nop, create, modify, delete, blocked, ResourceKind, pool, dataset, share,
  low, medium, high, critical, pool_exists, dataset_used, share_active, DiffItem, Plan,
}
use d_plane_os.Gitops.System.{System, World}
use d_plane_os.Gitops.Live.{dataset_used_bytes, has_active_smb_connections}
use d_plane_os.Gitops.Diff.{
  diff_pool, diff_dataset, diff_share, risk_for_pool_changes, risk_for_dataset_changes,
}

-- A map that is filled from a slice in order: the last entry under a name is the one found.
module _ {ℓ} {A : Type ℓ} where
  unfoldable pub map_get : (A → Str) → Str → List A → Option A
  unfolding str_eq
  map_get name n [] = none
  map_get name n (x ∷ xs) = elim (map_get name n xs) [
    | some y ↦ some y
    | none ↦ if str_eq (name x) n then some x else none
  ]

  -- A loop whose body appends to the plan.
  unfoldable pub collect : (A → List DiffItem) → List A → List DiffItem
  collect body [] = []
  collect body (x ∷ xs) = body x ++ collect body xs

  -- The same for a body that asks the system.
  unfoldable pub collect_live :
      (A → World → List DiffItem × World) → List A → World → List DiffItem × World
  collect_live body [] w = ([], w)
  collect_live body (x ∷ xs) w =
      let (items, w') = body x w in
      let (rest, w'') = collect_live body xs w' in (items ++ rest, w'')

-- A literal of DiffItem that sets no other field.
abbrev pub item : ResourceKind → Str → DiffAction → DiffItem
item k n a = record {
  kind = k;
  name = n;
  action = a;
  changes = [];
  block_reason = none;
  risk_level = low;
  approved = false;
  desired_pool = none;
  desired_dataset = none;
  desired_share = none;
}

unfoldable pub create_pool_item : LiveState → DesiredPool → List DiffItem
unfolding map_get
create_pool_item live dp = elim (map_get (λ (p : LivePool). p.name) dp.name live.pools) [
  | none ↦ record (item pool dp.name create) { desired_pool = some dp } ∷ []
  | some lp ↦ []
]

unfoldable pub create_dataset_item : LiveState → DesiredDataset → List DiffItem
unfolding map_get
create_dataset_item live dd = elim (map_get (λ (d : LiveDataset). d.name) dd.name live.datasets) [
  | none ↦ record (item dataset dd.name create) { desired_dataset = some dd } ∷ []
  | some ld ↦ []
]

unfoldable pub create_share_item : LiveState → DesiredShare → List DiffItem
unfolding map_get
create_share_item live ds = elim (map_get (λ (s : LiveShare). s.name) ds.name live.shares) [
  | none ↦ record (item share ds.name create) { desired_share = some ds } ∷ []
  | some ls ↦ []
]

-- `len(changes) == 0` gives a NOP.
modified_pool : DesiredPool → List Str → DiffItem
unfolding risk_for_pool_changes
modified_pool dp [] = item pool dp.name nop
modified_pool dp (c ∷ cs) = record (item pool dp.name modify) {
  changes = c ∷ cs;
  risk_level = risk_for_pool_changes (c ∷ cs);
  desired_pool = some dp;
}

modified_dataset : DesiredDataset → List Str → DiffItem
unfolding risk_for_dataset_changes
modified_dataset dd [] = item dataset dd.name nop
modified_dataset dd (c ∷ cs) = record (item dataset dd.name modify) {
  changes = c ∷ cs;
  risk_level = risk_for_dataset_changes (c ∷ cs);
  desired_dataset = some dd;
}

modified_share : DesiredShare → List Str → DiffItem
modified_share ds [] = item share ds.name nop
modified_share ds (c ∷ cs) = record (item share ds.name modify) {
  changes = c ∷ cs;
  desired_share = some ds;
}

unfoldable pub modify_pool_item : System → LiveState → DesiredPool → List DiffItem
unfolding map_get modified_pool
modify_pool_item sys live dp = elim (map_get (λ (p : LivePool). p.name) dp.name live.pools) [
  | none ↦ []
  | some lp ↦ modified_pool dp (diff_pool sys dp lp) ∷ []
]

unfoldable pub modify_dataset_item : System → LiveState → DesiredDataset → List DiffItem
unfolding map_get modified_dataset
modify_dataset_item sys live dd =
    elim (map_get (λ (d : LiveDataset). d.name) dd.name live.datasets) [
      | none ↦ []
      | some ld ↦ modified_dataset dd (diff_dataset sys dd ld) ∷ []
    ]

unfoldable pub modify_share_item : System → LiveState → DesiredShare → List DiffItem
unfolding map_get modified_share
modify_share_item sys live ds = elim (map_get (λ (s : LiveShare). s.name) ds.name live.shares) [
  | none ↦ []
  | some ls ↦ modified_share ds (diff_share sys ds ls) ∷ []
]

unfoldable pub blocked_check_pool : LivePool → DiffItem
blocked_check_pool lp = record (item pool lp.name blocked) {
  block_reason = some (pool_exists lp.name);
  risk_level = critical;
}

unfoldable pub dataset_verdict : LiveDataset → ℕ → DiffItem
dataset_verdict ld used =
    if ltb 0 used
    then record (item dataset ld.name blocked) {
      block_reason = some (dataset_used ld.name used);
      risk_level = critical;
    }
    else record (item dataset ld.name delete) { risk_level = medium }

unfoldable pub blocked_check_dataset : System → LiveDataset → World → DiffItem × World
unfolding dataset_verdict
blocked_check_dataset sys ld w =
    let (used, w') = dataset_used_bytes sys ld.name w in (dataset_verdict ld used, w')

share_verdict : LiveShare → Bool → DiffItem
share_verdict ls active =
    if active
    then record (item share ls.name blocked) {
      block_reason = some (share_active ls.name);
      risk_level = high;
    }
    else item share ls.name delete

unfoldable pub blocked_check_share : System → LiveShare → World → DiffItem × World
unfolding share_verdict
blocked_check_share sys ls w =
    let (active, w') = has_active_smb_connections sys ls.name w in (share_verdict ls active, w')

unfoldable pub delete_pool_item : DesiredState → LivePool → List DiffItem
unfolding map_get blocked_check_pool
delete_pool_item desired lp = elim (map_get (λ (p : DesiredPool). p.name) lp.name desired.pools) [
  | some dp ↦ []
  | none ↦ blocked_check_pool lp ∷ []
]

unfoldable pub delete_dataset_item :
    System → DesiredState → LiveDataset → World → List DiffItem × World
unfolding map_get blocked_check_dataset
delete_dataset_item sys desired ld w =
    elim (map_get (λ (d : DesiredDataset). d.name) ld.name desired.datasets) [
      | some dd ↦ ([], w)
      | none ↦ let (it, w') = blocked_check_dataset sys ld w in (it ∷ [], w')
    ]

unfoldable pub delete_share_item : System → DesiredState → LiveShare → World → List DiffItem × World
unfolding map_get blocked_check_share
delete_share_item sys desired ls w =
    elim (map_get (λ (s : DesiredShare). s.name) ls.name desired.shares) [
      | some ds ↦ ([], w)
      | none ↦ let (it, w') = blocked_check_share sys ls w in (it ∷ [], w')
    ]

-- One step of the tally, by the item's action.
tally_action : DiffAction → Plan → Plan
tally_action create p = record p { create_count = p.create_count + 1 }
tally_action modify p = record p { modify_count = p.modify_count + 1 }
tally_action delete p = record p { delete_count = p.delete_count + 1 }
tally_action blocked p = record p { blocked_count = p.blocked_count + 1; has_blocked = true }
tally_action nop p = record p { nop_count = p.nop_count + 1 }

tally_loop : List DiffItem → Plan → Plan
unfolding tally_action
tally_loop [] p = p
tally_loop (it ∷ its) p = tally_loop its (tally_action it.action p)

unfoldable pub tally : List DiffItem → Plan
unfolding tally_loop
tally its =
    let p = tally_loop its (record {
      items = its;
      has_blocked = false;
      safe_to_apply = false;
      create_count = 0;
      modify_count = 0;
      delete_count = 0;
      blocked_count = 0;
      nop_count = 0;
    }) in
    record p { safe_to_apply = not p.has_blocked }

create_phase : DesiredState → LiveState → List DiffItem
create_phase desired live =
    collect (create_pool_item live) desired.pools
    ++ (collect (create_dataset_item live) desired.datasets
        ++ collect (create_share_item live) desired.shares)

modify_phase : System → DesiredState → LiveState → List DiffItem
modify_phase sys desired live =
    collect (modify_pool_item sys live) desired.pools
    ++ (collect (modify_dataset_item sys live) desired.datasets
        ++ collect (modify_share_item sys live) desired.shares)

delete_phase : System → DesiredState → LiveState → World → List DiffItem × World
delete_phase sys desired live w =
    let (ds, w') = collect_live (delete_dataset_item sys desired) live.datasets w in
    let (ss, w'') = collect_live (delete_share_item sys desired) live.shares w' in
    (collect (delete_pool_item desired) live.pools ++ (ds ++ ss), w'')

unfoldable pub plan_items : System → DesiredState → LiveState → World → List DiffItem × World
unfolding create_phase modify_phase delete_phase
plan_items sys desired live w =
    let (gone, w') = delete_phase sys desired live w in
    (create_phase desired live ++ (modify_phase sys desired live ++ gone), w')

unfoldable pub compute_diff : System → DesiredState → LiveState → World → Plan × World
compute_diff sys desired live w =
    let (items, w') = plan_items sys desired live w in (tally items, w')
