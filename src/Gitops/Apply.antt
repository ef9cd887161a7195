-- ===== src/Gitops/Apply.antt =====
-- ApplyPlan of daemon/internal/gitops/apply.go, and its executors by kind.
pub mod Unread
pub mod Idle
pub mod Outcome
pub mod Zfs
pub mod Shares
pub mod Safety
pub mod Halting
pub mod Convergence
use d_plane_os.Prelude.{
  Str, Bool, true, false, Option, some, none, List, [], ◌∷◌, ◌++◌, if◌then◌else◌,
}
use d_plane_os.Gitops.State.{
  DesiredPool, DiffAction, nop, create, modify, delete, blocked, ResourceKind, pool, dataset, share,
  DiffItem, Plan,
}
use d_plane_os.Gitops.System.{System, World}
use Outcome.{ApplyError, has_blocked, no_spec, ok, err, Action, ◌>>=◌, ◌>>◌, fail}
use Zfs.{create_pool, modify_pool, destroy_pool, create_dataset, modify_dataset, delete_dataset}
use Shares.{create_share, modify_share, delete_share}

-- An entry of `Applied`.
pub data Applied : Type 0 where
  approved_delete created modified deleted : ResourceKind → Str → Applied

pub record ApplyResult : Type 0 where
  pub applied : List Applied
  pub failed : Str
  pub error : Option ApplyError

unfoldable pub create_pool_spec : System → Str → Option DesiredPool → Action (Unit {0})
create_pool_spec sys name none = fail (no_spec name)
create_pool_spec sys name (some dp) = create_pool sys dp

abbrev pub create_by_kind : System → ResourceKind → DiffItem → Action (Unit {0})
create_by_kind sys dataset it = create_dataset sys it.name it.desired_dataset
create_by_kind sys share it = create_share sys it.name it.desired_share
create_by_kind sys pool it = create_pool_spec sys it.name it.desired_pool

unfoldable pub execute_create : System → DiffItem → Action (Unit {0})
unfolding create_pool_spec
execute_create sys it = create_by_kind sys it.kind it

abbrev pub modify_by_kind : System → ResourceKind → DiffItem → Action (Unit {0})
modify_by_kind sys dataset it = modify_dataset sys it.name it.changes
modify_by_kind sys share it = modify_share sys it.name it.desired_share
modify_by_kind sys pool it = modify_pool sys it.name it.changes

unfoldable pub execute_modify : System → DiffItem → Action (Unit {0})
execute_modify sys it = modify_by_kind sys it.kind it

abbrev pub delete_by_kind : System → ResourceKind → DiffItem → Action (Unit {0})
delete_by_kind sys dataset it = delete_dataset sys it.name
delete_by_kind sys share it = delete_share sys it.name
delete_by_kind sys pool it = destroy_pool sys it.name

unfoldable pub execute_delete : System → DiffItem → Action (Unit {0})
execute_delete sys it = delete_by_kind sys it.kind it

-- What the loop does for an item and appends to `Applied`; a NOP appends nothing.
abbrev pub apply_action : System → DiffAction → DiffItem → Action (Option Applied)
apply_action sys nop it = λ w. (ok none, w)
apply_action sys blocked it =
    if it.approved
    then (do execute_delete sys it; λ w. (ok (some (approved_delete it.kind it.name)), w))
    else λ w. (err (has_blocked it.kind it.name it.block_reason), w)
apply_action sys create it = do execute_create sys it; λ w. (ok (some (created it.kind it.name)), w)
apply_action sys modify it = do
  execute_modify sys it
  λ w. (ok (some (modified it.kind it.name)), w)
apply_action sys delete it = do execute_delete sys it; λ w. (ok (some (deleted it.kind it.name)), w)

unfoldable pub apply_item : System → DiffItem → Action (Option Applied)
apply_item sys it = apply_action sys it.action it

unfoldable pub note : Option Applied → List Applied → List Applied
note none as' = as'
note (some a) as' = as' ++ a ∷ []

unfoldable pub apply_items : System → List DiffItem → List Applied → World → ApplyResult × World
unfolding note
apply_items sys [] sofar w = (record { applied = sofar; failed = []; error = none }, w)
apply_items sys (it ∷ its) sofar w =
    let (r, w') = apply_item sys it w in
    elim r [
      | ok a ↦ apply_items sys its (note a sofar) w'
      | err e ↦ (record { applied = sofar; failed = it.name; error = some e }, w')
    ]

unfoldable pub apply_plan : System → Plan → World → ApplyResult × World
unfolding apply_items
apply_plan sys plan w = apply_items sys plan.items [] w
