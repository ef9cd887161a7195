-- ===== src/Gitops/Examples.antt =====
-- A small machine with one old pool, one old dataset and one share: tests of the gitops modules.
use d_plane_os.Prelude.{
  ◌≡◌, ◌↔◌, refl, str, str_eq, true, false, some, none, inr, All, [], ◌∷◌, pos, member,
}
use d_plane_os.Gitops.State.{
  DesiredPool, DesiredShare, DesiredState, LivePool, LiveDataset, LiveShare, LiveState, create,
  modify, delete, blocked, pool, dataset, share, DiffItem, Plan, pool_exists,
}
use d_plane_os.Gitops.System.{
  System, World, call, zfs_destroy, zfs_get_used, zpool_destroy, zfs_list_used,
}
use d_plane_os.Gitops.Apply.Zfs.{delete_dataset, destroy_pool}
use d_plane_os.Gitops.Apply.Unread.{delete_dataset-unread, destroy_pool-unlisted}
use d_plane_os.Gitops.Validate.{by_id_prefix, shell_chars, valid_vdev, valid_state}
use d_plane_os.Gitops.Validate.Rules.{IsValid}
use d_plane_os.Gitops.Validate.Sound.{valid_state_iff}
use d_plane_os.Gitops.Diff.{changes_for, diff_share, bool_eq, key_set, diff_pool}
use d_plane_os.Gitops.Plan.{item, map_get, blocked_check_dataset, compute_diff}
use d_plane_os.Gitops.Plan.Order.{IsOrdered, compute_diff-IsOrdered}
use d_plane_os.Gitops.Plan.Settled.{IsSettled}
use d_plane_os.Gitops.Apply.Idle.{apply_plan-idle}
use d_plane_os.Gitops.Plan.Tally.{IsTallied, compute_diff-IsTallied}
use d_plane_os.Gitops.Plan.Contract.{IsContract}
use d_plane_os.Gitops.Plan.Contract.Whole.{compute_diff-IsContract}
use d_plane_os.Gitops.Apply.Outcome.{has_blocked}
use d_plane_os.Gitops.Apply.Shares.{create_share, modify_share, reload_samba}
use d_plane_os.Gitops.Apply.{
  modified, apply_item, execute_create, execute_modify, apply_items, apply_plan,
}
use d_plane_os.Gitops.Apply.Safety.{IsSafeTrace}
use d_plane_os.Gitops.Apply.Safety.Whole.{apply_plan-safe}
use d_plane_os.Gitops.Apply.Halting.{
  resume, halted, apply_plan-blocked, StopsAt, apply_plan-StopsAt,
}
use d_plane_os.Gitops.Apply.Convergence.{Matches, apply_item-Matches}

-- Every command succeeds and prints nothing.
abbrev quiet : System
quiet = record {
  answer = λ t e. record { failed = false; output = [] };
  quote = λ s. s;
  scan_scaled = λ s n. 0;
  range_order = λ ss. ss;
  new_id = λ rows. 1;
  smb_conf_path = [];
}

abbrev start : World
start = record { trace = []; shares = []; smb_conf = none }

abbrev tank : DesiredPool
tank = record {
  name = b't' ∷ [];
  vdev_type = [];
  disks = str "/dev/disk/by-id/a" ∷ [];
  ashift = pos 12;
  options = [];
}

abbrev media : DesiredShare
media = record {
  name = b'm' ∷ [];
  path = str "/m";
  read_only = false;
  valid_users = [];
  comment = [];
  guest_ok = false;
}

abbrev wanted : DesiredState
wanted = record { version = str "1"; pools = tank ∷ []; datasets = []; shares = media ∷ [] }

abbrev old_pool : LivePool
old_pool = record { name = b'o' ∷ []; health = str "ONLINE"; disks = str "/dev/disk/by-id/b" ∷ [] }

abbrev old_dataset : LiveDataset
old_dataset = record {
  name = b'd' ∷ [];
  used = 0;
  avail = 0;
  compression = [];
  atime = [];
  mountpoint = [];
  quota = [];
  encrypted = false;
}

abbrev machine : LiveState
machine = record { pools = old_pool ∷ []; datasets = old_dataset ∷ []; shares = [] }

wanted_is_valid : valid_state wanted ≡ []
unfolding valid_state str valid_vdev by_id_prefix shell_chars
wanted_is_valid = refl

valid_state_iff_example : (valid_state wanted ≡ []) ↔ IsValid wanted
valid_state_iff_example = valid_state_iff wanted

compute_diff-IsTallied_example : IsTallied (compute_diff quiet wanted machine start).0
compute_diff-IsTallied_example = compute_diff-IsTallied quiet wanted machine start

compute_diff-IsContract_example :
    All
      (IsContract quiet wanted (compute_diff quiet wanted machine start).1.trace)
      (compute_diff quiet wanted machine start).0.items
compute_diff-IsContract_example = compute_diff-IsContract quiet wanted machine start

-- An old pool whose removal is blocked, between a creation and a deletion.
abbrev old_item : DiffItem
old_item = record (item pool (b'o' ∷ []) blocked) { block_reason = some (pool_exists (b'o' ∷ [])) }

abbrev new_item : DiffItem
new_item = record (item share (b'm' ∷ []) create) { desired_share = some media }

abbrev gone_item : DiffItem
gone_item = item dataset (b'd' ∷ []) delete

abbrev mixed : Plan
mixed = record {
  items = new_item ∷ old_item ∷ gone_item ∷ [];
  has_blocked = true;
  safe_to_apply = false;
  create_count = 1;
  modify_count = 0;
  delete_count = 1;
  blocked_count = 1;
  nop_count = 0;
}

apply_plan-safe_example : IsSafeTrace quiet (apply_plan quiet mixed start).1.trace
apply_plan-safe_example = apply_plan-safe quiet mixed start tt

apply_plan-blocked_example :
    apply_plan quiet mixed start
    ≡ resume (λ sofar w'. (halted old_item sofar, w')) (apply_items quiet (new_item ∷ []) [] start)
apply_plan-blocked_example =
    apply_plan-blocked quiet (new_item ∷ []) (gone_item ∷ []) old_item mixed start refl refl refl

mixed_is_refused :
    (apply_plan quiet mixed start).0.error
    ≡ some (has_blocked pool (b'o' ∷ []) (some (pool_exists (b'o' ∷ []))))
unfolding apply_plan apply_item execute_create create_share reload_samba call str
mixed_is_refused = refl

apply_plan-StopsAt_example :
    StopsAt quiet mixed.items [] start
      (has_blocked pool (b'o' ∷ []) (some (pool_exists (b'o' ∷ []))))
      (apply_plan quiet mixed start)
apply_plan-StopsAt_example =
    apply_plan-StopsAt quiet mixed start
      (has_blocked pool (b'o' ∷ []) (some (pool_exists (b'o' ∷ [])))) mixed_is_refused

-- No command succeeds.
abbrev deaf : System
deaf = record quiet { answer = λ t e. record { failed = true; output = [] } }

delete_dataset-unread_example :
    ((blocked_check_dataset deaf old_dataset start).0.action ≡ delete)
    × ((delete_dataset deaf old_dataset.name start).1.trace
        ≡ zfs_destroy old_dataset.name ∷ zfs_get_used old_dataset.name ∷ [])
delete_dataset-unread_example = delete_dataset-unread deaf old_dataset start refl

destroy_pool-unlisted_example :
    (destroy_pool deaf tank.name start).1.trace
    ≡ zpool_destroy tank.name ∷ zfs_list_used tank.name ∷ []
destroy_pool-unlisted_example = destroy_pool-unlisted deaf tank.name start refl

compute_diff-IsOrdered_example : IsOrdered (compute_diff quiet wanted machine start).0.items
compute_diff-IsOrdered_example = compute_diff-IsOrdered quiet wanted machine start

abbrev tank_there : LivePool
tank_there = record { name = tank.name; health = str "ONLINE"; disks = tank.disks }

abbrev media_there : LiveShare
media_there = record {
  id = 1;
  name = media.name;
  path = media.path;
  read_only = media.read_only;
  valid_users = media.valid_users;
  comment = media.comment;
  guest_ok = media.guest_ok;
  enabled = true;
}

-- The share is there with another path.
abbrev share_change : DiffItem
share_change = record new_item {
  kind = share;
  name = media.name;
  action = modify;
  desired_share = some media;
}

abbrev other_path : World
other_path = record start { shares = record media_there { path = str "/old" } ∷ [] }

apply_item-Matches_example :
    Matches quiet media.name media (apply_item quiet share_change other_path).1.shares
unfolding apply_item execute_modify modify_share create_share reload_samba call
apply_item-Matches_example =
    apply_item-Matches quiet share_change media (some (modified share media.name)) other_path refl
      (inr refl) refl ((λ h. h), tt) refl

abbrev as_wanted : LiveState
as_wanted = record { pools = tank_there ∷ []; datasets = []; shares = media_there ∷ [] }

as_wanted-IsSettled : IsSettled quiet wanted as_wanted
unfolding map_get diff_pool diff_share bool_eq changes_for key_set member str_eq str
as_wanted-IsSettled = record {
  pools = ((tank_there, refl, refl), tt);
  datasets = tt;
  shares = ((media_there, refl, refl), tt);
  known_pools = ((tank, refl, tt), tt);
  known_datasets = tt;
  known_shares = ((media, refl, tt), tt);
}

apply_plan-idle_example :
    (let (plan, w') = compute_diff quiet wanted as_wanted start in apply_plan quiet plan w')
    ≡ (record { applied = []; failed = []; error = none }, start)
apply_plan-idle_example = apply_plan-idle quiet wanted as_wanted start as_wanted-IsSettled
