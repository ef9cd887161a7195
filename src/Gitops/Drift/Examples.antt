-- ===== src/Gitops/Drift/Examples.antt =====
-- A check on a machine without pools, and one on a machine whose status cannot be read.
use d_plane_os.Prelude.{
  ◌≡◌, refl, ℤ, pos, Str, str, true, false, none, some, In, inl, List, [], ◌∷◌, split, trim_space,
  cut, fields,
}
use d_plane_os.Gitops.State.{DesiredPool, LivePool, Plan}
use d_plane_os.Gitops.System.{System, World, Effect, Reply, call, zpool_list, zpool_status}
use d_plane_os.Gitops.Diff.{disk_add, key_set, diff_pool}
use d_plane_os.Gitops.Plan.{compute_diff, tally, plan_items, collect, collect_live}
use d_plane_os.Gitops.Apply.{apply_plan}
use d_plane_os.Gitops.Live.Read.{read_live_pools, read_live_state, pools_of_lines}
use d_plane_os.Gitops.Live.Read.Unread.{read_live_pools-unread}
use d_plane_os.Gitops.Yaml.Schema.{parse_state_yaml}
use d_plane_os.Gitops.Drift.{DriftDetector, broadcast, run_check}
use d_plane_os.Gitops.Drift.Quiet.{run_check-quiet}

abbrev empty_system : System
empty_system = record {
  answer = λ t e. record { failed = false; output = [] };
  quote = λ s. s;
  scan_scaled = λ s n. 0;
  range_order = λ ss. ss;
  new_id = λ ss. 1;
  smb_conf_path = [];
}

abbrev start : World
start = record { trace = []; shares = []; smb_conf = none }

abbrev detector : DriftDetector
detector = record {
  state_yaml_path = str "state.yaml";
  has_hub = true;
  last_result = none;
  events = [];
}

abbrev no_scan : Str → ℤ
no_scan a = pos 0

nothing_broadcast :
    (run_check no_scan empty_system 5 (some (str "version: 1")) detector start).1.events ≡ []
unfolding run_check broadcast parse_state_yaml read_live_state compute_diff str split trim_space cut
    tally plan_items collect fields collect_live
nothing_broadcast = refl

run_check-quiet_example :
    (plan : Plan) × (((run_check no_scan empty_system 5
          (some (str "version: 1"))
          detector
          start).0.plan
        ≡ some plan)
      × ((later : World)
          → apply_plan empty_system plan later
            ≡ (record { applied = []; failed = []; error = none }, later)))
run_check-quiet_example =
    run_check-quiet no_scan empty_system 5 (some (str "version: 1")) detector start refl
      nothing_broadcast

-- `zpool list` shows tank, and `zpool status` fails.
half_answer : List Effect → Effect → Reply
unfolding str
half_answer t zpool_list = record { failed = false; output = str "tank ONLINE" }
half_answer t e = record { failed = true; output = [] }

abbrev half_system : System
half_system = record empty_system { answer = half_answer }

abbrev tank : LivePool
tank = record { name = str "tank"; health = str "ONLINE"; disks = [] }

abbrev declared_tank : DesiredPool
declared_tank = record {
  name = str "tank";
  vdev_type = [];
  disks = str "/dev/disk/by-id/a" ∷ [];
  ashift = pos 0;
  options = [];
}

tank_read : (read_live_pools half_system start).0 ≡ some (tank ∷ [])
unfolding read_live_pools half_answer call pools_of_lines split trim_space str fields
tank_read = refl

tank_disks : key_set (str "/dev/disk/by-id/a" ∷ []) ≡ str "/dev/disk/by-id/a" ∷ []
unfolding key_set
tank_disks = refl

unread : (half_answer (zpool_list ∷ []) zpool_status).failed ≡ true
unfolding half_answer
unread = refl

read_live_pools-unread_example :
    In (disk_add (str "/dev/disk/by-id/a")) (diff_pool half_system declared_tank tank)
read_live_pools-unread_example =
    read_live_pools-unread half_system start (tank ∷ []) tank declared_tank
      (str "/dev/disk/by-id/a") tank_read unread (inl refl) (rw tank_disks (inl refl))
