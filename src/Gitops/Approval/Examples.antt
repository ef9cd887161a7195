-- ===== src/Gitops/Approval/Examples.antt =====
-- A machine with a pool that is not declared.
use d_plane_os.Prelude.{refl, true, inl, str, str_eq, member, some, none, In, [], ◌∷◌}
use d_plane_os.Gitops.State.{DesiredState, LivePool, LiveState}
use d_plane_os.Gitops.System.{System, World}
use d_plane_os.Gitops.Plan.{
  map_get, delete_pool_item, collect, collect_live, plan_items, blocked_check_pool, compute_diff,
}
use d_plane_os.Gitops.Plan.Tally.{items-tally}
use d_plane_os.Gitops.Approval.Given.{OnlyGiven, approve_handler-OnlyGiven}
use d_plane_os.Gitops.Approval.{
  Approval, approve_handler, GitOpsHandler, apply_handler, item_key, approval_key,
}
use d_plane_os.Gitops.Approval.Gate.{Waits, IsRefused, apply_handler-gate}

abbrev silent : System
silent = record {
  answer = λ t e. record { failed = true; output = [] };
  quote = λ s. s;
  scan_scaled = λ s n. 0;
  range_order = λ ss. ss;
  new_id = λ rows. 1;
  smb_conf_path = [];
}

abbrev blank : World
blank = record { trace = []; shares = []; smb_conf = none }

abbrev stray : LivePool
stray = record { name = b'o' ∷ []; health = str "ONLINE"; disks = [] }

abbrev nothing : DesiredState
nothing = record { version = str "1"; pools = []; datasets = []; shares = [] }

abbrev one_pool : LiveState
one_pool = record { pools = stray ∷ []; datasets = []; shares = [] }

abbrev handler : GitOpsHandler
handler = record { approvals = approval_key (str "pool") (str "x") ∷ []; rows = [] }

stray_is_planned :
    In (blocked_check_pool stray) (compute_diff silent nothing one_pool blank).0.items
unfolding compute_diff plan_items collect collect_live map_get delete_pool_item
stray_is_planned = rw items-tally (inl refl)

stray-Waits : Waits handler.approvals (blocked_check_pool stray)
unfolding blocked_check_pool item_key approval_key member str_eq str
stray-Waits = record { held = refl; unknown = refl }

apply_handler-gate_example :
    IsRefused
      (item_key (blocked_check_pool stray))
      handler
      (compute_diff silent nothing one_pool blank).1
      (apply_handler silent (some nothing) (some one_pool) handler blank)
apply_handler-gate_example =
    apply_handler-gate silent nothing one_pool handler blank (blocked_check_pool stray)
      stray_is_planned stray-Waits

abbrev request : Approval
request = record { kind = str "pool"; name = b'o' ∷ []; reason = [] }

approve_handler-OnlyGiven_example :
    OnlyGiven request
      (compute_diff silent nothing one_pool blank).0.items
      handler
      (approve_handler silent true request (some nothing) (some one_pool) handler blank).1
approve_handler-OnlyGiven_example =
    approve_handler-OnlyGiven silent true request nothing one_pool handler blank
