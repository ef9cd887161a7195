-- ===== src/Gitops/Apply/Idle.antt =====
-- A machine that is as its declaration says is left alone.
use d_plane_os.Prelude.{◌≡◌, refl, All, none, List, [], ◌∷◌}
use d_plane_os.Gitops.State.{DesiredState, LiveState, DiffItem}
use d_plane_os.Gitops.System.{System, World}
use d_plane_os.Gitops.Plan.{compute_diff}
use d_plane_os.Gitops.Plan.Settled.{IsSettled, IsNop, compute_diff_settled}
use d_plane_os.Gitops.Apply.{Applied, apply_item, note, apply_items, apply_plan}

pub apply_items_idle :
    (sys : System) (its : List DiffItem) (sofar : List Applied) (w : World)
    → All IsNop its
    → apply_items sys its sofar w ≡ (record { applied = sofar; failed = []; error = none }, w)
unfolding apply_items apply_item note
apply_items_idle sys [] sofar w h = refl
apply_items_idle sys (it ∷ its) sofar w h = rw h.0 (apply_items_idle sys its sofar w h.1)

-- If every declared pool, dataset and share is found without a difference and everything found is
-- declared, then to make the plan and to apply it asks nothing of the system, changes nothing, lists
-- nothing as applied and reports no failure.
pub apply_plan-idle :
    (sys : System) (desired : DesiredState) (live : LiveState) (w : World)
    → IsSettled sys desired live
    → (let (plan, w') = compute_diff sys desired live w in apply_plan sys plan w')
      ≡ (record { applied = []; failed = []; error = none }, w)
unfolding apply_plan
apply_plan-idle sys desired live w h =
    let (nops, same) = compute_diff_settled sys desired live h w in
    rw same (apply_items_idle sys _ [] w nops)
