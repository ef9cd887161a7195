-- ===== src/Gitops/Drift/Quiet.antt =====
-- What silence of the detector means.

use d_plane_os.Prelude.{
  arith, ◌≡◌, ◌≢◌, refl, sym, ap, ℕ, suc, ℤ, ltb, ◌+◌, Str, true, false, Bool-cases, Option, some,
  none, All, inl, inr, length, List, [], ◌∷◌, if◌then◌else◌,
}
use d_plane_os.Gitops.State.{
  DesiredState, LiveState, DiffItem, DiffAction, create, modify, delete, blocked, nop, Plan,
}
use d_plane_os.Gitops.System.{System, World}
use d_plane_os.Gitops.Live.Read.{read_live_state}
use d_plane_os.Gitops.Plan.{compute_diff}
use d_plane_os.Gitops.Plan.Tally.{same_action, count_of, IsTallied, compute_diff-IsTallied}
use d_plane_os.Gitops.Plan.Settled.{IsNop}
use d_plane_os.Gitops.Apply.{apply_plan}
use d_plane_os.Gitops.Apply.Idle.{apply_items_idle}
use d_plane_os.Gitops.Yaml.Result.{Parsed, ok, err, out_of_fuel}
use d_plane_os.Gitops.Yaml.Schema.{parse_state_yaml}
use d_plane_os.Gitops.Drift.{
  DriftDetector, broadcast, error_result, plan_result, compare_live, compared, result_of,
  is_reported, run_check,
}

-- An action that adds to none of four counts is the fifth.
uncounted :
    (a : DiffAction) (i j k l : ℕ)
    → (if same_action a create then suc i else i) ≡ 0
    → (if same_action a modify then suc j else j) ≡ 0
    → (if same_action a delete then suc k else k) ≡ 0
    → (if same_action a blocked then suc l else l) ≡ 0
    → (a ≡ nop) × ((i ≡ 0) × ((j ≡ 0) × ((k ≡ 0) × (l ≡ 0))))
uncounted nop i j k l c m d b = (refl, (c, (m, (d, b))))
uncounted create i j k l c m d b = absurd (omega (arith, c))
uncounted modify i j k l c m d b = absurd (omega (arith, m))
uncounted delete i j k l c m d b = absurd (omega (arith, d))
uncounted blocked i j k l c m d b = absurd (omega (arith, b))

uncounted-IsNop :
    (its : List DiffItem)
    → count_of create its ≡ 0
    → count_of modify its ≡ 0
    → count_of delete its ≡ 0
    → count_of blocked its ≡ 0
    → All IsNop its
uncounted-IsNop [] c m d b = tt
uncounted-IsNop (it ∷ its) c m d b =
    let (is_nop, (c', (m', (d', b')))) = uncounted it.action _ _ _ _ c m d b in
    (is_nop, uncounted-IsNop its c' m' d' b')

-- A plan of ComputeDiff that counts nothing to do.
undrifted :
    (plan : Plan)
    → IsTallied plan
    → ltb 0 (plan.create_count + plan.modify_count + plan.delete_count + plan.blocked_count) ≡ false
    → All IsNop plan.items
undrifted plan t h =
    uncounted-IsNop plan.items (ground (arith, t.creates, h)) (ground (arith, t.modifies, h))
      (ground (arith, t.deletes, h)) (ground (arith, t.blocks, h))

module _ (scan_int : Str → ℤ) (sys : System) (now : ℕ) (d : DriftDetector) where
  -- A result that is not reported holds a plan without anything to do.
  compare_live-IsNop :
      (desired : DesiredState) (live : Option LiveState) (w : World)
      → is_reported (compare_live sys now d desired live w).0 ≡ false
      → (plan : Plan) × (((compare_live sys now d desired live w).0.plan ≡ some plan)
          × All IsNop plan.items)
  unfolding compare_live is_reported error_result plan_result
  compare_live-IsNop desired none w h = cc
  compare_live-IsNop desired (some live) w h = (
    (compute_diff sys desired live w).0,
    (refl, undrifted _ (compute_diff-IsTallied sys desired live w) h),
  )

  compared-IsNop :
      (parsed : Parsed DesiredState) (w : World)
      → is_reported (compared sys now d parsed w).0 ≡ false
      → (plan : Plan) × (((compared sys now d parsed w).0.plan ≡ some plan) × All IsNop plan.items)
  unfolding compared is_reported error_result
  compared-IsNop (err e) w h = cc
  compared-IsNop out_of_fuel w h = cc
  compared-IsNop (ok desired) w h =
      compare_live-IsNop desired (read_live_state sys w).0 (read_live_state sys w).1 h

  result_of-IsNop :
      (file : Option Str) (w : World)
      → is_reported (result_of scan_int sys now d file w).0 ≡ false
      → (plan : Plan) × (((result_of scan_int sys now d file w).0.plan ≡ some plan)
          × All IsNop plan.items)
  unfolding result_of is_reported error_result
  result_of-IsNop none w h = cc
  result_of-IsNop (some content) w h = compared-IsNop (parse_state_yaml scan_int content) w h

longer : {A : Type 0} (x : A) (xs : List A) → xs ≢ x ∷ xs
longer x xs h = let e : length xs ≡ suc (length xs) = ap length h in omega (arith, e)

-- If a detector with a hub broadcasts nothing, then its check has a plan that changes nothing: to apply
-- it at any moment asks nothing of the system and reports no failure.
pub run_check-quiet :
    (scan_int : Str → ℤ) (sys : System) (now : ℕ) (file : Option Str) (d : DriftDetector)
    (w : World)
    → d.has_hub ≡ true
    → (run_check scan_int sys now file d w).1.events ≡ d.events
    → (plan : Plan) × (((run_check scan_int sys now file d w).0.plan ≡ some plan)
        × ((later : World)
            → apply_plan sys plan later
              ≡ (record { applied = []; failed = []; error = none }, later)))
unfolding run_check broadcast apply_plan
run_check-quiet scan_int sys now file d w hub h =
    elim (Bool-cases (is_reported (result_of scan_int sys now d file w).0)) [
      | inl e ↦ absurd (longer _ d.events (sym (rw (e, if◌then◌else◌, hub) at h)))
      | inr e ↦
          let (plan, (found, nops)) = result_of-IsNop scan_int sys now d file w e in
          (plan, (found, λ later. apply_items_idle sys plan.items [] later nops))
    ]
