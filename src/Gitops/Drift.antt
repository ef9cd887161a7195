-- ===== src/Gitops/Drift.antt =====
-- daemon/internal/gitops/drift.go: the check that compares the declaration with the machine, keeps its
-- result and broadcasts it. The file is an argument, `none` where it cannot be read; so is the time. A
-- message is a constructor. The goroutine of the loop calls CheckNow once and run_check at every tick.
pub mod Quiet
mod Examples
use d_plane_os.Prelude.{
  ℕ, ℤ, Str, Bool, true, false, ltb, ◌+◌, Option, some, none, List, [], ◌∷◌, if◌then◌else◌,
}
use d_plane_os.Gitops.State.{DesiredState, LiveState, Plan}
use d_plane_os.Gitops.System.{System, World}
use d_plane_os.Gitops.Live.Read.{read_live_state}
use d_plane_os.Gitops.Plan.{compute_diff}
use d_plane_os.Gitops.Yaml.Result.{Parsed, ok, err, out_of_fuel, YamlError}
use d_plane_os.Gitops.Yaml.Schema.{parse_state_yaml}

-- The reader of the declaration never runs out of fuel; its last case stands for that value.
pub data DriftError : Type 0 where
  cannot_read_state unreadable_live_state unending_state : DriftError
  invalid_state : YamlError → DriftError

pub record DriftResult : Type 0 where
  pub checked_at : ℕ
  pub drifted : Bool
  pub plan : Option Plan
  pub error : Option DriftError
  pub state_yaml_path : Str

pub data Level : Type 0 where
  info warning critical : Level

-- What is broadcast as gitops.drift.
pub record DriftEvent : Type 0 where
  pub drifted : Bool
  pub error : Option DriftError
  pub checked_at : ℕ
  pub create_count : ℕ
  pub modify_count : ℕ
  pub delete_count : ℕ
  pub blocked_count : ℕ
  pub safe_to_apply : Bool
  pub level : Level

pub record DriftDetector : Type 0 where
  pub state_yaml_path : Str
  pub has_hub : Bool
  pub last_result : Option DriftResult
  pub events : List DriftEvent

safe_int : Option Plan → (Plan → ℕ) → ℕ
safe_int none f = 0
safe_int (some p) f = f p

level_of : DriftResult → Level
level_of r = elim r.error [
  | some e ↦ warning
  | none ↦ elim r.plan [
    | none ↦ info
    | some p ↦ if p.has_blocked then critical else if r.drifted then warning else info
  ]
]

event_of : DriftResult → DriftEvent
unfolding safe_int level_of
event_of r = record {
  drifted = r.drifted;
  error = r.error;
  checked_at = r.checked_at;
  create_count = safe_int r.plan (λ (p : Plan). p.create_count);
  modify_count = safe_int r.plan (λ (p : Plan). p.modify_count);
  delete_count = safe_int r.plan (λ (p : Plan). p.delete_count);
  blocked_count = safe_int r.plan (λ (p : Plan). p.blocked_count);
  safe_to_apply = elim r.plan [ none ↦ false | some p ↦ p.safe_to_apply ];
  level = level_of r;
}

unfoldable pub broadcast : DriftResult → DriftDetector → DriftDetector
unfolding event_of
broadcast r d = if d.has_hub then record d { events = event_of r ∷ d.events } else d

error_result : ℕ → DriftDetector → DriftError → DriftResult
error_result now d e = record {
  checked_at = now;
  drifted = false;
  plan = none;
  error = some e;
  state_yaml_path = d.state_yaml_path;
}

plan_result : ℕ → DriftDetector → Plan → DriftResult
plan_result now d plan = record {
  checked_at = now;
  drifted = ltb 0 (plan.create_count + plan.modify_count + plan.delete_count + plan.blocked_count);
  plan = some plan;
  error = none;
  state_yaml_path = d.state_yaml_path;
}

is_reported : DriftResult → Bool
is_reported r = elim r.error [ some e ↦ true | none ↦ r.drifted ]

module _ (sys : System) where
  compare_live : ℕ → DriftDetector → DesiredState → Option LiveState → World → DriftResult × World
  unfolding error_result plan_result compute_diff
  compare_live now d desired none w = (error_result now d unreadable_live_state, w)
  compare_live now d desired (some live) w =
      let (plan, w') = compute_diff sys desired live w in (plan_result now d plan, w')

  -- What follows once the declaration is parsed.
  compared : ℕ → DriftDetector → Parsed DesiredState → World → DriftResult × World
  unfolding error_result compare_live read_live_state
  compared now d (err e) w = (error_result now d (invalid_state e), w)
  compared now d out_of_fuel w = (error_result now d unending_state, w)
  compared now d (ok desired) w =
      let (live, w') = read_live_state sys w in compare_live now d desired live w'

module _ (scan_int : Str → ℤ) (sys : System) where
  unfoldable pub result_of : ℕ → DriftDetector → Option Str → World → DriftResult × World
  unfolding compared error_result parse_state_yaml
  result_of now d none w = (error_result now d cannot_read_state, w)
  result_of now d (some content) w = compared sys now d (parse_state_yaml scan_int content) w

  -- A result with an error is broadcast, and one with drift.
  unfoldable pub run_check :
      ℕ → Option Str → DriftDetector → World → DriftResult × DriftDetector × World
  unfolding result_of broadcast is_reported
  run_check now file d w =
      let (r, w') = result_of now d file w in (r, if is_reported r then broadcast r d else d, w')

  unfoldable pub check_now :
      ℕ → Option Str → DriftDetector → World → DriftResult × DriftDetector × World
  unfolding run_check
  check_now now file d w =
      let (r, d', w') = run_check now file d w in (r, record d' { last_result = some r }, w')

  -- The body of the loop for one tick is that of check_now.
  unfoldable pub loop : List (ℕ × Option Str) → DriftDetector → World → DriftDetector × World
  unfolding check_now
  loop [] d w = (d, w)
  loop (tick ∷ ticks) d w = let (r, d', w') = check_now tick.0 tick.1 d w in loop ticks d' w'

unfoldable pub last_result : DriftDetector → Option DriftResult
last_result d = d.last_result
