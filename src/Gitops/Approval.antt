-- ===== src/Gitops/Approval.antt =====
-- daemon/internal/handlers/gitops_handler.go: the handlers that plan, apply and approve. What
-- loadDesiredState and ReadLiveState return is an argument, `none` for an error. The approvals are
-- the keys of the map in memory; the rows are those of the table gitops_approvals, without their time.
pub mod Gate
pub mod Given
mod Examples
use d_plane_os.Prelude.{
  Str, str, str_eq, member, Bool, true, false, not, ◌&&◌, Option, some, none, List, [], ◌∷◌, ◌++◌,
  map, if◌then◌else◌,
}
use d_plane_os.Gitops.State.{
  DesiredState, LiveState, DiffAction, blocked, ResourceKind, pool, dataset, share, BlockReason,
  DiffItem, Plan,
}
use d_plane_os.Gitops.System.{System, World}
use d_plane_os.Gitops.Plan.{compute_diff}
use d_plane_os.Gitops.Apply.{ApplyResult, Applied, apply_plan}
use d_plane_os.Gitops.Apply.Outcome.{ApplyError}

pub record Approval : Type 0 where
  pub kind : Str
  pub name : Str
  pub reason : Str

pub record GitOpsHandler : Type 0 where
  pub approvals : List Str
  pub rows : List Approval

abbrev pub kind_text : ResourceKind → Str
kind_text pool = str "pool"
kind_text dataset = str "dataset"
kind_text share = str "share"

unfoldable pub approval_key : Str → Str → Str
approval_key kind name = kind ++ (b'/' ∷ name)

unfoldable pub item_key : DiffItem → Str
item_key it = approval_key (kind_text it.kind) it.name

unfoldable pub stamp_item : List Str → DiffItem → DiffItem
stamp_item approvals it =
    if member (item_key it) approvals then record it { approved = true } else it

unfoldable pub stamp_approvals : List Str → Plan → Plan
stamp_approvals approvals plan = record plan { items = map (stamp_item approvals) plan.items }

is_blocked : DiffAction → Bool
is_blocked blocked = true
is_blocked _ = false

unfoldable pub unapproved : List DiffItem → List Str
unfolding is_blocked
unapproved [] = []
unapproved (it ∷ its) =
    let rest = unapproved its in
    if is_blocked it.action && not it.approved then item_key it ∷ rest else rest

is_nonempty : List Str → Bool
is_nonempty [] = false
is_nonempty (k ∷ ks) = true

-- The answer of a handler.
pub data Answer : Type 0 where
  state_error live_error : Answer
  planned : Plan → Answer
  needs_approval : List Str → Answer
  apply_failed : ApplyResult → Answer
  apply_done : List Applied → Answer
  bad_request not_blocked : Answer
  approved_as : Str → Option BlockReason → Answer

unfoldable pub plan_handler :
    System → Option DesiredState → Option LiveState → GitOpsHandler → World → Answer × World
plan_handler sys none live h w = (state_error, w)
plan_handler sys (some d) none h w = (live_error, w)
plan_handler sys (some d) (some l) h w =
    let (plan, w') = compute_diff sys d l w in (planned (stamp_approvals h.approvals plan), w')

-- What follows on ApplyPlan.
finish : GitOpsHandler → ApplyResult × World → Answer × GitOpsHandler × World
finish h (r, w) = elim r.error [
  | some e ↦ (apply_failed r, h, w)
  | none ↦ (apply_done r.applied, record h { approvals = [] }, w)
]

apply_stamped : System → Plan → GitOpsHandler → World → Answer × GitOpsHandler × World
unfolding is_nonempty finish
apply_stamped sys plan h w =
    if plan.has_blocked && is_nonempty (unapproved plan.items)
    then (needs_approval (unapproved plan.items), h, w)
    else finish h (apply_plan sys plan w)

unfoldable pub apply_handler :
    System
    → Option DesiredState
    → Option LiveState
    → GitOpsHandler
    → World
    → Answer × GitOpsHandler × World
unfolding apply_stamped
apply_handler sys none live h w = (state_error, h, w)
apply_handler sys (some d) none h w = (live_error, h, w)
apply_handler sys (some d) (some l) h w =
    let (plan, w') = compute_diff sys d l w in
    apply_stamped sys (stamp_approvals h.approvals plan) h w'

-- The reason of the first blocked item with the kind and the name.
unfoldable pub find_blocked : Str → Str → List DiffItem → Option (Option BlockReason)
unfolding is_blocked
find_blocked kind name [] = none
find_blocked kind name (it ∷ its) =
    let rest = find_blocked kind name its in
    if str_eq (kind_text it.kind) kind && str_eq it.name name && is_blocked it.action
    then some it.block_reason
    else rest

put_approval : Approval → List Approval → List Approval
put_approval a [] = a ∷ []
put_approval a (b ∷ bs) =
    if str_eq b.kind a.kind && str_eq b.name a.name then a ∷ bs else b ∷ put_approval a bs

-- `saved` is whether the statement on the table succeeds; its error is not looked at.
approve_found :
    Bool → Approval → Option (Option BlockReason) → GitOpsHandler → Answer × GitOpsHandler
unfolding put_approval
approve_found saved a none h = (not_blocked, h)
approve_found saved a (some reason) h =
    let key = approval_key a.kind a.name in
    (
      approved_as key reason,
      record {
        approvals = key ∷ h.approvals;
        rows = if saved then put_approval a h.rows else h.rows;
      },
    )

unfoldable pub approve_handler :
    System
    → Bool
    → Approval
    → Option DesiredState
    → Option LiveState
    → GitOpsHandler
    → World
    → Answer × GitOpsHandler × World
unfolding approve_found
approve_handler sys saved a desired live h w =
    if str_eq a.kind []
    then (bad_request, h, w)
    else if str_eq a.name []
    then (bad_request, h, w)
    else elim desired [
      | none ↦ (state_error, h, w)
      | some d ↦ elim live [
        | none ↦ (live_error, h, w)
        | some l ↦
            let (plan, w') = compute_diff sys d l w in
            let (answer, h') = approve_found saved a (find_blocked a.kind a.name plan.items) h in
            (answer, h', w')
      ]
    ]
