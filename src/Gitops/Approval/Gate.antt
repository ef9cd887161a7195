-- ===== src/Gitops/Approval/Gate.antt =====
-- A blocked item that no one approved holds the whole plan back.
use mathlib.Core.Path.{subst}
use d_plane_os.Prelude.{
  ◌<◌, arith, ◌≡◌, inl, inr, refl, sym, Str, member, true, false, not, ◌&&◌, some, All, In, List,
  [], ◌∷◌, map, Bool-cases, if◌then◌else◌,
}
use d_plane_os.Gitops.State.{DesiredState, LiveState, blocked, DiffItem, Plan}
use d_plane_os.Gitops.System.{System, World}
use d_plane_os.Gitops.Plan.{compute_diff}
use d_plane_os.Gitops.Plan.Tally.{count_of, compute_diff-IsTallied}
use d_plane_os.Gitops.Plan.Contract.{IsContract}
use d_plane_os.Gitops.Plan.Contract.Whole.{compute_diff-IsContract}
use d_plane_os.Gitops.Approval.{
  GitOpsHandler, Answer, needs_approval, item_key, stamp_item, stamp_approvals, is_blocked,
  unapproved, is_nonempty, apply_stamped, apply_handler,
}

All-In :
    (P : DiffItem → Type 0) (its : List DiffItem) (it : DiffItem) → All P its → In it its → P it
All-In P [] it h k = absurd k
All-In P (x ∷ xs) it h (inl e) = subst P e h.0
All-In P (x ∷ xs) it h (inr k) = All-In P xs it h.1 k

-- An item waits for an approval that the keys do not have.
pub record Waits (approvals : List Str) (it : DiffItem) : Type 0 where
  pub held : it.action ≡ blocked
  pub unknown : member (item_key it) approvals ≡ false

In-unapproved :
    (approvals : List Str) (its : List DiffItem) (it : DiffItem)
    → In it its
    → it.approved ≡ false
    → Waits approvals it
    → In (item_key it) (unapproved (map (stamp_item approvals) its))
unfolding unapproved stamp_item is_blocked
In-unapproved approvals [] it k a h = absurd k
In-unapproved approvals (x ∷ xs) it (inl e) a h =
    subst (λ (y : DiffItem). In (item_key it) (unapproved (map (stamp_item approvals) (y ∷ xs))))
      (sym e) (rw (h.unknown, if◌then◌else◌, h.held, a) (inl refl))
In-unapproved approvals (x ∷ xs) it (inr k) a h =
    let later = In-unapproved approvals xs it k a h in
    elim (Bool-cases
      (is_blocked (stamp_item approvals x).action && not (stamp_item approvals x).approved)) [
        | inl e ↦ rw (e, if◌then◌else◌) (inr later)
        | inr e ↦ rw (e, if◌then◌else◌) later
      ]

is_nonempty-In : (k : Str) (ks : List Str) → In k ks → is_nonempty ks ≡ true
unfolding is_nonempty
is_nonempty-In k [] h = absurd h
is_nonempty-In k (x ∷ ks) h = refl

count_of-In :
    (its : List DiffItem) (it : DiffItem)
    → In it its
    → it.action ≡ blocked
    → 0 < count_of blocked its
count_of-In [] it k h = absurd k
count_of-In (x ∷ xs) it (inl e) h =
    subst (λ (y : DiffItem). 0 < count_of blocked (y ∷ xs)) (sym e) (ground (arith, h))
count_of-In (x ∷ xs) it (inr k) h = ground (arith, count_of-In xs it k h)

-- The handler refuses, asks for the key, and has changed nothing since the plan was made.
pub record IsRefused (key : Str) (h : GitOpsHandler) (w : World)
    (r : Answer × GitOpsHandler × World) : Type 0 where
  pub keys : List Str
  pub answer : r.0 ≡ needs_approval keys
  pub asked : In key keys
  pub same_handler : r.1 ≡ h
  pub same_world : r.2 ≡ w

apply_stamped-IsRefused :
    (sys : System) (plan : Plan) (h : GitOpsHandler) (w : World) (key : Str)
    → plan.has_blocked ≡ true
    → In key (unapproved plan.items)
    → IsRefused key h w (apply_stamped sys plan h w)
unfolding apply_stamped
apply_stamped-IsRefused sys plan h w key b k =
    rw (b, is_nonempty-In key (unapproved plan.items) k, if◌then◌else◌)
      (record {
        keys = unapproved plan.items;
        answer = refl;
        asked = k;
        same_handler = refl;
        same_world = refl;
      })

-- If the plan that the apply handler makes has a blocked item whose key is not among the approvals,
-- the handler applies no item of the plan: it answers with a list of keys that has the item's, keeps
-- the approvals, and the world is as it was when the plan had been made.
pub apply_handler-gate :
    (sys : System) (d : DesiredState) (l : LiveState) (h : GitOpsHandler) (w : World)
    (it : DiffItem)
    → In it (compute_diff sys d l w).0.items
    → Waits h.approvals it
    → IsRefused (item_key it) h (compute_diff sys d l w).1 (apply_handler sys (some d) (some l) h w)
unfolding apply_handler stamp_approvals
apply_handler-gate sys d l h w it k waits =
    let r = compute_diff sys d l w in
    let tallied = compute_diff-IsTallied sys d l w in
    let counted = count_of-In r.0.items it k waits.held in
    let c =
      All-In (IsContract sys d r.1.trace) r.0.items it (compute_diff-IsContract sys d l w) k in
    apply_stamped-IsRefused sys (stamp_approvals h.approvals r.0) h r.1 (item_key it)
      (tallied.flag.1 (rw tallied.blocks counted))
      (In-unapproved h.approvals r.0.items it k c.unapproved waits)
