-- ===== src/Gitops/Approval/Given.antt =====
-- Only what is blocked right now can be approved.
use d_plane_os.Prelude.{
  arith, ◌≡◌, ◌⊎◌, inl, inr, refl, sym, Str, str_eq, str_eq_iff, Bool, true, ◌&&◌, Option, some,
  none, In, List, [], ◌∷◌, Bool-cases, if◌then◌else◌,
}
use d_plane_os.Gitops.State.{
  DesiredState, LiveState, DiffAction, nop, create, modify, delete, blocked, BlockReason, DiffItem,
}
use d_plane_os.Gitops.System.{System, World}
use d_plane_os.Gitops.Plan.{compute_diff}
use d_plane_os.Gitops.Approval.{
  Approval, GitOpsHandler, kind_text, approval_key, is_blocked, find_blocked, approve_found,
  approve_handler,
}

-- An item of the list is blocked, and has the kind and the name.
abbrev pub BlockedAs : Approval → List DiffItem → Type 0
BlockedAs a its =
    (it : DiffItem) × In it its
    × (kind_text it.kind ≡ a.kind)
    × (it.name ≡ a.name)
    × (it.action ≡ blocked)

is_blocked_only : (x : DiffAction) → is_blocked x ≡ true → x ≡ blocked
unfolding is_blocked
is_blocked_only blocked h = refl
is_blocked_only nop h = cc
is_blocked_only create h = cc
is_blocked_only modify h = cc
is_blocked_only delete h = cc

find_blocked-BlockedAs :
    (a : Approval) (its : List DiffItem) (reason : Option BlockReason)
    → find_blocked a.kind a.name its ≡ some reason
    → BlockedAs a its
unfolding find_blocked
find_blocked-BlockedAs a [] reason h = cc
find_blocked-BlockedAs a (x ∷ xs) reason h =
    elim (Bool-cases
      (str_eq (kind_text x.kind) a.kind && str_eq x.name a.name && is_blocked x.action)) [
        | inl e ↦ (
          x,
          inl refl,
          ground (arith, e, str_eq_iff (kind_text x.kind) a.kind),
          ground (arith, e, str_eq_iff x.name a.name),
          is_blocked_only x.action (ground (arith, e)),
        )
        | inr e ↦
            let (it, k, kind, name, held) =
              find_blocked-BlockedAs a xs reason (rw (e, if◌then◌else◌) at h) in
            (it, inr k, kind, name, held)
      ]

-- Every approval that is there was there before, or is the one that was given for a blocked item.
abbrev pub OnlyGiven : Approval → List DiffItem → GitOpsHandler → GitOpsHandler → Type 0
OnlyGiven a its h h' =
    (k : Str)
    → In k h'.approvals
    → In k h.approvals ⊎ ((k ≡ approval_key a.kind a.name) × BlockedAs a its)

approve_found-OnlyGiven :
    (saved : Bool) (a : Approval) (its : List DiffItem) (o : Option (Option BlockReason))
    (h : GitOpsHandler)
    → ((reason : Option BlockReason) → o ≡ some reason → BlockedAs a its)
    → OnlyGiven a its h (approve_found saved a o h).1
unfolding approve_found
approve_found-OnlyGiven saved a its none h f k m = inl m
approve_found-OnlyGiven saved a its (some reason) h f k (inl e) = inr (sym e, f reason refl)
approve_found-OnlyGiven saved a its (some reason) h f k (inr m) = inl m

-- After a request for approval, whatever it asks for and however the database answers, each approval
-- was there before, or it is that of the kind and the name of the request and the plan that was made
-- for the request has a blocked item of that kind and name.
pub approve_handler-OnlyGiven :
    (sys : System) (saved : Bool) (a : Approval) (d : DesiredState) (l : LiveState)
    (h : GitOpsHandler) (w : World)
    → OnlyGiven a
        (compute_diff sys d l w).0.items
        h
        (approve_handler sys saved a (some d) (some l) h w).1
unfolding approve_handler
approve_handler-OnlyGiven sys saved a d l h w =
    let its = (compute_diff sys d l w).0.items in
    elim (Bool-cases (str_eq a.kind [])) [
      | inl e ↦ rw (e, if◌then◌else◌) (λ k m. inl m)
      | inr e ↦ elim (Bool-cases (str_eq a.name [])) [
        | inl e' ↦ rw (e, e', if◌then◌else◌) (λ k m. inl m)
        | inr e' ↦
            rw (e, e', if◌then◌else◌)
              (approve_found-OnlyGiven saved a its (find_blocked a.kind a.name its) h
                (find_blocked-BlockedAs a its))
      ]
    ]
