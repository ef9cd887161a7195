-- ===== src/Gitops/Plan/Contract.antt =====
-- The safety contract at the top of daemon/internal/gitops/diff.go, for the items of a plan.
pub mod Deletions
pub mod Whole
use mathlib.Core.Path.{subst}
use mathlib.Core.List.{append_assoc}
use d_plane_os.Prelude.{
  ℕ, zero, suc, ◌<◌, All-weaken, ltb, Bool-cases, ◌≡◌, ◌≢◌, refl, sym, ap, ◌∙◌, Str, str_eq, Bool,
  true, false, Option, some, none, All, In, All-append, List, [], ◌∷◌, ◌++◌, arith, map, str_eq_iff,
  Option-cases, ◌⊎◌, inl, inr,
}
use d_plane_os.Gitops.State.{
  DesiredPool, DesiredDataset, DesiredShare, DesiredState, LivePool, LiveDataset, LiveShare,
  LiveState, DiffAction, nop, create, modify, delete, blocked, ResourceKind, pool, dataset, share,
  DiffItem, Plan,
}
use d_plane_os.Gitops.System.{System, World, Effect, Reply, zfs_get_used, smbstatus, call}
use d_plane_os.Gitops.Live.{
  used_of_reply, active_in_reply, dataset_used_bytes, has_active_smb_connections,
}
use d_plane_os.Gitops.Plan.{
  map_get, collect, collect_live, create_pool_item, create_dataset_item, create_share_item,
  modify_pool_item, modify_dataset_item, modify_share_item, delete_pool_item, delete_dataset_item,
  delete_share_item, dataset_verdict, share_verdict, plan_items, compute_diff,
}
use d_plane_os.Gitops.Plan.Tally.{items-tally}

-- The effect stands in the trace, and its answer satisfies `Q`.
abbrev pub Answered : System → Effect → (Reply → Type 0) → List Effect → Type 0
Answered sys e Q trace =
    (later : List Effect) × (before : List Effect) × (trace ≡ later ++ (e ∷ before))
    × Q (sys.answer before e)

-- The names that state.yaml declares for a kind of resource.
abbrev pub declared : DesiredState → ResourceKind → List Str
declared s pool = map (λ (p : DesiredPool). p.name) s.pools
declared s dataset = map (λ (d : DesiredDataset). d.name) s.datasets
declared s share = map (λ (x : DesiredShare). x.name) s.shares

-- What justifies a deletion without approval: for a dataset an answer that it holds no bytes, for a
-- share an answer that shows no client. A pool has no such answer.
abbrev pub Justified : System → ResourceKind → Str → List Effect → Type 0
Justified sys pool name trace = ⊥
Justified sys dataset name trace = Answered sys (zfs_get_used name) (λ r. used_of_reply r ≡ 0) trace
Justified sys share name trace = Answered sys smbstatus (λ r. active_in_reply name r ≡ false) trace

-- What stands behind a blocked item.
abbrev pub Held : System → ResourceKind → Str → List Effect → Type 0
Held sys pool name trace = Unit
Held sys dataset name trace = Answered sys (zfs_get_used name) (λ r. 0 < used_of_reply r) trace
Held sys share name trace = Answered sys smbstatus (λ r. active_in_reply name r ≡ true) trace

pub record IsContract (sys : System) (desired : DesiredState) (trace : List Effect) (it : DiffItem)
    : Type 0 where
  pub unapproved : it.approved ≡ false
  pub undeclared :
      (it.action ≡ delete) ⊎ (it.action ≡ blocked) → ¬ In it.name (declared desired it.kind)
  pub justified : it.action ≡ delete → Justified sys it.kind it.name trace
  pub held : it.action ≡ blocked → Held sys it.kind it.name trace
