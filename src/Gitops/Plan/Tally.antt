-- ===== src/Gitops/Plan/Tally.antt =====
-- The counters of a plan.
use d_plane_os.Prelude.{
  ℕ, suc, ◌+◌, ◌<◌, ◌≡◌, refl, ◌↔◌, ◌⊎◌, Bool, true, false, not, List, [], ◌∷◌, length, arith,
  if◌then◌else◌,
}
use d_plane_os.Gitops.State.{
  DiffAction, nop, create, modify, delete, blocked, DesiredState, LiveState, DiffItem, Plan,
}
use d_plane_os.Gitops.System.{System, World}
use d_plane_os.Gitops.Plan.{tally_action, tally_loop, tally, compute_diff}

abbrev pub same_action : DiffAction → DiffAction → Bool
same_action nop nop = true
same_action create create = true
same_action modify modify = true
same_action delete delete = true
same_action blocked blocked = true
same_action _ _ = false

-- How many items have the action.
abbrev pub count_of : DiffAction → List DiffItem → ℕ
count_of a [] = 0
count_of a (it ∷ its) = if same_action it.action a then suc (count_of a its) else count_of a its

-- What a plan's counters are when `its` comes on top of those of `p`.
record Counts (its : List DiffItem) (p q : Plan) : Type 0 where
  creates : q.create_count ≡ p.create_count + count_of create its
  modifies : q.modify_count ≡ p.modify_count + count_of modify its
  deletes : q.delete_count ≡ p.delete_count + count_of delete its
  blocks : q.blocked_count ≡ p.blocked_count + count_of blocked its
  nops : q.nop_count ≡ p.nop_count + count_of nop its
  same_items : q.items ≡ p.items
  flag : (q.has_blocked ≡ true) ↔ ((p.has_blocked ≡ true) ⊎ (0 < count_of blocked its))

tally_loop-Counts : (its : List DiffItem) (p : Plan) → Counts its p (tally_loop its p)
unfolding tally_loop
tally_loop-Counts [] p = ground arith
tally_loop-Counts (it ∷ its) p = ground (arith, tally_loop-Counts its (tally_action it.action p))

count_of_total :
    (its : List DiffItem)
    → count_of create its
        + count_of modify its
        + count_of delete its
        + count_of blocked its
        + count_of nop its
      ≡ length its
count_of_total [] = refl
count_of_total (it ∷ its) = ground (arith, count_of_total its)

-- What is said of a finished plan.
pub record IsTallied (p : Plan) : Type 0 where
  pub creates : p.create_count ≡ count_of create p.items
  pub modifies : p.modify_count ≡ count_of modify p.items
  pub deletes : p.delete_count ≡ count_of delete p.items
  pub blocks : p.blocked_count ≡ count_of blocked p.items
  pub total :
      p.create_count + p.modify_count + p.delete_count + p.blocked_count + p.nop_count
      ≡ length p.items
  pub flag : (p.has_blocked ≡ true) ↔ (0 < p.blocked_count)
  pub safe : p.safe_to_apply ≡ not p.has_blocked

pub tally-IsTallied : (its : List DiffItem) → IsTallied (tally its)
unfolding tally
tally-IsTallied its =
    let c = tally_loop-Counts its (record {
      items = its;
      has_blocked = false;
      safe_to_apply = false;
      create_count = 0;
      modify_count = 0;
      delete_count = 0;
      blocked_count = 0;
      nop_count = 0;
    }) in
    ground (arith, c, count_of_total its)

pub items-tally : (its : List DiffItem) → (tally its).items ≡ its
unfolding tally
items-tally its = (tally_loop-Counts its _).same_items

-- Every plan of ComputeDiff counts its items by action, the five counts cover all of its items,
-- it is marked as having blocked items exactly when it counts one, and as safe to apply exactly
-- when it is not so marked.
pub compute_diff-IsTallied :
    (sys : System) (desired : DesiredState) (live : LiveState) (w : World)
    → IsTallied (compute_diff sys desired live w).0
unfolding compute_diff
compute_diff-IsTallied sys desired live w = tally-IsTallied _
