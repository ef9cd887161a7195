-- ===== src/Gitops/Apply/Halting.antt =====
-- Where ApplyPlan stops, and what it leaves undone.
use mathlib.Core.Path.{fun_ext}
use d_plane_os.Prelude.{ap, ◌≡◌, refl, ◌∙◌, false, Option, some, none, List, [], ◌∷◌, ◌++◌}
use d_plane_os.Gitops.State.{blocked, DiffItem, Plan}
use d_plane_os.Gitops.System.{System, World}
use d_plane_os.Gitops.Apply.Outcome.{ApplyError, has_blocked, Outcome, ok, err}
use d_plane_os.Gitops.Apply.{
  Applied, ApplyResult, apply_action, apply_item, note, apply_items, apply_plan,
}

-- What follows on a first part of the plan: nothing, if that part failed.
abbrev pub resume :
    (List Applied → World → ApplyResult × World) → ApplyResult × World → ApplyResult × World
resume rest p = elim p.0.error [ none ↦ rest p.0.applied p.1 | some e ↦ p ]

-- The result at a blocked item without approval.
abbrev pub halted : DiffItem → List Applied → ApplyResult
halted it sofar = record {
  applied = sofar;
  failed = it.name;
  error = some (has_blocked it.kind it.name it.block_reason);
}

module _ (sys : System) where
  apply_items-append :
      (xs ys : List DiffItem) (sofar : List Applied) (w : World)
      → apply_items sys (xs ++ ys) sofar w
        ≡ resume (apply_items sys ys) (apply_items sys xs sofar w)
  unfolding apply_items
  apply_items-append [] ys sofar w = refl
  apply_items-append (x ∷ xs) ys sofar w =
      go (apply_item sys x w).0 refl (λ s. apply_items-append xs ys s (apply_item sys x w).1)
    where
      go :
          (r : Outcome (Option Applied))
          → (apply_item sys x w).0 ≡ r
          → ((s : List Applied)
              → apply_items sys (xs ++ ys) s (apply_item sys x w).1
                ≡ resume (apply_items sys ys) (apply_items sys xs s (apply_item sys x w).1))
          → apply_items sys (x ∷ (xs ++ ys)) sofar w
            ≡ resume (apply_items sys ys) (apply_items sys (x ∷ xs) sofar w)
      go (ok a) e ih = rw (e, apply_items) (ih (note a sofar))
      go (err z) e ih = rw (e, apply_items)

  apply_item-blocked :
      (it : DiffItem) (w : World)
      → it.action ≡ blocked
      → it.approved ≡ false
      → apply_item sys it w ≡ (err (has_blocked it.kind it.name it.block_reason), w)
  unfolding apply_item
  apply_item-blocked it w b a = simp (b, a, apply_action)

  apply_items-blocked :
      (it : DiffItem) (its : List DiffItem) (sofar : List Applied) (w : World)
      → it.action ≡ blocked
      → it.approved ≡ false
      → apply_items sys (it ∷ its) sofar w ≡ (halted it sofar, w)
  unfolding apply_items
  apply_items-blocked it its sofar w b a =
      let h = apply_item-blocked it w b a in
      rw (ap (λ p. p.0) h, apply_items) (ap (λ p. (halted it sofar, p.1)) h)

  -- A blocked item that is not approved halts the plan: if what stands before it went through, the
  -- result lists exactly that, names the item and the error ErrHasBlocked, and the world is as those
  -- items left it, whatever follows in the plan. If something before it failed, the result and the
  -- world are those of that failure.
  pub apply_plan-blocked :
      (before after : List DiffItem) (it : DiffItem) (plan : Plan) (w : World)
      → plan.items ≡ before ++ (it ∷ after)
      → it.action ≡ blocked
      → it.approved ≡ false
      → apply_plan sys plan w
        ≡ resume (λ sofar w'. (halted it sofar, w')) (apply_items sys before [] w)
  unfolding apply_plan
  apply_plan-blocked before after it plan w e b a = rw e (
      apply_items-append before (it ∷ after) [] w
      ∙ ap (λ rest. resume rest (apply_items sys before [] w))
          (fun_ext (λ s. fun_ext (λ v. apply_items-blocked it after s v b a))))

  -- `before` went through, and `it` is the item that failed.
  pub record StopsAt (its : List DiffItem) (sofar : List Applied) (w : World) (e : ApplyError)
      (r : ApplyResult × World) : Type 0 where
    pub before : List DiffItem
    pub it : DiffItem
    pub after : List DiffItem
    pub parts : its ≡ before ++ (it ∷ after)
    pub passed : (apply_items sys before sofar w).0.error ≡ none
    pub refused : (apply_item sys it (apply_items sys before sofar w).1).0 ≡ err e
    pub listed : r.0.applied ≡ (apply_items sys before sofar w).0.applied
    pub named : r.0.failed ≡ it.name
    pub left : r.1 ≡ (apply_item sys it (apply_items sys before sofar w).1).1

  apply_items-StopsAt :
      (its : List DiffItem) (sofar : List Applied) (w : World) (e : ApplyError)
      → (apply_items sys its sofar w).0.error ≡ some e
      → StopsAt its sofar w e (apply_items sys its sofar w)
  unfolding apply_items
  apply_items-StopsAt [] sofar w e h = cc
  apply_items-StopsAt (x ∷ xs) sofar w e h =
      go (apply_item sys x w).0 refl (λ s k. apply_items-StopsAt xs s (apply_item sys x w).1 e k)
    where
      go :
          (r : Outcome (Option Applied))
          → (apply_item sys x w).0 ≡ r
          → ((s : List Applied)
              → (apply_items sys xs s (apply_item sys x w).1).0.error ≡ some e
              → StopsAt xs s (apply_item sys x w).1 e (apply_items sys xs s (apply_item sys x w).1))
          → StopsAt (x ∷ xs) sofar w e (apply_items sys (x ∷ xs) sofar w)
      go (ok a) q ih =
          let k = ih (note a sofar) (rw (q, apply_items) at h) in
          record {
            before = x ∷ k.before;
            it = k.it;
            after = k.after;
            parts = ap (λ l. x ∷ l) k.parts;
            passed = rw (q, apply_items) k.passed;
            refused = rw (q, apply_items) k.refused;
            listed = rw (q, apply_items) k.listed;
            named = rw (q, apply_items) k.named;
            left = rw (q, apply_items) k.left;
          }
      go (err z) q ih =
          let some_z : some z ≡ some e = rw (q, apply_items) at h in
          record {
            before = [];
            it = x;
            after = xs;
            parts = refl;
            passed = refl;
            refused = cc (q, some_z);
            listed = rw (q, apply_items);
            named = rw (q, apply_items);
            left = rw (q, apply_items);
          }

  -- If ApplyPlan returns an error, it has gone through a first part of the items without one, the
  -- result lists what that part applied, and the next item is the one that is named and that failed
  -- with that error; the world is as that item left it.
  pub apply_plan-StopsAt :
      (plan : Plan) (w : World) (e : ApplyError)
      → (apply_plan sys plan w).0.error ≡ some e
      → StopsAt plan.items [] w e (apply_plan sys plan w)
  unfolding apply_plan
  apply_plan-StopsAt plan w e h = apply_items-StopsAt plan.items [] w e h
