-- ===== src/Gitops/Diff/Risk.antt =====
-- The risk level of a pool whose disks change.
use mathlib.Core.Path.{subst}
use d_plane_os.Prelude.{
  ◌≡◌, refl, Str, str, str_eq, member, contains, true, false, List, [], ◌∷◌, ◌++◌, arith, In, All,
  if◌then◌else◌, Bool-cases, inl, inr, member_iff, ◌||◌, str_eq_iff,
}
use d_plane_os.Gitops.State.{DesiredPool, LivePool, medium, critical}
use d_plane_os.Gitops.System.{System}
use d_plane_os.Gitops.Diff.{
  disk_add, disk_remove, changes_for, key_set, diff_pool, risk_for_pool_changes,
}

contains-append : (p s t : Str) → contains p t ≡ true → contains p (s ++ t) ≡ true
unfolding contains
contains-append p [] t h = h
contains-append p (c ∷ s) t h = ground (arith, contains-append p s t)

contains-disk_add : (d : Str) → contains (str "disk-add") (disk_add d) ≡ true
unfolding contains disk_add str
contains-disk_add d = refl

contains-disk_remove : (d : Str) → contains (str "disk-remove") (disk_remove d) ≡ true
unfolding contains disk_remove str
contains-disk_remove d = refl

-- Neither word of the critical test stands in the change.
abbrev pub IsPlain : Str → Type 0
IsPlain c = (contains (str "disk-remove") c ≡ false) × (contains (str "degraded") c ≡ false)

-- The first added disk decides.
risk_added :
    (d : Str) (rest : List Str)
    → IsPlain (disk_add d)
    → risk_for_pool_changes (disk_add d ∷ rest) ≡ medium
unfolding risk_for_pool_changes
risk_added d rest h = simp (h.0, h.1, contains-disk_add, ◌||◌, if◌then◌else◌)

abbrev FirstAdded : List Str → Type 0
FirstAdded cs = (e : Str) × (rest : List Str) × (cs ≡ disk_add e ∷ rest) × IsPlain (disk_add e)

first_added :
    (xs ys : List Str) (d : Str)
    → All (λ x. IsPlain (disk_add x)) xs
    → In d xs
    → ¬ In d ys
    → FirstAdded (changes_for disk_add xs ys)
unfolding changes_for
first_added [] ys d p i n = absurd i
first_added (x ∷ xs) ys d p i n = elim (Bool-cases (member x ys)) [
  | inr e ↦ rw (e, if◌then◌else◌) (x, changes_for disk_add xs ys, refl, p.0)
  | inl e ↦
      rw (e, if◌then◌else◌)
        (first_added xs ys d p.1
          (elim i [
            | inl q ↦ absurd (n (subst (λ z. In z ys) q ((member_iff x ys).0 e)))
            | inr r ↦ r
          ])
          n)
]

-- For an online pool, one disk to add makes the risk "medium", whichever disks are to be removed;
-- the names of the disks to add must not themselves spell the words that the critical test looks for.
pub risk-diff_pool_added :
    (sys : System) (dp : DesiredPool) (lp : LivePool) (d : Str)
    → lp.health ≡ str "ONLINE"
    → All (λ x. IsPlain (disk_add x)) (sys.range_order (key_set dp.disks))
    → In d (sys.range_order (key_set dp.disks))
    → ¬ In d lp.disks
    → risk_for_pool_changes (diff_pool sys dp lp) ≡ medium
unfolding diff_pool
risk-diff_pool_added sys dp lp d online plain i n =
    let (e, rest, eq, p) = first_added (sys.range_order (key_set dp.disks)) lp.disks d plain i n in
    let on : str_eq lp.health (str "ONLINE") ≡ true =
      (str_eq_iff lp.health (str "ONLINE")).1 online in
    rw (on, eq) (risk_added e _ p)

-- With no disk to add, a disk to remove makes the risk of an online pool "critical".
removed_only : (x : Str) (cs : List Str) → risk_for_pool_changes (disk_remove x ∷ cs) ≡ critical
unfolding risk_for_pool_changes
removed_only x cs = simp (contains-disk_remove, ◌||◌, if◌then◌else◌)
