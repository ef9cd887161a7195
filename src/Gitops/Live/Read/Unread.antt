-- ===== src/Gitops/Live/Read/Unread.antt =====
-- What is planned for a pool after its status could not be read.
use mathlib.Core.Path.{subst}
use d_plane_os.Prelude.{
  ◌≡◌, refl, ap, Bool-cases, All-In, In-append, append-In, Str, true, some, All, In, inl, inr, List,
  [], ◌∷◌, split, trim_space, fields, if◌then◌else◌,
}
use d_plane_os.Gitops.State.{DesiredPool, LivePool}
use d_plane_os.Gitops.System.{System, World, call, zpool_list, zpool_status}
use d_plane_os.Gitops.Diff.{disk_add, changes_for, key_set, diff_pool}
use d_plane_os.Gitops.Live.Read.{
  pool_of, add_pool, pools_of_lines, pools_with_status, read_live_pools,
}

HasNoDisks : LivePool → Type 0
HasNoDisks p = p.disks ≡ []

add_pool-HasNoDisks :
    (fs : List Str) (ps : List LivePool)
    → All HasNoDisks ps
    → All HasNoDisks (add_pool (pool_of fs) ps)
unfolding pool_of add_pool HasNoDisks
add_pool-HasNoDisks [] ps h = h
add_pool-HasNoDisks (name ∷ []) ps h = h
add_pool-HasNoDisks (name ∷ health ∷ fs) ps h = (refl, h)

pools_of_lines-HasNoDisks : (lines : List Str) → All HasNoDisks (pools_of_lines lines)
unfolding pools_of_lines
pools_of_lines-HasNoDisks [] = tt
pools_of_lines-HasNoDisks (line ∷ lines) =
    add_pool-HasNoDisks (fields line) _ (pools_of_lines-HasNoDisks lines)

changes_for_empty :
    (render : Str → Str) (x : Str) (xs : List Str)
    → In x xs
    → In (render x) (changes_for render xs [])
unfolding changes_for
changes_for_empty render x (y ∷ ys) (inl e) = inl (ap render e)
changes_for_empty render x (y ∷ ys) (inr i) = inr (changes_for_empty render x ys i)
changes_for_empty render x [] h = absurd h

read_live_pools-HasNoDisks :
    (sys : System) (w : World) (ps : List LivePool)
    → (read_live_pools sys w).0 ≡ some ps
    → (sys.answer (zpool_list ∷ w.trace) zpool_status).failed ≡ true
    → All HasNoDisks ps
unfolding read_live_pools pools_with_status call
read_live_pools-HasNoDisks sys w ps h k = elim (Bool-cases (sys.answer w.trace zpool_list).failed) [
  | inl e ↦ cc (rw (e, if◌then◌else◌) at h)
  | inr e ↦
      let lines = split 10 (trim_space (sys.answer w.trace zpool_list).output) in
      let same : some (pools_of_lines lines) ≡ some ps = rw (e, if◌then◌else◌, k) at h in
      subst (All HasNoDisks) (cc same) (pools_of_lines-HasNoDisks lines)
]

-- If `zpool list` answers but `zpool status` does not, every pool is read as one without disks, and the
-- difference of a declared pool from it adds each declared disk that the range over them visits, also
-- one that the pool has.
pub read_live_pools-unread :
    (sys : System) (w : World) (ps : List LivePool) (live : LivePool) (desired : DesiredPool)
    (d : Str)
    → (read_live_pools sys w).0 ≡ some ps
    → (sys.answer (zpool_list ∷ w.trace) zpool_status).failed ≡ true
    → In live ps
    → In d (sys.range_order (key_set desired.disks))
    → In (disk_add d) (diff_pool sys desired live)
unfolding diff_pool HasNoDisks
read_live_pools-unread sys w ps live desired d h k i j =
    let empty : live.disks ≡ [] =
      All-In HasNoDisks live ps (read_live_pools-HasNoDisks sys w ps h k) i in
    let added = changes_for_empty disk_add d (sys.range_order (key_set desired.disks)) j in
    let shown : In (disk_add d)
        (changes_for disk_add (sys.range_order (key_set desired.disks)) live.disks) =
      rw empty added in
    append-In (disk_add d) _ _ (In-append (disk_add d) _ _ shown)
