-- ===== src/Gitops/Apply/Safety.antt =====
-- What the trace of the apply engine never shows: a destruction without the check before it.
pub mod Datasets
pub mod Pools
pub mod Destroy
pub mod Shares
pub mod Whole
use d_plane_os.Prelude.{
  ℕ, arith, ◌≡◌, ◌⊎◌, Str, str_eq, has_prefix, fields, split, Bool, true, false, All, List, [], ◌∷◌,
  ◌++◌, if◌then◌else◌,
}
use d_plane_os.Gitops.State.{DesiredPool}
use d_plane_os.Gitops.System.{
  System, World, Effect, Reply, zfs_list_name, zfs_list_used, zfs_get_used, zfs_create, zfs_destroy,
  zfs_set, zpool_create, zpool_add, zpool_destroy, smbstatus, zpool_list, zpool_status,
  zfs_list_filesystems, zfs_get_props, smb_reload, upsert_share, delete_share_row, query_shares,
  write_conf, call,
}
use d_plane_os.Gitops.Live.{used_of_reply, active_in_reply}
use d_plane_os.Gitops.Validate.{by_id_prefix}
use d_plane_os.Gitops.Plan.Contract.{Answered}
use d_plane_os.Gitops.Apply.Zfs.{create_args}
use d_plane_os.Gitops.Apply.Outcome.{ApplyError, Action, Outcome, ok, err, ◌>>=◌, check, ask}

-- The datasets other than the pool itself in the lines of `zfs list -r -o name,used`.
child : Str → List Str → List Str
child name (d ∷ used ∷ rest) = if str_eq d name then [] else d ∷ []
child name _ = []

unfoldable pub children : Str → List Str → List Str
unfolding child
children name [] = []
children name (line ∷ lines) = child name (fields line) ++ children name lines

-- The datasets that a listing of the pool shows, if the listing came.
unfoldable pub listed : Str → Reply → List Str
unfolding children
listed name r = if r.failed then [] else children name (split 10 r.output)

abbrev pub ReadsZero : System → List Effect → Str → Type 0
ReadsZero sys trace d = Answered sys (zfs_get_used d) (λ r. used_of_reply r ≡ 0) trace

-- What must stand in the trace before an effect.
abbrev pub StepSafe : System → Effect → List Effect → Type 0
StepSafe sys (zfs_destroy n) t =
    (before : List Effect) × (t ≡ zfs_get_used n ∷ before)
    × (used_of_reply (sys.answer before (zfs_get_used n)) ≡ 0)
StepSafe sys (zpool_destroy n) t =
    (since : List Effect) × (before : List Effect) × (t ≡ since ++ (zfs_list_used n ∷ before))
    × All (ReadsZero sys t) (listed n (sys.answer before (zfs_list_used n)))
StepSafe sys (zpool_create args) t =
    (dp : DesiredPool) × (args ≡ create_args sys dp)
    × All (λ d. has_prefix by_id_prefix d ≡ true) dp.disks
StepSafe sys (zpool_add n d) t = has_prefix by_id_prefix d ≡ true
StepSafe sys (delete_share_row n) t =
    (before : List Effect) × (t ≡ smbstatus ∷ before)
    × (active_in_reply n (sys.answer before smbstatus) ≡ false)
StepSafe sys (zfs_list_name n) t = Unit
StepSafe sys (zfs_list_used n) t = Unit
StepSafe sys (zfs_get_used n) t = Unit
StepSafe sys (zfs_create n) t = Unit
StepSafe sys (zfs_set p v n) t = Unit
StepSafe sys smbstatus t = Unit
StepSafe sys smb_reload t = Unit
StepSafe sys (upsert_share n s) t = Unit
StepSafe sys query_shares t = Unit
StepSafe sys (write_conf p c) t = Unit
StepSafe sys zpool_list t = Unit
StepSafe sys zpool_status t = Unit
StepSafe sys zfs_list_filesystems t = Unit
StepSafe sys (zfs_get_props ns) t = Unit

-- Every effect of the trace had before it what it must have.
abbrev pub IsSafeTrace : System → List Effect → Type 0
IsSafeTrace sys [] = Unit
IsSafeTrace sys (e ∷ t) = StepSafe sys e t × IsSafeTrace sys t

pub record KeepsSafe {A : Type 0} (sys : System) (m : Action A) : Type 0 where
  pub at : (w : World) → IsSafeTrace sys w.trace → IsSafeTrace sys (m w).1.trace

pub world-check : (e : ApplyError) (r : Reply) (w : World) → (check e r w).1 ≡ w
world-check e r w = ground arith

module _ {sys : System} where
  pub KeepsSafe-pure : {A : Type 0} (a : A) → KeepsSafe {A = A} sys (λ w. (ok a, w))
  KeepsSafe-pure a = record { at = λ w h. h }

  pub KeepsSafe-err : {A : Type 0} (e : ApplyError) → KeepsSafe {A = A} sys (λ w. (err e, w))
  KeepsSafe-err e = record { at = λ w h. h }

  pub KeepsSafe-check : (e : ApplyError) (r : Reply) → KeepsSafe sys (check e r)
  KeepsSafe-check e r = record { at = λ w h. rw world-check h }

  pub KeepsSafe-if :
      {A : Type 0} (b : Bool) (m n : Action A)
      → KeepsSafe sys m
      → KeepsSafe sys n
      → KeepsSafe sys (if b then m else n)
  KeepsSafe-if true m n h k = h
  KeepsSafe-if false m n h k = k

  continued :
      {A B : Type 0} (r : Outcome A) (f : A → Action B) (w : World)
      → ((a : A) → KeepsSafe sys (f a))
      → IsSafeTrace sys w.trace
      → IsSafeTrace sys (◌>>=◌ (λ w. (r, w)) f w).1.trace
  continued (ok a) f w k h = (k a).at w h
  continued (err e) f w k h = h

  pub KeepsSafe-bind :
      {A B : Type 0} (m : Action A) (f : A → Action B)
      → KeepsSafe sys m
      → ((a : A) → KeepsSafe sys (f a))
      → KeepsSafe sys (m >>= f)
  KeepsSafe-bind m f h k = record { at = λ w s. continued (m w).0 f (m w).1 k (h.at w s) }

  -- An effect that needs nothing before it.
  pub KeepsSafe-call :
      (e : Effect) → ((t : List Effect) → StepSafe sys e t) → KeepsSafe sys (ask (call sys e))
  unfolding call
  KeepsSafe-call e h = record { at = λ w s. (h w.trace, s) }

  -- A command whose failure is returned.
  pub KeepsSafe-command :
      (e : Effect) (x : ApplyError)
      → ((t : List Effect) → StepSafe sys e t)
      → KeepsSafe sys (ask (call sys e) >>= λ r. check x r)
  KeepsSafe-command e x h =
      KeepsSafe-bind (ask (call sys e)) (λ r. check x r) (KeepsSafe-call e h) (KeepsSafe-check x)
