-- ===== src/Gitops/System.antt =====
-- What the gitops package does outside its own memory: the commands of
-- daemon/internal/cmdutil/cmdutil.go and the statements on the table smb_shares. An oracle answers
-- each of them, knowing all that was done before; the trace keeps what was done, the latest first.
use d_plane_os.Prelude.{ℕ, Str, str, Bool, Option, List, [], ◌∷◌, ◌++◌, some, none}
use d_plane_os.Gitops.State.{LiveShare, DesiredShare}

-- TimeoutFast, TimeoutMedium, TimeoutSlow and TimeoutZFS
pub data Timeout : Type 0 where
  fast medium slow zfs : Timeout

pub data Effect : Type 0 where
  zfs_list_name : Str → Effect
  zfs_list_used : Str → Effect
  zfs_get_used : Str → Effect
  zfs_create : Str → Effect
  zfs_destroy : Str → Effect
  zfs_set : Str → Str → Str → Effect
  zpool_create : List Str → Effect
  zpool_add : Str → Str → Effect
  zpool_destroy : Str → Effect
  smbstatus : Effect
  smb_reload : Effect
  upsert_share : Str → DesiredShare → Effect
  delete_share_row : Str → Effect
  query_shares : Effect
  zpool_list zpool_status zfs_list_filesystems : Effect
  zfs_get_props : List Str → Effect
  write_conf : Str → Str → Effect

-- The command line of an effect that runs one: its timeout, its program and its arguments.
unfoldable pub argv : Effect → Option (Timeout × Str × List Str)
unfolding str
argv (zfs_list_name n) =
    some (zfs, str "zfs", str "list" ∷ str "-H" ∷ str "-o" ∷ str "name" ∷ n ∷ [])
argv (zfs_list_used n) =
    some (zfs, str "zfs", str "list" ∷ str "-H" ∷ str "-o" ∷ str "name,used" ∷ str "-r" ∷ n ∷ [])
argv (zfs_get_used n) =
    some (
      zfs,
      str "zfs",
      str "get" ∷ str "-H" ∷ str "-p" ∷ str "-o" ∷ str "value" ∷ str "used" ∷ n ∷ [],
    )
argv (zfs_create n) = some (medium, str "zfs", str "create" ∷ n ∷ [])
argv (zfs_destroy n) = some (medium, str "zfs", str "destroy" ∷ n ∷ [])
argv (zfs_set p v n) = some (medium, str "zfs", str "set" ∷ (p ++ (str "=" ++ v)) ∷ n ∷ [])
argv (zpool_create args) = some (slow, str "zpool", args)
argv (zpool_add n d) = some (medium, str "zpool", str "add" ∷ n ∷ d ∷ [])
argv (zpool_destroy n) = some (slow, str "zpool", str "destroy" ∷ n ∷ [])
argv smbstatus = some (fast, str "smbstatus", str "-S" ∷ str "-n" ∷ [])
argv smb_reload = some (fast, str "smbcontrol", str "smbd" ∷ str "reload-config" ∷ [])
argv (upsert_share n s) = none
argv (delete_share_row n) = none
argv query_shares = none
argv zpool_list = some (zfs, str "zpool", str "list" ∷ str "-H" ∷ str "-o" ∷ str "name,health" ∷ [])
argv zpool_status = some (zfs, str "zpool", str "status" ∷ str "-P" ∷ [])
argv zfs_list_filesystems = some (
  zfs,
  str "zfs",
  str "list" ∷ str "-H" ∷ str "-t" ∷ str "filesystem" ∷ str "-o" ∷ str "name" ∷ [],
)
argv (zfs_get_props names) = some (
  zfs,
  str "zfs",
  str "get"
      ∷ str "-H"
      ∷ str "-p"
      ∷ str "-o"
      ∷ str "name,property,value"
      ∷ str "used,avail,compression,atime,mountpoint,quota,encryption"
      ∷ names,
)
argv (write_conf p c) = none

pub record Reply : Type 0 where
  pub failed : Bool
  pub output : Str

-- The outside world, and what the runtime leaves open: `%q` of fmt.Sprintf, `%f` of fmt.Sscanf
-- scaled to an integer, the order in which a map is ranged over, the row id that SQLite picks, and
-- the path of smb.conf in the ApplyContext.
pub record System : Type 0 where
  pub answer : List Effect → Effect → Reply
  pub quote : Str → Str
  pub scan_scaled : Str → ℕ → ℕ
  pub range_order : List Str → List Str
  pub new_id : List LiveShare → ℕ
  pub smb_conf_path : Str

pub record World : Type 0 where
  pub trace : List Effect
  pub shares : List LiveShare
  pub smb_conf : Option Str

unfoldable pub call : System → Effect → World → Reply × World
call sys e w = (sys.answer w.trace e, record w { trace = e ∷ w.trace })
