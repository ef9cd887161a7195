-- ===== src/Gitops/Live.antt =====
-- The live probes of daemon/internal/gitops/live.go, and its parsers of command output.
pub mod Read
use d_plane_os.Prelude.{
  ℕ, Str, str, str_eq, has_prefix, contains, trim_space, fields, split, parse_uint, drop, length,
  Bool, false, ◌||◌, not, ◌&&◌, Option, some, none, List, [], ◌∷◌, ◌++◌, if◌then◌else◌,
}
use d_plane_os.Gitops.System.{System, World, Reply, call, zfs_get_used, smbstatus}
use d_plane_os.Gitops.Validate.{by_id_prefix}

-- What DatasetUsedBytes makes of the answer.
unfoldable pub used_of_reply : Reply → ℕ
used_of_reply r = if r.failed then 0 else parse_uint (trim_space r.output)

unfoldable pub dataset_used_bytes : System → Str → World → ℕ × World
unfolding used_of_reply call
dataset_used_bytes sys name w =
    let (r, w') = call sys (zfs_get_used name) w in (used_of_reply r, w')

first_field_is : Str → List Str → Bool
first_field_is name [] = false
first_field_is name (f ∷ fs) = str_eq f name

any_line : Str → List Str → Bool
unfolding first_field_is
any_line name [] = false
any_line name (line ∷ lines) = first_field_is name (fields line) || any_line name lines

-- What HasActiveSMBConnections makes of the answer.
unfoldable pub active_in_reply : Str → Reply → Bool
unfolding any_line
active_in_reply name r = if r.failed then false else any_line name (split 10 r.output)

unfoldable pub has_active_smb_connections : System → Str → World → Bool × World
unfolding active_in_reply call
has_active_smb_connections sys name w =
    let (r, w') = call sys smbstatus w in (active_in_reply name r, w')

-- result[pool] = append(result[pool], disk), on a map as its list of entries
add_disk : Str → Str → List (Str × List Str) → List (Str × List Str)
unfolding str_eq
add_disk pool disk [] = (pool, disk ∷ []) ∷ []
add_disk pool disk ((p, ds) ∷ m) =
    if str_eq p pool then (p, ds ++ disk ∷ []) ∷ m else (p, ds) ∷ add_disk pool disk m

first_field : List Str → Option Str
first_field [] = none
first_field (f ∷ fs) = some f

-- A device line under the pool `current`.
add_device : Str → Option Str → List (Str × List Str) → List (Str × List Str)
unfolding add_disk
add_device current none m = m
add_device current (some disk) m = add_disk current disk m

status_line : Str → Str × List (Str × List Str) → Str × List (Str × List Str)
unfolding add_device first_field
status_line line (current, m) =
    let trimmed = trim_space line in
    if has_prefix (str "pool:") trimmed
    then (trim_space (drop (length (str "pool:")) trimmed), m)
    else if not (str_eq current []) && contains by_id_prefix trimmed
    then (current, add_device current (first_field (fields trimmed)) m)
    else (current, m)

status_lines : List Str → Str × List (Str × List Str) → List (Str × List Str)
unfolding status_line
status_lines [] s = s.1
status_lines (line ∷ lines) s = status_lines lines (status_line line s)

unfoldable pub parse_zpool_status_paths : Str → List (Str × List Str)
unfolding status_lines
parse_zpool_status_paths output = status_lines (split 10 output) ([], [])
