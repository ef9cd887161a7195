-- ===== src/Networkd/Disk.antt =====
-- writeFile and atomicWrite of daemon/internal/networkdwriter/writer.go, on a directory as a function from
-- names of files to their contents.
pub mod Foreign
use d_plane_os.Prelude.{Str, str, str_eq, Bool, Option, some, none, ◌++◌, if◌then◌else◌}

-- The steps of writeFile and atomicWrite that can fail.
pub data WriteError : Type 0 where
  mkdir_failed create_failed write_failed close_failed rename_failed : WriteError

-- What the calls of package os run into. `writing f` and `removal f` are about a file that is written or
-- removed; a file that does not exist is no trouble. `random f` is what os.CreateTemp puts for the star in
-- the name of the temporary file, which no file has, `partial f` what that file holds when writing or
-- closing it fails, and `temp_kept f` whether it cannot be removed again.
pub record Os : Type 0 where
  pub writing : Str → Option WriteError
  pub removal : Str → Bool
  pub random : Str → Str
  pub partial : Str → Str
  pub temp_kept : Str → Bool
  pub resolved_directory : Bool
  pub resolved_active : Bool
  pub listing : Bool

abbrev pub Directory : Type 0
Directory = Str → Option Str

unfoldable pub put : Str → Option Str → Directory → Directory
unfolding str_eq
put name content files f = if str_eq f name then content else files f

unfoldable pub temp_prefix : Str
unfolding str
temp_prefix = str ".dplane-net-"

unfoldable pub temp_file : Str → Str
unfolding temp_prefix str
temp_file random = temp_prefix ++ (random ++ str ".tmp")

-- os.Remove of the temporary file, whose error is ignored: it stays with what it holds, or the directory
-- is as it was before.
unfoldable pub drop_temp : Bool → Str → Str → Directory → Directory
unfolding put
drop_temp kept temp held files = if kept then put temp (some held) files else files

unfoldable pub attempt : Option WriteError → Bool → Str → Str → Str → Str → Directory → Directory
unfolding put drop_temp
attempt none kept temp partial name content files = put name (some content) files
attempt (some mkdir_failed) kept temp partial name content files = files
attempt (some create_failed) kept temp partial name content files = files
attempt (some write_failed) kept temp partial name content files = drop_temp kept temp partial files
attempt (some close_failed) kept temp partial name content files = drop_temp kept temp partial files
attempt (some rename_failed) kept temp partial name content files =
    drop_temp kept temp content files

-- `where_temp` is the path of the directory, as the names in it are spelled.
unfoldable pub atomic_write : Os → Str → Str → Str → Directory → Option WriteError × Directory
unfolding attempt temp_file
atomic_write os where_temp name content files = (
  os.writing name,
  attempt (os.writing name) (os.temp_kept name) (where_temp ++ temp_file (os.random name))
      (os.partial name) name content files,
)
