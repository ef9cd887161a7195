-- ===== src/Security/Whitelist.antt =====
-- CommandWhitelist of daemon/internal/security/whitelist.go.
mod Zfs
mod Network
mod Files
mod System
use d_plane_os.Prelude.{Str, str_eq, Option, none, some, List, [], ◌∷◌, ◌++◌, if◌then◌else◌}
use d_plane_os.Security.Command.{Command}
use Zfs.{zfs_commands}
use Network.{network_commands}
use Files.{file_commands}
use System.{system_commands}

abbrev pub command_whitelist : List Command
command_whitelist = zfs_commands ++ (network_commands ++ (file_commands ++ system_commands))

unfoldable pub find_command : Str → List Command → Option Command
unfolding str_eq
find_command n [] = none
find_command n (c ∷ cs) = if str_eq c.name n then some c else find_command n cs
