-- ===== src/Security/Command.antt =====
-- The struct Command of daemon/internal/security/whitelist.go.
use d_plane_os.Prelude.{Str, List}
use d_plane_os.Security.Regex.{Regex}

-- The name of a command is its key in the map too.
pub record Command : Type 0 where
  pub name : Str
  pub path : Str
  pub allowed_args : List Str
  pub arg_patterns : List Regex
  pub description : Str
