-- ===== src/Security/Validate.antt =====
-- ValidateCommand of daemon/internal/security/whitelist.go. A nil error is `none`; an error is a
-- constructor with the values that its message shows.
pub mod Allowed
pub mod Safe
pub mod Open
use d_plane_os.Prelude.{
  ℕ, zero, suc, ◌+◌, ltb, ◌==◌, Str, str, str_eq, member, Bool, true, false, not, Option, some,
  none, List, [], ◌∷◌, length, ◌++◌, if◌then◌else◌,
}
use d_plane_os.Security.Chars.{alnum, chars}
use d_plane_os.Security.Regex.{Regex, set, plus, lit, ◌<>◌, ◌<|>◌, full_match}
use d_plane_os.Security.Command.{Command}
use d_plane_os.Security.Whitelist.{command_whitelist, find_command}

pub data CommandError : Type 0 where
  not_whitelisted : Str → CommandError
  insufficient_arguments : Str → CommandError
  invalid_argument : ℕ → Str → Str → CommandError
  too_many_arguments : Str → CommandError
  pattern_mismatch : Str → CommandError
  wrong_number : Str → ℕ → ℕ → CommandError
  create_too_short not_create : CommandError
  invalid_pool_name invalid_device : Str → CommandError

abbrev pub pool_types : List Str
pool_types = str "mirror" ∷ str "raidz" ∷ str "raidz1" ∷ str "raidz2" ∷ str "raidz3" ∷ []

abbrev pub pool_name_pattern : Regex
pool_name_pattern = plus (set (alnum ++ chars "_-"))

-- ^(/dev/[a-zA-Z0-9/_\-]+|[a-zA-Z0-9_\-]+)$
abbrev pub device_pattern : Regex
device_pattern =
    (lit (str "/dev/") <> plus (set (alnum ++ chars "/_-"))) <|> plus (set (alnum ++ chars "_-"))

unfoldable pub check_devices : List Str → Option CommandError
unfolding full_match
check_devices [] = none
check_devices (d ∷ ds) =
    if not (full_match device_pattern d) then some (invalid_device d) else check_devices ds

check_pool : Str → List Str → Option CommandError
unfolding full_match check_devices
check_pool name devices =
    if not (full_match pool_name_pattern name)
    then some (invalid_pool_name name)
    else check_devices devices

-- At least three arguments leave a pool name after a type, so that the message on a missing one is
-- never given.
unfoldable pub validate_zpool_create : List Str → Option CommandError
unfolding str_eq member check_pool
validate_zpool_create (a ∷ b ∷ c ∷ rest) =
    if not (str_eq a (str "create"))
    then some not_create
    else if member b pool_types
    then check_pool c rest
    else check_pool b (c ∷ rest)
validate_zpool_create _ = some create_too_short

-- The loop over the remaining arguments, with the patterns from the index on.
unfoldable pub check_rest : Str → List Regex → List Str → Option CommandError
unfolding full_match
check_rest name ps [] = none
check_rest name [] (x ∷ xs) = some (too_many_arguments name)
check_rest name (p ∷ ps) (x ∷ xs) =
    if not (full_match p x) then some (pattern_mismatch x) else check_rest name ps xs

check_remaining : Str → List Regex → List Str → Option CommandError
unfolding check_rest
check_remaining name [] xs = none
check_remaining name (p ∷ ps) xs = check_rest name (p ∷ ps) xs

-- The loop over the exact arguments, and what follows it. The length was tested before.
unfoldable pub check_exact : Str → ℕ → List Str → List Regex → List Str → Option CommandError
unfolding str_eq check_remaining
check_exact name i [] ps xs = check_remaining name ps xs
check_exact name i (a ∷ as') ps [] = some (insufficient_arguments name)
check_exact name i (a ∷ as') ps (x ∷ xs) =
    if not (str_eq x a) then some (invalid_argument i a x) else check_exact name (suc i) as' ps xs

-- The loop over the patterns where there are no exact arguments.
unfoldable pub check_patterns : List Regex → List Str → Option CommandError
unfolding full_match
check_patterns [] xs = none
check_patterns (p ∷ ps) [] = none
check_patterns (p ∷ ps) (x ∷ xs) =
    if not (full_match p x) then some (pattern_mismatch x) else check_patterns ps xs

check_args : Str → List Str → List Regex → List Str → Option CommandError
unfolding check_exact check_patterns
check_args name [] [] args = none
check_args name [] (p ∷ ps) args =
    if not (length args == length (p ∷ ps))
    then some (wrong_number name (length (p ∷ ps)) (length args))
    else check_patterns (p ∷ ps) args
check_args name (a ∷ as') ps args =
    if ltb (length args) (length (a ∷ as'))
    then some (insufficient_arguments name)
    else check_exact name 0 (a ∷ as') ps args

unfoldable pub check_command : Command → List Str → Option CommandError
unfolding check_args
check_command cmd args = check_args cmd.name cmd.allowed_args cmd.arg_patterns args

unfoldable pub validate_command : Str → List Str → Option CommandError
unfolding find_command str_eq validate_zpool_create
validate_command name args = elim (find_command name command_whitelist) [
  | none ↦ some (not_whitelisted name)
  | some cmd ↦
      if str_eq name (str "zpool_create")
      then validate_zpool_create args
      else check_command cmd args
]
