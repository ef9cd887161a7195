-- ===== src/Security/Validate/Open.antt =====
-- What ValidateCommand lets through beyond the patterns of a command.
use d_plane_os.Prelude.{
  arith, ◌≡◌, ◌≢◌, ◌⊎◌, refl, Str, str, str_eq, str_eq_iff, false, some, none, List, [], ◌∷◌, ◌++◌,
  inl, inr, if◌then◌else◌,
}
use d_plane_os.Security.Regex.{Regex}
use d_plane_os.Security.Command.{Command}
use d_plane_os.Security.Whitelist.{command_whitelist, find_command}
use d_plane_os.Security.Validate.{validate_command}
use d_plane_os.Security.Validate.Allowed.{Follows, Allows, validate_command_iff}

Allows-exact :
    (as' : List Str) (ps : List Regex) (extra : List Str)
    → as' ≢ []
    → Follows ps extra
    → Allows as' ps (as' ++ extra)
Allows-exact [] ps extra n f = absurd (n refl)
Allows-exact (a ∷ as') ps extra n f = (extra, refl, f)

accepted :
    (name : Str) (cmd : Command) (extra : List Str)
    → find_command name command_whitelist ≡ some cmd
    → name ≢ str "zpool_create"
    → cmd.allowed_args ≢ []
    → Follows cmd.arg_patterns extra
    → validate_command name (cmd.allowed_args ++ extra) ≡ none
accepted name cmd extra found other n f =
    let e : str_eq name (str "zpool_create") ≡ false =
      ground (arith, str_eq_iff name (str "zpool_create"), other) in
    (validate_command_iff name (cmd.allowed_args ++ extra)).1
      (rw (found, e, if◌then◌else◌) (Allows-exact cmd.allowed_args cmd.arg_patterns extra n f))

Follows-nil : (ps : List Regex) → Follows ps []
Follows-nil [] = tt
Follows-nil (p ∷ ps) = tt

List-cases : (ps : List Regex) → (ps ≡ []) ⊎ (ps ≢ [])
List-cases [] = inl refl
List-cases (p ∷ ps) = inr (λ h. cc)

-- For every command of the whitelist with exact arguments, zpool_create apart, ValidateCommand accepts
-- the exact arguments by themselves, so that none of its patterns has to be met, and if the command
-- has no patterns it accepts whatever comes after the exact arguments.
pub validate_command-open :
    (name : Str) (cmd : Command) (extra : List Str)
    → find_command name command_whitelist ≡ some cmd
    → name ≢ str "zpool_create"
    → cmd.allowed_args ≢ []
    → (validate_command name (cmd.allowed_args ++ []) ≡ none)
      × ((cmd.arg_patterns ≢ []) ⊎ (validate_command name (cmd.allowed_args ++ extra) ≡ none))
validate_command-open name cmd extra found other n = (
  accepted name cmd [] found other n (Follows-nil cmd.arg_patterns),
  elim (List-cases cmd.arg_patterns) [
    | inl e ↦ inr (accepted name cmd extra found other n (rw e tt))
    | inr e ↦ inl e
  ],
)
