-- ===== src/Security/Examples.antt =====
-- Command lines and names that the whitelist accepts.
use d_plane_os.Prelude.{
  ◌≡◌, ◌≢◌, ◌↔◌, ◌⊎◌, false, true, refl, Str, str, str_eq, str_eq_iff, none, some, All, List, [],
  ◌∷◌, ◌++◌,
}
use d_plane_os.Security.Command.{Command}
use d_plane_os.Security.Regex.{set, plus, full_match}
use d_plane_os.Security.Chars.{alnum, chars}
use d_plane_os.Security.Whitelist.{command_whitelist, find_command}
use d_plane_os.Security.Validate.{
  validate_command, check_command, check_devices, validate_zpool_create,
}
use d_plane_os.Security.Validate.Allowed.{Accepts, validate_command_iff}
use d_plane_os.Security.Validate.Safe.{IsPlainText, validate_command-plain}
use d_plane_os.Security.Validate.Open.{validate_command-open}
use d_plane_os.Security.Names.{component_pattern, validate_snapshot_name}
use d_plane_os.Security.Names.Exact.{IsSnapshotName, validate_snapshot_name_iff}

abbrev scrub : List Str
scrub = str "scrub" ∷ str "tank" ∷ []

scrub_accepted : validate_command (str "zpool_scrub") scrub ≡ none
unfolding validate_command check_command full_match chars str
scrub_accepted = refl

abbrev scrub_command : Command
scrub_command = record {
  name = str "zpool_scrub";
  path = str "/usr/sbin/zpool";
  allowed_args = str "scrub" ∷ [];
  arg_patterns = plus (set (alnum ++ chars "_-")) ∷ [];
  description = str "Start ZFS pool scrub";
}

scrub_is_listed : find_command (str "zpool_scrub") command_whitelist ≡ some scrub_command
unfolding find_command str
scrub_is_listed = refl

apart : (a b : Str) → str_eq a b ≡ false → a ≢ b
apart a b h e = cc (h, (str_eq_iff a b).1 e)

scrub_is_not_acl : str_eq (str "zpool_scrub") (str "getfacl") ≡ false
unfolding str_eq str
scrub_is_not_acl = refl

scrub_is_not_create : str_eq (str "zpool_scrub") (str "zpool_create") ≡ false
unfolding str_eq str
scrub_is_not_create = refl

validate_command_iff_example :
    (validate_command (str "zpool_scrub") scrub ≡ none)
    ↔ Accepts (str "zpool_scrub") scrub (find_command (str "zpool_scrub") command_whitelist)
validate_command_iff_example = validate_command_iff (str "zpool_scrub") scrub

validate_command-plain_example : All IsPlainText scrub
validate_command-plain_example =
    validate_command-plain (str "zpool_scrub") scrub scrub_command scrub_is_listed (λ h. cc)
      (apart (str "zpool_scrub") (str "getfacl") scrub_is_not_acl) scrub_accepted

validate_command-open_example :
    (validate_command (str "zpool_scrub") (scrub_command.allowed_args ++ []) ≡ none)
    × ((scrub_command.arg_patterns ≢ [])
        ⊎ (validate_command (str "zpool_scrub") (scrub_command.allowed_args ++ []) ≡ none))
validate_command-open_example =
    validate_command-open (str "zpool_scrub") scrub_command [] scrub_is_listed
      (apart (str "zpool_scrub") (str "zpool_create") scrub_is_not_create) (λ h. cc)

abbrev creation : List Str
creation = str "create" ∷ str "mirror" ∷ str "tank" ∷ str "sda" ∷ str "/dev/sdb" ∷ []

creation_accepted : validate_zpool_create creation ≡ none
unfolding validate_zpool_create check_devices full_match chars str
creation_accepted = refl

validate_snapshot_name_iff_example :
    (validate_snapshot_name (str "tank/a@b") ≡ none) ↔ IsSnapshotName (str "tank/a@b")
validate_snapshot_name_iff_example = validate_snapshot_name_iff (str "tank/a@b")

etc_matches : full_match component_pattern (str "etc") ≡ true
unfolding full_match chars str
etc_matches = refl
