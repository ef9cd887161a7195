-- ===== src/Security/Names.antt =====
-- The validators of names and paths of daemon/internal/security/whitelist.go, and SanitizeOutput.
pub mod Exact
pub mod Escape
use d_plane_os.Prelude.{
  ℕ, ◌+◌, ltb, ◌==◌, Str, str, Bool, true, false, not, ◌&&◌, ◌||◌, Option, some, none, List, [],
  ◌∷◌, ◌++◌, cut, split, has_prefix, drop, length, byte_length, if◌then◌else◌,
}
use d_plane_os.Security.Chars.{lower, letters, digits, alnum, chars}
use d_plane_os.Security.Regex.{Regex, set, star, plus, opt, up_to, lit, ◌<>◌, ◌<|>◌, full_match}

pub data NameError : Type 0 where
  invalid_pool invalid_snapshot invalid_suffix invalid_characters : Str → NameError
  invalid_length : NameError
  invalid_device_path invalid_mount_point : Str → NameError
  snapshot_dataset : NameError → NameError

-- ^[a-zA-Z0-9]+$
abbrev pub token_pattern : Regex
token_pattern = plus (set alnum)

unfoldable pub is_valid_session_token : Str → Bool
unfolding byte_length full_match
is_valid_session_token token =
    if ltb (byte_length token) 20 || ltb 100 (byte_length token)
    then false
    else full_match token_pattern token

-- ^[a-zA-Z][a-zA-Z0-9_\-\.]{0,254}$
abbrev pub valid_pool_name : Regex
valid_pool_name = set letters <> up_to 254 (set (alnum ++ chars "_-."))

unfoldable pub validate_pool_name : Str → Option NameError
unfolding full_match
validate_pool_name name =
    if not (full_match valid_pool_name name) then some (invalid_pool name) else none

-- ^[a-zA-Z0-9_\-\.]+$
abbrev pub component_pattern : Regex
component_pattern = plus (set (alnum ++ chars "_-."))

unfoldable pub check_components : List Str → Option NameError
unfolding full_match
check_components [] = none
check_components (p ∷ ps) =
    if not (full_match component_pattern p)
    then some (invalid_characters p)
    else check_components ps

-- A split has at least one part, so that the message on the format is never given.
unfoldable pub validate_dataset_name : Str → Option NameError
unfolding byte_length check_components split
validate_dataset_name name =
    if (byte_length name == 0) || ltb 255 (byte_length name)
    then some invalid_length
    else check_components (split b'/' name)

check_suffix : Option NameError → Str → Option NameError
unfolding full_match
check_suffix (some e) suffix = some (snapshot_dataset e)
check_suffix none suffix =
    if not (full_match component_pattern suffix) then some (invalid_suffix suffix) else none

unfoldable pub validate_snapshot_name : Str → Option NameError
unfolding validate_dataset_name check_suffix
validate_snapshot_name name = elim (cut (b'@' ∷ []) name) [
  | none ↦ some (invalid_snapshot name)
  | some (dataset, suffix) ↦ check_suffix (validate_dataset_name dataset) suffix
]

-- ^/dev/(sd[a-z][0-9]*|sr[0-9]+|nvme[0-9]+n[0-9]+p?[0-9]*)$
abbrev pub valid_device_path : Regex
valid_device_path =
    lit (str "/dev/")
    <> ((lit (str "sd") <> set lower <> star (set digits))
        <|> (lit (str "sr") <> plus (set digits))
        <|> (lit (str "nvme")
            <> plus (set digits)
            <> lit (str "n")
            <> plus (set digits)
            <> opt (set (chars "p"))
            <> star (set digits)))

unfoldable pub validate_device_path : Str → Option NameError
unfolding full_match
validate_device_path path =
    if not (full_match valid_device_path path) then some (invalid_device_path path) else none

-- ^/(mnt|media)/[a-zA-Z0-9_\-\.]+(/[a-zA-Z0-9_\-\.]+)*$
abbrev pub valid_mount_point : Regex
valid_mount_point =
    lit (str "/")
    <> (lit (str "mnt") <|> lit (str "media"))
    <> lit (str "/")
    <> component_pattern
    <> star (lit (str "/") <> component_pattern)

unfoldable pub validate_mount_point : Str → Option NameError
unfolding full_match
validate_mount_point path =
    if not (full_match valid_mount_point path) then some (invalid_mount_point path) else none

-- `\s` of package regexp
unfoldable pub is_blank : ℕ → Bool
is_blank c = (c == 9) || (c == 10) || (c == 12) || (c == 13) || (c == 32)

starts_secret : Str → Bool
unfolding is_blank
starts_secret [] = false
starts_secret (c ∷ s) = not (is_blank c)

-- ReplaceAllString of `key` and `[^\s]+` by `key` and `***`. While a match is being skipped the flag
-- is set; a key has no blank, so that the skipped characters are those up to the next blank.
unfoldable pub redact : Str → Bool → Str → Str
unfolding has_prefix is_blank starts_secret
redact key skipping [] = []
redact key skipping (c ∷ s) =
    let skipped = redact key true s in
    let copied = c ∷ redact key false s in
    if skipping && not (is_blank c)
    then skipped
    else if has_prefix key (c ∷ s) && starts_secret (drop (length key) (c ∷ s))
    then key ++ (b'*' ∷ b'*' ∷ b'*' ∷ skipped)
    else copied

unfoldable pub sanitize_output : Str → Str
unfolding redact str
sanitize_output output =
    redact (str "key=") false (redact (str "token=") false (redact (str "password=") false output))
