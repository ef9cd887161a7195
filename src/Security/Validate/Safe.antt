-- ===== src/Security/Validate/Safe.antt =====
-- No character that a shell would read as its own passes through ValidateCommand.
pub mod Pool
use mathlib.Core.Path.{subst}
use d_plane_os.Prelude.{
  ◌==◌, ◌≤◌, arith, ◌≡◌, ◌≢◌, inl, inr, refl, sym, ◌∙◌, Str, str, str_eq, str_eq_iff, member,
  member_iff, Bool, true, false, not, ◌&&◌, ◌||◌, some, none, All, All-append, In, List, [], ◌∷◌,
  length, Bool-cases, all_chars, all_chars-ne_iff, if◌then◌else◌,
}
use d_plane_os.Security.Regex.{Regex, full_match}
use d_plane_os.Security.Regex.Lang.{full_match_iff}
use d_plane_os.Security.Regex.Avoids.{avoids, IsNone, Matches-avoids}
use d_plane_os.Security.Command.{Command}
use d_plane_os.Security.Chars.{chars}
use d_plane_os.Security.Whitelist.{command_whitelist, find_command}
use d_plane_os.Security.Validate.{
  check_pool, check_devices, device_pattern, pool_name_pattern, pool_types, validate_zpool_create,
  validate_command,
}
use d_plane_os.Security.Validate.Allowed.{Fits, Allows, validate_command_iff}

-- Quotes, expansions, redirections, separators and line ends. A space and a tilde are not among them.
unfoldable pub shell_meta : Str
unfolding str
shell_meta = 10 ∷ 13 ∷ 9 ∷ b'"' ∷ 39 ∷ 92 ∷ str ";|&$`<>(){}[]*?!#"

abbrev pub IsPlainText : Str → Type 0
IsPlainText t = All (IsNone shell_meta) t

unfoldable pub all_texts : List Str → Bool
unfolding all_chars
all_texts [] = true
all_texts (t ∷ ts) = all_chars (λ c. all_chars (λ d. not (c == d)) shell_meta) t && all_texts ts

all_patterns : List Regex → Bool
unfolding avoids
all_patterns [] = true
all_patterns (p ∷ ps) = avoids shell_meta p && all_patterns ps

-- The test of one command: its own arguments and its patterns have none of these characters.
abbrev has_any : List Regex → Bool
has_any [] = false
has_any (p ∷ ps) = true

is_plain : Command → Bool
unfolding all_texts all_patterns
is_plain c = all_texts c.allowed_args && all_patterns c.arg_patterns

is_plain_or_open : Command → Bool
unfolding is_plain str_eq str
is_plain_or_open c = str_eq c.name (str "getfacl") || not (has_any c.arg_patterns) || is_plain c

all_commands : (Command → Bool) → List Command → Bool
all_commands p [] = true
all_commands p (c ∷ cs) = p c && all_commands p cs

whitelist_is_plain : all_commands is_plain_or_open command_whitelist ≡ true
unfolding all_commands is_plain_or_open shell_meta chars
whitelist_is_plain = refl

found_in :
    (p : Command → Bool) (n : Str) (cs : List Command) (c : Command)
    → all_commands p cs ≡ true
    → find_command n cs ≡ some c
    → (p c ≡ true) × (c.name ≡ n)
unfolding all_commands find_command
found_in p n [] c h e = cc
found_in p n (x ∷ xs) c h e = elim (Bool-cases (str_eq x.name n)) [
  | inl q ↦
      let same : x ≡ c = cc (rw (q, if◌then◌else◌) at e) in
      subst (λ (y : Command). (p y ≡ true) × (y.name ≡ n)) same
        (ground (arith, h), (str_eq_iff x.name n).0 q)
  | inr q ↦ found_in p n xs c (ground (arith, h)) (rw (q, if◌then◌else◌) at e)
]

pub plain_text :
    (t : Str) → all_chars (λ c. all_chars (λ d. not (c == d)) shell_meta) t ≡ true → IsPlainText t
unfolding all_chars
plain_text [] h = tt
plain_text (c ∷ t) h =
    ((all_chars-ne_iff c shell_meta).0 (ground (arith, h)), plain_text t (ground (arith, h)))

plain_texts : (ts : List Str) → all_texts ts ≡ true → All IsPlainText ts
unfolding all_texts
plain_texts [] h = tt
plain_texts (t ∷ ts) h = (plain_text t (ground (arith, h)), plain_texts ts (ground (arith, h)))

Fits-plain :
    (ps : List Regex) (xs : List Str) → all_patterns ps ≡ true → Fits ps xs → All IsPlainText xs
unfolding all_patterns
Fits-plain ps [] h f = tt
Fits-plain [] (x ∷ xs) h f = absurd f
Fits-plain (p ∷ ps) (x ∷ xs) h f = (
  Matches-avoids shell_meta p x (ground (arith, h)) f.0,
  Fits-plain ps xs (ground (arith, h)) f.1,
)

Allows-plain :
    (as' : List Str) (p : Regex) (ps : List Regex) (args : List Str)
    → all_texts as' ≡ true
    → all_patterns (p ∷ ps) ≡ true
    → Allows as' (p ∷ ps) args
    → All IsPlainText args
Allows-plain [] p ps args h k f = Fits-plain (p ∷ ps) args k f.1
Allows-plain (a ∷ as') p ps args h k (rest, q, f) =
    subst (All IsPlainText) (sym q) (
      All-append IsPlainText (a ∷ as') rest (plain_texts (a ∷ as') h)
        (Fits-plain (p ∷ ps) rest k f))

-- The patterns of a command that has some, taken apart.
plain_command :
    (as' : List Str) (ps : List Regex) (args : List Str)
    → ps ≢ []
    → all_texts as' && all_patterns ps ≡ true
    → Allows as' ps args
    → All IsPlainText args
plain_command as' [] args n h f = absurd (n refl)
plain_command as' (p ∷ ps) args n h f =
    Allows-plain as' p ps args (ground (arith, h)) (ground (arith, h)) f

-- What the test says of a command that is no exception.
no_exception :
    (n : Str) (ps : List Regex) (b : Bool)
    → str_eq n (str "getfacl") || not (has_any ps) || b ≡ true
    → n ≢ str "getfacl"
    → ps ≢ []
    → b ≡ true
no_exception n [] b h m k = absurd (k refl)
no_exception n (p ∷ ps) b h m k = ground (arith, h, m, str_eq_iff n (str "getfacl"))

-- The command with a rule of its own has no patterns.
is_open_create : Command → Bool
is_open_create c = not (str_eq c.name (str "zpool_create")) || not (has_any c.arg_patterns)

whitelist_create : all_commands is_open_create command_whitelist ≡ true
unfolding is_open_create all_commands str_eq str
whitelist_create = refl

patterned-not_create :
    (n : Str) (ps : List Regex)
    → not (str_eq n (str "zpool_create")) || not (has_any ps) ≡ true
    → ps ≢ []
    → str_eq n (str "zpool_create") ≡ false
patterned-not_create n [] h k = absurd (k refl)
patterned-not_create n (p ∷ ps) h k = ground (arith, h)

-- If ValidateCommand accepts the arguments of a command that has patterns, other than getfacl, then
-- no argument has a quote, an expansion, a redirection, a separator, a glob or a line end of a shell.
pub validate_command-plain :
    (name : Str) (args : List Str) (cmd : Command)
    → find_command name command_whitelist ≡ some cmd
    → cmd.arg_patterns ≢ []
    → name ≢ str "getfacl"
    → validate_command name args ≡ none
    → All IsPlainText args
unfolding is_plain_or_open is_plain is_open_create
validate_command-plain name args cmd found patterned not_acl v =
    let (fine, named) =
      found_in is_plain_or_open name command_whitelist cmd whitelist_is_plain found in
    let (open_create, _) =
      found_in is_open_create name command_whitelist cmd whitelist_create found in
    let accepted = rw found at ((validate_command_iff name args).0 v) in
    let other : str_eq name (str "zpool_create") ≡ false =
      rw⁻¹ named (patterned-not_create cmd.name cmd.arg_patterns open_create patterned) in
    let allowed : Allows cmd.allowed_args cmd.arg_patterns args =
      rw (other, if◌then◌else◌) at accepted in
    plain_command cmd.allowed_args cmd.arg_patterns args patterned
      (no_exception cmd.name cmd.arg_patterns (is_plain cmd) fine (λ e. not_acl (sym named ∙ e))
        patterned)
      allowed
