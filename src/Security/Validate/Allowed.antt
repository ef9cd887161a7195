-- ===== src/Security/Validate/Allowed.antt =====
-- What ValidateCommand accepts, without its loops.

use d_plane_os.Prelude.{
  ℕ, suc, ltb, ◌==◌, arith, ◌≡◌, ◌↔◌, inl, inr, refl, ap, Str, str, str_eq, str_eq_iff, true, false,
  not, Option, some, none, List, [], ◌∷◌, ◌++◌, length, length-append, Bool-cases, Option-cases,
  if◌then◌else◌,
}
use d_plane_os.Security.Regex.{Regex, full_match}
use d_plane_os.Security.Regex.Lang.{Matches, full_match_iff}
use d_plane_os.Security.Command.{Command}
use d_plane_os.Security.Whitelist.{command_whitelist, find_command}
use d_plane_os.Security.Validate.{
  check_rest, check_remaining, check_exact, check_patterns, check_args, check_command,
  validate_zpool_create, validate_command,
}

-- Each text matches the pattern at its place; patterns may be left over.
abbrev pub Fits : List Regex → List Str → Type 0
Fits ps [] = Unit
Fits [] (x ∷ xs) = ⊥
Fits (p ∷ ps) (x ∷ xs) = Matches p x × Fits ps xs

-- What may follow the exact arguments: anything, if the command has no patterns.
abbrev pub Follows : List Regex → List Str → Type 0
Follows [] xs = Unit
Follows (p ∷ ps) xs = Fits (p ∷ ps) xs

-- The arguments that a command of the whitelist allows.
abbrev pub Allows : List Str → List Regex → List Str → Type 0
Allows [] [] args = Unit
Allows [] (p ∷ ps) args = (length args ≡ length (p ∷ ps)) × Fits (p ∷ ps) args
Allows (a ∷ as') ps args = (rest : List Str) × (args ≡ (a ∷ as') ++ rest) × Follows ps rest

check_rest_iff :
    (name : Str) (ps : List Regex) (xs : List Str) → (check_rest name ps xs ≡ none) ↔ Fits ps xs
unfolding check_rest
check_rest_iff name ps [] = (λ h. tt, λ h. refl)
check_rest_iff name [] (x ∷ xs) = (λ h. cc, λ h. absurd h)
check_rest_iff name (p ∷ ps) (x ∷ xs) =
    let m = full_match_iff p x in
    let ih = check_rest_iff name ps xs in
    elim (Bool-cases (full_match p x)) [
      | inl e ↦ (
        λ h. (m.0 e, ih.0 (rw (e, not, if◌then◌else◌) at h)),
        λ f. rw (e, not, if◌then◌else◌) (ih.1 f.1),
      )
      | inr e ↦ (λ h. cc (e, h), λ f. cc (e, m.1 f.0))
    ]

check_remaining_iff :
    (name : Str) (ps : List Regex) (xs : List Str)
    → (check_remaining name ps xs ≡ none) ↔ Follows ps xs
unfolding check_remaining
check_remaining_iff name [] xs = (λ h. tt, λ h. refl)
check_remaining_iff name (p ∷ ps) xs = check_rest_iff name (p ∷ ps) xs

-- The arguments begin with the exact ones, and the rest may follow.
abbrev Begins : List Str → List Regex → List Str → Type 0
Begins as' ps xs = (rest : List Str) × (xs ≡ as' ++ rest) × Follows ps rest

check_exact_sound :
    (name : Str) (i : ℕ) (as' : List Str) (ps : List Regex) (xs : List Str)
    → check_exact name i as' ps xs ≡ none
    → Begins as' ps xs
unfolding check_exact
check_exact_sound name i [] ps xs h = (xs, refl, (check_remaining_iff name ps xs).0 h)
check_exact_sound name i (a ∷ as') ps [] h = cc
check_exact_sound name i (a ∷ as') ps (x ∷ xs) h = elim (Bool-cases (str_eq x a)) [
  | inl e ↦
      let (rest, q, f) =
        check_exact_sound name (suc i) as' ps xs (rw (e, not, if◌then◌else◌) at h) in
      (rest, cc ((str_eq_iff x a).0 e, q), f)
  | inr e ↦ cc (e, h)
]

check_exact_complete :
    (name : Str) (i : ℕ) (as' : List Str) (ps : List Regex) (rest : List Str)
    → Follows ps rest
    → check_exact name i as' ps (as' ++ rest) ≡ none
unfolding check_exact
check_exact_complete name i [] ps rest f = (check_remaining_iff name ps rest).1 f
check_exact_complete name i (a ∷ as') ps rest f =
    rw ((str_eq_iff a a).1 refl, not, if◌then◌else◌)
      (check_exact_complete name (suc i) as' ps rest f)

check_patterns_iff :
    (ps : List Regex) (xs : List Str)
    → length xs ≡ length ps
    → (check_patterns ps xs ≡ none) ↔ Fits ps xs
unfolding check_patterns
check_patterns_iff [] [] l = (λ h. tt, λ h. refl)
check_patterns_iff [] (x ∷ xs) l = absurd (omega arith)
check_patterns_iff (p ∷ ps) [] l = absurd (omega arith)
check_patterns_iff (p ∷ ps) (x ∷ xs) l =
    let m = full_match_iff p x in
    let ih = check_patterns_iff ps xs (omega arith) in
    elim (Bool-cases (full_match p x)) [
      | inl e ↦ (
        λ h. (m.0 e, ih.0 (rw (e, not, if◌then◌else◌) at h)),
        λ f. rw (e, not, if◌then◌else◌) (ih.1 f.1),
      )
      | inr e ↦ (λ h. cc (e, h), λ f. cc (e, m.1 f.0))
    ]

check_args_sound :
    (name : Str) (as' : List Str) (ps : List Regex) (args : List Str)
    → check_args name as' ps args ≡ none
    → Allows as' ps args
unfolding check_args
check_args_sound name [] [] args h = tt
check_args_sound name [] (p ∷ ps) args h = elim (Bool-cases (length args == length (p ∷ ps))) [
  | inl e ↦
      let same : length args ≡ length (p ∷ ps) = ground (arith, e) in
      (same, (check_patterns_iff (p ∷ ps) args same).0 (rw (e, not, if◌then◌else◌) at h))
  | inr e ↦ cc (e, h)
]
check_args_sound name (a ∷ as') ps args h =
    elim (Bool-cases (ltb (length args) (length (a ∷ as')))) [
      | inl e ↦ cc (e, h)
      | inr e ↦ check_exact_sound name 0 (a ∷ as') ps args (rw (e, if◌then◌else◌) at h)
    ]

check_args_complete :
    (name : Str) (as' : List Str) (ps : List Regex) (args : List Str)
    → Allows as' ps args
    → check_args name as' ps args ≡ none
unfolding check_args
check_args_complete name [] [] args f = refl
check_args_complete name [] (p ∷ ps) args (same, f) =
    let e : (length args == length (p ∷ ps)) ≡ true = ground (arith, same) in
    rw (e, not, if◌then◌else◌) ((check_patterns_iff (p ∷ ps) args same).1 f)
check_args_complete name (a ∷ as') ps args (rest, q, f) =
    let e : ltb (length args) (length (a ∷ as')) ≡ false =
      ground (arith, ap (λ (x : List Str). length x) q, length-append {0} (a ∷ as') rest) in
    rw (e, if◌then◌else◌) (rw q (check_exact_complete name 0 (a ∷ as') ps rest f))

-- For a command with its own rule, the arguments are checked by that rule; a name that is no key of
-- the whitelist is refused.
abbrev pub Accepts : Str → List Str → Option Command → Type 0
Accepts name args none = ⊥
Accepts name args (some cmd) =
    if str_eq name (str "zpool_create")
    then validate_zpool_create args ≡ none
    else Allows cmd.allowed_args cmd.arg_patterns args

-- ValidateCommand returns no error exactly if the name is a key of the whitelist and: for
-- zpool_create, if its own rule accepts the arguments; for a command with exact arguments, if the
-- arguments begin with those and each further one matches the pattern at its place, or the command has
-- no patterns; for a command with patterns alone, if there are as many arguments as patterns and each
-- matches; and for any arguments where the command has neither.
pub validate_command_iff :
    (name : Str) (args : List Str)
    → (validate_command name args ≡ none) ↔ Accepts name args (find_command name command_whitelist)
unfolding validate_command check_command str
validate_command_iff name args = elim (Option-cases (find_command name command_whitelist)) [
  | inl e ↦ rw e (λ h. cc, λ h. absurd h)
  | inr (cmd, e) ↦
      let sound = check_args_sound cmd.name cmd.allowed_args cmd.arg_patterns args in
      let complete = check_args_complete cmd.name cmd.allowed_args cmd.arg_patterns args in
      rw e (elim (Bool-cases (str_eq name (str "zpool_create"))) [
        | inl b ↦ rw (b, if◌then◌else◌) (λ h. h, λ h. h)
        | inr b ↦ rw (b, if◌then◌else◌) (sound, complete)
      ])
]
