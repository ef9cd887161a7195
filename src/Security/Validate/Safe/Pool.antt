-- ===== src/Security/Validate/Safe/Pool.antt =====
-- validateZpoolCreate and the characters that a shell reads as its own.
use mathlib.Core.Path.{subst}
use d_plane_os.Prelude.{
  ◌==◌, ◌≤◌, arith, ◌≡◌, inl, inr, refl, sym, Str, str, str_eq, str_eq_iff, member, member_iff,
  true, not, none, All, In, List, [], ◌∷◌, length, Bool-cases, all_chars, if◌then◌else◌,
}
use d_plane_os.Security.Regex.{full_match}
use d_plane_os.Security.Regex.Lang.{full_match_iff}
use d_plane_os.Security.Regex.Avoids.{avoids, Matches-avoids}
use d_plane_os.Security.Chars.{chars}
use d_plane_os.Security.Validate.{
  check_pool, check_devices, device_pattern, pool_name_pattern, pool_types, validate_zpool_create,
}
use d_plane_os.Security.Validate.Safe.{shell_meta, IsPlainText, all_texts, plain_text}

device_is_plain : avoids shell_meta device_pattern ≡ true
unfolding avoids shell_meta chars
device_is_plain = refl

pool_name_is_plain : avoids shell_meta pool_name_pattern ≡ true
unfolding avoids shell_meta chars
pool_name_is_plain = refl

create_is_plain : all_chars (λ c. all_chars (λ d. not (c == d)) shell_meta) (str "create") ≡ true
unfolding all_chars shell_meta str
create_is_plain = refl

pool_types_are_plain : all_texts pool_types ≡ true
unfolding all_texts shell_meta str
pool_types_are_plain = refl

In-plain : (t : Str) (ts : List Str) → all_texts ts ≡ true → In t ts → IsPlainText t
unfolding all_texts
In-plain t [] h k = absurd k
In-plain t (x ∷ ts) h (inl e) = subst IsPlainText e (plain_text x (ground (arith, h)))
In-plain t (x ∷ ts) h (inr k) = In-plain t ts (ground (arith, h)) k

check_devices-plain : (ds : List Str) → check_devices ds ≡ none → All IsPlainText ds
unfolding check_devices
check_devices-plain [] h = tt
check_devices-plain (d ∷ ds) h = elim (Bool-cases (full_match device_pattern d)) [
  | inl e ↦ (
    Matches-avoids shell_meta device_pattern d device_is_plain
        ((full_match_iff device_pattern d).0 e),
    check_devices-plain ds (rw (e, not, if◌then◌else◌) at h),
  )
  | inr e ↦ cc (e, h)
]

check_pool-plain : (n : Str) (ds : List Str) → check_pool n ds ≡ none → All IsPlainText (n ∷ ds)
unfolding check_pool
check_pool-plain n ds h = elim (Bool-cases (full_match pool_name_pattern n)) [
  | inl e ↦ (
    Matches-avoids shell_meta pool_name_pattern n pool_name_is_plain
        ((full_match_iff pool_name_pattern n).0 e),
    check_devices-plain ds (rw (e, not, if◌then◌else◌) at h),
  )
  | inr e ↦ cc (e, h)
]

-- If the rule of `zpool create` accepts the arguments, then the first is `create`, there are at least
-- three, and none has such a character.
pub validate_zpool_create-plain :
    (args : List Str) → validate_zpool_create args ≡ none → All IsPlainText args × (3 ≤ length args)
unfolding validate_zpool_create
validate_zpool_create-plain (a ∷ b ∷ c ∷ rest) h = elim (Bool-cases (str_eq a (str "create"))) [
  | inl e ↦
      let is_create = (str_eq_iff a (str "create")).0 e in
      let plain_create =
        subst IsPlainText (sym is_create) (plain_text (str "create") create_is_plain) in
      elim (Bool-cases (member b pool_types)) [
        | inl m ↦
            let typed = (member_iff b pool_types).0 m in
            (
              (
                plain_create,
                (
                  In-plain b pool_types pool_types_are_plain typed,
                  check_pool-plain c rest (rw (e, m, not, if◌then◌else◌) at h),
                ),
              ),
              omega arith,
            )
        | inr m ↦ (
          (plain_create, check_pool-plain b (c ∷ rest) (rw (e, m, not, if◌then◌else◌) at h)),
          omega arith,
        )
      ]
  | inr e ↦ cc (e, h)
]
validate_zpool_create-plain [] h = cc
validate_zpool_create-plain (a ∷ []) h = cc
validate_zpool_create-plain (a ∷ b ∷ []) h = cc
