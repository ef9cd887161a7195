-- ===== src/Prelude/Text/Laws.antt =====
-- What the text functions decide.
use mathlib.Core.Path.{◌≡◌, refl}
use mathlib.Core.Logic.{◌↔◌}
use mathlib.Core.Bool.{Bool, true, false, not}
use mathlib.Core.List.{List, [], ◌∷◌, ◌++◌}
use Prim.Native.Nat.{ℕ}
use native.Mathlib.Omega.{arith}
use d_plane_os.Prelude.Tests.{◌==◌}
use d_plane_os.Prelude.Lists.{All, In}
use d_plane_os.Prelude.Text.{Str, str_eq, member, has_prefix, all_chars, contains_any}

pub str_eq_iff : (a b : Str) → (str_eq a b ≡ true) ↔ (a ≡ b)
unfolding str_eq
str_eq_iff [] [] = ground arith
str_eq_iff [] (d ∷ t) = ground arith
str_eq_iff (c ∷ s) [] = ground arith
str_eq_iff (c ∷ s) (d ∷ t) = ground (arith, str_eq_iff s t)

pub str_eq_self : (a : Str) → str_eq a a ≡ true
str_eq_self a = (str_eq_iff a a).1 refl

pub member_iff : (s : Str) (ts : List Str) → (member s ts ≡ true) ↔ In s ts
unfolding member
member_iff s [] = (λ h. cc, λ h. absurd h)
member_iff s (t ∷ ts) = ground (arith, str_eq_iff s t, member_iff s ts)

pub has_prefix-append : (p t : Str) → has_prefix p (p ++ t) ≡ true
unfolding has_prefix
has_prefix-append [] t = refl
has_prefix-append (c ∷ p) t = ground (arith, has_prefix-append p t)

pub has_prefix_rest : (p s : Str) → has_prefix p s ≡ true → (t : Str) × (s ≡ p ++ t)
unfolding has_prefix
has_prefix_rest [] s h = (s, refl)
has_prefix_rest (c ∷ p) [] h = cc
has_prefix_rest (c ∷ p) (d ∷ s) h =
    let r = has_prefix_rest p s (ground arith) in (r.0, ground (arith, r.1))

pub has_prefix_iff : (p s : Str) → (has_prefix p s ≡ true) ↔ ((t : Str) × (s ≡ p ++ t))
has_prefix_iff p s = (has_prefix_rest p s, λ h. rw h.1 (has_prefix-append p h.0))

pub all_chars_iff : (p : ℕ → Bool) (s : Str) → (all_chars p s ≡ true) ↔ All (λ c. p c ≡ true) s
unfolding all_chars
all_chars_iff p [] = (λ h. tt, λ h. refl)
all_chars_iff p (c ∷ s) = ground (arith, all_chars_iff p s)

pub all_chars-ne_iff : (c : ℕ) (s : Str) → (all_chars (λ d. not (c == d)) s ≡ true) ↔ ¬ In c s
unfolding all_chars
all_chars-ne_iff c [] = (λ h k. k, λ h. refl)
all_chars-ne_iff c (d ∷ s) = ground (arith, all_chars-ne_iff c s)

-- No character of `s` is among `chars`.
pub contains_any_iff : (chars s : Str) → (contains_any chars s ≡ false) ↔ All (λ c. ¬ In c chars) s
unfolding contains_any
contains_any_iff chars [] = (λ h. tt, λ h. refl)
contains_any_iff chars (c ∷ s) = ground (arith, all_chars-ne_iff c chars, contains_any_iff chars s)
