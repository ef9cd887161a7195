-- ===== src/Prelude/Text/Cut.antt =====
-- Where a text is cut at its first character of a kind.
use mathlib.Core.Path.{◌≡◌, refl, ap}
use mathlib.Core.Logic.{inl, inr}
use mathlib.Core.Bool.{false}
use mathlib.Core.Option.{Option, none, some}
use mathlib.Core.Option
use mathlib.Core.List.{[], ◌∷◌, ◌++◌}
use Prim.Native.Nat.{ℕ}
use native.Mathlib.Omega.{arith}
use d_plane_os.Prelude.Tests.{◌==◌, if◌then◌else◌, Bool-cases, Option-cases}
use d_plane_os.Prelude.Lists.{In}
use d_plane_os.Prelude.Text.{Str, has_prefix, cut}

-- The two parts around the first `c`, by cases on the head alone.
cut-cons :
    (c d : ℕ) (s : Str)
    → cut (c ∷ []) (d ∷ s) ≡ (
        if c == d
        then some ([], s)
        else Option.map (λ (r : Str × Str). (d ∷ r.0, r.1)) (cut (c ∷ []) s))
unfolding cut has_prefix
cut-cons c d s = elim (Bool-cases (c == d)) [
  | inl e ↦ rw (e, if◌then◌else◌) refl
  | inr e ↦ rw (e, if◌then◌else◌) refl
]

cut_nil : (c : ℕ) (a b : Str) → cut (c ∷ []) [] ≡ some (a, b) → ⊥
unfolding cut has_prefix
cut_nil c a b h = cc h

not_head : (c d : ℕ) (a : Str) → (c == d) ≡ false → ¬ In c a → ¬ In c (d ∷ a)
not_head c d a e h (inl q) = ground (arith, e, q)
not_head c d a e h (inr k) = h k

shift_parts :
    (d : ℕ) (a' a b' b : Str)
    → ◌≡◌ {A = Option (Str × Str)} (some (d ∷ a', b')) (some (a, b))
    → (a ≡ d ∷ a') × (b ≡ b')
shift_parts d a' a b' b h = (cc h, cc h)

-- A character is cut at its first occurrence.
pub cut_first : (c : ℕ) (a b : Str) → ¬ In c a → cut (c ∷ []) (a ++ (c ∷ b)) ≡ some (a, b)
cut_first c [] b h = rw cut-cons (ground arith)
cut_first c (d ∷ a) b h =
    let apart : (c == d) ≡ false = ground (arith, h) in
    rw (cut-cons, apart, if◌then◌else◌, cut_first c a b (λ k. h (inr k))) refl

-- One more character in front of the first part.
abbrev shifted : ℕ → Option (Str × Str) → Option (Str × Str)
shifted d o = Option.map (λ (r : Str × Str). (d ∷ r.0, r.1)) o

head_parts :
    (s a b : Str) → ◌≡◌ {A = Option (Str × Str)} (some ([], s)) (some (a, b)) → (a ≡ []) × (b ≡ s)
head_parts s a b h = (cc h, cc h)

pub cut_parts :
    (c : ℕ) (s a b : Str) → cut (c ∷ []) s ≡ some (a, b) → (s ≡ a ++ (c ∷ b)) × (¬ In c a)
cut_parts c [] a b h = absurd (cut_nil c a b h)
cut_parts c (d ∷ s) a b h = elim (Bool-cases (c == d)) [
  | inl e ↦
      let found : ◌≡◌ {A = Option (Str × Str)} (some ([], s)) (some (a, b)) =
        rw (cut-cons, e, if◌then◌else◌) at h in
      let (p, q) = head_parts s a b found in rw (p, q) (ground arith, λ k. k)
  | inr e ↦
      let later : shifted d (cut (c ∷ []) s) ≡ some (a, b) = rw (cut-cons, e, if◌then◌else◌) at h in
      elim (Option-cases (cut (c ∷ []) s)) [
        | inl q ↦ cc (rw q at later)
        | inr ((a', b'), q) ↦
            let (same, fresh) = cut_parts c s a' b' q in
            let here : ◌≡◌ {A = Option (Str × Str)} (some (d ∷ a', b')) (some (a, b)) =
              rw q at later in
            let (p, p') = shift_parts d a' a b' b here in
            rw (p, p') (ap (λ (x : Str). d ∷ x) same, not_head c d a' e fresh)
      ]
]
