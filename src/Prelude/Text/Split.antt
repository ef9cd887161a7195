-- ===== src/Prelude/Text/Split.antt =====
-- strings.Split at a separator of one character.
use mathlib.Core.Path.{◌≡◌, refl}
use mathlib.Core.Bool.{true, false}
use mathlib.Core.Logic.{inl, inr}
use mathlib.Core.List.{List, [], ◌∷◌, ◌++◌}
use Prim.Native.Nat.{ℕ}
use native.Mathlib.Omega.{arith}
use d_plane_os.Prelude.Tests.{◌==◌, if◌then◌else◌, Bool-cases}
use d_plane_os.Prelude.Lists.{In}
use d_plane_os.Prelude.Text.{Str, split}

-- A text has a first part.
split_parts : (sep : ℕ) (s : Str) → (p : Str) × ((ps : List Str) × (split sep s ≡ p ∷ ps))
unfolding split
split_parts sep [] = ([], ([], refl))
split_parts sep (c ∷ s) =
    let (p, (ps, e)) = split_parts sep s in
    elim (Bool-cases (c == sep)) [
      | inl q ↦ ([], (p ∷ ps, rw (e, q, if◌then◌else◌) refl))
      | inr q ↦ (c ∷ p, (ps, rw (e, q, if◌then◌else◌) refl))
    ]

-- A separator ends a part.
pub split-append : (sep : ℕ) (s t : Str) → split sep (s ++ (sep ∷ t)) ≡ split sep s ++ split sep t
unfolding split
split-append sep [] t =
    let (p, (ps, e)) = split_parts sep t in
    let same : (sep == sep) ≡ true = ground arith in rw (e, same, if◌then◌else◌) refl
split-append sep (c ∷ s) t =
    let (p, (ps, e)) = split_parts sep s in
    elim (Bool-cases (c == sep)) [
      | inl q ↦ rw (split-append sep s t, e, q, if◌then◌else◌) refl
      | inr q ↦ rw (split-append sep s t, e, q, if◌then◌else◌) refl
    ]

-- A text without the separator is one part.
pub split_whole : (sep : ℕ) (s : Str) → ¬ In sep s → split sep s ≡ s ∷ []
unfolding split
split_whole sep [] h = refl
split_whole sep (c ∷ s) h =
    let apart : (c == sep) ≡ false = ground (arith, h) in
    rw (split_whole sep s (λ k. h (inr k)), apart, if◌then◌else◌) refl
