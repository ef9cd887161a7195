-- ===== src/Security/Regex/Lang.antt =====
-- The language of a regular expression, and that the matcher decides it.
use mathlib.Core.Path.{subst}
use d_plane_os.Prelude.{
  ℕ, ◌≡◌, ◌↔◌, inl, inr, refl, sym, ap, ◌∙◌, arith, Str, true, All, All-append, [], ◌∷◌, ◌++◌,
  Bool-cases, if◌then◌else◌,
}
use d_plane_os.Security.Regex.{
  Spans, in_spans, Regex, void, empty, set, seq, alt, star, nullable, after_char, full_match,
}

-- The text is in the language of the expression.
pub data Matches : Regex → Str → Type 0 where
  nothing : Matches empty []
  one : {spans : Spans} {c : ℕ} → in_spans spans c ≡ true → Matches (set spans) (c ∷ [])
  both : {r s : Regex} {t u v : Str} → Matches r t → Matches s u → v ≡ t ++ u → Matches (seq r s) v
  left : {r s : Regex} {t : Str} → Matches r t → Matches (alt r s) t
  right : {r s : Regex} {t : Str} → Matches s t → Matches (alt r s) t
  stop : {r : Regex} → Matches (star r) []
  more :
      {r : Regex} {c : ℕ} {t u v : Str}
      → Matches r (c ∷ t)
      → Matches (star r) u
      → v ≡ c ∷ (t ++ u)
      → Matches (star r) v

nullable-Matches : (r : Regex) → nullable r ≡ true → Matches r []
unfolding nullable
nullable-Matches void h = cc
nullable-Matches empty h = nothing
nullable-Matches (set spans) h = cc
nullable-Matches (seq r s) h =
    both (nullable-Matches r (ground (arith, h))) (nullable-Matches s (ground (arith, h))) refl
nullable-Matches (alt r s) h = elim (Bool-cases (nullable r)) [
  | inl e ↦ left (nullable-Matches r e)
  | inr e ↦ right (nullable-Matches s (ground (arith, h, e)))
]
nullable-Matches (star r) h = stop

append-nil_parts : (t u : Str) → [] ≡ t ++ u → (t ≡ []) × (u ≡ [])
append-nil_parts [] u e = (refl, sym e)
append-nil_parts (c ∷ t) u e = cc

Matches-nullable : {r : Regex} {t : Str} → Matches r t → t ≡ [] → nullable r ≡ true
unfolding nullable
Matches-nullable nothing e = refl
Matches-nullable (one h) e = cc
Matches-nullable (both {t} {u} m n q) e =
    let (p, p') = append-nil_parts t u (sym e ∙ q) in
    rw (Matches-nullable m p, Matches-nullable n p') refl
Matches-nullable (left m) e = rw (Matches-nullable m e) refl
Matches-nullable (right {r} m) e = elim (Bool-cases (nullable r)) [
  | inl q ↦ rw q refl
  | inr q ↦ rw (q, Matches-nullable m e) refl
]
Matches-nullable stop e = refl
Matches-nullable (more m n q) e = refl

set_after :
    (spans : Spans) (c : ℕ) {t : Str}
    → Matches (if in_spans spans c then empty else void) t
    → Matches (set spans) (c ∷ t)
set_after spans c m = elim (Bool-cases (in_spans spans c)) [
  | inl e ↦ go e (rw (e, if◌then◌else◌) at m)
  | inr e ↦ gone (rw (e, if◌then◌else◌) at m)
]
  where
    go : {t : Str} → in_spans spans c ≡ true → Matches empty t → Matches (set spans) (c ∷ t)
    go e nothing = one e

    gone : {t : Str} → Matches void t → Matches (set spans) (c ∷ t)
    gone m = elim m [ ]

module _ (c : ℕ) (r s : Regex) where
  -- What is read first belongs to the first part.
  seq_first :
      ((t : Str) → Matches (after_char c r) t → Matches r (c ∷ t))
      → {t : Str} → Matches (seq (after_char c r) s) t
      → Matches (seq r s) (c ∷ t)
  seq_first f (both {t} m n q) = both (f t m) n (ap (λ (x : Str). c ∷ x) q)

  seq_either :
      ((t : Str) → Matches (after_char c r) t → Matches r (c ∷ t))
      → ((t : Str) → Matches (after_char c s) t → Matches s (c ∷ t))
      → nullable r ≡ true
      → {t : Str} → Matches (alt (seq (after_char c r) s) (after_char c s)) t
      → Matches (seq r s) (c ∷ t)
  seq_either f g e (left m) = seq_first f m
  seq_either f g e {t} (right m) = both (nullable-Matches r e) (g t m) refl

after-Matches : (c : ℕ) (r : Regex) (t : Str) → Matches (after_char c r) t → Matches r (c ∷ t)
unfolding after_char
after-Matches c void t m = elim m [ ]
after-Matches c empty t m = elim m [ ]
after-Matches c (set spans) t m = set_after spans c m
after-Matches c (seq r s) t m = elim (Bool-cases (nullable r)) [
  | inl e ↦ seq_either c r s (after-Matches c r) (after-Matches c s) e (rw (e, if◌then◌else◌) at m)
  | inr e ↦ seq_first c r s (after-Matches c r) (rw (e, if◌then◌else◌) at m)
]
after-Matches c (alt r s) t (left m) = left (after-Matches c r t m)
after-Matches c (alt r s) t (right m) = right (after-Matches c s t m)
after-Matches c (star r) t (both {t = u} m n q) =
    more (after-Matches c r u m) n (ap (λ (x : Str). c ∷ x) q)

-- Where the first part of a sequence is empty or has the first character.
seq_split :
    (c : ℕ) (r s : Regex) (t u : Str) {v : Str}
    → Matches r t
    → ((x : Str) → t ≡ c ∷ x → Matches (after_char c r) x)
    → Matches s u
    → (u ≡ c ∷ v → Matches (after_char c s) v)
    → c ∷ v ≡ t ++ u
    → Matches (after_char c (seq r s)) v
unfolding after_char
seq_split c r s [] u m f n g q = rw (Matches-nullable m refl, if◌then◌else◌) (right (g (sym q)))
seq_split c r s (d ∷ x) u {v} m f n g q =
    let same : d ≡ c = cc q in
    let rest : v ≡ x ++ u = cc q in
    let first = f x (cc same) in
    elim (Bool-cases (nullable r)) [
      | inl e ↦ rw (e, if◌then◌else◌) (left (both first n rest))
      | inr e ↦ rw (e, if◌then◌else◌) (both first n rest)
    ]

Matches-after :
    (c : ℕ) (r : Regex) {w : Str} → Matches r w → (v : Str) → w ≡ c ∷ v → Matches (after_char c r) v
unfolding after_char
Matches-after c r nothing v e = cc
Matches-after c r (one {spans} {c = d} h) v e =
    let same : d ≡ c = cc e in
    let none_left : [] ≡ v = cc e in
    rw (rw same at h, if◌then◌else◌) (subst (Matches empty) none_left nothing)
Matches-after c r (both {r = p} {s} {t} {u} m n q) v e =
    seq_split c p s t u m (λ x. Matches-after c p m x) n (λ e'. Matches-after c s n v e')
      (sym e ∙ q)
Matches-after c r (left {r = p} m) v e = left (Matches-after c p m v e)
Matches-after c r (right {s} m) v e = right (Matches-after c s m v e)
Matches-after c r stop v e = cc
Matches-after c r (more {r = p} {c = d} {t} m n q) v e =
    let same : d ≡ c = cc (e, q) in both (Matches-after c p m t (cc same)) n (cc (e, q))

-- The matcher accepts exactly the texts of the language.
pub full_match_iff : (r : Regex) (s : Str) → (full_match r s ≡ true) ↔ Matches r s
unfolding full_match
full_match_iff r [] = (nullable-Matches r, λ m. Matches-nullable m refl)
full_match_iff r (c ∷ s) =
    let (sound, complete) = full_match_iff (after_char c r) s in
    (λ h. after-Matches c r s (sound h), λ m. complete (Matches-after c r m s refl))

-- Every range of the expression satisfies a test of its ends.
abbrev pub Within : (ℕ → Type 0) → Regex → Type 0
Within P void = Unit
Within P empty = Unit
Within P (set spans) = (c : ℕ) → in_spans spans c ≡ true → P c
Within P (seq r s) = Within P r × Within P s
Within P (alt r s) = Within P r × Within P s
Within P (star r) = Within P r

-- A text of the language has only characters that the expression names.
pub Matches-All : (P : ℕ → Type 0) {r : Regex} {t : Str} → Within P r → Matches r t → All P t
Matches-All P w nothing = tt
Matches-All P w (one {c} h) = (w c h, tt)
Matches-All P w (both {t} {u} m n q) =
    subst (All P) (sym q) (All-append P t u (Matches-All P w.0 m) (Matches-All P w.1 n))
Matches-All P w (left m) = Matches-All P w.0 m
Matches-All P w (right m) = Matches-All P w.1 m
Matches-All P w stop = tt
Matches-All P w (more {c} {t} {u} m n q) =
    subst (All P) (sym q) (All-append P (c ∷ t) u (Matches-All P w m) (Matches-All P w n))
