-- ===== src/Security/Names/Exact.antt =====
-- Which names of datasets and snapshots the validators accept.
use d_plane_os.Prelude.{
  ℕ, ◌≤◌, ◌<◌, ltb, ◌==◌, arith, ◌≡◌, ◌↔◌, ◌⊎◌, inl, inr, refl, sym, Str, true, false, not, ◌||◌,
  none, All, All-weaken, In, List, [], ◌∷◌, ◌++◌, cut, cut_first, cut_parts, split, byte_length,
  Bool-cases, Option-cases, if◌then◌else◌,
}
use d_plane_os.Security.Regex.{full_match}
use d_plane_os.Security.Chars.{chars}
use d_plane_os.Security.Regex.Avoids.{avoids, Matches-avoids}
use d_plane_os.Security.Regex.Lang.{Matches, full_match_iff}
use d_plane_os.Security.Names.{
  component_pattern, check_components, validate_dataset_name, check_suffix, validate_snapshot_name,
}

check_components_iff :
    (ps : List Str) → (check_components ps ≡ none) ↔ All (Matches component_pattern) ps
unfolding check_components
check_components_iff [] = (λ h. tt, λ h. refl)
check_components_iff (p ∷ ps) =
    let m = full_match_iff component_pattern p in
    let ih = check_components_iff ps in
    elim (Bool-cases (full_match component_pattern p)) [
      | inl e ↦ (
        λ h. (m.0 e, ih.0 (rw (e, not, if◌then◌else◌) at h)),
        λ f. rw (e, not, if◌then◌else◌) (ih.1 f.1),
      )
      | inr e ↦ (λ h. cc (e, h), λ f. cc (e, m.1 f.0))
    ]

abbrev pub IsDatasetName : Str → Type 0
IsDatasetName n =
    (0 < byte_length n) × (byte_length n ≤ 255) × All (Matches component_pattern) (split b'/' n)

validate_dataset_name_iff : (n : Str) → (validate_dataset_name n ≡ none) ↔ IsDatasetName n
unfolding validate_dataset_name
validate_dataset_name_iff n =
    let parts = check_components_iff (split b'/' n) in
    elim (Bool-cases ((byte_length n == 0) || ltb 255 (byte_length n))) [
      | inl e ↦ (λ h. cc (e, h), λ f. absurd (ground (arith, e, f.0, f.1)))
      | inr e ↦ (
        λ h. (ground (arith, e), ground (arith, e), parts.0 (rw (e, if◌then◌else◌) at h)),
        λ f. rw (e, if◌then◌else◌) (parts.1 f.2),
      )
    ]

-- One step of a split: what the first part and the others do not have.
absent_step :
    (c sep d : ℕ) (parts : List Str) (X : Type 0)
    → (c == sep) ≡ false
    → (All (λ (p : Str). ¬ In c p) parts → ¬ X)
    → All
        (λ (p : Str). ¬ In c p)
        (elim parts [
          | [] ↦ (d ∷ []) ∷ []
          | part ∷ rest ↦ if d == sep then [] ∷ part ∷ rest else (d ∷ part) ∷ rest
        ])
    → ¬ ((d ≡ c) ⊎ X)
absent_step c sep d [] X e f h k = elim k [ inl q ↦ h.0 (inl q) | inr x ↦ f tt x ]
absent_step c sep d (part ∷ rest) X e f h k = elim (Bool-cases (d == sep)) [
  | inl q ↦
      let parts = rw (q, if◌then◌else◌) at h in
      elim k [ inl q' ↦ ground (arith, q, q', e) | inr x ↦ f parts.1 x ]
  | inr q ↦
      let parts = rw (q, if◌then◌else◌) at h in
      elim k [ inl q' ↦ parts.0 (inl q') | inr x ↦ f (λ m. parts.0 (inr m), parts.1) x ]
]

-- A character that no part of a split text has, and that is not the separator, is not in the text.
split-absent :
    (c sep : ℕ) (s : Str)
    → (c == sep) ≡ false
    → All (λ (p : Str). ¬ In c p) (split sep s)
    → ¬ In c s
unfolding split
split-absent c sep [] e h k = k
split-absent c sep (d ∷ s) e h k =
    absent_step c sep d (split sep s) (In c s) e (split-absent c sep s e) h k

at_sign_is_avoided : avoids (b'@' ∷ []) component_pattern ≡ true
unfolding avoids chars
at_sign_is_avoided = refl

none-In : (c : ℕ) (p : Str) → All (λ (d : ℕ). ¬ In d (c ∷ [])) p → ¬ In c p
none-In c [] h k = k
none-In c (d ∷ p) h k = elim k [ inl q ↦ h.0 (inl (sym q)) | inr k' ↦ none-In c p h.1 k' ]

no_at_sign : (p : Str) → Matches component_pattern p → ¬ In b'@' p
no_at_sign p m =
    none-In b'@' p (Matches-avoids (b'@' ∷ []) component_pattern p at_sign_is_avoided m)

dataset-no_at_sign : (n : Str) → IsDatasetName n → ¬ In b'@' n
dataset-no_at_sign n h =
    split-absent b'@' b'/' n (ground arith) (All-weaken no_at_sign (split b'/' n) h.2)

-- The two parts of a snapshot's name.
abbrev pub IsSnapshotName : Str → Type 0
IsSnapshotName n =
    (dataset : Str) × (suffix : Str) × (n ≡ dataset ++ (b'@' ∷ suffix))
    × IsDatasetName dataset
    × Matches component_pattern suffix

check_suffix_sound :
    (d s : Str)
    → check_suffix (validate_dataset_name d) s ≡ none
    → IsDatasetName d × Matches component_pattern s
unfolding check_suffix
check_suffix_sound d s h = elim (Option-cases (validate_dataset_name d)) [
  | inr (x, e) ↦ cc (rw e at h)
  | inl e ↦ elim (Bool-cases (full_match component_pattern s)) [
    | inl m ↦ ((validate_dataset_name_iff d).0 e, (full_match_iff component_pattern s).0 m)
    | inr m ↦ cc (rw (e, m, not, if◌then◌else◌) at h)
  ]
]

-- ValidateSnapshotName returns no error exactly for a text that is a dataset's name, an `@` and a
-- suffix: the name has 1 to 255 bytes, and each of its parts between slashes, as well as the suffix,
-- is a non-empty text of letters, digits, `_`, `-` and `.`.
pub validate_snapshot_name_iff : (n : Str) → (validate_snapshot_name n ≡ none) ↔ IsSnapshotName n
unfolding validate_snapshot_name
validate_snapshot_name_iff n = (
  λ h. elim (Option-cases (cut (b'@' ∷ []) n)) [
    | inl e ↦ cc (rw (validate_snapshot_name, e) at h)
    | inr ((d, s), e) ↦
        let (whole, fresh) = cut_parts b'@' n d s e in
        let (m, m') = check_suffix_sound d s (rw (validate_snapshot_name, e) at h) in
        (d, s, whole, m, m')
  ],
  λ (d, s, whole, m, m').
      let e = cut_first b'@' d s (dataset-no_at_sign d m) in
      let valid = (validate_dataset_name_iff d).1 m in
      let fits = (full_match_iff component_pattern s).1 m' in
      rw whole (rw (validate_snapshot_name, e) (unfold check_suffix in rw (valid, fits) refl)),
)
