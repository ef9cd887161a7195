-- ===== src/Gitops/Validate/Chars.antt =====
-- The tests on names, disks and single resources decide the rules.
use d_plane_os.Prelude.{ℕ, ◌≡◌, refl, ◌↔◌, Str, all_chars, All, Bool, true, [], ◌∷◌, arith}
use d_plane_os.Gitops.Validate.{
  is_alnum, is_name_char, is_dataset_char, valid_pool_re, valid_dataset_re,
}
use d_plane_os.Gitops.Validate.Rules.{IsAlnum, IsNameChar, IsDatasetChar, IsNameOf}

is_alnum_iff : (c : ℕ) → (is_alnum c ≡ true) ↔ IsAlnum c
unfolding is_alnum
is_alnum_iff c = ground arith

is_name_char_iff : (c : ℕ) → (is_name_char c ≡ true) ↔ IsNameChar c
unfolding is_name_char
is_name_char_iff c = ground arith

is_dataset_char_iff : (c : ℕ) → (is_dataset_char c ≡ true) ↔ IsDatasetChar c
unfolding is_dataset_char
is_dataset_char_iff c = ground arith

all_chars_decides :
    (p : ℕ → Bool) (P : ℕ → Type 0)
    → ((c : ℕ) → (p c ≡ true) ↔ P c)
    → (s : Str) → (all_chars p s ≡ true) ↔ All P s
unfolding all_chars
all_chars_decides p P f [] = (λ h. tt, λ h. refl)
all_chars_decides p P f (c ∷ s) = ground (arith, f c, all_chars_decides p P f s)

pub valid_pool_re_iff : (s : Str) → (valid_pool_re s ≡ true) ↔ IsNameOf IsNameChar s
unfolding valid_pool_re
valid_pool_re_iff [] = (λ h. cc, λ h. absurd h)
valid_pool_re_iff (c ∷ s) =
    ground (arith, is_alnum_iff c, all_chars_decides is_name_char IsNameChar is_name_char_iff s)

pub valid_dataset_re_iff : (s : Str) → (valid_dataset_re s ≡ true) ↔ IsNameOf IsDatasetChar s
unfolding valid_dataset_re
valid_dataset_re_iff [] = (λ h. cc, λ h. absurd h)
valid_dataset_re_iff (c ∷ s) =
    ground
      (arith, is_alnum_iff c, all_chars_decides is_dataset_char IsDatasetChar is_dataset_char_iff s)
