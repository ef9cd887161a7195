-- ===== src/Security/Names/Escape.antt =====
-- A mount point that the validator takes to be under /mnt, and that is not.
use mathlib.Core.List.{append-nil}
use d_plane_os.Prelude.{ℕ, arith, sym, ◌≡◌, ap, refl, Str, str, true, none, [], ◌∷◌, ◌++◌}
use d_plane_os.Security.Regex.{seq, lit, full_match, in_spans}
use d_plane_os.Security.Regex.Lang.{Matches, nothing, one, both, left, stop, more, full_match_iff}
use d_plane_os.Security.Chars.{chars}
use d_plane_os.Security.Names.{component_pattern, valid_mount_point, validate_mount_point}

lit-Matches : (s : Str) → ((c : ℕ) → in_spans ((c, c) ∷ []) c ≡ true) → Matches (lit s) s
lit-Matches [] h = nothing
lit-Matches (c ∷ s) h = both (one (h c)) (lit-Matches s h) refl

self_in_span : (c : ℕ) → in_spans ((c, c) ∷ []) c ≡ true
unfolding in_spans
self_in_span c = ground arith

lit_lem : (s : Str) → Matches (lit s) s
lit_lem s = lit-Matches s self_in_span

dots_match : full_match component_pattern (b'.' ∷ b'.' ∷ []) ≡ true
unfolding full_match chars
dots_match = refl

-- The parent directory is a component.
parent : Matches component_pattern (b'.' ∷ b'.' ∷ [])
parent = (full_match_iff component_pattern (b'.' ∷ b'.' ∷ [])).0 dots_match

-- For every component, ValidateMountPoint accepts the path of that component in the root directory,
-- written as a path through /mnt and back up.
pub validate_mount_point-parent :
    (rest : Str)
    → Matches component_pattern rest
    → validate_mount_point (str "/mnt/../" ++ rest) ≡ none
unfolding validate_mount_point str
validate_mount_point-parent rest m =
    let below : Matches (seq (lit (b'/' ∷ [])) component_pattern) (b'/' ∷ rest) =
      both (lit_lem (b'/' ∷ [])) m refl in
    let ends : b'/' ∷ rest ≡ b'/' ∷ (rest ++ []) =
      ap (λ (x : Str). b'/' ∷ x) (sym (append-nil {0} rest)) in
    let path : Matches valid_mount_point (str "/mnt/../" ++ rest) =
      both (lit_lem (str "/"))
        (both (left (lit_lem (str "mnt")))
          (both (lit_lem (str "/")) (both parent (more below stop ends) refl) refl) refl)
        refl in
    rw ((full_match_iff valid_mount_point (str "/mnt/../" ++ rest)).1 path) refl
