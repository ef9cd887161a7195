-- ===== src/Gitops/Yaml/Schema/Valid.antt =====
-- Nothing that ParseStateYAML returns breaks a rule of the declaration.
use mathlib.Core.Path.{subst}
use d_plane_os.Prelude.{◌≡◌, refl, ℤ, Str, List, [], ◌∷◌}
use d_plane_os.Gitops.State.{DesiredState}
use d_plane_os.Gitops.Validate.{StateError, valid_state}
use d_plane_os.Gitops.Validate.Rules.{IsValid}
use d_plane_os.Gitops.Validate.Sound.{valid_state_iff}
use d_plane_os.Gitops.Yaml.Result.{ok, >>=-eq-ok}
use d_plane_os.Gitops.Yaml.Lines.{split_lines}
use d_plane_os.Gitops.Yaml.{Fields, parse_document}
use d_plane_os.Gitops.Yaml.Schema.{map_to_state, checked, parse_state_yaml}

checked_ok : (s t : DesiredState) (es : List StateError) → checked s es ≡ ok t → (es ≡ []) × (s ≡ t)
unfolding checked
checked_ok s t [] h = (refl, cc h)
checked_ok s t (e ∷ es) h = cc

-- A text that ParseStateYAML accepts gives a state that meets every rule of ValidState, and that is the
-- state of the document's top-level mapping.
pub parse_state_yaml-IsValid :
    (scan_int : Str → ℤ) (content : Str) (s : DesiredState)
    → parse_state_yaml scan_int content ≡ ok s
    → IsValid s
      × ((raw : Fields) × (parse_document (split_lines content) ≡ ok raw)
          × (map_to_state scan_int raw ≡ ok s))
unfolding parse_state_yaml
parse_state_yaml-IsValid scan_int content s h =
    let (raw, parsed, h') = >>=-eq-ok (parse_document (split_lines content)) _ h in
    let (t, mapped, h'') = >>=-eq-ok (map_to_state scan_int raw) _ h' in
    let (none_wrong, same) = checked_ok t s (valid_state t) h'' in
    (
      subst IsValid same ((valid_state_iff t).0 none_wrong),
      (raw, parsed, subst (λ (x : DesiredState). map_to_state scan_int raw ≡ ok x) same mapped),
    )
