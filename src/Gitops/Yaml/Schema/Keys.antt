-- ===== src/Gitops/Yaml/Schema/Keys.antt =====
-- Keys of the document that the converter does not look at.
use d_plane_os.Prelude.{
  arith, ◌≡◌, ◌≢◌, refl, sym, ℤ, Str, str, str_eq, str_eq_iff, Bool-cases, inl, inr, In, List, [],
  ◌∷◌, if◌then◌else◌,
}
use d_plane_os.Gitops.Yaml.{Node, Fields, no_fields, field, put_field, get_field}
use d_plane_os.Gitops.Yaml.Schema.{map_to_state, slice_at, str_field}

get_field-put_field_other :
    (k j : Str) (v : Node) (fs : Fields) → k ≢ j → get_field j (put_field k v fs) ≡ get_field j fs
unfolding get_field put_field
get_field-put_field_other k j v no_fields h = ground (arith, str_eq_iff k j, h)
get_field-put_field_other k j v (field i n fs) h = elim (Bool-cases (str_eq i k)) [
  | inl e ↦ ground (arith, e, str_eq_iff i k, str_eq_iff k j, str_eq_iff i j, h)
  | inr e ↦ rw (e, if◌then◌else◌) (ground (arith, get_field-put_field_other k j v fs h))
]

slice_at-put_field_other :
    (k j : Str) (v : Node) (fs : Fields) → k ≢ j → slice_at j (put_field k v fs) ≡ slice_at j fs
unfolding slice_at
slice_at-put_field_other k j v fs h = rw (slice_at, get_field-put_field_other k j v fs h) refl

str_field-put_field_other :
    (k j : Str) (v : Node) (fs : Fields) → k ≢ j → str_field j (put_field k v fs) ≡ str_field j fs
unfolding str_field
str_field-put_field_other k j v fs h = rw (str_field, get_field-put_field_other k j v fs h) refl

-- The keys of a document.
abbrev pub document_keys : List Str
document_keys = str "version" ∷ str "pools" ∷ str "datasets" ∷ str "shares" ∷ []

-- A top-level key that is none of the four, such as a misspelt one, changes nothing: with its value
-- and without it the document gives the same state or the same error.
pub map_to_state-put_field :
    (scan_int : Str → ℤ) (k : Str) (v : Node) (raw : Fields)
    → ¬ In k document_keys
    → map_to_state scan_int (put_field k v raw) ≡ map_to_state scan_int raw
unfolding map_to_state
map_to_state-put_field scan_int k v raw h =
    rw
      (
        slice_at-put_field_other k (str "pools") v raw (λ e. h (inr (inl (sym e)))),
        slice_at-put_field_other k (str "datasets") v raw (λ e. h (inr (inr (inl (sym e))))),
        slice_at-put_field_other k (str "shares") v raw (λ e. h (inr (inr (inr (inl (sym e)))))),
        str_field-put_field_other k (str "version") v raw (λ e. h (inl (sym e))),
      )
      refl
