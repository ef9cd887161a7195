-- ===== src/Gitops/Yaml/Examples.antt =====
-- Documents that the reader takes.
use Prim.Native.Nat.{◌≤◌}
use d_plane_os.Prelude.{
  arith, ◌≡◌, ◌≢◌, refl, inl, inr, ℕ, zero, suc, ℤ, pos, Str, str, str_eq, false, str_eq_iff, In,
  [], ◌∷◌, ◌++◌, byte_length, split, trim_space, cut,
}
use d_plane_os.Gitops.State.{DesiredState}
use d_plane_os.Gitops.Validate.{valid_state, valid_comp, valid_atime}
use d_plane_os.Gitops.Validate.Rules.{IsValid}
use d_plane_os.Gitops.Yaml.Result.{ok, out_of_fuel}
use d_plane_os.Gitops.Yaml.Lines.{max_scan_token, split_lines}
use d_plane_os.Gitops.Yaml.Lines.Truncated.{split_lines_overlong}
use d_plane_os.Gitops.Yaml.{Fields, append_item, parse_document}
use d_plane_os.Gitops.Yaml.Total.{parse_document-ne_out_of_fuel}
use d_plane_os.Gitops.Yaml.Schema.{map_to_state, parse_state_yaml}
use d_plane_os.Gitops.Yaml.Schema.Keys.{document_keys}
use d_plane_os.Gitops.Yaml.Schema.Valid.{parse_state_yaml-IsValid}

-- version: "1" with a dataset tank/a, quoted with a colon, and an empty list of shares
abbrev document : Str
document =
    str "version: \"1\" # first"
    ++ (10 ∷ [])
    ++ (str "datasets:" ++ (10 ∷ []))
    ++ (str "  - name: tank/a" ++ (10 ∷ []))
    ++ (str "    quota: 10G" ++ (10 ∷ []))
    ++ str "shares: []"

no_scan : Str → ℤ
no_scan a = pos 0

abbrev declared : DesiredState
declared = record {
  version = str "1";
  pools = [];
  datasets =
      record {
        name = str "tank/a";
        quota = str "10G";
        compression = [];
        atime = [];
        mountpoint = [];
        encrypted = false;
      }
      ∷ [];
  shares = [];
}

document_accepted : parse_state_yaml no_scan document ≡ ok declared
unfolding parse_state_yaml split_lines parse_document map_to_state valid_state str split trim_space
    cut append_item valid_comp valid_atime
document_accepted = refl

parse_document-ne_out_of_fuel_example : parse_document (split_lines document) ≢ out_of_fuel
parse_document-ne_out_of_fuel_example = parse_document-ne_out_of_fuel (split_lines document)

parse_state_yaml-IsValid_example :
    IsValid declared
    × ((raw : Fields) × (parse_document (split_lines document) ≡ ok raw)
        × (map_to_state no_scan raw ≡ ok declared))
parse_state_yaml-IsValid_example =
    parse_state_yaml-IsValid no_scan document declared document_accepted

apart : (a b : Str) → str_eq a b ≡ false → a ≢ b
apart a b h e = cc (h, (str_eq_iff a b).1 e)

misspelt_version : str_eq (str "version") (str "dataset") ≡ false
unfolding str_eq str
misspelt_version = refl

misspelt_pools : str_eq (str "pools") (str "dataset") ≡ false
unfolding str_eq str
misspelt_pools = refl

misspelt_datasets : str_eq (str "datasets") (str "dataset") ≡ false
unfolding str_eq str
misspelt_datasets = refl

misspelt_shares : str_eq (str "shares") (str "dataset") ≡ false
unfolding str_eq str
misspelt_shares = refl

misspelt : ¬ In (str "dataset") document_keys
misspelt (inl e) = apart (str "version") (str "dataset") misspelt_version e
misspelt (inr (inl e)) = apart (str "pools") (str "dataset") misspelt_pools e
misspelt (inr (inr (inl e))) = apart (str "datasets") (str "dataset") misspelt_datasets e
misspelt (inr (inr (inr (inl e)))) = apart (str "shares") (str "dataset") misspelt_shares e
misspelt (inr (inr (inr (inr e)))) = elim e [ ]

-- n spaces
blanks : ℕ → Str
blanks zero = []
blanks (suc n) = b' ' ∷ blanks n

blanks_one_line : (n : ℕ) → ¬ In 10 (blanks n)
unfolding blanks
blanks_one_line zero h = elim h [ ]
blanks_one_line (suc n) (inl e) = omega (arith, e)
blanks_one_line (suc n) (inr k) = blanks_one_line n k

length-blanks : (n : ℕ) → byte_length (blanks n) ≡ n
unfolding byte_length blanks
length-blanks zero = refl
length-blanks (suc n) = ground (arith, length-blanks n)

blanks_overlong : max_scan_token ≤ byte_length (blanks 65536)
unfolding max_scan_token
blanks_overlong = rw (length-blanks 65536) (omega arith)

-- The long line stands last and has no line end.
split_lines_overlong_example :
    split_lines ((document ++ (10 ∷ [])) ++ (blanks 65536 ++ []))
    ≡ split_lines (document ++ (10 ∷ []))
split_lines_overlong_example =
    split_lines_overlong (document ++ (10 ∷ [])) (blanks 65536) [] (inr (document, refl))
      (blanks_one_line 65536) blanks_overlong (inl refl)
