-- ===== src/Gitops/Yaml/Schema.antt =====
-- The converters from nodes to the declared state, and ParseStateYAML. `scan_int a` is what
-- fmt.Sscanf(a, "%d", &n) leaves in an n that was 0.
pub mod Keys
pub mod Valid
use d_plane_os.Prelude.{
  ℕ, suc, ltb, ◌==◌, ℤ, pos, Str, str, str_eq, str_lt, Bool, true, false, ◌&&◌, ◌||◌, Option, some,
  none, List, [], ◌∷◌, ◌++◌, map, join, if◌then◌else◌,
}
use d_plane_os.Gitops.State.{DesiredPool, DesiredDataset, DesiredShare, DesiredState}
use d_plane_os.Gitops.Validate.{StateError, valid_state}
use d_plane_os.Gitops.Yaml.Result.{
  Parsed, ok, err, ◌>>=◌, YamlError, not_a_sequence, not_a_mapping, options_not_a_mapping,
  validation,
}
use d_plane_os.Gitops.Yaml.Lines.{split_lines}
use d_plane_os.Gitops.Yaml.{
  Node, Fields, Items, scalar, mapping, sequence, no_fields, field, no_items, item, get_field,
  parse_document,
}

insert_pair : Str × Str → List (Str × Str) → List (Str × Str)
unfolding str_lt
insert_pair p [] = p ∷ []
insert_pair p (q ∷ qs) = if str_lt q.0 p.0 then q ∷ insert_pair p qs else p ∷ q ∷ qs

sort_pairs : List (Str × Str) → List (Str × Str)
unfolding insert_pair
sort_pairs [] = []
sort_pairs (p ∷ ps) = insert_pair p (sort_pairs ps)

-- fmt.Sprintf("%v", node): a slice in brackets, a map with its keys in order.
unfoldable mutual
  unfolding sort_pairs str join

  pub show : Node → Str
  show (scalar s) = s
  show (mapping fs) =
      str "map["
      ++ (join (b' ' ∷ [])
            (map (λ (p : Str × Str). p.0 ++ (b':' ∷ p.1)) (sort_pairs (show_fields fs)))
          ++ (b']' ∷ []))
  show (sequence xs) = b'[' ∷ (join (b' ' ∷ []) (show_items xs) ++ (b']' ∷ []))

  pub show_fields : Fields → List (Str × Str)
  show_fields no_fields = []
  show_fields (field k v fs) = (k, show v) ∷ show_fields fs

  pub show_items : Items → List Str
  show_items no_items = []
  show_items (item n xs) = show n ∷ show_items xs

show_found : Option Node → Str
unfolding show
show_found none = []
show_found (some n) = show n

unfoldable pub str_field : Str → Fields → Str
unfolding show_found get_field
str_field k fs = show_found (get_field k fs)

-- The loop with its index.
maps_of : Str → ℕ → Items → Parsed (List Fields)
maps_of name i no_items = ok []
maps_of name i (item (mapping fs) xs) = maps_of name (suc i) xs >>= (λ ms. ok (fs ∷ ms))
maps_of name i (item n xs) = err (not_a_mapping name i)

unfoldable pub to_slice_of_maps : Str → Node → Parsed (List Fields)
unfolding maps_of
to_slice_of_maps name (sequence xs) = maps_of name 0 xs
to_slice_of_maps name (scalar s) = err (not_a_sequence name)
to_slice_of_maps name (mapping fs) = err (not_a_sequence name)

unfoldable pub to_string_slice : Str → Node → Parsed (List Str)
unfolding show
to_string_slice name (sequence xs) = ok (show_items xs)
to_string_slice name (scalar s) = err (not_a_sequence name)
to_string_slice name (mapping fs) = err (not_a_sequence name)

disks_of : Option Node → Parsed (List Str)
unfolding to_string_slice str
disks_of none = ok []
disks_of (some n) = to_string_slice (str "disks") n

options_of : Str → Option Node → Parsed (List (Str × Str))
unfolding show
options_of pool none = ok []
options_of pool (some (mapping fs)) = ok (show_fields fs)
options_of pool (some (scalar s)) = err (options_not_a_mapping pool)
options_of pool (some (sequence xs)) = err (options_not_a_mapping pool)

unfoldable pub map_to_dataset : Fields → DesiredDataset
unfolding str_field str str_eq
map_to_dataset m = record {
  name = str_field (str "name") m;
  quota = str_field (str "quota") m;
  compression = str_field (str "compression") m;
  atime = str_field (str "atime") m;
  mountpoint = str_field (str "mountpoint") m;
  encrypted = str_eq (str_field (str "encrypted") m) (str "true");
}

unfoldable pub map_to_share : Fields → DesiredShare
unfolding str_field str str_eq
map_to_share m = record {
  name = str_field (str "name") m;
  path = str_field (str "path") m;
  read_only = str_eq (str_field (str "read_only") m) (str "true");
  valid_users = str_field (str "valid_users") m;
  comment = str_field (str "comment") m;
  guest_ok = str_eq (str_field (str "guest_ok") m) (str "true");
}

-- A key of the document that is not there gives no items.
slice_at : Str → Fields → Parsed (List Fields)
unfolding get_field to_slice_of_maps
slice_at name raw = elim (get_field name raw) [ none ↦ ok [] | some n ↦ to_slice_of_maps name n ]

checked : DesiredState → List StateError → Parsed DesiredState
checked s [] = ok s
checked s (e ∷ es) = err (validation (e ∷ es))

module _ (scan_int : Str → ℤ) where
  ashift_of : Str → ℤ
  unfolding str_eq
  ashift_of a = if str_eq a [] then pos 0 else scan_int a

  unfoldable pub map_to_pool : Fields → Parsed DesiredPool
  unfolding str_field ashift_of disks_of options_of get_field str
  map_to_pool m = disks_of (get_field (str "disks") m) >>= (λ disks.
      options_of (str_field (str "name") m) (get_field (str "options") m) >>= (λ options.
        ok (record {
          name = str_field (str "name") m;
          vdev_type = str_field (str "vdev_type") m;
          disks = disks;
          ashift = ashift_of (str_field (str "ashift") m);
          options = options;
        })))

  unfoldable pub pools_of : List Fields → Parsed (List DesiredPool)
  unfolding map_to_pool
  pools_of [] = ok []
  pools_of (m ∷ ms) = map_to_pool m >>= (λ p. pools_of ms >>= (λ ps. ok (p ∷ ps)))

  unfoldable pub map_to_state : Fields → Parsed DesiredState
  unfolding slice_at pools_of map_to_dataset map_to_share str_field str
  map_to_state raw = slice_at (str "pools") raw >>= (λ ps. pools_of ps >>= (λ pools.
      slice_at (str "datasets") raw >>= (λ ds. slice_at (str "shares") raw >>= (λ ss. ok (record {
        version = str_field (str "version") raw;
        pools = pools;
        datasets = map map_to_dataset ds;
        shares = map map_to_share ss;
      })))))

  unfoldable pub parse_state_yaml : Str → Parsed DesiredState
  unfolding split_lines parse_document map_to_state checked valid_state
  parse_state_yaml content =
      parse_document (split_lines content)
      >>= (λ raw. map_to_state raw >>= (λ s. checked s (valid_state s)))
