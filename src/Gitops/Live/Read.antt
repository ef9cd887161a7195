-- ===== src/Gitops/Live/Read.antt =====
-- ReadLiveState of daemon/internal/gitops/live.go with its three readers. `none` is an error.
pub mod Unread
use d_plane_os.Prelude.{
  ℕ, Str, str, str_eq, str_lt, trim_space, fields, split, parse_uint, Bool, false, not, ◌&&◌,
  Option, some, none, List, [], ◌∷◌, map, sort_by, if◌then◌else◌,
}
use d_plane_os.Gitops.State.{LivePool, LiveDataset, LiveShare, LiveState}
use d_plane_os.Gitops.System.{
  System, World, Reply, call, zpool_list, zpool_status, zfs_list_filesystems, zfs_get_props,
  query_shares,
}
use d_plane_os.Gitops.Live.{parse_zpool_status_paths}

abbrev pub Read : Type 0 → Type 0
Read A = World → Option A × World

pool_of : List Str → Option LivePool
pool_of [] = none
pool_of (name ∷ []) = none
pool_of (name ∷ health ∷ fs) = some (record { name = name; health = health; disks = [] })

add_pool : Option LivePool → List LivePool → List LivePool
add_pool none ps = ps
add_pool (some p) ps = p ∷ ps

-- A line of fewer than two fields is skipped.
unfoldable pub pools_of_lines : List Str → List LivePool
unfolding pool_of add_pool
pools_of_lines [] = []
pools_of_lines (line ∷ lines) = add_pool (pool_of (fields line)) (pools_of_lines lines)

find_disks : Str → List (Str × List Str) → Option (List Str)
unfolding str_eq
find_disks name [] = none
find_disks name ((p, ds) ∷ m) = if str_eq p name then some ds else find_disks name m

with_disks : List (Str × List Str) → LivePool → LivePool
unfolding find_disks
with_disks m p = elim (find_disks p.name m) [ none ↦ p | some ds ↦ record p { disks = ds } ]

-- A status that cannot be read leaves the pools without disks.
pools_with_status : Reply → List LivePool → List LivePool
unfolding with_disks parse_zpool_status_paths
pools_with_status r ps =
    if r.failed then ps else map (with_disks (parse_zpool_status_paths r.output)) ps

unfoldable pub read_live_pools : System → Read (List LivePool)
unfolding call pools_of_lines pools_with_status
read_live_pools sys w =
    let (r, w') = call sys zpool_list w in
    if r.failed
    then (none, w')
    else let (r', w'') = call sys zpool_status w' in
      (some (pools_with_status r' (pools_of_lines (split 10 (trim_space r.output)))), w'')

unfoldable pub names_of_lines : List Str → List Str
unfolding str_eq
names_of_lines [] = []
names_of_lines (line ∷ lines) =
    let rest = names_of_lines lines in
    if str_eq (trim_space line) [] then rest else trim_space line ∷ rest

-- dsProps[name][prop]: the last line with both counts, and a missing one is "", which no field is.
value_in : Str → Str → List Str → Str → Str
unfolding str_eq
value_in name prop (n ∷ p ∷ v ∷ fs) later =
    if str_eq n name && (str_eq p prop && str_eq later []) then v else later
value_in name prop _ later = later

unfoldable pub prop_value : Str → Str → List Str → Str
unfolding value_in
prop_value name prop [] = []
prop_value name prop (line ∷ lines) = value_in name prop (fields line) (prop_value name prop lines)

unfoldable pub live_dataset : List Str → Str → LiveDataset
unfolding prop_value str str_eq
live_dataset lines name =
    let encryption = prop_value name (str "encryption") lines in
    record {
      name = name;
      used = parse_uint (prop_value name (str "used") lines);
      avail = parse_uint (prop_value name (str "avail") lines);
      compression = prop_value name (str "compression") lines;
      atime = prop_value name (str "atime") lines;
      mountpoint = prop_value name (str "mountpoint") lines;
      quota = prop_value name (str "quota") lines;
      encrypted = not (str_eq encryption []) && not (str_eq encryption (str "off"));
    }

-- Without a dataset there is nothing to ask.
datasets_named : System → List Str → Read (List LiveDataset)
unfolding call live_dataset
datasets_named sys [] w = (some [], w)
datasets_named sys (n ∷ ns) w =
    let (r, w') = call sys (zfs_get_props (n ∷ ns)) w in
    if r.failed then (none, w') else (some (map (live_dataset (split 10 r.output)) (n ∷ ns)), w')

unfoldable pub read_live_datasets : System → Read (List LiveDataset)
unfolding call names_of_lines datasets_named
read_live_datasets sys w =
    let (r, w') = call sys zfs_list_filesystems w in
    if r.failed
    then (none, w')
    else datasets_named sys (names_of_lines (split 10 (trim_space r.output))) w'

-- ORDER BY name
share_before : LiveShare → LiveShare → Bool
unfolding str_lt
share_before a b = str_lt a.name b.name

unfoldable pub read_live_shares : System → Read (List LiveShare)
unfolding call share_before
read_live_shares sys w =
    let (r, w') = call sys query_shares w in
    if r.failed then (none, w') else (some (sort_by share_before w'.shares), w')

-- The second and third readers run only if those before them succeed.
unfoldable pub read_live_state : System → Read LiveState
unfolding read_live_pools read_live_datasets read_live_shares
read_live_state sys w =
    let (pools, w1) = read_live_pools sys w in
    elim pools [
      | none ↦ (none, w1)
      | some ps ↦
          let (datasets, w2) = read_live_datasets sys w1 in
          elim datasets [
            | none ↦ (none, w2)
            | some ds ↦
                let (shares, w3) = read_live_shares sys w2 in
                elim shares [
                  | none ↦ (none, w3)
                  | some ss ↦ (some (record { pools = ps; datasets = ds; shares = ss }), w3)
                ]
          ]
    ]
