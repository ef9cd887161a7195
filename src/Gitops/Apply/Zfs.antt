-- ===== src/Gitops/Apply/Zfs.antt =====
-- The pool and dataset operations of daemon/internal/gitops/apply.go.
use d_plane_os.Prelude.{
  decimal, zero, suc, Str, str, str_eq, has_prefix, cut, trim_space, fields, split, Bool, not, ◌&&◌,
  Option, some, none, List, [], ◌∷◌, ◌++◌, map, ltb, ℤ, pos, negsuc, if◌then◌else◌,
}
use d_plane_os.Gitops.State.{DesiredPool, DesiredDataset}
use d_plane_os.Gitops.System.{
  System, Reply, call, zfs_list_name, zfs_list_used, zfs_create, zfs_destroy, zfs_set, zpool_create,
  zpool_add, zpool_destroy,
}
use d_plane_os.Gitops.Live.{dataset_used_bytes}
use d_plane_os.Gitops.Validate.{by_id_prefix}
use d_plane_os.Gitops.Apply.Outcome.{
  not_by_id, command_failed, pool_has_data, dataset_has_data, Action, ◌>>=◌, ◌>>◌, done, fail, ask,
  check,
}

-- The first disk that is no /dev/disk/by-id/ path.
unfoldable pub bad_disk : List Str → Option Str
bad_disk [] = none
bad_disk (d ∷ ds) = let rest = bad_disk ds in if has_prefix by_id_prefix d then rest else some d

-- `if dp.Ashift > 0 { … "-o", "ashift=%d" }`
ashift_args : ℤ → List Str
ashift_args (pos zero) = []
ashift_args (pos (suc n)) = str "-o" ∷ (str "ashift=" ++ decimal (suc n)) ∷ []
ashift_args (negsuc n) = []

value_of : Str → List (Str × Str) → Str
unfolding str_eq
value_of k [] = []
value_of k ((j, v) ∷ m) = if str_eq j k then v else value_of k m

option_args : List (Str × Str) → List Str → List Str
unfolding value_of
option_args m [] = []
option_args m (k ∷ ks) = str "-O" ∷ (k ++ (str "=" ++ value_of k m)) ∷ option_args m ks

vdev_args : Str → List Str
unfolding str_eq
vdev_args v = if str_eq v (str "") then [] else v ∷ []

unfoldable pub create_args : System → DesiredPool → List Str
unfolding ashift_args option_args vdev_args
create_args sys dp =
    str "create"
    ∷ (ashift_args dp.ashift
        ++ (option_args dp.options (sys.range_order (map (λ (o : Str × Str). o.0) dp.options))
            ++ (dp.name ∷ (vdev_args dp.vdev_type ++ dp.disks))))

unfoldable pub create_pool : System → DesiredPool → Action (Unit {0})
unfolding bad_disk
create_pool sys dp = elim (bad_disk dp.disks) [
  | some d ↦ fail (not_by_id d)
  | none ↦ do
    r ← ask (call sys (zpool_create (create_args sys dp)))
    check (command_failed dp.name) r
]

-- parts[1] of strings.SplitN(change, " ", 3), where there is one.
unfoldable pub second_part : Str → Option Str
second_part change = elim (cut (str " ") change) [
  | none ↦ none
  | some (first, rest) ↦ elim (cut (str " ") rest) [
    | none ↦ some rest
    | some (second, third) ↦ some second
  ]
]

unfoldable pub add_disk : System → Str → Str → Action (Unit {0})
add_disk sys name disk =
    if has_prefix by_id_prefix disk
    then (do r ← ask (call sys (zpool_add name disk)); check (command_failed name) r)
    else fail (not_by_id disk)

unfoldable pub modify_pool_change : System → Str → Str → Action (Unit {0})
unfolding add_disk
modify_pool_change sys name change =
    if has_prefix (str "disk-add:") change
    then elim (second_part change) [ none ↦ done | some d ↦ add_disk sys name (trim_space d) ]
    else done

-- A change that removes a disk is logged and skipped.
unfoldable pub modify_pool : System → Str → List Str → Action (Unit {0})
unfolding modify_pool_change
modify_pool sys name [] = done
modify_pool sys name (c ∷ cs) = do modify_pool_change sys name c; modify_pool sys name cs

-- A line of `zfs list`, by its fields.
unfoldable pub check_empty : System → Str → List Str → Action (Unit {0})
unfolding str_eq
check_empty sys name (d ∷ used ∷ rest) = if str_eq d name then done else do
  bytes ← ask (dataset_used_bytes sys d)
  if ltb 0 bytes then fail (pool_has_data name d bytes) else done
check_empty sys name _ = done

unfoldable pub check_all_empty : System → Str → List Str → Action (Unit {0})
unfolding check_empty
check_all_empty sys name [] = done
check_all_empty sys name (line ∷ lines) = do
  check_empty sys name (fields line)
  check_all_empty sys name lines

unfoldable pub check_listing : System → Str → Reply → Action (Unit {0})
unfolding check_all_empty
check_listing sys name r = if r.failed then done else check_all_empty sys name (split 10 r.output)

unfoldable pub destroy_pool : System → Str → Action (Unit {0})
unfolding check_listing
destroy_pool sys name = do
  listing ← ask (call sys (zfs_list_used name))
  check_listing sys name listing
  r ← ask (call sys (zpool_destroy name))
  check (command_failed name) r

unfoldable pub exists_already : Str → Reply → Bool
unfolding str_eq
exists_already name r = not r.failed && str_eq (trim_space r.output) name

-- The declared properties are not used.
unfoldable pub create_dataset : System → Str → Option DesiredDataset → Action (Unit {0})
unfolding exists_already
create_dataset sys name dd = do
  found ← ask (call sys (zfs_list_name name))
  if exists_already name found
      then done
      else do r ← ask (call sys (zfs_create name)); check (command_failed name) r

-- parts of "property: old → new"; `none` is the error.
unfoldable pub parse_change_string : Str → Option (Str × Str)
parse_change_string s = elim (cut (str " → ") s) [
  | none ↦ none
  | some (before, new) ↦ elim (cut (str ": ") s) [
    | none ↦ none
    | some (prop, rest) ↦ some (trim_space prop, trim_space new)
  ]
]

-- "" where the map has no entry
unfoldable pub dataset_prop_name : Str → Str
dataset_prop_name p =
    if str_eq p (str "compression")
    then str "compression"
    else if str_eq p (str "atime")
    then str "atime"
    else if str_eq p (str "mountpoint")
    then str "mountpoint"
    else if str_eq p (str "quota")
    then str "quota"
    else []

unfoldable pub set_property : System → Str → Str → Str → Action (Unit {0})
unfolding str_eq
set_property sys name prop value =
    if str_eq prop []
    then done
    else do r ← ask (call sys (zfs_set prop value name)); check (command_failed name) r

unfoldable pub modify_dataset_change : System → Str → Str → Action (Unit {0})
unfolding set_property
modify_dataset_change sys name change = elim (parse_change_string change) [
  | none ↦ done
  | some (prop, value) ↦ set_property sys name (dataset_prop_name prop) value
]

unfoldable pub modify_dataset : System → Str → List Str → Action (Unit {0})
unfolding modify_dataset_change
modify_dataset sys name [] = done
modify_dataset sys name (c ∷ cs) = do modify_dataset_change sys name c; modify_dataset sys name cs

unfoldable pub delete_dataset : System → Str → Action (Unit {0})
delete_dataset sys name = do
  used ← ask (dataset_used_bytes sys name)
  if ltb 0 used
      then fail (dataset_has_data name used)
      else do r ← ask (call sys (zfs_destroy name)); check (command_failed name) r
