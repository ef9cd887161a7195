-- ===== src/Gitops/Validate.antt =====
-- ValidState of daemon/internal/gitops/state.go. Each message of the returned slice is a
-- constructor with the values that it shows.
pub mod Rules
mod Chars
mod Items
pub mod Sound
use d_plane_os.Prelude.{
  ℕ, ◌+◌, Str, str, str_eq, member, has_prefix, all_chars, contains_any, Bool, true, false, not,
  ◌&&◌, ◌||◌, List, [], ◌∷◌, ◌++◌, ℤ, pos, negsuc, leb, ltb, ◌==◌,
}
use d_plane_os.Gitops.State.{DesiredPool, DesiredDataset, DesiredShare, DesiredState}

pub data PoolError : Type 0 where
  invalid_name duplicate_name no_disks : PoolError
  unknown_vdev_type not_by_id illegal_characters : Str → PoolError
  ashift_out_of_range : ℤ → PoolError

pub data DatasetError : Type 0 where
  invalid_name duplicate_name bad_atime relative_mountpoint : DatasetError
  unknown_compression : Str → DatasetError

pub data ShareError : Type 0 where
  invalid_name duplicate_name bad_path : ShareError

-- A message carries the prefix `pools[i] "name"`.
pub data StateError : Type 0 where
  unsupported_version : Str → StateError
  in_pool : ℕ → Str → PoolError → StateError
  in_dataset : ℕ → Str → DatasetError → StateError
  in_share : ℕ → Str → ShareError → StateError

unfoldable pub is_alnum : ℕ → Bool
is_alnum c = (leb b'a' c && leb c b'z') || (leb b'A' c && leb c b'Z') || (leb b'0' c && leb c b'9')

-- [a-zA-Z0-9_\-\.]
unfoldable pub is_name_char : ℕ → Bool
unfolding is_alnum
is_name_char c = is_alnum c || (c == b'_') || (c == b'-') || (c == b'.')

-- [a-zA-Z0-9/_\-\.]
unfoldable pub is_dataset_char : ℕ → Bool
unfolding is_name_char
is_dataset_char c = is_name_char c || (c == b'/')

-- validPoolRe and validShareRe
unfoldable pub valid_pool_re : Str → Bool
unfolding is_name_char all_chars
valid_pool_re [] = false
valid_pool_re (c ∷ s) = is_alnum c && all_chars is_name_char s

unfoldable pub valid_dataset_re : Str → Bool
unfolding is_dataset_char all_chars
valid_dataset_re [] = false
valid_dataset_re (c ∷ s) = is_alnum c && all_chars is_dataset_char s

unfoldable pub by_id_prefix : Str
unfolding str
by_id_prefix = str "/dev/disk/by-id/"

-- ";|&$`\\\"' \t\n"
unfoldable pub shell_chars : Str
shell_chars = b';' ∷ b'|' ∷ b'&' ∷ b'$' ∷ b'`' ∷ 92 ∷ 34 ∷ 39 ∷ 32 ∷ 9 ∷ 10 ∷ []

unfoldable pub valid_vdev : List Str
unfolding str
valid_vdev = str "" ∷ str "mirror" ∷ str "raidz" ∷ str "raidz1" ∷ str "raidz2" ∷ str "raidz3" ∷ []

unfoldable pub valid_comp : List Str
unfolding str
valid_comp = str "" ∷ str "lz4" ∷ str "zstd" ∷ str "gzip" ∷ str "off" ∷ str "on" ∷ []

unfoldable pub valid_atime : List Str
unfolding str
valid_atime = str "" ∷ str "on" ∷ str "off" ∷ []

-- `if c { errs = append(errs, e) }`
abbrev pub when {ℓ} : {E : Type ℓ} → Bool → E → List E
when true e = e ∷ []
when false e = []

disk_errors : Str → List PoolError
unfolding has_prefix contains_any
disk_errors d =
    when (not (has_prefix by_id_prefix d)) (not_by_id d)
    ++ when (contains_any shell_chars d) (illegal_characters d)

disks_errors : List Str → List PoolError
unfolding disk_errors
disks_errors [] = []
disks_errors (d ∷ ds) = disk_errors d ++ disks_errors ds

is_empty {ℓ} : {A : Type ℓ} → List A → Bool
is_empty [] = true
is_empty (x ∷ xs) = false

-- p.Ashift != 0 && (p.Ashift < 9 || p.Ashift > 16)
ashift_bad : ℤ → Bool
ashift_bad (pos n) = not (n == 0) && (ltb n 9 || ltb 16 n)
ashift_bad (negsuc n) = true

pub pool_errors : List Str → DesiredPool → List PoolError
unfolding valid_pool_re member disks_errors is_empty ashift_bad
pool_errors seen p =
    when (not (valid_pool_re p.name)) PoolError.invalid_name
    ++ (when (member p.name seen) PoolError.duplicate_name
        ++ (when (not (member p.vdev_type valid_vdev)) (unknown_vdev_type p.vdev_type)
            ++ (when (is_empty p.disks) no_disks
                ++ (disks_errors p.disks
                    ++ when (ashift_bad p.ashift) (ashift_out_of_range p.ashift)))))

pub dataset_errors : List Str → DesiredDataset → List DatasetError
unfolding valid_dataset_re member has_prefix str_eq str
dataset_errors seen d =
    when (not (valid_dataset_re d.name)) DatasetError.invalid_name
    ++ (when (member d.name seen) DatasetError.duplicate_name
        ++ (when (not (member d.compression valid_comp)) (unknown_compression d.compression)
            ++ (when (not (member d.atime valid_atime)) bad_atime
                ++ when
                    (not (str_eq d.mountpoint (str "")) && not (has_prefix (str "/") d.mountpoint))
                    relative_mountpoint)))

pub share_errors : List Str → DesiredShare → List ShareError
unfolding valid_pool_re member has_prefix str_eq str
share_errors seen s =
    when (not (valid_pool_re s.name)) ShareError.invalid_name
    ++ (when (member s.name seen) ShareError.duplicate_name
        ++ when (str_eq s.path (str "") || not (has_prefix (str "/") s.path)) bad_path)

tagged {ℓ κ} : {A : Type ℓ} {E : Type κ} → (A → E) → List A → List E
tagged f [] = []
tagged f (x ∷ xs) = f x ∷ tagged f xs

-- The three loops: `i` is the index and `seen` the map of names met so far.
pub pools_errors : ℕ → List Str → List DesiredPool → List StateError
unfolding pool_errors tagged
pools_errors i seen [] = []
pools_errors i seen (p ∷ ps) =
    tagged (in_pool i p.name) (pool_errors seen p) ++ pools_errors (i + 1) (p.name ∷ seen) ps

pub datasets_errors : ℕ → List Str → List DesiredDataset → List StateError
unfolding dataset_errors tagged
datasets_errors i seen [] = []
datasets_errors i seen (d ∷ ds) =
    tagged (in_dataset i d.name) (dataset_errors seen d)
    ++ datasets_errors (i + 1) (d.name ∷ seen) ds

pub shares_errors : ℕ → List Str → List DesiredShare → List StateError
unfolding share_errors tagged
shares_errors i seen [] = []
shares_errors i seen (s ∷ ss) =
    tagged (in_share i s.name) (share_errors seen s) ++ shares_errors (i + 1) (s.name ∷ seen) ss

unfoldable pub valid_state : DesiredState → List StateError
unfolding pools_errors datasets_errors shares_errors str_eq str
valid_state s =
    when (not (str_eq s.version (str "1"))) (unsupported_version s.version)
    ++ (pools_errors 0 [] s.pools
        ++ (datasets_errors 0 [] s.datasets ++ shares_errors 0 [] s.shares))
