-- ===== src/Networkd/Disk/Foreign.antt =====
-- What writes and removals leave of the files whose names are not the writer's.
use d_plane_os.Prelude.{
  ◌≡◌, refl, ◌⊎◌, inl, inr, Str, str, str_eq, str_eq_iff, has_prefix, has_prefix-append, Bool, true,
  false, Bool-cases, Option, some, none, ◌++◌, if◌then◌else◌,
}
use d_plane_os.Networkd.Names.{file_prefix}
use d_plane_os.Networkd.Disk.{
  WriteError, mkdir_failed, create_failed, write_failed, close_failed, rename_failed, Directory,
  put, temp_prefix, temp_file, drop_temp, attempt,
}

-- The name begins neither with 50-dplane- nor with the prefix of the temporary files.
unfoldable pub IsForeign : Str → Type 0
IsForeign f = (has_prefix file_prefix f ≡ false) × (has_prefix temp_prefix f ≡ false)

unfoldable pub IsOwned : Str → Type 0
IsOwned name = (has_prefix file_prefix name ≡ true) ⊎ (has_prefix temp_prefix name ≡ true)

pub owned : (rest : Str) → IsOwned (file_prefix ++ rest)
unfolding IsOwned
owned rest = inl (has_prefix-append file_prefix rest)

temp_file-IsOwned : (random : Str) → IsOwned (temp_file random)
unfolding IsOwned temp_file
temp_file-IsOwned random = inr (has_prefix-append temp_prefix (random ++ str ".tmp"))

foreign-not-IsOwned : (f : Str) → IsForeign f → ¬ IsOwned f
unfolding IsForeign IsOwned
foreign-not-IsOwned f (h, k) (inl o) = cc
foreign-not-IsOwned f (h, k) (inr o) = cc

module _ (f : Str) (foreign : IsForeign f) where
  pub put-other :
      (name : Str) (c : Option Str) (files : Directory)
      → IsOwned name
      → put name c files f ≡ files f
  unfolding put
  put-other name c files o = elim (Bool-cases (str_eq f name)) [
    | inl e ↦ absurd (foreign-not-IsOwned f foreign (rw ((str_eq_iff f name).0 e) o))
    | inr e ↦ rw (e, if◌then◌else◌) refl
  ]

  drop_temp-other :
      (kept : Bool) (random held : Str) (files : Directory)
      → drop_temp kept (temp_file random) held files f ≡ files f
  unfolding drop_temp
  drop_temp-other true random held files =
      put-other (temp_file random) (some held) files (temp_file-IsOwned random)
  drop_temp-other false random held files = refl

  pub attempt-other :
      (e : Option WriteError) (kept : Bool) (random partial name content : Str) (files : Directory)
      → IsOwned name
      → attempt e kept (temp_file random) partial name content files f ≡ files f
  unfolding attempt
  attempt-other none kept random partial name content files o =
      put-other name (some content) files o
  attempt-other (some mkdir_failed) kept random partial name content files o = refl
  attempt-other (some create_failed) kept random partial name content files o = refl
  attempt-other (some write_failed) kept random partial name content files o =
      drop_temp-other kept random partial files
  attempt-other (some close_failed) kept random partial name content files o =
      drop_temp-other kept random partial files
  attempt-other (some rename_failed) kept random partial name content files o =
      drop_temp-other kept random content files
