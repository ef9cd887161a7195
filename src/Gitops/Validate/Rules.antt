-- ===== src/Gitops/Validate/Rules.antt =====
-- The rules for state.yaml, stated on their own: what ValidState is to accept.
use d_plane_os.Prelude.{
  ℕ, ◌≤◌, ◌≡◌, ◌≢◌, ◌⊎◌, Str, str, All, In, Distinct, [], ◌∷◌, ◌++◌, map, ℤ, pos, negsuc,
}
use d_plane_os.Gitops.State.{DesiredPool, DesiredDataset, DesiredShare, DesiredState}
use d_plane_os.Gitops.Validate.{by_id_prefix, shell_chars, valid_vdev, valid_comp, valid_atime}

abbrev pub IsAlnum : ℕ → Type 0
IsAlnum c = ((b'a' ≤ c) × (c ≤ b'z')) ⊎ (((b'A' ≤ c) × (c ≤ b'Z')) ⊎ ((b'0' ≤ c) × (c ≤ b'9')))

abbrev pub IsNameChar : ℕ → Type 0
IsNameChar c = IsAlnum c ⊎ ((c ≡ b'_') ⊎ ((c ≡ b'-') ⊎ (c ≡ b'.')))

abbrev pub IsDatasetChar : ℕ → Type 0
IsDatasetChar c = IsNameChar c ⊎ (c ≡ b'/')

-- A name of characters that pass, which begins with a letter or a digit.
abbrev pub IsNameOf : (ℕ → Type 0) → Str → Type 0
IsNameOf P [] = ⊥
IsNameOf P (c ∷ s) = IsAlnum c × All P s

abbrev pub StartsWith : Str → Str → Type 0
StartsWith p s = (t : Str) × (s ≡ p ++ t)

-- A stable path without characters that a shell reads.
abbrev pub IsSafeDisk : Str → Type 0
IsSafeDisk d = StartsWith by_id_prefix d × All (λ c. ¬ In c shell_chars) d

-- 0 stands for the automatic choice.
abbrev pub IsAshift : ℤ → Type 0
IsAshift (pos n) = (n ≡ 0) ⊎ ((9 ≤ n) × (n ≤ 16))
IsAshift (negsuc n) = ⊥

abbrev pub IsPool : DesiredPool → Type 0
IsPool p =
    IsNameOf IsNameChar p.name
    × (In p.vdev_type valid_vdev × ((p.disks ≢ []) × (All IsSafeDisk p.disks × IsAshift p.ashift)))

abbrev pub IsDataset : DesiredDataset → Type 0
IsDataset d =
    IsNameOf IsDatasetChar d.name
    × (In d.compression valid_comp
        × (In d.atime valid_atime × ((d.mountpoint ≡ str "") ⊎ StartsWith (str "/") d.mountpoint)))

abbrev pub IsShare : DesiredShare → Type 0
IsShare s = IsNameOf IsNameChar s.name × StartsWith (str "/") s.path

pub record IsValid (s : DesiredState) : Type 0 where
  pub version_ok : s.version ≡ str "1"
  pub pools_ok : All IsPool s.pools
  pub pools_distinct : Distinct (map (λ (p : DesiredPool). p.name) s.pools)
  pub datasets_ok : All IsDataset s.datasets
  pub datasets_distinct : Distinct (map (λ (d : DesiredDataset). d.name) s.datasets)
  pub shares_ok : All IsShare s.shares
  pub shares_distinct : Distinct (map (λ (s : DesiredShare). s.name) s.shares)
