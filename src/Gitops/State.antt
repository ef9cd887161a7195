-- ===== src/Gitops/State.antt =====
-- The types of daemon/internal/gitops/state.go, diff.go and live.go. A map from strings to strings
-- is its list of entries; the enumerations of strings are data types.
use d_plane_os.Prelude.{ℕ, Str, Bool, Option, List, ℤ}

-- What state.yaml declares.
pub record DesiredPool : Type 0 where
  pub name : Str
  pub vdev_type : Str
  pub disks : List Str
  pub ashift : ℤ
  pub options : List (Str × Str)

pub record DesiredDataset : Type 0 where
  pub name : Str
  pub quota : Str
  pub compression : Str
  pub atime : Str
  pub mountpoint : Str
  pub encrypted : Bool

pub record DesiredShare : Type 0 where
  pub name : Str
  pub path : Str
  pub read_only : Bool
  pub valid_users : Str
  pub comment : Str
  pub guest_ok : Bool

pub record DesiredState : Type 0 where
  pub version : Str
  pub pools : List DesiredPool
  pub datasets : List DesiredDataset
  pub shares : List DesiredShare

-- What ZFS and the database report.
pub record LivePool : Type 0 where
  pub name : Str
  pub health : Str
  pub disks : List Str

pub record LiveDataset : Type 0 where
  pub name : Str
  pub used : ℕ
  pub avail : ℕ
  pub compression : Str
  pub atime : Str
  pub mountpoint : Str
  pub quota : Str
  pub encrypted : Bool

pub record LiveShare : Type 0 where
  pub id : ℕ
  pub name : Str
  pub path : Str
  pub read_only : Bool
  pub valid_users : Str
  pub comment : Str
  pub guest_ok : Bool
  pub enabled : Bool

pub record LiveState : Type 0 where
  pub pools : List LivePool
  pub datasets : List LiveDataset
  pub shares : List LiveShare

pub data DiffAction : Type 0 where
  nop create modify delete blocked : DiffAction

pub data ResourceKind : Type 0 where
  pool dataset share : ResourceKind

pub data RiskLevel : Type 0 where
  low medium high critical : RiskLevel

-- The text of `BlockReason` by its format and the values that are put into it.
pub data BlockReason : Type 0 where
  pool_exists : Str → BlockReason
  dataset_used : Str → ℕ → BlockReason
  share_active : Str → BlockReason

pub record DiffItem : Type 0 where
  pub kind : ResourceKind
  pub name : Str
  pub action : DiffAction
  pub changes : List Str
  pub block_reason : Option BlockReason
  pub risk_level : RiskLevel
  pub approved : Bool
  pub desired_pool : Option DesiredPool
  pub desired_dataset : Option DesiredDataset
  pub desired_share : Option DesiredShare

pub record Plan : Type 0 where
  pub items : List DiffItem
  pub has_blocked : Bool
  pub safe_to_apply : Bool
  pub create_count : ℕ
  pub modify_count : ℕ
  pub delete_count : ℕ
  pub blocked_count : ℕ
  pub nop_count : ℕ
