-- ===== src/Gitops/Diff.antt =====
-- daemon/internal/gitops/diff.go: the comparison of one resource with its live counterpart.
pub mod Risk
use d_plane_os.Prelude.{
  ℕ, ◌*◌, ◌==◌, Str, str, str_eq, member, contains, trim_space, parse_uint, Bool, true, false, not,
  ◌&&◌, ◌||◌, Option, some, none, List, [], ◌∷◌, ◌++◌, if◌then◌else◌,
}
use d_plane_os.Gitops.State.{
  DesiredPool, DesiredDataset, DesiredShare, LivePool, LiveDataset, LiveShare, RiskLevel, low,
  medium, critical,
}
use d_plane_os.Gitops.System.{System}
use d_plane_os.Gitops.Validate.{when}

-- The last character and what stands before it.
unfoldable pub unsnoc : ℕ → Str → Str × ℕ
unsnoc c [] = ([], c)
unsnoc c (d ∷ s) = let r = unsnoc d s in (c ∷ r.0, r.1)

multiplier : ℕ → Option ℕ
multiplier c =
    if c == b'K'
    then some 1024
    else if c == b'M'
    then some (1024 * 1024)
    else if c == b'G'
    then some (1024 * 1024 * 1024)
    else if c == b'T'
    then some (1024 * 1024 * 1024 * 1024)
    else none

-- `len(q) > 1` and the suffix; otherwise a plain number of bytes.
quota_value : System → Str → ℕ
unfolding multiplier unsnoc
quota_value sys [] = parse_uint []
quota_value sys (c ∷ []) = parse_uint (c ∷ [])
quota_value sys (c ∷ d ∷ s) =
    let (front, last) = unsnoc c (d ∷ s) in
    elim (multiplier last) [ some m ↦ sys.scan_scaled front m | none ↦ parse_uint (c ∷ d ∷ s) ]

unfoldable pub parse_quota : System → Str → ℕ
unfolding quota_value
parse_quota sys q =
    let t = trim_space q in
    if member t (str "" ∷ str "none" ∷ str "0" ∷ []) then 0 else quota_value sys t

-- The keys of the map that a list of strings is put into, each once.
unfoldable pub key_set : List Str → List Str
unfolding member
key_set [] = []
key_set (s ∷ ss) = let rest = key_set ss in if member s ss then rest else s ∷ rest

unfoldable pub disk_add : Str → Str
disk_add d = str "disk-add: " ++ (d ++ str " (will run zpool add)")

unfoldable pub disk_remove : Str → Str
disk_remove d =
    str "disk-remove: "
    ++ (d
        ++ str
            " ⚠ disk removal from live pools requires careful planning — manual intervention required")

unfoldable pub health_change : Str → Str
health_change h = str "health: " ++ (h ++ str " (degraded — check zpool status)")

-- The strings of `xs` that are not in `ys`, each put into a change.
unfoldable pub changes_for : (Str → Str) → List Str → List Str → List Str
unfolding member
changes_for render [] ys = []
changes_for render (x ∷ xs) ys =
    let rest = changes_for render xs ys in if member x ys then rest else render x ∷ rest

unfoldable pub diff_pool : System → DesiredPool → LivePool → List Str
unfolding changes_for key_set str_eq
diff_pool sys desired live =
    when (not (str_eq live.health (str "ONLINE"))) (health_change live.health)
    ++ (changes_for disk_add (sys.range_order (key_set desired.disks)) live.disks
        ++ changes_for disk_remove (sys.range_order (key_set live.disks)) desired.disks)

-- "%s: %s → %s"
unfoldable pub arrow_change : Str → Str → Str → Str
arrow_change prop old new = prop ++ (str ": " ++ (old ++ (str " → " ++ new)))

-- desired != "" && desired != live
unfoldable pub wanted_change : Str → Str → Bool
unfolding str_eq
wanted_change desired live = not (str_eq desired (str "")) && not (str_eq desired live)

unfoldable pub diff_dataset : System → DesiredDataset → LiveDataset → List Str
unfolding wanted_change
diff_dataset sys desired live =
    when (wanted_change desired.compression live.compression)
      (arrow_change (str "compression") live.compression desired.compression)
    ++ (when (wanted_change desired.atime live.atime)
          (arrow_change (str "atime") live.atime desired.atime)
        ++ (when (wanted_change desired.mountpoint live.mountpoint)
              (arrow_change (str "mountpoint") live.mountpoint desired.mountpoint)
            ++ when
                (not (str_eq desired.quota (str ""))
                  && not (parse_quota sys desired.quota == parse_quota sys live.quota))
                (arrow_change (str "quota") live.quota desired.quota)))

unfoldable pub bool_eq : Bool → Bool → Bool
bool_eq true b = b
bool_eq false b = not b

-- "%v" of a bool
unfoldable pub bool_text : Bool → Str
bool_text true = str "true"
bool_text false = str "false"

unfoldable pub diff_share : System → DesiredShare → LiveShare → List Str
unfolding bool_eq str_eq
diff_share sys desired live =
    when (not (str_eq desired.path live.path)) (arrow_change (str "path") live.path desired.path)
    ++ (when (not (bool_eq desired.read_only live.read_only))
          (arrow_change (str "read_only") (bool_text live.read_only) (bool_text desired.read_only))
        ++ (when (not (str_eq desired.valid_users live.valid_users)) (
              arrow_change (str "valid_users") (sys.quote live.valid_users)
                (sys.quote desired.valid_users))
            ++ (when (not (str_eq desired.comment live.comment)) (
                  arrow_change (str "comment") (sys.quote live.comment) (sys.quote desired.comment))
                ++ when (not (bool_eq desired.guest_ok live.guest_ok)) (
                    arrow_change (str "guest_ok") (bool_text live.guest_ok)
                      (bool_text desired.guest_ok)))))

unfoldable pub risk_for_pool_changes : List Str → RiskLevel
risk_for_pool_changes [] = low
risk_for_pool_changes (c ∷ cs) =
    let rest = risk_for_pool_changes cs in
    if contains (str "disk-remove") c || contains (str "degraded") c
    then critical
    else if contains (str "disk-add") c
    then medium
    else rest

unfoldable pub risk_for_dataset_changes : List Str → RiskLevel
risk_for_dataset_changes [] = low
risk_for_dataset_changes (c ∷ cs) =
    let rest = risk_for_dataset_changes cs in
    if contains (str "mountpoint") c then medium else if contains (str "quota") c then low else rest
