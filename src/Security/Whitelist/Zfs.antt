-- ===== src/Security/Whitelist/Zfs.antt =====
-- CommandWhitelist of daemon/internal/security/whitelist.go: the commands on pools and datasets.
use d_plane_os.Prelude.{str, List, [], ◌∷◌, ◌++◌}
use d_plane_os.Security.Regex.{set, plus, opt, lit, ◌<>◌, ◌<|>◌}
use d_plane_os.Security.Chars.{alnum, chars}
use d_plane_os.Security.Command.{Command}

abbrev pub zfs_commands : List Command
zfs_commands =
    record {
      name = str "zfs_list";
      path = str "/usr/sbin/zfs";
      allowed_args =
          str "list"
          ∷ str "-H"
          ∷ str "-o"
          ∷ str "name,used,avail,refer,mountpoint"
          ∷ str "-t"
          ∷ str "filesystem"
          ∷ [];
      arg_patterns = [];
      description = str "List ZFS filesystems";
    }
    ∷ record {
      name = str "zfs_get";
      path = str "/usr/sbin/zfs";
      allowed_args = str "get" ∷ str "-H" ∷ str "-o" ∷ str "value" ∷ [];
      arg_patterns = plus (set (alnum ++ chars "_-./:")) ∷ [];
      description = str "Get ZFS property";
    }
    ∷ record {
      name = str "zpool_list";
      path = str "/usr/sbin/zpool";
      allowed_args = str "list" ∷ str "-H" ∷ str "-o" ∷ str "name,size,alloc,free,health" ∷ [];
      arg_patterns = [];
      description = str "List ZFS pools";
    }
    ∷ record {
      name = str "zpool_status";
      path = str "/usr/sbin/zpool";
      allowed_args = str "status" ∷ str "-P" ∷ [];
      arg_patterns = plus (set (alnum ++ chars "_-")) ∷ [];
      description = str "Get pool status";
    }
    ∷ record {
      name = str "zfs_create";
      path = str "/usr/sbin/zfs";
      allowed_args = str "create" ∷ [];
      arg_patterns =
          (plus (set (alnum ++ chars "_-")) <> lit (str "/") <> plus (set (alnum ++ chars "_-/")))
          ∷ [];
      description = str "Create ZFS dataset";
    }
    ∷ record {
      name = str "zfs_destroy";
      path = str "/usr/sbin/zfs";
      allowed_args = str "destroy" ∷ str "-r" ∷ [];
      arg_patterns =
          (plus (set (alnum ++ chars "_-")) <> lit (str "/") <> plus (set (alnum ++ chars "_-/")))
          ∷ [];
      description = str "Destroy ZFS dataset";
    }
    ∷ record {
      name = str "zfs_snapshot";
      path = str "/usr/sbin/zfs";
      allowed_args = str "snapshot" ∷ [];
      arg_patterns =
          (plus (set (alnum ++ chars "_-"))
            <> lit (str "/")
            <> plus (set (alnum ++ chars "_-/"))
            <> lit (str "@")
            <> plus (set (alnum ++ chars "_-")))
          ∷ [];
      description = str "Create ZFS snapshot";
    }
    ∷ record {
      name = str "zfs_list_snapshots";
      path = str "/usr/sbin/zfs";
      allowed_args = str "list" ∷ str "-t" ∷ str "snapshot" ∷ str "-r" ∷ [];
      arg_patterns =
          (plus (set (alnum ++ chars "_-"))
            <> opt ((lit (str "/") <> plus (set (alnum ++ chars "_-/")))))
          ∷ [];
      description = str "List ZFS snapshots";
    }
    ∷ record {
      name = str "zpool_create";
      path = str "/usr/sbin/zpool";
      allowed_args = str "create" ∷ [];
      arg_patterns = [];
      description = str "Create ZFS pool (requires manual validation of remaining args)";
    }
    ∷ record {
      name = str "zpool_destroy";
      path = str "/usr/sbin/zpool";
      allowed_args = str "destroy" ∷ [];
      arg_patterns = plus (set (alnum ++ chars "_-")) ∷ [];
      description = str "Destroy ZFS pool";
    }
    ∷ record {
      name = str "zpool_scrub";
      path = str "/usr/sbin/zpool";
      allowed_args = str "scrub" ∷ [];
      arg_patterns = plus (set (alnum ++ chars "_-")) ∷ [];
      description = str "Start ZFS pool scrub";
    }
    ∷ record {
      name = str "zpool_add_cache";
      path = str "/usr/sbin/zpool";
      allowed_args = str "add" ∷ [];
      arg_patterns =
          plus (set (alnum ++ chars "_-"))
          ∷ lit (str "cache")
          ∷ plus (set (alnum ++ chars "_-/"))
          ∷ [];
      description = str "Add L2ARC cache device to pool";
    }
    ∷ record {
      name = str "zpool_add_log";
      path = str "/usr/sbin/zpool";
      allowed_args = str "add" ∷ [];
      arg_patterns =
          plus (set (alnum ++ chars "_-"))
          ∷ (lit (str "log") <|> lit (str "mirror"))
          ∷ plus (set (alnum ++ chars "_-/"))
          ∷ [];
      description = str "Add ZIL log device to pool";
    }
    ∷ record {
      name = str "zpool_remove_device";
      path = str "/usr/sbin/zpool";
      allowed_args = str "remove" ∷ [];
      arg_patterns = plus (set (alnum ++ chars "_-")) ∷ plus (set (alnum ++ chars "_-/")) ∷ [];
      description = str "Remove cache or log device from pool";
    }
    ∷ record {
      name = str "zpool_import_scan";
      path = str "/usr/sbin/zpool";
      allowed_args = str "import" ∷ [];
      arg_patterns = [];
      description = str "Scan for importable ZFS pools";
    }
    ∷ record {
      name = str "zpool_import";
      path = str "/usr/sbin/zpool";
      allowed_args = str "import" ∷ [];
      arg_patterns = (lit (str "-f") <|> plus (set (alnum ++ chars "_-"))) ∷ [];
      description = str "Import existing ZFS pool (with optional -f flag)";
    }
    ∷ record {
      name = str "zfs_set_property";
      path = str "/usr/sbin/zfs";
      allowed_args = str "set" ∷ [];
      arg_patterns =
          (plus (set (alnum ++ chars "_-./:"))
            <> lit (str "=")
            <> plus (set (alnum ++ chars "_-.:/")))
          ∷ plus (set (alnum ++ chars "_-./"))
          ∷ [];
      description = str "Set ZFS property (mountpoint, quota, compression, etc.)";
    }
    ∷ []
