-- ===== src/Security/Whitelist/Network.antt =====
-- CommandWhitelist of daemon/internal/security/whitelist.go: the commands on the network, on replication and on shares.
use d_plane_os.Prelude.{str, List, [], ◌∷◌, ◌++◌}
use d_plane_os.Security.Regex.{set, plus, opt, lit, ◌<>◌, ◌<|>◌}
use d_plane_os.Security.Chars.{digits, alnum, chars}
use d_plane_os.Security.Command.{Command}

abbrev pub network_commands : List Command
network_commands =
    record {
      name = str "ip_addr_show";
      path = str "/usr/sbin/ip";
      allowed_args = str "addr" ∷ str "show" ∷ [];
      arg_patterns = plus (set alnum) ∷ [];
      description = str "Show network interface addresses";
    }
    ∷ record {
      name = str "ip_link_up";
      path = str "/usr/sbin/ip";
      allowed_args = str "link" ∷ str "set" ∷ str "up" ∷ [];
      arg_patterns = (lit (str "dev") <|> plus (set alnum)) ∷ [];
      description = str "Bring network interface up";
    }
    ∷ record {
      name = str "ip_link_down";
      path = str "/usr/sbin/ip";
      allowed_args = str "link" ∷ str "set" ∷ str "down" ∷ [];
      arg_patterns = (lit (str "dev") <|> plus (set alnum)) ∷ [];
      description = str "Bring network interface down";
    }
    ∷ record {
      name = str "ip_route_show";
      path = str "/usr/sbin/ip";
      allowed_args = str "route" ∷ str "show" ∷ [];
      arg_patterns = [];
      description = str "Show routing table";
    }
    ∷ record {
      name = str "ip_route_modify";
      path = str "/usr/sbin/ip";
      allowed_args =
          str "route" ∷ str "add" ∷ str "del" ∷ str "via" ∷ str "dev" ∷ str "metric" ∷ [];
      arg_patterns =
          (plus (set (digits ++ chars "./"))
            <|> lit (str "default")
            <|> lit (str "add")
            <|> lit (str "del")
            <|> lit (str "via")
            <|> lit (str "dev")
            <|> lit (str "metric")
            <|> plus (set alnum))
          ∷ [];
      description = str "Add or delete routing table entries";
    }
    ∷ record {
      name = str "network_apply";
      path = str "/usr/sbin/netplan";
      allowed_args = str "apply" ∷ [];
      arg_patterns = [];
      description = str "Apply network configuration (netplan)";
    }
    ∷ record {
      name = str "zfs_send";
      path = str "/usr/sbin/zfs";
      allowed_args = str "send" ∷ str "-R" ∷ [];
      arg_patterns =
          (plus (set (alnum ++ chars "_-"))
            <> opt ((lit (str "/") <> plus (set (alnum ++ chars "_-/"))))
            <> lit (str "@")
            <> plus (set (alnum ++ chars "_-")))
          ∷ [];
      description = str "ZFS send for replication";
    }
    ∷ record {
      name = str "zfs_send_incremental";
      path = str "/usr/sbin/zfs";
      allowed_args = str "send" ∷ str "-R" ∷ str "-i" ∷ [];
      arg_patterns =
          (plus (set (alnum ++ chars "_-"))
            <> opt ((lit (str "/") <> plus (set (alnum ++ chars "_-/"))))
            <> lit (str "@")
            <> plus (set (alnum ++ chars "_-")))
          ∷ (plus (set (alnum ++ chars "_-"))
              <> opt ((lit (str "/") <> plus (set (alnum ++ chars "_-/"))))
              <> lit (str "@")
              <> plus (set (alnum ++ chars "_-")))
          ∷ [];
      description = str "ZFS incremental send";
    }
    ∷ record {
      name = str "zfs_receive";
      path = str "/usr/sbin/zfs";
      allowed_args = str "receive" ∷ str "-F" ∷ [];
      arg_patterns =
          (plus (set (alnum ++ chars "_-"))
            <> opt ((lit (str "/") <> plus (set (alnum ++ chars "_-/")))))
          ∷ [];
      description = str "ZFS receive for replication";
    }
    ∷ record {
      name = str "systemctl_reload_smbd";
      path = str "/usr/bin/systemctl";
      allowed_args = str "reload" ∷ str "smbd" ∷ [];
      arg_patterns = [];
      description = str "Reload Samba daemon";
    }
    ∷ record {
      name = str "testparm";
      path = str "/usr/bin/testparm";
      allowed_args = str "-s" ∷ [];
      arg_patterns = [];
      description = str "Test Samba configuration";
    }
    ∷ record {
      name = str "exportfs_reload";
      path = str "/usr/sbin/exportfs";
      allowed_args = str "-ra" ∷ [];
      arg_patterns = [];
      description = str "Reload NFS exports";
    }
    ∷ record {
      name = str "exportfs_list";
      path = str "/usr/sbin/exportfs";
      allowed_args = str "-v" ∷ [];
      arg_patterns = [];
      description = str "List NFS exports";
    }
    ∷ []
