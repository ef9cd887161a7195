-- ===== src/Security/Whitelist/Files.antt =====
-- CommandWhitelist of daemon/internal/security/whitelist.go: the commands on files, disks and containers.
use d_plane_os.Prelude.{str, List, [], ◌∷◌, ◌++◌}
use d_plane_os.Security.Regex.{set, star, plus, opt, between, lit, ◌<>◌, ◌<|>◌}
use d_plane_os.Security.Chars.{lower, lower_num, octal, alnum, chars}
use d_plane_os.Security.Command.{Command}

abbrev pub file_commands : List Command
file_commands =
    record {
      name = str "mkdir";
      path = str "/usr/bin/mkdir";
      allowed_args = str "-p" ∷ [];
      arg_patterns = (lit (str "/") <> plus (set (alnum ++ chars "/_-. "))) ∷ [];
      description = str "Create directory";
    }
    ∷ record {
      name = str "rm_recursive";
      path = str "/usr/bin/rm";
      allowed_args = str "-rf" ∷ [];
      arg_patterns = (lit (str "/") <> plus (set (alnum ++ chars "/_-. "))) ∷ [];
      description = str "Remove directory recursively";
    }
    ∷ record {
      name = str "chown";
      path = str "/usr/bin/chown";
      allowed_args = [];
      arg_patterns =
          (set (lower ++ chars "_")
            <> star (set (lower_num ++ chars "_-"))
            <> opt (
                (opt (set (chars ":"))
                  <> opt (set (lower ++ chars "_"))
                  <> star (set (lower_num ++ chars "_-")))))
          ∷ (lit (str "/") <> plus (set (alnum ++ chars "/_-. ")))
          ∷ [];
      description = str "Change file ownership";
    }
    ∷ record {
      name = str "chmod";
      path = str "/usr/bin/chmod";
      allowed_args = [];
      arg_patterns =
          between 3 1 (set octal) ∷ (lit (str "/") <> plus (set (alnum ++ chars "/_-. "))) ∷ [];
      description = str "Change file permissions";
    }
    ∷ record {
      name = str "rsync";
      path = str "/usr/bin/rsync";
      allowed_args = str "-avz" ∷ str "--progress" ∷ [];
      arg_patterns =
          (lit (str "/") <> plus (set (alnum ++ chars "/_-. ")))
          ∷ ((lit (str "/") <> plus (set (alnum ++ chars "/_-. ")))
              <|> (plus (set (lower_num ++ chars ".-_"))
                  <> lit (str "@")
                  <> plus (set (lower_num ++ chars ".-"))
                  <> lit (str ":/")
                  <> plus (set (alnum ++ chars "/_-. "))))
          ∷ [];
      description = str "File synchronization";
    }
    ∷ record {
      name = str "lsblk_list";
      path = str "/usr/bin/lsblk";
      allowed_args = str "-d" ∷ str "-n" ∷ str "-o" ∷ str "NAME,TYPE" ∷ [];
      arg_patterns = [];
      description = str "List block devices";
    }
    ∷ record {
      name = str "hdparm_check";
      path = str "/usr/sbin/hdparm";
      allowed_args = str "-C" ∷ [];
      arg_patterns = (lit (str "/dev/") <> plus (set lower_num)) ∷ [];
      description = str "Check disk power state";
    }
    ∷ record {
      name = str "hdparm_spindown";
      path = str "/usr/sbin/hdparm";
      allowed_args = str "-y" ∷ [];
      arg_patterns = (lit (str "/dev/") <> plus (set lower_num)) ∷ [];
      description = str "Spin down disk";
    }
    ∷ record {
      name = str "docker_ps";
      path = str "/usr/bin/docker";
      allowed_args = str "ps" ∷ str "-a" ∷ str "--format" ∷ str "{{json .}}" ∷ [];
      arg_patterns = [];
      description = str "List containers";
    }
    ∷ record {
      name = str "docker_inspect";
      path = str "/usr/bin/docker";
      allowed_args = str "inspect" ∷ [];
      arg_patterns = plus (set (alnum ++ chars "_-")) ∷ [];
      description = str "Inspect container";
    }
    ∷ record {
      name = str "docker_start";
      path = str "/usr/bin/docker";
      allowed_args = str "start" ∷ [];
      arg_patterns = plus (set (alnum ++ chars "_-")) ∷ [];
      description = str "Start container";
    }
    ∷ record {
      name = str "docker_stop";
      path = str "/usr/bin/docker";
      allowed_args = str "stop" ∷ [];
      arg_patterns = plus (set (alnum ++ chars "_-")) ∷ [];
      description = str "Stop container";
    }
    ∷ record {
      name = str "ip_addr";
      path = str "/usr/sbin/ip";
      allowed_args = str "-j" ∷ str "addr" ∷ str "show" ∷ [];
      arg_patterns = [];
      description = str "Show network addresses";
    }
    ∷ record {
      name = str "ip_route";
      path = str "/usr/sbin/ip";
      allowed_args = str "-j" ∷ str "route" ∷ str "show" ∷ [];
      arg_patterns = [];
      description = str "Show routes";
    }
    ∷ []
