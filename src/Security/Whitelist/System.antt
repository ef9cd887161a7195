-- ===== src/Security/Whitelist/System.antt =====
-- CommandWhitelist of daemon/internal/security/whitelist.go: the commands on services, access control and certificates.
use d_plane_os.Prelude.{str, List, [], ◌∷◌, ◌++◌}
use d_plane_os.Security.Regex.{set, star, plus, opt, up_to, lit, ◌<>◌, ◌<|>◌}
use d_plane_os.Security.Chars.{lower, digits, alnum, any_char, chars}
use d_plane_os.Security.Command.{Command}

abbrev pub system_commands : List Command
system_commands =
    record {
      name = str "upsc_list";
      path = str "/usr/bin/upsc";
      allowed_args = str "-l" ∷ [];
      arg_patterns = [];
      description = str "List UPS devices";
    }
    ∷ record {
      name = str "upsc_query";
      path = str "/usr/bin/upsc";
      allowed_args = [];
      arg_patterns = plus (set (alnum ++ chars "_-.")) ∷ [];
      description = str "Query UPS data";
    }
    ∷ record {
      name = str "systemctl_status";
      path = str "/usr/bin/systemctl";
      allowed_args = str "status" ∷ str "--no-pager" ∷ [];
      arg_patterns = plus (set (alnum ++ chars "_-.")) ∷ [];
      description = str "Get service status";
    }
    ∷ record {
      name = str "journalctl";
      path = str "/usr/bin/journalctl";
      allowed_args = str "-n" ∷ str "--no-pager" ∷ str "-o" ∷ str "json" ∷ [];
      arg_patterns = plus (set digits) ∷ [];
      description = str "Get system logs";
    }
    ∷ record {
      name = str "getfacl";
      path = str "/usr/bin/getfacl";
      allowed_args = str "-p" ∷ [];
      arg_patterns = (lit (str "/mnt/") <> star (set any_char)) ∷ [];
      description = str "Get POSIX ACL entries";
    }
    ∷ record {
      name = str "setfacl";
      path = str "/usr/bin/setfacl";
      allowed_args = str "-m" ∷ str "-x" ∷ str "-R" ∷ [];
      arg_patterns =
          ((lit (str "u") <|> lit (str "g") <|> lit (str "o") <|> lit (str "m"))
            <> opt ((lit (str ":") <> star (set (alnum ++ chars "_.-"))))
            <> lit (str ":")
            <> up_to 3 (set (chars "rwx-")))
          ∷ [];
      description = str "Set POSIX ACL entries";
    }
    ∷ record {
      name = str "getent";
      path = str "/usr/bin/getent";
      allowed_args = str "passwd" ∷ str "group" ∷ [];
      arg_patterns = plus (set (alnum ++ chars "_.-")) ∷ [];
      description = str "Resolve NSS user/group (local + LDAP)";
    }
    ∷ record {
      name = str "ufw";
      path = str "/usr/sbin/ufw";
      allowed_args =
          str "status"
          ∷ str "numbered"
          ∷ str "allow"
          ∷ str "deny"
          ∷ str "delete"
          ∷ str "enable"
          ∷ str "disable"
          ∷ str "--force"
          ∷ str "from"
          ∷ str "to"
          ∷ str "any"
          ∷ str "port"
          ∷ str "proto"
          ∷ [];
      arg_patterns = (plus (set digits) <> opt ((lit (str "/tcp") <|> lit (str "/udp")))) ∷ [];
      description = str "Manage firewall rules";
    }
    ∷ record {
      name = str "openssl";
      path = str "/usr/bin/openssl";
      allowed_args =
          str "req"
          ∷ str "x509"
          ∷ str "-x509"
          ∷ str "-newkey"
          ∷ str "rsa:2048"
          ∷ str "-keyout"
          ∷ str "-out"
          ∷ str "-days"
          ∷ str "-nodes"
          ∷ str "-subj"
          ∷ str "-noout"
          ∷ str "-subject"
          ∷ str "-enddate"
          ∷ str "-issuer"
          ∷ str "-in"
          ∷ str "-addext"
          ∷ [];
      arg_patterns = [];
      description = str "SSL certificate operations";
    }
    ∷ record {
      name = str "nginx_test";
      path = str "/usr/sbin/nginx";
      allowed_args = str "-t" ∷ str "-s" ∷ str "reload" ∷ [];
      arg_patterns = [];
      description = str "Test and reload nginx config";
    }
    ∷ record {
      name = str "hdparm_status";
      path = str "/usr/sbin/hdparm";
      allowed_args = str "-C" ∷ str "-B" ∷ str "-S" ∷ str "-y" ∷ [];
      arg_patterns = (lit (str "/dev/sd") <> plus (set lower)) ∷ plus (set digits) ∷ [];
      description = str "Disk power management";
    }
    ∷ record {
      name = str "lsblk_power";
      path = str "/usr/bin/lsblk";
      allowed_args = str "-dpno" ∷ str "NAME,SIZE,MODEL,ROTA,TRAN,STATE" ∷ [];
      arg_patterns = [];
      description = str "List block device power info";
    }
    ∷ []
