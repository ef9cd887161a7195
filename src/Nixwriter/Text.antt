-- ===== src/Nixwriter/Text.antt =====
-- The stanzas and the file.
use d_plane_os.Prelude.{
  ℕ, suc, ◌==◌, ℤ, pos, negsuc, decimal, Str, str, str_eq, join, map, Bool, ◌&&◌, List, [], ◌∷◌,
  ◌++◌, if◌then◌else◌,
}

pub record SambaGlobalOpts : Type 0 where
  pub workgroup : Str
  pub server_string : Str
  pub time_machine : Bool
  pub allow_guest : Bool
  pub extra_global : Str

int_text : ℤ → Str
unfolding decimal
int_text (pos n) = decimal n
int_text (negsuc n) = b'-' ∷ decimal (suc n)

-- The parts of a line, and its end.
unfoldable pub line : List Str → Str
unfolding join
line parts = join [] parts ++ (10 ∷ [])

pub rule : Str
unfolding str
rule = str "# ──────────────────────────────────────────────────────────────────────────────"

unfoldable pub header_text : Str → Str
unfolding line rule str
header_text now =
    line (str "# dplane-generated.nix" ∷ [])
    ++ line (rule ∷ [])
    ++ line (str "# AUTO-GENERATED by D-PlaneOS. DO NOT EDIT BY HAND." ∷ [])
    ++ line (str "# Changes made via the D-PlaneOS web UI are written here automatically." ∷ [])
    ++ line (str "# This file is imported by configuration.nix:" ∷ [])
    ++ line (str "#   imports = [ ./dplane-generated.nix ];" ∷ [])
    ++ line (str "#" ∷ [])
    ++ line (str "# Last updated: " ∷ now ∷ [])
    ++ line (rule ∷ [])
    ++ line []
    ++ line (str "{ config, lib, pkgs, ... }:" ∷ [])
    ++ line []
    ++ line (str "{" ∷ [])

unfoldable pub stanza_lines : List (Str × Str) → Str
unfolding line
stanza_lines [] = []
stanza_lines (s ∷ ss) = s.1 ++ ((10 ∷ []) ++ stanza_lines ss)

unfoldable pub file_text : Str → List (Str × Str) → Str
unfolding header_text stanza_lines line str
file_text now stanzas = header_text now ++ (stanza_lines stanzas ++ line (str "}" ∷ []))

flag_line : Str → Bool → Str
unfolding line str
flag_line option on = line (
    str "  services.dplaneos.samba."
    ∷ option
    ∷ str " = "
    ∷ (if on then str "true" else str "false")
    ∷ str ";"
    ∷ [])

-- strings.ReplaceAll of two quotes by three, from left to right
escaped : Str → Str
escaped [] = []
escaped (c ∷ []) = c ∷ []
escaped (c ∷ d ∷ s) =
    let skipped = escaped s in
    let kept = escaped (d ∷ s) in
    if (c == 39) && (d == 39) then 39 ∷ 39 ∷ 39 ∷ skipped else c ∷ kept

extra_lines : Str → Str
unfolding line escaped str str_eq
extra_lines extra =
    if str_eq extra []
    then []
    else line (str "  services.dplaneos.samba.extraGlobalConfig = ''" ∷ [])
      ++ line (escaped extra ∷ [])
      ++ line (str "'';" ∷ [])

module _ (quote : Str → Str) where
  gateway_line : Str → Str
  unfolding line str str_eq
  gateway_line gateway =
      if str_eq gateway []
      then []
      else line
          (str "    routes = [{ routeConfig = { Gateway = " ∷ quote gateway ∷ str "; }; }];" ∷ [])

  address_lines : Str → Str → Str
  unfolding line gateway_line str str_eq
  address_lines cidr gateway =
      if str_eq cidr []
      then line (str "    networkConfig.DHCP = \"yes\";" ∷ [])
      else line (str "    networkConfig.DHCP = \"no\";" ∷ [])
        ++ line (str "    address = [ " ∷ quote cidr ∷ str " ];" ∷ [])
        ++ gateway_line gateway

  unfoldable pub static_text : Str → Str → Str → Str
  unfolding line address_lines str
  static_text iface cidr gateway =
      line (str "  # Static IP for " ∷ iface ∷ str " — set via D-PlaneOS web UI" ∷ [])
      ++ line (str "  systemd.network.networks.\"20-" ∷ iface ∷ str "-static\" = {" ∷ [])
      ++ line (str "    matchConfig.Name = " ∷ quote iface ∷ str ";" ∷ [])
      ++ address_lines cidr gateway
      ++ line (str "  };" ∷ [])

  slave_lines : ℕ → Str → List Str → Str
  unfolding line decimal str
  slave_lines i name [] = []
  slave_lines i name (s ∷ ss) =
      line (str "  systemd.network.networks.\"" ∷ decimal i ∷ str "-" ∷ s ∷ str "-slave\" = {" ∷ [])
      ++ line (str "    matchConfig.Name = " ∷ quote s ∷ str ";" ∷ [])
      ++ line (str "    networkConfig.Bond = " ∷ quote name ∷ str ";" ∷ [])
      ++ line (str "  };" ∷ [])
      ++ slave_lines (suc i) name ss

  -- The numbers of the slaves begin at 20, so that they have two digits without padding.
  unfoldable pub bond_text : Str → List Str → Str → Str
  unfolding line slave_lines str
  bond_text name slaves mode =
      line (str "  # Bond " ∷ name ∷ str " (" ∷ mode ∷ str ") — set via D-PlaneOS web UI" ∷ [])
      ++ line (str "  systemd.network.netdevs.\"10-" ∷ name ∷ str "\" = {" ∷ [])
      ++ line (str "    netdevConfig = { Name = " ∷ quote name ∷ str "; Kind = \"bond\"; };" ∷ [])
      ++ line (str "    bondConfig.Mode = " ∷ quote mode ∷ str ";" ∷ [])
      ++ line (str "  };" ∷ [])
      ++ slave_lines 20 name slaves

  unfoldable pub vlan_text : Str → Str → ℤ → Str
  unfolding line int_text str
  vlan_text if_name parent vid =
      line (
        str "  # VLAN "
        ∷ if_name
        ∷ str " (id "
        ∷ int_text vid
        ∷ str " on "
        ∷ parent
        ∷ str ") — set via D-PlaneOS web UI"
        ∷ [])
      ++ line (str "  systemd.network.netdevs.\"10-" ∷ if_name ∷ str "\" = {" ∷ [])
      ++ line
          (str "    netdevConfig = { Name = " ∷ quote if_name ∷ str "; Kind = \"vlan\"; };" ∷ [])
      ++ line (str "    vlanConfig.Id = " ∷ int_text vid ∷ str ";" ∷ [])
      ++ line (str "  };" ∷ [])
      ++ line (str "  systemd.network.networks.\"10-" ∷ parent ∷ str "-vlan\" = {" ∷ [])
      ++ line (str "    matchConfig.Name = " ∷ quote parent ∷ str ";" ∷ [])
      ++ line (str "    networkConfig.VLAN = [ " ∷ quote if_name ∷ str " ];" ∷ [])
      ++ line (str "  };" ∷ [])

  quoted_list : List Str → Str
  unfolding join str
  quoted_list servers = join (str " ") (map quote servers)

  unfoldable pub dns_text : List Str → Str
  unfolding line quoted_list str
  dns_text servers =
      line (str "  # DNS servers — set via D-PlaneOS web UI" ∷ [])
      ++ line (str "  networking.nameservers = [ " ∷ quoted_list servers ∷ str " ];" ∷ [])

  unfoldable pub hostname_text : Str → Str
  unfolding line str
  hostname_text name =
      line (str "  # Hostname — set via D-PlaneOS web UI" ∷ [])
      ++ line (str "  networking.hostName = " ∷ quote name ∷ str ";" ∷ [])

  unfoldable pub ntp_text : List Str → Str
  unfolding line quoted_list str
  ntp_text servers =
      line (str "  # NTP servers — set via D-PlaneOS web UI" ∷ [])
      ++ line (str "  networking.timeServers = [ " ∷ quoted_list servers ∷ str " ];" ∷ [])

  unfoldable pub timezone_text : Str → Str
  unfolding line str
  timezone_text tz =
      line (str "  # Timezone — set via D-PlaneOS web UI" ∷ [])
      ++ line (str "  time.timeZone = " ∷ quote tz ∷ str ";" ∷ [])

  optional_line : Str → Str → Str
  unfolding line str str_eq
  optional_line option value =
      if str_eq value []
      then []
      else line (str "  services.dplaneos.samba." ∷ option ∷ str " = " ∷ quote value ∷ str ";" ∷ [])

  unfoldable pub samba_text : SambaGlobalOpts → Str
  unfolding line optional_line flag_line extra_lines str
  samba_text opts =
      line (str "  # Samba global settings — set via D-PlaneOS web UI" ∷ [])
      ++ line (str "  services.dplaneos.samba.enable = true;" ∷ [])
      ++ optional_line (str "workgroup") opts.workgroup
      ++ optional_line (str "serverString") opts.server_string
      ++ flag_line (str "timeMachine") opts.time_machine
      ++ flag_line (str "allowGuest") opts.allow_guest
      ++ extra_lines opts.extra_global

ports_text : List ℤ → Str
unfolding int_text join str
ports_text [] = str "[ ]"
ports_text (p ∷ ps) = str "[ " ++ (join (str " ") (map int_text (p ∷ ps)) ++ str " ]")

unfoldable pub firewall_text : List ℤ → List ℤ → Str
unfolding line ports_text str
firewall_text tcp udp =
    line (str "  # Firewall — managed via D-PlaneOS web UI" ∷ [])
    ++ line (str "  networking.firewall.enable = true;" ∷ [])
    ++ line (str "  networking.firewall.allowedTCPPorts = " ∷ ports_text tcp ∷ str ";" ∷ [])
    ++ line (str "  networking.firewall.allowedUDPPorts = " ∷ ports_text udp ∷ str ";" ∷ [])
