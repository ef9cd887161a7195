-- ===== src/Networkd/Text.antt =====
-- The contents of the files.
use d_plane_os.Prelude.{ℤ, Str, str, str_eq, join, List, [], ◌∷◌, ◌++◌, if◌then◌else◌}
use d_plane_os.Networkd.Names.{vid_text}

-- A text and a line end.
line : Str → Str
line s = s ++ (10 ∷ [])

entry : Str → Str → Str
unfolding line
entry key value = line (key ++ (b'=' ∷ value))

managed : Str
unfolding line str
managed = line (str "# Managed by D-PlaneOS") ++ line []

match_name : Str → Str
unfolding line entry str
match_name name = line (str "[Match]") ++ (entry (str "Name") name ++ line [])

dns_lines : List Str → Str
unfolding entry str str_eq
dns_lines [] = []
dns_lines (d ∷ ds) =
    let rest = dns_lines ds in if str_eq d [] then rest else entry (str "DNS") d ++ rest

-- Without an address the interface asks for one.
address_lines : Str → Str → List Str → Str
unfolding entry dns_lines str str_eq
address_lines cidr gateway dns =
    if str_eq cidr []
    then entry (str "DHCP") (str "yes")
    else entry (str "DHCP") (str "no")
      ++ (entry (str "Address") cidr
          ++ ((if str_eq gateway [] then [] else entry (str "Gateway") gateway) ++ dns_lines dns))

unfoldable pub static_text : Str → Str → Str → List Str → Str
unfolding line match_name address_lines str
static_text iface cidr gateway dns =
    line (str "# Managed by D-PlaneOS — do not edit by hand")
    ++ (line (str "# Changes made via web UI. Delete this file to revert to NixOS defaults.")
        ++ (line []
            ++ (match_name iface ++ (line (str "[Network]") ++ address_lines cidr gateway dns))))

unfoldable pub vlan_netdev_text : Str → ℤ → Str
unfolding line entry managed vid_text str
vlan_netdev_text iface vid =
    managed
    ++ (line (str "[NetDev]")
        ++ (entry (str "Name") iface
            ++ (entry (str "Kind") (str "vlan")
                ++ (line [] ++ (line (str "[VLAN]") ++ entry (str "Id") (vid_text vid))))))

unfoldable pub vlan_parent_text : Str → Str → ℤ → Str
unfolding line entry match_name vid_text str
vlan_parent_text iface parent vid =
    line (str "# Managed by D-PlaneOS — attaches VLAN " ++ (vid_text vid ++ (str " to " ++ parent)))
    ++ (line [] ++ (match_name parent ++ (line (str "[Network]") ++ entry (str "VLAN") iface)))

-- The configuration of a VLAN or of a bond has no gateway.
unfoldable pub vlan_network_text : Str → Str → List Str → Str
unfolding line managed match_name address_lines str
vlan_network_text iface cidr dns =
    managed ++ (match_name iface ++ (line (str "[Network]") ++ address_lines cidr [] dns))

unfoldable pub bond_netdev_text : Str → Str → Str
unfolding line entry managed str
bond_netdev_text name mode =
    managed
    ++ (line (str "[NetDev]")
        ++ (entry (str "Name") name
            ++ (entry (str "Kind") (str "bond")
                ++ (line [] ++ (line (str "[Bond]") ++ entry (str "Mode") mode)))))

unfoldable pub bond_network_text : Str → Str → List Str → Str
unfolding vlan_network_text
bond_network_text name cidr dns = vlan_network_text name cidr dns

unfoldable pub slave_text : Str → Str → Str
unfolding line entry match_name str
slave_text bond slave =
    line (str "# Managed by D-PlaneOS — slave of bond " ++ bond)
    ++ (line [] ++ (match_name slave ++ (line (str "[Network]") ++ entry (str "Bond") bond)))

unfoldable pub dns_text : List Str → Str
unfolding line entry str join
dns_text servers =
    line (str "# Managed by D-PlaneOS — do not edit by hand")
    ++ (line []
        ++ (line (str "[Resolve]")
            ++ (entry (str "DNS") (join (str " ") servers)
                ++ entry (str "FallbackDNS") (str "1.1.1.1 8.8.8.8"))))
