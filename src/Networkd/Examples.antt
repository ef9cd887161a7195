-- ===== src/Networkd/Examples.antt =====
-- Calls of the writer on a directory with a file of its own and one of another program.
use d_plane_os.Prelude.{
  ◌≡◌, refl, pos, str, has_prefix, true, false, none, some, List, [], ◌∷◌, ◌++◌,
}
use d_plane_os.Networkd.Names.{file_prefix, validate_iface}
use d_plane_os.Networkd.Disk.{Os, rename_failed, temp_prefix}
use d_plane_os.Networkd.Disk.Foreign.{IsForeign}
use d_plane_os.Networkd.{Network}
use d_plane_os.Networkd.Owned.{
  Operation, static, dhcp, vlan, vlan_removal, bond_removal, perform_all, perform_all-foreign,
}

abbrev working : Os
working = record {
  writing = λ f. none;
  removal = λ f. false;
  random = λ f. str "1";
  partial = λ f. [];
  temp_kept = λ f. true;
  resolved_directory = true;
  resolved_active = true;
  listing = true;
}

abbrev network : Network
network = record {
  networkd_up = true;
  files = λ f. some [];
  resolved = λ f. none;
  reloads = 0;
  resolved_reloads = 0;
}

-- No file can be renamed.
abbrev stuck : Os
stuck = record working { writing = λ f. some rename_failed }

abbrev calls : List (Os × Operation)
calls =
    (stuck, dhcp (str "eth1") [])
    ∷ (working, static (str "eth0") (str "10.0.0.2/24") (str "10.0.0.1") [])
    ∷ (working, vlan (str "eth0.7") (str "eth0") (pos 7) [] [])
    ∷ (working, vlan_removal (str "eth0.7") (str "eth0") (pos 7))
    ∷ (working, bond_removal (str "bond0") (str "eth0" ∷ []))
    ∷ []

nixos_file : IsForeign (str "10-eth0.network")
unfolding IsForeign has_prefix file_prefix temp_prefix str
nixos_file = (refl, refl)

perform_all-foreign_example :
    (perform_all calls network).files (str "10-eth0.network")
    ≡ network.files (str "10-eth0.network")
perform_all-foreign_example = perform_all-foreign calls network (str "10-eth0.network") nixos_file

vlan_name : validate_iface (str "eth0" ++ (b'.' ∷ str "7")) ≡ none
unfolding validate_iface str
vlan_name = refl
