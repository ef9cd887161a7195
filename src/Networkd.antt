-- ===== src/Networkd.antt =====
-- daemon/internal/networkdwriter/writer.go: the writer of the units of systemd-networkd. A directory is a
-- function from names of files to their contents; the calls of package os fail as an oracle says. Log
-- lines are left out.
pub mod Names
pub mod Text
pub mod Disk
pub mod Owned
pub mod Collision
mod Examples
use d_plane_os.Prelude.{
  ℕ, suc, ◌==◌, ℤ, pos, negsuc, Str, str, str_eq, has_prefix, filter, Bool, true, false, not, ◌||◌,
  leb, ltb, Option, some, none, List, [], ◌∷◌, ◌++◌, join, if◌then◌else◌,
}
use Names.{
  NetError, validate_iface, validate_cidr, bond_mode_to_networkd, is_valid_ip, network_file,
  vlan_netdev_file, vlan_parent_file, bond_netdev_file, bond_network_file, slave_file, file_prefix,
  unknown_bond_mode,
}
use Disk.{WriteError, Os, Directory, put, atomic_write}
use Text.{
  static_text, vlan_netdev_text, vlan_parent_text, vlan_network_text, bond_netdev_text,
  bond_network_text, slave_text, dns_text,
}

pub data WriterError : Type 0 where
  invalid : NetError → WriterError
  invalid_parent : NetError → WriterError
  invalid_slave : Str → NetError → WriterError
  vlan_id_out_of_range : ℤ → WriterError
  write_error : Str → WriteError → WriterError
  remove_failed : Str → WriterError
  invalid_dns_server : Str → WriterError
  no_resolved_directory : WriterError

pub record Network : Type 0 where
  pub networkd_up : Bool
  pub files : Str → Option Str
  pub resolved : Directory
  pub reloads : ℕ
  pub resolved_reloads : ℕ

abbrev pub Result : Type 0
Result = Option WriterError × Network

-- Without networkd nothing is reloaded; a reload that fails is only logged.
unfoldable pub reload : Network → Result
reload n = (none, if n.networkd_up then record n { reloads = suc n.reloads } else n)

unfoldable pub write_file : Os → Str → Str → Network → Option WriteError × Network
unfolding atomic_write
write_file os name content n =
    let (e, files) = atomic_write os [] name content n.files in (e, record n { files = files })

-- The next step after a write, or the error of the write.
after_write : Str → (Network → Result) → Option WriteError × Network → Result
after_write name next (some e, n) = (some (write_error name e), n)
after_write name next (none, n) = next n

write_then : Os → Str → Str → (Network → Result) → Network → Result
unfolding write_file after_write
write_then os name content next n = after_write name next (write_file os name content n)

remove_file : Os → Str → Network → Bool × Network
unfolding put
remove_file os name n =
    if os.removal name then (true, n) else (false, record n { files = put name none n.files })

unfoldable pub write_and_reload : Os → Str → Str → Network → Result
unfolding write_then reload
write_and_reload os name content n = write_then os name content reload n

after_removal : Str → Bool × Network → Result
unfolding reload
after_removal name (true, n) = (some (remove_failed name), n)
after_removal name (false, n) = reload n

unfoldable pub remove_and_reload : Os → Str → Network → Result
unfolding remove_file after_removal
remove_and_reload os name n = after_removal name (remove_file os name n)

-- Errors of the removals are only logged.
unfoldable pub remove_files : Os → List Str → Network → Network
unfolding remove_file
remove_files os [] n = n
remove_files os (f ∷ fs) n = remove_files os fs (remove_file os f n).1

-- The CIDR is only checked where there is one.
check_cidr : Str → Option NetError
unfolding validate_cidr
check_cidr [] = none
check_cidr (c ∷ cidr) = validate_cidr (c ∷ cidr)

when_valid : (NetError → WriterError) → Option NetError → (Network → Result) → Network → Result
when_valid wrap (some e) next n = (some (wrap e), n)
when_valid wrap none next n = next n

unfoldable pub set_static : Os → Str → Str → Str → List Str → Network → Result
unfolding when_valid validate_iface check_cidr write_and_reload network_file static_text
set_static os iface cidr gateway dns = when_valid invalid (validate_iface iface) (
    when_valid invalid (check_cidr cidr)
      (write_and_reload os (network_file iface) (static_text iface cidr gateway dns)))

unfoldable pub set_dhcp : Os → Str → List Str → Network → Result
unfolding set_static
set_dhcp os iface dns = set_static os iface [] [] dns

unfoldable pub remove_interface : Os → Str → Network → Result
unfolding when_valid validate_iface remove_and_reload network_file
remove_interface os iface =
    when_valid invalid (validate_iface iface) (remove_and_reload os (network_file iface))

-- vid < 1 || vid > 4094
vlan_id_bad : ℤ → Bool
vlan_id_bad (negsuc n) = true
vlan_id_bad (pos n) = ltb n 1 || ltb 4094 n

unfoldable pub set_vlan : Os → Str → Str → ℤ → Str → List Str → Network → Result
unfolding when_valid validate_iface vlan_id_bad write_then reload vlan_netdev_file vlan_parent_file
    network_file vlan_netdev_text vlan_parent_text vlan_network_text
set_vlan os iface parent vid cidr dns = when_valid invalid (validate_iface iface) (
    when_valid invalid_parent (validate_iface parent) (λ n.
      if vlan_id_bad vid
      then (some (vlan_id_out_of_range vid), n)
      else write_then os (vlan_netdev_file parent vid) (vlan_netdev_text iface vid)
          (write_then os (vlan_parent_file parent vid) (vlan_parent_text iface parent vid)
            (write_then os (network_file iface) (vlan_network_text iface cidr dns) reload))
          n))

unfoldable pub remove_vlan : Os → Str → Str → ℤ → Network → Result
unfolding remove_files reload vlan_netdev_file vlan_parent_file network_file
remove_vlan os iface parent vid n = reload (
    remove_files os
      (vlan_netdev_file parent vid ∷ vlan_parent_file parent vid ∷ network_file iface ∷ []) n)

check_slaves : List Str → Option WriterError
unfolding validate_iface
check_slaves [] = none
check_slaves (s ∷ ss) = elim (validate_iface s) [
  | some e ↦ some (invalid_slave s e)
  | none ↦ check_slaves ss
]

-- A slave whose file cannot be written is only logged.
write_slaves : Os → Str → List Str → Network → Network
unfolding write_file slave_file slave_text
write_slaves os name [] n = n
write_slaves os name (s ∷ ss) n =
    write_slaves os name ss (write_file os (slave_file name s) (slave_text name s) n).1

write_bond : Os → Str → List Str → Str → Str → List Str → Network → Result
unfolding write_then write_slaves reload bond_netdev_file bond_network_file bond_netdev_text
    bond_network_text
write_bond os name slaves mode cidr dns =
    write_then os (bond_netdev_file name) (bond_netdev_text name mode) (
      write_then os (bond_network_file name) (bond_network_text name cidr dns)
        (λ n. reload (write_slaves os name slaves n)))

checked_bond :
    Os → Str → List Str → Option Str → Str → Str → List Str → Option WriterError → Network → Result
unfolding write_bond
checked_bond os name slaves mode given cidr dns (some e) n = (some e, n)
checked_bond os name slaves none given cidr dns none n =
    (some (invalid (unknown_bond_mode given)), n)
checked_bond os name slaves (some mode) given cidr dns none n =
    write_bond os name slaves mode cidr dns n

unfoldable pub set_bond : Os → Str → List Str → Str → Str → List Str → Network → Result
unfolding when_valid validate_iface check_slaves bond_mode_to_networkd checked_bond
set_bond os name slaves mode cidr dns =
    when_valid invalid (validate_iface name)
      (checked_bond os name slaves (bond_mode_to_networkd mode) mode cidr dns (check_slaves slaves))

slave_files : Str → List Str → List Str
unfolding slave_file
slave_files name [] = []
slave_files name (s ∷ ss) = slave_file name s ∷ slave_files name ss

unfoldable pub remove_bond : Os → Str → List Str → Network → Result
unfolding remove_files reload bond_netdev_file bond_network_file slave_files
remove_bond os name slaves n =
    reload
      (remove_files os (bond_netdev_file name ∷ bond_network_file name ∷ slave_files name slaves) n)

first_invalid : List Str → Option Str
unfolding is_valid_ip
first_invalid [] = none
first_invalid (s ∷ ss) = if not (is_valid_ip s) then some s else first_invalid ss

resolved_file : Str
unfolding str
resolved_file = str "/etc/systemd/resolved.conf.d/50-dplane.conf"

resolved_path : Str
unfolding str
resolved_path = str "/etc/systemd/resolved.conf.d/"

resolve_unless : Option WriteError → Bool → Network → Result
unfolding resolved_file
resolve_unless (some e) active n = (some (write_error resolved_file e), n)
resolve_unless none active n = (
  none,
  record n { resolved_reloads = if active then suc n.resolved_reloads else n.resolved_reloads },
)

write_resolved : Os → Str → Network → Result
unfolding resolved_file resolved_path resolve_unless atomic_write
write_resolved os text n =
    let (e, files) = atomic_write os resolved_path resolved_file text n.resolved in
    resolve_unless e os.resolved_active (record n { resolved = files })

-- The servers are checked before the directory is made.
dns_checked : Os → List Str → Option Str → Network → Result
unfolding write_resolved dns_text
dns_checked os servers (some s) n = (some (invalid_dns_server s), n)
dns_checked os servers none n =
    if not os.resolved_directory
    then (some no_resolved_directory, n)
    else write_resolved os (dns_text servers) n

unfoldable pub set_global_dns : Os → List Str → Network → Result
unfolding first_invalid dns_checked
set_global_dns os servers n = dns_checked os servers (first_invalid servers) n

-- `entries` is what os.ReadDir returns; `none` is an error, and a directory that does not exist has none.
unfoldable pub list_managed_files : Option (List Str) → Option (List Str)
unfolding has_prefix file_prefix
list_managed_files none = none
list_managed_files (some entries) = some (filter (has_prefix file_prefix) entries)
