-- ===== src/Networkd/Owned.antt =====
-- The files that the writer touches.
use d_plane_os.Prelude.{
  ◌≡◌, refl, ◌∙◌, ℤ, Str, Bool, true, false, not, pick, Option, some, none, All, List, [], ◌∷◌,
}
use d_plane_os.Networkd.Names.{
  NetError, network_file, vlan_netdev_file, vlan_parent_file, bond_netdev_file, bond_network_file,
  slave_file, validate_iface, bond_mode_to_networkd,
}
use d_plane_os.Networkd.Disk.{WriteError, Os, atomic_write}
use d_plane_os.Networkd.Disk.Foreign.{IsForeign, IsOwned, owned, put-other, attempt-other}
use d_plane_os.Networkd.{
  WriterError, invalid, invalid_parent, Network, Result, reload, resolved_file, write_file,
  after_write, write_then, remove_file, write_and_reload, after_removal, remove_and_reload,
  remove_files, check_cidr, when_valid, set_static, set_dhcp, remove_interface, vlan_id_bad,
  set_vlan, remove_vlan, check_slaves, write_slaves, write_bond, checked_bond, set_bond,
  slave_files, remove_bond, first_invalid, resolve_unless, dns_checked, write_resolved,
  set_global_dns,
}

pub data Operation : Type 0 where
  static : Str → Str → Str → List Str → Operation
  dhcp : Str → List Str → Operation
  interface_removal : Str → Operation
  vlan : Str → Str → ℤ → Str → List Str → Operation
  vlan_removal : Str → Str → ℤ → Operation
  bond : Str → List Str → Str → Str → List Str → Operation
  bond_removal : Str → List Str → Operation
  global_dns : List Str → Operation

unfoldable pub perform : Os → Operation → Network → Result
unfolding set_static set_dhcp remove_interface set_vlan remove_vlan set_bond remove_bond
    set_global_dns
perform os (static iface cidr gateway dns) n = set_static os iface cidr gateway dns n
perform os (dhcp iface dns) n = set_dhcp os iface dns n
perform os (interface_removal iface) n = remove_interface os iface n
perform os (vlan iface parent vid cidr dns) n = set_vlan os iface parent vid cidr dns n
perform os (vlan_removal iface parent vid) n = remove_vlan os iface parent vid n
perform os (bond name slaves mode cidr dns) n = set_bond os name slaves mode cidr dns n
perform os (bond_removal name slaves) n = remove_bond os name slaves n
perform os (global_dns servers) n = set_global_dns os servers n

unfoldable pub perform_all : List (Os × Operation) → Network → Network
unfolding perform
perform_all [] n = n
perform_all (call ∷ calls) n = perform_all calls (perform call.0 call.1 n).1

module _ (f : Str) (foreign : IsForeign f) (content : Option Str) where
  -- The file has that content.
  Has : Network → Type 0
  Has n = n.files f ≡ content

  reload-Has : (n : Network) → Has n → Has (reload n).1
  unfolding reload Has
  reload-Has n h = pick (λ (x : Network). x.files f ≡ content) n.networkd_up _ _ h h

  write_file-Has :
      (os : Os) (name c : Str) (n : Network) → IsOwned name → Has n → Has (write_file os name c n).1
  unfolding write_file atomic_write Has
  write_file-Has os name c n o h =
      attempt-other f foreign (os.writing name) (os.temp_kept name) (os.random name)
        (os.partial name) name c n.files o
      ∙ h

  after_write-Has :
      (name : Str) (next : Network → Result) (r : Option WriteError × Network)
      → Has r.1
      → ((m : Network) → Has m → Has (next m).1)
      → Has (after_write name next r).1
  unfolding after_write
  after_write-Has name next (some e, n) h k = h
  after_write-Has name next (none, n) h k = k n h

  write_then-Has :
      (os : Os) (name c : Str) (next : Network → Result)
      → IsOwned name
      → ((m : Network) → Has m → Has (next m).1)
      → (n : Network) → Has n
      → Has (write_then os name c next n).1
  unfolding write_then
  write_then-Has os name c next o k n h =
      after_write-Has name next _ (write_file-Has os name c n o h) k

  remove_file-Has :
      (os : Os) (name : Str) (n : Network) → IsOwned name → Has n → Has (remove_file os name n).1
  unfolding remove_file Has
  remove_file-Has os name n o h =
      pick (λ (x : Bool × Network). x.1.files f ≡ content) (os.removal name) _ _ h
        (put-other f foreign name none n.files o ∙ h)

  after_removal-Has : (name : Str) (r : Bool × Network) → Has r.1 → Has (after_removal name r).1
  unfolding after_removal
  after_removal-Has name (true, n) h = h
  after_removal-Has name (false, n) h = reload-Has n h

  remove_files-Has :
      (os : Os) (fs : List Str) (n : Network) → All IsOwned fs → Has n → Has (remove_files os fs n)
  unfolding remove_files
  remove_files-Has os [] n o h = h
  remove_files-Has os (name ∷ fs) n o h =
      remove_files-Has os fs _ o.1 (remove_file-Has os name n o.0 h)

  when_valid-Has :
      (wrap : NetError → WriterError) (e : Option NetError) (next : Network → Result)
      → ((m : Network) → Has m → Has (next m).1)
      → (n : Network) → Has n
      → Has (when_valid wrap e next n).1
  unfolding when_valid
  when_valid-Has wrap (some e) next k n h = h
  when_valid-Has wrap none next k n h = k n h

  write_slaves-Has :
      (os : Os) (name : Str) (slaves : List Str) (n : Network)
      → Has n
      → Has (write_slaves os name slaves n)
  unfolding write_slaves slave_file
  write_slaves-Has os name [] n h = h
  write_slaves-Has os name (s ∷ ss) n h =
      write_slaves-Has os name ss _ (write_file-Has os (slave_file name s) _ n (owned _) h)

  checked_bond-Has :
      (os : Os) (name : Str) (slaves : List Str) (mode : Option Str) (given cidr : Str)
      (dns : List Str) (e : Option WriterError) (n : Network)
      → Has n
      → Has (checked_bond os name slaves mode given cidr dns e n).1
  unfolding checked_bond write_bond bond_netdev_file bond_network_file
  checked_bond-Has os name slaves mode given cidr dns (some e) n h = h
  checked_bond-Has os name slaves none given cidr dns none n h = h
  checked_bond-Has os name slaves (some mode) given cidr dns none n h =
      write_then-Has os (bond_netdev_file name) _ _ (owned _)
        (write_then-Has os (bond_network_file name) _ _ (owned _)
          (λ m k. reload-Has _ (write_slaves-Has os name slaves m k)))
        n h

  resolve_unless-Has :
      (e : Option WriteError) (active : Bool) (n : Network)
      → Has n
      → Has (resolve_unless e active n).1
  unfolding resolve_unless Has
  resolve_unless-Has (some e) active n h = h
  resolve_unless-Has none active n h = h

  dns_checked-Has :
      (os : Os) (servers : List Str) (s : Option Str) (n : Network)
      → Has n
      → Has (dns_checked os servers s n).1
  unfolding dns_checked write_resolved Has
  dns_checked-Has os servers (some s) n h = h
  dns_checked-Has os servers none n h =
      pick (λ (x : Result). Has x.1) (not os.resolved_directory) _ _ h
        (resolve_unless-Has (os.writing resolved_file) os.resolved_active _ h)

  slave_files-IsOwned : (name : Str) (slaves : List Str) → All IsOwned (slave_files name slaves)
  unfolding slave_files slave_file
  slave_files-IsOwned name [] = tt
  slave_files-IsOwned name (s ∷ ss) = (owned _, slave_files-IsOwned name ss)

  set_static-Has :
      (os : Os) (iface cidr gateway : Str) (dns : List Str) (n : Network)
      → Has n
      → Has (set_static os iface cidr gateway dns n).1
  unfolding set_static write_and_reload network_file
  set_static-Has os iface cidr gateway dns = when_valid-Has invalid (validate_iface iface) _ (
      when_valid-Has invalid (check_cidr cidr) _
        (write_then-Has os (network_file iface) _ reload (owned _) reload-Has))

  set_vlan-Has :
      (os : Os) (iface parent : Str) (vid : ℤ) (cidr : Str) (dns : List Str) (n : Network)
      → Has n
      → Has (set_vlan os iface parent vid cidr dns n).1
  unfolding set_vlan vlan_netdev_file vlan_parent_file network_file
  set_vlan-Has os iface parent vid cidr dns = when_valid-Has invalid (validate_iface iface) _ (
      when_valid-Has invalid_parent (validate_iface parent) _ (λ m k.
        pick (λ (x : Result). Has x.1) (vlan_id_bad vid) _ _ k
          (write_then-Has os (vlan_netdev_file parent vid) _ _ (owned _)
            (write_then-Has os (vlan_parent_file parent vid) _ _ (owned _)
              (write_then-Has os (network_file iface) _ reload (owned _) reload-Has))
            m k)))

  perform-Has : (os : Os) (op : Operation) (n : Network) → Has n → Has (perform os op n).1
  unfolding perform set_dhcp remove_interface remove_and_reload remove_vlan set_bond remove_bond
      set_global_dns network_file vlan_netdev_file vlan_parent_file bond_netdev_file
      bond_network_file
  perform-Has os (static iface cidr gateway dns) n h = set_static-Has os iface cidr gateway dns n h
  perform-Has os (dhcp iface dns) n h = set_static-Has os iface [] [] dns n h
  perform-Has os (interface_removal iface) n h =
      when_valid-Has invalid (validate_iface iface) _
        (λ m k.
          after_removal-Has (network_file iface) _
            (remove_file-Has os (network_file iface) m (owned _) k))
        n h
  perform-Has os (vlan iface parent vid cidr dns) n h =
      set_vlan-Has os iface parent vid cidr dns n h
  perform-Has os (vlan_removal iface parent vid) n h = reload-Has _ (
      remove_files-Has os
        (vlan_netdev_file parent vid ∷ vlan_parent_file parent vid ∷ network_file iface ∷ []) n
        (owned _, (owned _, (owned _, tt))) h)
  perform-Has os (bond name slaves mode cidr dns) n h =
      when_valid-Has invalid (validate_iface name) _
        (checked_bond-Has os name slaves (bond_mode_to_networkd mode) mode cidr dns
          (check_slaves slaves))
        n h
  perform-Has os (bond_removal name slaves) n h = reload-Has _ (
      remove_files-Has os (bond_netdev_file name ∷ bond_network_file name ∷ slave_files name slaves)
        n (owned _, (owned _, slave_files-IsOwned name slaves)) h)
  perform-Has os (global_dns servers) n h = dns_checked-Has os servers (first_invalid servers) n h

  perform_all-Has :
      (calls : List (Os × Operation)) (n : Network) → Has n → Has (perform_all calls n)
  unfolding perform_all
  perform_all-Has [] n h = h
  perform_all-Has (call ∷ calls) n h = perform_all-Has calls _ (perform-Has call.0 call.1 n h)

-- Whatever calls are made, and whichever calls of the operating system fail, a file of the directory of
-- networkd whose name begins neither with 50-dplane- nor with .dplane-net-, the prefix of the temporary
-- files, keeps its content, or stays missing.
pub perform_all-foreign :
    (calls : List (Os × Operation)) (n : Network) (f : Str)
    → IsForeign f
    → (perform_all calls n).files f ≡ n.files f
unfolding Has
perform_all-foreign calls n f h = perform_all-Has f h (n.files f) calls n refl
