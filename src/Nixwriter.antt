-- ===== src/Nixwriter.antt =====
-- daemon/internal/nixwriter/writer.go: the writer of the fragment of the NixOS configuration. The map of
-- stanzas is a list of its entries, the order in which it is ranged over, `%q` and the text of the time
-- are functions of the system, and an atomic write that fails leaves the file as it was.
pub mod Names
pub mod Text
pub mod Restart
mod Examples
use d_plane_os.Prelude.{
  ℕ, ◌==◌, ℤ, pos, negsuc, Str, str, str_eq, contains_any, byte_length, Bool, true, false, not,
  ◌||◌, ◌&&◌, ltb, Option, some, none, List, [], ◌∷◌, ◌++◌, filter, if◌then◌else◌,
}
use Names.{validate_iface, validate_ip, validate_cidr, validate_hostname}
use Text.{
  SambaGlobalOpts, header_text, static_text, bond_text, vlan_text, dns_text, hostname_text,
  ntp_text, firewall_text, timezone_text, samba_text, file_text,
}

pub data NixError : Type 0 where
  invalid_interface invalid_cidr invalid_bond_name invalid_slave unknown_bond_mode
        invalid_dns_server invalid_hostname invalid_timezone :
      Str → NixError
  invalid_interface_name : NixError
  vlan_id_out_of_range : ℤ → NixError
  create_failed write_failed close_failed rename_failed stat_failed : NixError

pub record Nix : Type 0 where
  pub quote : Str → Str
  pub range_order : List (Str × Str) → List (Str × Str)
  pub now : Str
  pub trouble : Option NixError

-- `fragment` is the file at the writer's path.
pub record Writer : Type 0 where
  pub stanzas : List (Str × Str)
  pub nix_os : Bool
  pub rebuild_after : Bool
  pub fragment : Option Str

abbrev pub Result : Type 0
Result = Option NixError × Writer

unfoldable pub new : Bool → Bool → Option Str → Writer
new is_nix_os trigger_rebuild fragment = record {
  stanzas = [];
  nix_os = is_nix_os;
  rebuild_after = trigger_rebuild;
  fragment = fragment;
}

-- delete(stanzas, key)
unfoldable pub drop_stanza : Str → List (Str × Str) → List (Str × Str)
unfolding str_eq
drop_stanza key [] = []
drop_stanza key (s ∷ ss) =
    let rest = drop_stanza key ss in if str_eq s.0 key then rest else s ∷ rest

-- stanzas[key] = content
unfoldable pub put_stanza : Str → Str → List (Str × Str) → List (Str × Str)
unfolding drop_stanza
put_stanza key content ss = (key, content) ∷ drop_stanza key ss

replace_fragment : Option NixError → Str → Writer → Result
replace_fragment (some e) text w = (some e, w)
replace_fragment none text w = (none, record w { fragment = some text })

unfoldable pub flush : Nix → Writer → Result
unfolding replace_fragment file_text
flush nix w =
    if not w.nix_os
    then (none, w)
    else replace_fragment nix.trouble (file_text nix.now (nix.range_order w.stanzas)) w

unfoldable pub set_stanza : Nix → Str → Str → Writer → Result
unfolding flush put_stanza
set_stanza nix key content w = flush nix (record w { stanzas = put_stanza key content w.stanzas })

unfoldable pub remove_stanza : Nix → Str → Writer → Result
unfolding flush drop_stanza
remove_stanza nix key w = flush nix (record w { stanzas = drop_stanza key w.stanzas })

-- The next step, unless there is an error.
unless : Option NixError → (Writer → Result) → Writer → Result
unless (some e) next w = (some e, w)
unless none next w = next w

refuse_when : Bool → NixError → Option NixError
refuse_when true e = some e
refuse_when false e = none

unfoldable pub set_static_interface : Nix → Str → Str → Str → Writer → Result
unfolding unless refuse_when validate_iface validate_cidr set_stanza static_text str str_eq
set_static_interface nix iface cidr gateway =
    unless (refuse_when (not (validate_iface iface)) (invalid_interface iface)) (
      unless (refuse_when (not (str_eq cidr []) && not (validate_cidr cidr)) (invalid_cidr cidr))
        (set_stanza nix (str "net-static-" ++ iface) (static_text nix.quote iface cidr gateway)))

unfoldable pub remove_static_interface : Nix → Str → Writer → Result
unfolding remove_stanza str
remove_static_interface nix iface = remove_stanza nix (str "net-static-" ++ iface)

first_bad_slave : List Str → Option NixError
unfolding validate_iface
first_bad_slave [] = none
first_bad_slave (s ∷ ss) =
    if not (validate_iface s) then some (invalid_slave s) else first_bad_slave ss

known_mode : List Str → Str → Bool
unfolding str_eq
known_mode [] mode = false
known_mode (m ∷ ms) mode = str_eq m mode || known_mode ms mode

-- The map of modes takes each of its keys to itself.
abbrev mode_map : List Str
mode_map =
    str "balance-rr"
    ∷ str "active-backup"
    ∷ str "balance-xor"
    ∷ str "broadcast"
    ∷ str "802.3ad"
    ∷ str "balance-tlb"
    ∷ str "balance-alb"
    ∷ []

unfoldable pub set_bond : Nix → Str → List Str → Str → Writer → Result
unfolding unless refuse_when validate_iface first_bad_slave known_mode set_stanza bond_text str
set_bond nix name slaves mode =
    unless (refuse_when (not (validate_iface name)) (invalid_bond_name name)) (
      unless (first_bad_slave slaves) (
        unless (refuse_when (not (known_mode mode_map mode)) (unknown_bond_mode mode))
          (set_stanza nix (str "net-bond-" ++ name) (bond_text nix.quote name slaves mode))))

unfoldable pub remove_bond : Nix → Str → Writer → Result
unfolding remove_stanza str
remove_bond nix name = remove_stanza nix (str "net-bond-" ++ name)

vlan_id_bad : ℤ → Bool
vlan_id_bad (negsuc n) = true
vlan_id_bad (pos n) = ltb n 1 || ltb 4094 n

unfoldable pub set_vlan : Nix → Str → Str → ℤ → Writer → Result
unfolding unless refuse_when validate_iface vlan_id_bad set_stanza vlan_text str
set_vlan nix if_name parent vid =
    unless
      (refuse_when (not (validate_iface if_name) || not (validate_iface parent))
        invalid_interface_name)
      (unless (refuse_when (vlan_id_bad vid) (vlan_id_out_of_range vid))
        (set_stanza nix (str "net-vlan-" ++ if_name) (vlan_text nix.quote if_name parent vid)))

unfoldable pub remove_vlan : Nix → Str → Writer → Result
unfolding remove_stanza str
remove_vlan nix if_name = remove_stanza nix (str "net-vlan-" ++ if_name)

first_bad_server : List Str → Option NixError
unfolding validate_ip
first_bad_server [] = none
first_bad_server (s ∷ ss) =
    if not (validate_ip s) then some (invalid_dns_server s) else first_bad_server ss

-- No servers take the stanza away.
set_servers : Nix → Str → List Str → (List Str → Str) → Writer → Result
unfolding set_stanza remove_stanza
set_servers nix key [] text w = remove_stanza nix key w
set_servers nix key (s ∷ ss) text w = set_stanza nix key (text (s ∷ ss)) w

unfoldable pub set_dns : Nix → List Str → Writer → Result
unfolding unless first_bad_server set_servers dns_text str
set_dns nix servers =
    unless (first_bad_server servers) (set_servers nix (str "dns") servers (dns_text nix.quote))

unfoldable pub set_hostname : Nix → Str → Writer → Result
unfolding unless refuse_when validate_hostname set_stanza hostname_text str
set_hostname nix name =
    unless (refuse_when (not (validate_hostname name)) (invalid_hostname name))
      (set_stanza nix (str "hostname") (hostname_text nix.quote name))

unfoldable pub set_ntp : Nix → List Str → Writer → Result
unfolding set_servers ntp_text str
set_ntp nix servers = set_servers nix (str "ntp") servers (ntp_text nix.quote)

unfoldable pub set_firewall_ports : Nix → List ℤ → List ℤ → Writer → Result
unfolding set_stanza firewall_text str
set_firewall_ports nix tcp udp = set_stanza nix (str "firewall") (firewall_text tcp udp)

unfoldable pub set_timezone : Nix → Str → Writer → Result
unfolding unless refuse_when contains_any byte_length set_stanza timezone_text str
set_timezone nix tz =
    unless
      (refuse_when (contains_any (str ";|&$`\\'\"") tz || ltb 64 (byte_length tz))
        (invalid_timezone tz))
      (set_stanza nix (str "timezone") (timezone_text nix.quote tz))

unfoldable pub set_samba_globals : Nix → SambaGlobalOpts → Writer → Result
unfolding set_stanza samba_text str
set_samba_globals nix opts = set_stanza nix (str "samba-globals") (samba_text nix.quote opts)

-- The file is only looked for.
unfoldable pub load_from_disk : Bool → Writer → Result
load_from_disk stat_fails w = (if w.nix_os && stat_fails then some stat_failed else none, w)
