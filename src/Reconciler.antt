-- ===== src/Reconciler.antt =====
-- daemon/internal/reconciler/reconciler.go: the reconciliation of the kernel's network with the tables
-- after a reboot. The calls of the package netlinkx are answered by a kernel that is a parameter; log
-- lines are left out, and the columns for times as well.
pub mod Warranted
mod Examples
use d_plane_os.Prelude.{
  ℕ, suc, ◌+◌, ℤ, Str, str, str_eq, member, split, join, Bool, true, false, not, ◌||◌, Option, some,
  none, List, [], ◌∷◌, ◌++◌, map, filter, if◌then◌else◌,
}

pub record BondState : Type 0 where
  pub id : ℕ
  pub name : Str
  pub slaves : List Str
  pub mode : Str

pub record VlanState : Type 0 where
  pub id : ℕ
  pub name : Str
  pub parent : Str
  pub vid : ℤ

pub record NetworkState : Type 0 where
  pub id : ℕ
  pub type : Str
  pub interface : Str
  pub cidr : Str
  pub gateway : Str

-- A row of network_bonds holds the slaves as one text.
pub record BondRow : Type 0 where
  pub id : ℕ
  pub name : Str
  pub slaves : Str
  pub mode : Str

pub record Tables : Type 0 where
  pub bonds : List BondRow
  pub vlans : List VlanState
  pub interfaces : List NetworkState
  pub next_id : ℕ

unfoldable pub load_bond : BondRow → BondState
unfolding str_eq
load_bond r = record {
  id = r.id;
  name = r.name;
  slaves = if str_eq r.slaves [] then [] else split b',' r.slaves;
  mode = r.mode;
}

-- ON CONFLICT(name) DO UPDATE
put_bond : BondRow → List BondRow → List BondRow
unfolding str_eq
put_bond b [] = b ∷ []
put_bond b (r ∷ rs) =
    let rest = put_bond b rs in
    if str_eq r.name b.name then record r { slaves = b.slaves; mode = b.mode } ∷ rs else r ∷ rest

unfoldable pub save_bond : Str → List Str → Str → Tables → Tables
unfolding put_bond join
save_bond name slaves mode t =
    let row : BondRow = record {
      id = t.next_id;
      name = name;
      slaves = join (b',' ∷ []) slaves;
      mode = mode;
    } in
    record t { bonds = put_bond row t.bonds; next_id = suc t.next_id }

unfoldable pub delete_bond : Str → Tables → Tables
unfolding str_eq
delete_bond name t = record t { bonds = filter (λ (r : BondRow). not (str_eq r.name name)) t.bonds }

put_vlan : VlanState → List VlanState → List VlanState
unfolding str_eq
put_vlan v [] = v ∷ []
put_vlan v (r ∷ rs) =
    let rest = put_vlan v rs in
    if str_eq r.name v.name then record r { parent = v.parent; vid = v.vid } ∷ rs else r ∷ rest

unfoldable pub save_vlan : Str → Str → ℤ → Tables → Tables
unfolding put_vlan
save_vlan name parent vid t =
    let row : VlanState = record { id = t.next_id; name = name; parent = parent; vid = vid } in
    record t { vlans = put_vlan row t.vlans; next_id = suc t.next_id }

unfoldable pub delete_vlan : Str → Tables → Tables
unfolding str_eq
delete_vlan name t = record t {
  vlans = filter (λ (r : VlanState). not (str_eq r.name name)) t.vlans;
}

put_interface : NetworkState → List NetworkState → List NetworkState
unfolding str_eq
put_interface n [] = n ∷ []
put_interface n (r ∷ rs) =
    let rest = put_interface n rs in
    if str_eq r.interface n.interface
    then record r { type = n.type; cidr = n.cidr; gateway = n.gateway } ∷ rs
    else r ∷ rest

unfoldable pub save_static_ip : Str → Str → Str → Tables → Tables
unfolding put_interface str
save_static_ip iface cidr gateway t =
    let row : NetworkState = record {
      id = t.next_id;
      type = str "static";
      interface = iface;
      cidr = cidr;
      gateway = gateway;
    } in
    record t { interfaces = put_interface row t.interfaces; next_id = suc t.next_id }

unfoldable pub save_dhcp : Str → Tables → Tables
unfolding put_interface str
save_dhcp iface t =
    let row : NetworkState = record {
      id = t.next_id;
      type = str "dhcp";
      interface = iface;
      cidr = [];
      gateway = [];
    } in
    record t { interfaces = put_interface row t.interfaces; next_id = suc t.next_id }

-- A call that changes the kernel.
pub data Call : Type 0 where
  link_add_bond : Str → Str → Call
  link_add_vlan : Str → Str → ℤ → Call
  link_set_down link_set_up : Str → Call
  link_set_master : Str → Str → Call
  addr_add : Str → Str → Call
  route_replace : Str → Str → Call

-- The names of the links at the start, `none` for an error; whether a call fails after those that were
-- made; the addresses of a link as texts, and the network of a CIDR as net.ParseCIDR prints it.
pub record Kernel : Type 0 where
  pub links : Option (List Str)
  pub fails : List Call → Call → Bool
  pub addr_list : List Call → Str → Option (List Str)
  pub parse_cidr : Str → Option Str

-- The calls so far, the latest first, and the count of what was restored.
pub record Progress : Type 0 where
  pub calls : List Call
  pub restored : ℕ

make : Kernel → Call → Progress → Bool × Progress
make k c p = (k.fails p.calls c, record p { calls = c ∷ p.calls })

-- A call whose error is dropped.
try_call : Kernel → Call → Progress → Progress
unfolding make
try_call k c p = (make k c p).1

restore_slaves : Kernel → Str → List Str → Progress → Progress
unfolding try_call
restore_slaves k bond [] p = p
restore_slaves k bond (s ∷ ss) p =
    restore_slaves k bond ss (try_call k (link_set_master s bond) (try_call k (link_set_down s) p))

-- Whether restoring failed.
after_bond : Kernel → BondState → Bool × Progress → Bool × Progress
unfolding restore_slaves make
after_bond k b (true, p) = (true, p)
after_bond k b (false, p) = make k (link_set_up b.name) (restore_slaves k b.name b.slaves p)

unfoldable pub restore_bond : Kernel → BondState → Progress → Bool × Progress
unfolding after_bond make
restore_bond k b p = after_bond k b (make k (link_add_bond b.name b.mode) p)

after_vlan : Kernel → VlanState → Bool × Progress → Bool × Progress
unfolding make
after_vlan k v (true, p) = (true, p)
after_vlan k v (false, p) = make k (link_set_up v.name) p

unfoldable pub restore_vlan : Kernel → VlanState → Progress → Bool × Progress
unfolding after_vlan make
restore_vlan k v p = after_vlan k v (make k (link_add_vlan v.name v.parent v.vid) p)

counted : Bool × Progress → Progress
counted (failed, p) = if failed then p else record p { restored = suc p.restored }

unfoldable pub restore_bonds : Kernel → List Str → List BondState → Progress → Progress
unfolding member counted restore_bond
restore_bonds k present [] p = p
restore_bonds k present (b ∷ bs) p =
    restore_bonds k present bs (if member b.name present then p else counted (restore_bond k b p))

unfoldable pub restore_vlans : Kernel → List Str → List VlanState → Progress → Progress
unfolding member counted restore_vlan
restore_vlans k present [] p = p
restore_vlans k present (v ∷ vs) p =
    restore_vlans k present vs (if member v.name present then p else counted (restore_vlan k v p))

-- The network of the CIDR is looked for among the texts of the addresses.
unfoldable pub has_address : Kernel → Progress → Str → Str → Bool
unfolding member
has_address k p link cidr = elim (k.addr_list p.calls link) [
  | none ↦ false
  | some addrs ↦ elim (k.parse_cidr cidr) [ none ↦ false | some want ↦ member want addrs ]
]

restore_route : Kernel → NetworkState → Progress → Progress
unfolding try_call str_eq
restore_route k n p =
    if str_eq n.gateway [] then p else try_call k (route_replace n.gateway n.interface) p

after_address : Kernel → NetworkState → Bool × Progress → Progress
unfolding restore_route counted
after_address k n (true, p) = p
after_address k n (false, p) = counted (false, restore_route k n p)

restore_address : Kernel → NetworkState → Progress → Progress
unfolding after_address make
restore_address k n p = after_address k n (make k (addr_add n.interface n.cidr) p)

-- `present` was read before the bonds and the VLANs were restored.
unfoldable pub restore_addresses : Kernel → List Str → List NetworkState → Progress → Progress
unfolding member has_address restore_address str str_eq
restore_addresses k present [] p = p
restore_addresses k present (n ∷ ns) p = restore_addresses k present ns (
    if not (str_eq n.type (str "static")) || str_eq n.cidr []
    then p
    else if not (member n.interface present)
    then p
    else if has_address k p n.interface n.cidr
    then p
    else restore_address k n p)

-- What a table gives: nothing to do where it cannot be read.
rows_of : {A : Type 0} → Bool → List A → List A
rows_of readable rows = if readable then rows else []

start : Progress
start = record { calls = []; restored = 0 }

run_with : Kernel → (Bool × Bool × Bool) → Tables → Option (List Str) → Progress
unfolding restore_bonds restore_vlans restore_addresses rows_of start load_bond
run_with k readable t none = start
run_with k (bonds, vlans, interfaces) t (some present) =
    restore_addresses k present (rows_of interfaces t.interfaces) (
      restore_vlans k present (rows_of vlans t.vlans)
        (restore_bonds k present (map load_bond (rows_of bonds t.bonds)) start))

-- `readable` says which of the three tables can be read.
unfoldable pub run : Kernel → (Bool × Bool × Bool) → Tables → Progress
unfolding run_with
run k readable t = run_with k readable t k.links
