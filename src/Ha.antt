-- ===== src/Ha.antt =====
-- daemon/internal/ha/cluster.go: the peers of a node, their health, and the view of the cluster. The
-- map of nodes is a list with one entry for an id; the table ha_nodes is its rows. The clock, the
-- order in which a map is ranged over and whether a statement on the table succeeds are arguments.
-- A statement that the source starts in a goroutine of its own is made at once.
pub mod Health
pub mod View
pub mod Heartbeat
mod Examples
use d_plane_os.Prelude.{
  ℕ, suc, ◌+◌, ◌/◌, ltb, leb, Str, str, str_eq, Bool, true, false, not, ◌&&◌, ◌||◌, Option, some,
  none, List, [], ◌∷◌, ◌++◌, length, if◌then◌else◌,
}

unfoldable pub role_active : Str
role_active = str "active"

unfoldable pub role_standby : Str
role_standby = str "standby"

pub data NodeState : Type 0 where
  healthy degraded unreachable unknown : NodeState

pub record ClusterNode : Type 0 where
  pub id : Str
  pub name : Str
  pub address : Str
  pub role : Str
  pub state : NodeState
  pub last_seen : ℕ
  pub missed_beats : ℕ
  pub version : Str
  pub registered_at : ℕ

pub record ClusterStatus : Type 0 where
  pub local_node : ClusterNode
  pub peers : List ClusterNode
  pub quorum : Bool
  pub active_node : ClusterNode

pub record Manager : Type 0 where
  pub local_id : Str
  pub local_addr : Str
  pub version : Str
  pub nodes : List ClusterNode
  pub table : List ClusterNode

unfoldable pub new_manager : Str → Str → Str → List ClusterNode → Manager
new_manager id addr version table = record {
  local_id = id;
  local_addr = addr;
  version = version;
  nodes = [];
  table = table;
}

-- m.nodes[id]
unfoldable pub find_node : Str → List ClusterNode → Option ClusterNode
unfolding str_eq
find_node id [] = none
find_node id (n ∷ ns) = if str_eq n.id id then some n else find_node id ns

-- m.nodes[n.ID] = n
unfoldable pub put_node : ClusterNode → List ClusterNode → List ClusterNode
unfolding str_eq
put_node n [] = n ∷ []
put_node n (m ∷ ms) = if str_eq m.id n.id then n ∷ ms else m ∷ put_node n ms

-- delete(m.nodes, id), and DELETE … WHERE node_id = ?
unfoldable pub drop_node : Str → List ClusterNode → List ClusterNode
unfolding str_eq
drop_node id [] = []
drop_node id (n ∷ ns) = let rest = drop_node id ns in if str_eq n.id id then rest else n ∷ rest

-- The row that ON CONFLICT(node_id) updates keeps its time of registration.
upsert_row : ClusterNode → List ClusterNode → List ClusterNode
unfolding str_eq
upsert_row n [] = n ∷ []
upsert_row n (m ∷ ms) =
    if str_eq m.id n.id
    then record n { registered_at = m.registered_at } ∷ ms
    else m ∷ upsert_row n ms

unfoldable pub persist_node : Bool → ClusterNode → Manager → Manager
unfolding upsert_row
persist_node saved n m = if saved then record m { table = upsert_row n m.table } else m

pub data PeerError : Type 0 where
  id_and_address_required cannot_register_self database_error : PeerError
  not_found : Str → PeerError

abbrev saved_error : Bool → Option PeerError
saved_error true = none
saved_error false = some database_error

unfoldable pub register_peer : ℕ → Bool → ClusterNode → Manager → Manager × Option PeerError
register_peer now saved peer m =
    let n = record peer { registered_at = now; state = unknown } in
    if str_eq peer.id (str "") || str_eq peer.address (str "")
    then (m, some id_and_address_required)
    else if str_eq peer.id m.local_id
    then (m, some cannot_register_self)
    else (persist_node saved n (record m { nodes = put_node n m.nodes }), saved_error saved)

unfoldable pub remove_peer : Bool → Str → Manager → Manager × Option PeerError
remove_peer saved id m =
    let m' = record m { nodes = drop_node id m.nodes } in
    if saved then (record m' { table = drop_node id m.table }, none) else (m', some database_error)

unfoldable pub is_reachable : ClusterNode → Bool
is_reachable n = elim n.state [ unreachable ↦ false | _ ↦ true ]

unfoldable pub is_active : ClusterNode → Bool
unfolding is_reachable
is_active n = str_eq n.role role_active && is_reachable n

-- The last active peer that the loop meets.
unfoldable pub active_peer : List ClusterNode → Option ClusterNode
unfolding is_active
active_peer [] = none
active_peer (n ∷ ns) = elim (active_peer ns) [
  | some a ↦ some a
  | none ↦ if is_active n then some n else none
]

unfoldable pub reachable_peers : List ClusterNode → ℕ
unfolding is_reachable
reachable_peers [] = 0
reachable_peers (n ∷ ns) =
    let rest = reachable_peers ns in if is_reachable n then suc rest else rest

local_node : ℕ → Str → Manager → ClusterNode
local_node now role m = record {
  id = m.local_id;
  name = m.local_id;
  address = m.local_addr;
  role = role;
  state = healthy;
  last_seen = now;
  missed_beats = 0;
  version = m.version;
  registered_at = 0;
}

status_with : ℕ → Option ClusterNode → List ClusterNode → Manager → ClusterStatus
unfolding local_node
status_with now none peers m = record {
  local_node = local_node now role_active m;
  peers = peers;
  quorum = ltb ((length m.nodes + 1) / 2) (reachable_peers m.nodes + 1);
  active_node = local_node now role_active m;
}
status_with now (some a) peers m = record {
  local_node = local_node now role_standby m;
  peers = peers;
  quorum = ltb ((length m.nodes + 1) / 2) (reachable_peers m.nodes + 1);
  active_node = a;
}

unfoldable pub status : (List ClusterNode → List ClusterNode) → ℕ → Manager → ClusterStatus
unfolding status_with
status order now m = status_with now (active_peer (order m.nodes)) (order m.nodes) m

unfoldable pub get_peer : Str → Manager → Option ClusterNode
get_peer id m = find_node id m.nodes

-- A health request that failed, and one that was answered with 200.
unfoldable pub missed : ClusterNode → ClusterNode
missed n =
    let n' = record n { missed_beats = n.missed_beats + 1 } in
    if leb 2 n'.missed_beats then record n' { state = unreachable } else n'

unfoldable pub answered : ℕ → ClusterNode → ClusterNode
answered now n = record n { state = healthy; last_seen = now; missed_beats = 0 }

with_node : Bool → ClusterNode → Manager → Manager
with_node saved n m = persist_node saved n (record m { nodes = put_node n m.nodes })

ping_found : ℕ → Bool → Bool → Option ClusterNode → Manager → Manager
unfolding with_node missed answered
ping_found now saved up none m = m
ping_found now saved up (some n) m = with_node saved (if up then answered now n else missed n) m

-- pingPeer from the answer of the request on; `up` is a 200.
unfoldable pub ping_peer : ℕ → Bool → Bool → Str → Manager → Manager
unfolding ping_found
ping_peer now saved up id m = ping_found now saved up (find_node id m.nodes) m

pub record HeartbeatPayload : Type 0 where
  pub node_id : Str
  pub address : Str
  pub role : Str
  pub version : Str

-- The node that a heartbeat updates: a new one on the first.
known_or_new : ℕ → HeartbeatPayload → Option ClusterNode → ClusterNode
known_or_new now hb (some n) = n
known_or_new now hb none = record {
  id = hb.node_id;
  name = hb.node_id;
  address = hb.address;
  role = [];
  state = unknown;
  last_seen = 0;
  missed_beats = 0;
  version = [];
  registered_at = now;
}

beaten : ℕ → HeartbeatPayload → ClusterNode → ClusterNode
beaten now hb n = record n {
  address = hb.address;
  role = hb.role;
  version = hb.version;
  state = healthy;
  last_seen = now;
  missed_beats = 0;
}

unfoldable pub handle_heartbeat : ℕ → Bool → HeartbeatPayload → Manager → Manager
unfolding known_or_new beaten with_node
handle_heartbeat now saved hb m =
    with_node saved (beaten now hb (known_or_new now hb (find_node hb.node_id m.nodes))) m

set_role_found : Bool → Str → Str → Option ClusterNode → Manager → Manager × Option PeerError
unfolding with_node
set_role_found saved id role none m = (m, some (not_found id))
set_role_found saved id role (some n) m =
    (with_node saved (record n { role = role }) m, saved_error saved)

unfoldable pub set_peer_role : Bool → Str → Str → Manager → Manager × Option PeerError
unfolding set_role_found
set_peer_role saved id role m = set_role_found saved id role (find_node id m.nodes) m

load_rows : List ClusterNode → List ClusterNode → List ClusterNode
unfolding put_node
load_rows [] ns = ns
load_rows (r ∷ rs) ns = load_rows rs (put_node (record r { state = unknown }) ns)

-- A failed query leaves the nodes as they are.
unfoldable pub load_persisted_nodes : Bool → Manager → Manager
unfolding load_rows
load_persisted_nodes queried m =
    if queried then record m { nodes = load_rows m.table m.nodes } else m
