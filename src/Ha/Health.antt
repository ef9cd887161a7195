-- ===== src/Ha/Health.antt =====
-- The health that a node believes its peers to have, over every sequence of events.
use mathlib.Core.Path.{subst}
use d_plane_os.Prelude.{
  ℕ, ◌≤◌, ◌≡◌, ◌≢◌, refl, Str, str_eq, Bool, All, Option, some, none, List, [], ◌∷◌, arith,
  Bool-cases, inl, inr, if◌then◌else◌, pick, ◌||◌, str,
}
use d_plane_os.Ha.{
  healthy, degraded, unreachable, unknown, ClusterNode, Manager, PeerError, new_manager,
  HeartbeatPayload, find_node, put_node, drop_node, persist_node, register_peer, remove_peer,
  missed, answered, with_node, ping_found, ping_peer, known_or_new, beaten, handle_heartbeat,
  set_role_found, set_peer_role, load_rows, load_persisted_nodes,
}

-- What an event is: a call of the API, a ping with its answer, an inbound heartbeat.
pub data Event : Type 0 where
  registered : ℕ → Bool → ClusterNode → Event
  removed : Bool → Str → Event
  pinged : ℕ → Bool → Bool → Str → Event
  heard : ℕ → Bool → HeartbeatPayload → Event
  promoted : Bool → Str → Str → Event
  loaded : Bool → Event

abbrev pub step : Event → Manager → Manager
step (registered now saved peer) m = (register_peer now saved peer m).0
step (removed saved id) m = (remove_peer saved id m).0
step (pinged now saved up id) m = ping_peer now saved up id m
step (heard now saved hb) m = handle_heartbeat now saved hb m
step (promoted saved id role) m = (set_peer_role saved id role m).0
step (loaded queried) m = load_persisted_nodes queried m

unfoldable pub run : List Event → Manager → Manager
run [] m = m
run (e ∷ es) m = run es (step e m)

-- The state of a peer agrees with its missed heartbeats.
pub record IsConsistent (n : ClusterNode) : Type 0 where
  pub fresh : n.state ≡ healthy → n.missed_beats ≤ 1
  pub gone : n.state ≡ unreachable → 2 ≤ n.missed_beats
  pub never : n.state ≢ degraded

abbrev pub AllConsistent : Manager → Type 0
AllConsistent m = All IsConsistent m.nodes

put_node-All :
    (n : ClusterNode) (ns : List ClusterNode)
    → IsConsistent n
    → All IsConsistent ns
    → All IsConsistent (put_node n ns)
unfolding put_node
put_node-All n [] h k = (h, tt)
put_node-All n (m ∷ ms) h k = elim (Bool-cases (str_eq m.id n.id)) [
  | inl e ↦ rw (e, if◌then◌else◌) (h, k.1)
  | inr e ↦ rw (e, if◌then◌else◌) (k.0, put_node-All n ms h k.1)
]

drop_node-All :
    (id : Str) (ns : List ClusterNode) → All IsConsistent ns → All IsConsistent (drop_node id ns)
unfolding drop_node
drop_node-All id [] k = tt
drop_node-All id (n ∷ ns) k = elim (Bool-cases (str_eq n.id id)) [
  | inl e ↦ rw (e, if◌then◌else◌) (drop_node-All id ns k.1)
  | inr e ↦ rw (e, if◌then◌else◌) (k.0, drop_node-All id ns k.1)
]

find_node-All :
    (id : Str) (ns : List ClusterNode) (n : ClusterNode)
    → All IsConsistent ns
    → find_node id ns ≡ some n
    → IsConsistent n
unfolding find_node
find_node-All id [] n k h = cc
find_node-All id (m ∷ ms) n k h = elim (Bool-cases (str_eq m.id id)) [
  | inl e ↦
      let found : some m ≡ some n = rw (e, if◌then◌else◌) at h in
      let same : m ≡ n = cc found in subst (λ x. IsConsistent x) same k.0
  | inr e ↦ find_node-All id ms n k.1 (rw (e, if◌then◌else◌) at h)
]

pub nodes-persist_node :
    (saved : Bool) (n : ClusterNode) (m : Manager) → (persist_node saved n m).nodes ≡ m.nodes
unfolding persist_node
nodes-persist_node saved n m = ground arith

with_node-AllConsistent :
    (saved : Bool) (n : ClusterNode) (m : Manager)
    → IsConsistent n
    → AllConsistent m
    → AllConsistent (with_node saved n m)
unfolding with_node
with_node-AllConsistent saved n m h k = rw nodes-persist_node (put_node-All n m.nodes h k)

missed-IsConsistent : (n : ClusterNode) → IsConsistent n → IsConsistent (missed n)
unfolding missed
missed-IsConsistent n h = ground arith

answered-IsConsistent : (now : ℕ) (n : ClusterNode) → IsConsistent (answered now n)
unfolding answered
answered-IsConsistent now n = ground arith

load_rows-All :
    (rs ns : List ClusterNode) → All IsConsistent ns → All IsConsistent (load_rows rs ns)
unfolding load_rows
load_rows-All [] ns h = h
load_rows-All (r ∷ rs) ns h = load_rows-All rs _ (put_node-All _ ns (ground arith) h)

ping_found-AllConsistent :
    (now : ℕ) (saved up : Bool) (o : Option ClusterNode) (m : Manager)
    → ((n : ClusterNode) → o ≡ some n → IsConsistent n)
    → AllConsistent m
    → AllConsistent (ping_found now saved up o m)
unfolding ping_found
ping_found-AllConsistent now saved up none m f h = h
ping_found-AllConsistent now saved up (some n) m f h =
    with_node-AllConsistent saved _ m
      (pick IsConsistent up _ _ (answered-IsConsistent now n) (missed-IsConsistent n (f n refl))) h

set_role_found-AllConsistent :
    (saved : Bool) (id role : Str) (o : Option ClusterNode) (m : Manager)
    → ((n : ClusterNode) → o ≡ some n → IsConsistent n)
    → AllConsistent m
    → AllConsistent (set_role_found saved id role o m).0
unfolding set_role_found
set_role_found-AllConsistent saved id role none m f h = h
set_role_found-AllConsistent saved id role (some n) m f h =
    let c = f n refl in
    with_node-AllConsistent saved (record n { role = role }) m
      (record { fresh = c.fresh; gone = c.gone; never = c.never }) h

beaten-IsConsistent :
    (now : ℕ) (hb : HeartbeatPayload) (n : ClusterNode) → IsConsistent (beaten now hb n)
unfolding beaten
beaten-IsConsistent now hb n = ground arith

register_peer-AllConsistent :
    (now : ℕ) (saved : Bool) (peer : ClusterNode) (m : Manager)
    → AllConsistent m
    → AllConsistent (register_peer now saved peer m).0
unfolding register_peer
register_peer-AllConsistent now saved peer m h =
    let n = record peer { registered_at = now; state = unknown } in
    let stored : AllConsistent (persist_node saved n (record m { nodes = put_node n m.nodes })) =
      rw nodes-persist_node (put_node-All n m.nodes (ground arith) h) in
    elim (Bool-cases (str_eq peer.id (str "") || str_eq peer.address (str ""))) [
      | inl e ↦ rw (e, if◌then◌else◌) h
      | inr e ↦ elim (Bool-cases (str_eq peer.id m.local_id)) [
        | inl e' ↦ rw (e, e', if◌then◌else◌) h
        | inr e' ↦ rw (e, e', if◌then◌else◌) stored
      ]
    ]

step-AllConsistent : (e : Event) (m : Manager) → AllConsistent m → AllConsistent (step e m)
unfolding remove_peer ping_peer handle_heartbeat set_peer_role load_persisted_nodes
step-AllConsistent (registered now saved peer) m h = register_peer-AllConsistent now saved peer m h
step-AllConsistent (removed saved id) m h =
    let P = λ (r : Manager × Option PeerError). AllConsistent r.0 in
    pick P saved _ _ (drop_node-All id m.nodes h) (drop_node-All id m.nodes h)
step-AllConsistent (pinged now saved up id) m h =
    ping_found-AllConsistent now saved up (find_node id m.nodes) m
      (λ n. find_node-All id m.nodes n h) h
step-AllConsistent (heard now saved hb) m h =
    let n = known_or_new now hb (find_node hb.node_id m.nodes) in
    with_node-AllConsistent saved (beaten now hb n) m (beaten-IsConsistent now hb n) h
step-AllConsistent (promoted saved id role) m h =
    set_role_found-AllConsistent saved id role (find_node id m.nodes) m
      (λ n. find_node-All id m.nodes n h) h
step-AllConsistent (loaded queried) m h =
    pick AllConsistent queried _ _ (load_rows-All m.table m.nodes h) h

run-AllConsistent : (es : List Event) (m : Manager) → AllConsistent m → AllConsistent (run es m)
unfolding run
run-AllConsistent [] m h = h
run-AllConsistent (e ∷ es) m h = run-AllConsistent es (step e m) (step-AllConsistent e m h)

-- After any events from a new manager, whatever its table holds, a peer that counts as healthy has
-- missed at most one heartbeat in a row, one that counts as unreachable has missed at least two, and
-- none is ever degraded.
pub run-new_manager :
    (es : List Event) (id addr version : Str) (table : List ClusterNode)
    → All IsConsistent (run es (new_manager id addr version table)).nodes
unfolding new_manager
run-new_manager es id addr version table =
    run-AllConsistent es (new_manager id addr version table) tt
