-- ===== src/Ha/View.antt =====
-- The view of the cluster that Status gives: the role, the active node and the quorum.
use d_plane_os.Prelude.{
  ℕ, ◌+◌, ◌*◌, ◌/◌, ◌<◌, ◌≡◌, ◌↔◌, refl, ltb, str, str_eq, str_eq_iff, sym, ◌≢◌, true, false, All,
  In, Option, some, none, List, [], ◌∷◌, arith, Bool-cases, inl, inr, if◌then◌else◌, length,
}
use d_plane_os.Ha.{
  ClusterNode, ClusterStatus, Manager, role_active, role_standby, is_active, active_peer,
  reachable_peers, status_with, status,
}

-- The active peer, when there is one, and why there is none.
abbrev IsActivePeer : List ClusterNode → Option ClusterNode → Type 0
IsActivePeer ns (some a) = In a ns × (is_active a ≡ true)
IsActivePeer ns none = All (λ n. is_active n ≡ false) ns

IsActivePeer-cons :
    (n : ClusterNode) (ns : List ClusterNode) (o : Option ClusterNode)
    → IsActivePeer ns o
    → IsActivePeer
        (n ∷ ns)
        (elim o [ some a ↦ some a | none ↦ if is_active n then some n else none ])
IsActivePeer-cons n ns (some a) h = (inr h.0, h.1)
IsActivePeer-cons n ns none h = elim (Bool-cases (is_active n)) [
  | inl e ↦ rw (e, if◌then◌else◌) (inl refl, e)
  | inr e ↦ rw (e, if◌then◌else◌) (e, h)
]

active_peer-IsActivePeer : (ns : List ClusterNode) → IsActivePeer ns (active_peer ns)
unfolding active_peer
active_peer-IsActivePeer [] = tt
active_peer-IsActivePeer (n ∷ ns) =
    IsActivePeer-cons n ns (active_peer ns) (active_peer-IsActivePeer ns)

-- Half of all nodes rounded down is less than a count when twice the count is more than all of them.
majority_iff : (total count : ℕ) → (ltb (total / 2) count ≡ true) ↔ (total < 2 * count)
majority_iff total count = ground arith

-- What an answer of Status means for the peers that it was computed from.
pub record IsView (m : Manager) (ns : List ClusterNode) (s : ClusterStatus) : Type 0 where
  pub standby :
      s.local_node.role ≡ role_standby → In s.active_node ns × (is_active s.active_node ≡ true)
  pub active :
      s.local_node.role ≡ role_active
      → (s.active_node ≡ s.local_node) × All (λ n. is_active n ≡ false) ns
  pub majority : (s.quorum ≡ true) ↔ (length m.nodes + 1 < 2 * (reachable_peers m.nodes + 1))

roles_apart : str_eq role_active role_standby ≡ false
unfolding str_eq str role_active role_standby
roles_apart = refl

roles_differ : role_active ≢ role_standby
roles_differ h = ground (arith, roles_apart, str_eq_iff role_active role_standby, h)

status_with-IsView :
    (now : ℕ) (o : Option ClusterNode) (ns : List ClusterNode) (m : Manager)
    → IsActivePeer ns o
    → IsView m ns (status_with now o ns m)
unfolding status_with
status_with-IsView now none ns m h = record {
  standby = λ e. absurd (roles_differ e);
  active = λ e. (refl, h);
  majority = majority_iff (length m.nodes + 1) (reachable_peers m.nodes + 1);
}
status_with-IsView now (some a) ns m h = record {
  standby = λ e. h;
  active = λ e. absurd (roles_differ (sym e));
  majority = majority_iff (length m.nodes + 1) (reachable_peers m.nodes + 1);
}

-- In the view that Status gives, in whatever order the map is ranged over: if the node is on standby,
-- the active node is a peer with the active role that is not unreachable; if it is active, the active
-- node is the node itself and no such peer is listed; and there is a quorum exactly if twice the
-- number of the nodes that count as reachable, this one included, is more than the number of nodes.
pub status-IsView :
    (order : List ClusterNode → List ClusterNode) (now : ℕ) (m : Manager)
    → IsView m (order m.nodes) (status order now m)
unfolding status
status-IsView order now m =
    status_with-IsView now (active_peer (order m.nodes)) (order m.nodes) m
      (active_peer-IsActivePeer (order m.nodes))
