-- ===== src/Ha/Heartbeat.antt =====
-- What an inbound heartbeat does to the node it names and to the others.
use mathlib.Core.Path.{subst}
use d_plane_os.Prelude.{
  ℕ, ◌≡◌, ◌≢◌, ◌∙◌, sym, refl, Str, str_eq, str_eq_self, str_eq_iff, Bool, false, Option, some,
  none, List, [], ◌∷◌, arith, Bool-cases, inl, inr, if◌then◌else◌,
}
use d_plane_os.Ha.{
  healthy, ClusterNode, Manager, HeartbeatPayload, find_node, put_node, with_node, get_peer,
  known_or_new, beaten, handle_heartbeat,
}
use d_plane_os.Ha.Health.{nodes-persist_node}

find_node-id :
    (id : Str) (ns : List ClusterNode) (n : ClusterNode) → find_node id ns ≡ some n → n.id ≡ id
unfolding find_node
find_node-id id [] n h = cc
find_node-id id (m ∷ ms) n h = elim (Bool-cases (str_eq m.id id)) [
  | inl e ↦
      let found : some m ≡ some n = rw (e, if◌then◌else◌) at h in
      let same : m ≡ n = cc found in
      subst (λ (x : ClusterNode). x.id ≡ id) same ((str_eq_iff m.id id).0 e)
  | inr e ↦ find_node-id id ms n (rw (e, if◌then◌else◌) at h)
]

find_node-put_node :
    (n : ClusterNode) (ns : List ClusterNode) → find_node n.id (put_node n ns) ≡ some n
unfolding find_node put_node
find_node-put_node n [] = rw (str_eq_self n.id, if◌then◌else◌) refl
find_node-put_node n (m ∷ ms) = elim (Bool-cases (str_eq m.id n.id)) [
  | inl e ↦ rw (e, if◌then◌else◌, str_eq_self n.id, if◌then◌else◌) refl
  | inr e ↦ rw (e, if◌then◌else◌, e, if◌then◌else◌) (find_node-put_node n ms)
]

find_node-put_node_under :
    (id : Str) (n : ClusterNode) (ns : List ClusterNode)
    → n.id ≡ id
    → find_node id (put_node n ns) ≡ some n
find_node-put_node_under id n ns h =
    subst (λ (x : Str). find_node x (put_node n ns) ≡ some n) h (find_node-put_node n ns)

str_eq-ne : (a b : Str) → a ≢ b → str_eq a b ≡ false
str_eq-ne a b h = ground (arith, str_eq_iff a b)

find_node-put_node_other :
    (id : Str) (n : ClusterNode) (ns : List ClusterNode)
    → n.id ≢ id
    → find_node id (put_node n ns) ≡ find_node id ns
unfolding find_node put_node
find_node-put_node_other id n [] h = rw (str_eq-ne n.id id h, if◌then◌else◌) refl
find_node-put_node_other id n (m ∷ ms) h = elim (Bool-cases (str_eq m.id n.id)) [
  | inl e ↦
      let same : m.id ≡ n.id = (str_eq_iff m.id n.id).0 e in
      rw
        (
          e,
          if◌then◌else◌,
          str_eq-ne n.id id h,
          if◌then◌else◌,
          same,
          str_eq-ne n.id id h,
          if◌then◌else◌,
        )
        refl
  | inr e ↦ rw (e, if◌then◌else◌) (ground (arith, find_node-put_node_other id n ms h))
]

-- The node under the id is up, as the payload describes it.
pub record IsHeard (now : ℕ) (hb : HeartbeatPayload) (n : ClusterNode) : Type 0 where
  pub id : n.id ≡ hb.node_id
  pub address : n.address ≡ hb.address
  pub role : n.role ≡ hb.role
  pub version : n.version ≡ hb.version
  pub state : n.state ≡ healthy
  pub seen : n.last_seen ≡ now
  pub missed_beats : n.missed_beats ≡ 0

id-known_or_new :
    (now : ℕ) (hb : HeartbeatPayload) (o : Option ClusterNode)
    → ((n : ClusterNode) → o ≡ some n → n.id ≡ hb.node_id)
    → (known_or_new now hb o).id ≡ hb.node_id
unfolding known_or_new
id-known_or_new now hb none h = refl
id-known_or_new now hb (some n) h = h n refl

beaten-IsHeard :
    (now : ℕ) (hb : HeartbeatPayload) (n : ClusterNode)
    → n.id ≡ hb.node_id
    → IsHeard now hb (beaten now hb n)
unfolding beaten
beaten-IsHeard now hb n h = record {
  id = h;
  address = refl;
  role = refl;
  version = refl;
  state = refl;
  seen = refl;
  missed_beats = refl;
}

nodes-with_node :
    (saved : Bool) (n : ClusterNode) (m : Manager)
    → (with_node saved n m).nodes ≡ put_node n m.nodes
unfolding with_node
nodes-with_node saved n m = nodes-persist_node saved n _

-- After a heartbeat, whoever sent it (also one that names the node itself), and whether or not the
-- table could be written, the id that it names is a healthy peer with the address, the role and the
-- version of the payload, seen now, with no missed beat, and every other peer is as before.
pub handle_heartbeat-get_peer :
    (now : ℕ) (saved : Bool) (hb : HeartbeatPayload) (m : Manager)
    → ((n : ClusterNode) × (get_peer hb.node_id (handle_heartbeat now saved hb m) ≡ some n)
        × IsHeard now hb n)
      × ((id : Str)
          → id ≢ hb.node_id
          → get_peer id (handle_heartbeat now saved hb m) ≡ get_peer id m)
unfolding get_peer handle_heartbeat
handle_heartbeat-get_peer now saved hb m =
    let old = known_or_new now hb (find_node hb.node_id m.nodes) in
    let n = beaten now hb old in
    let heard : IsHeard now hb n =
      beaten-IsHeard now hb old
        (id-known_or_new now hb (find_node hb.node_id m.nodes) (find_node-id hb.node_id m.nodes)) in
    let nodes = nodes-with_node saved n m in
    (
      (n, rw nodes (find_node-put_node_under hb.node_id n m.nodes heard.id), heard),
      λ id h. rw nodes (find_node-put_node_other id n m.nodes (λ e. h (sym e ∙ heard.id))),
    )
