-- ===== src/Ha/Examples.antt =====
-- A cluster of three nodes as one of them sees it.
use d_plane_os.Prelude.{◌≡◌, ◌≢◌, Str, str, true, false, All, some, List, [], ◌∷◌}
use d_plane_os.Ha.{
  ClusterNode, Manager, HeartbeatPayload, new_manager, role_active, get_peer, handle_heartbeat,
  status,
}
use d_plane_os.Ha.Health.{Event, heard, pinged, loaded, IsConsistent, run, run-new_manager}
use d_plane_os.Ha.View.{IsView, status-IsView}
use d_plane_os.Ha.Heartbeat.{IsHeard, handle_heartbeat-get_peer}

abbrev beat : HeartbeatPayload
beat = record { node_id = str "b"; address = str "http://b"; role = role_active; version = str "1" }

abbrev events : List Event
events =
    heard 1 true beat
    ∷ pinged 2 true false (str "b")
    ∷ pinged 3 false false (str "b")
    ∷ loaded true
    ∷ []

abbrev alone : Manager
alone = new_manager (str "a") (str "http://a") (str "1") []

run-new_manager_example : All IsConsistent (run events alone).nodes
run-new_manager_example = run-new_manager events (str "a") (str "http://a") (str "1") []

abbrev joined : Manager
joined = run (heard 1 true beat ∷ []) alone

abbrev in_turn : List ClusterNode → List ClusterNode
in_turn ns = ns

status-IsView_example : IsView joined joined.nodes (status in_turn 9 joined)
status-IsView_example = status-IsView in_turn 9 joined

handle_heartbeat-get_peer_example :
    ((n : ClusterNode) × (get_peer beat.node_id (handle_heartbeat 4 false beat joined) ≡ some n)
      × IsHeard 4 beat n)
    × ((id : Str)
        → id ≢ beat.node_id
        → get_peer id (handle_heartbeat 4 false beat joined) ≡ get_peer id joined)
handle_heartbeat-get_peer_example = handle_heartbeat-get_peer 4 false beat joined
