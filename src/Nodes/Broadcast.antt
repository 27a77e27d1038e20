-- ===== src/Nodes/Broadcast.antt =====
-- daemon/src/RemoteNodeManager.ts, sendRequestToAllNodes: a request to every node that can be reached. A
-- call of all callbacks of a kind is one entry of `notices`; requests to the nodes are those of
-- Nodes/Requests, and what comes of them are events.
pub mod Finishing
use kachery_p2p.Base.{
  ℕ, zero, suc, ◌+◌, Bool, true, false, List, [], ◌∷◌, ◌++◌, String, if◌then◌else◌, ◌==◌, nat_eq,
}
use kachery_p2p.Json.{Value}
use kachery_p2p.Nodes.{RemoteNode}
use kachery_p2p.Nodes.Methods.{default}
use kachery_p2p.Nodes.Manager.{RemoteNodeManager, can_send_request_to_node}

pub data Notice : Type 0 where
  response : (node_id : String) → Value → Notice
  error_response : (node_id : String) → Notice
  all_finished : Notice

pub record Broadcast : Type 0 where
  pub finished : Bool
  pub num_complete : ℕ
  pub num_total : ℕ
  pub finalize_timers : ℕ
  pub notices : List Notice

unfoldable pub count_reachable : RemoteNodeManager → List (String × RemoteNode) → ℕ
count_reachable m [] = 0
count_reachable m ((id, n) ∷ ns) =
    let rest = count_reachable m ns in
    if can_send_request_to_node m n.remote_node_id default then suc rest else rest

unfoldable pub send_request_to_all_nodes : RemoteNodeManager → Broadcast
send_request_to_all_nodes m = record {
  finished = false;
  num_complete = 0;
  num_total = count_reachable m m.node.remote_nodes;
  finalize_timers = 0;
  notices = [];
}

-- `_finalize`
unfoldable pub finalize : Broadcast → Broadcast
finalize b =
    if b.finished then b else record b { finished = true; notices = b.notices ++ all_finished ∷ [] }

-- `numComplete ++` and `_checkComplete`
unfoldable pub complete_one : Broadcast → Broadcast
complete_one b =
    let n = b.num_complete + 1 in
    record b {
      num_complete = n;
      finalize_timers = if n == b.num_total then suc b.finalize_timers else b.finalize_timers;
    }

-- A request to a node is answered, or fails.
unfoldable pub on_response : (node_id : String) → Value → Broadcast → Broadcast
on_response id x b =
    if b.finished then b else complete_one (record b { notices = b.notices ++ response id x ∷ [] })

unfoldable pub on_error : (node_id : String) → Broadcast → Broadcast
on_error id b = complete_one (record b { notices = b.notices ++ error_response id ∷ [] })

-- A timer of `_checkComplete`, if there is one.
unfoldable pub fire_finalize_timer : Broadcast → Broadcast
fire_finalize_timer b = elim b.finalize_timers [
  | zero ↦ b
  | suc n ↦ finalize (record b { finalize_timers = n })
]
