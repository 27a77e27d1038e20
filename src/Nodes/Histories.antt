-- ===== src/Nodes/Histories.antt =====
-- RemoteNodeManager over every history of calls.
use kachery_p2p.Base.{
  ℕ, sym, ◌∙◌, subst, inl, inr, Bool, List, [], ◌∷◌, Option, String, All, string_eq, nat_eq,
  Bool-cases, Option-cases,
}
use kachery_p2p.Base.Maps
use kachery_p2p.Base.Maps.{All-set, All-delete, All-get}
use kachery_p2p.Udp.{Address}
use kachery_p2p.Json.{Value}
use kachery_p2p.Json.Dispatch.{Request, ResponseBody}
use kachery_p2p.Nodes.{ChannelNodeInfo}
use kachery_p2p.Nodes.Methods.{SendRequestMethod}
use kachery_p2p.Nodes.Manager.{
  RemoteNodeManager, handle_announce_request, set_bootstrap_node, prune_remote_nodes,
  can_send_request_to_node,
}
use kachery_p2p.Nodes.Requests.{Route, Reply, send_request, send_request_to_node}
use kachery_p2p.Nodes.Sending.{send_request-Keeps}
use kachery_p2p.Nodes.Known.{
  IsGenuine, IsKnown, AllKnown, prune_nodes-AllKnown, put_remote_node-AllKnown, announce-AllKnown,
  bootstrap-AllKnown,
}

pub data Op : Type 0 where
  announces : (now : ℕ) → ChannelNodeInfo → (local_udp_address : Option Address) → Op
  sets_bootstrap :
      (remote_node_id : String) (address : Address)
      (web_socket_address udp_socket_address : Option Address)
      → Op
  prunes : (now : ℕ) → Op
  sends :
      (transport : Route → Request → Option Reply) (now timeout_msec : ℕ)
      (request_id node_id : String)
      → SendRequestMethod
      → Value
      → Op

module _ (stringified_length : Request → ℕ) (sign : Request → String)
    (verify_response : ResponseBody → (signature node_id : String) → Bool)
    (verify : ChannelNodeInfo → Bool) where
  unfoldable pub step : RemoteNodeManager → Op → RemoteNodeManager
  step m (announces now info local) = (handle_announce_request verify now m info local).0
  step m (sets_bootstrap id address ws us) = set_bootstrap_node m id address ws us
  step m (prunes now) = prune_remote_nodes now m
  step m (sends transport now timeout request_id id asked x) =
      (send_request_to_node stringified_length sign verify_response transport now timeout request_id
        m id asked x).0

  unfoldable pub run : RemoteNodeManager → List Op → RemoteNodeManager
  run m [] = m
  run m (op ∷ ops) = run (step m op) ops

  sends-AllKnown :
      (transport : Route → Request → Option Reply) (now timeout : ℕ) (request_id : String)
      (m : RemoteNodeManager) (id : String) (asked : SendRequestMethod) (x : Value)
      → AllKnown verify m.node
      → AllKnown verify
          (send_request_to_node stringified_length sign verify_response transport now timeout
            request_id m id asked x).0.node
  unfolding send_request_to_node
  sends-AllKnown transport now timeout request_id m id asked x h =
      elim (Option-cases (Maps.get id m.node.remote_nodes)) [
        | inl e ↦ rw (e, send_request_to_node) h
        | inr (n, e) ↦
            let sent =
              send_request stringified_length sign verify_response transport now timeout request_id
                m.node n asked x in
            let kept =
              send_request-Keeps stringified_length sign verify_response transport now timeout
                request_id m.node n asked x in
            let known = All-get (IsKnown verify m.node.node_id) id n m.node.remote_nodes e h in
            let still : IsKnown verify m.node.node_id (id, sent.remote_node) = (
              kept.0 ∙ known.0,
              subst (λ infos. All (IsGenuine verify m.node.node_id id) infos) (sym kept.1) known.1,
            ) in
            elim (Bool-cases (can_send_request_to_node m id asked)) [
              | inl c ↦
                  rw (e, c, send_request_to_node)
                    (put_remote_node-AllKnown verify
                      (record (m.node) {
                        public_udp_socket_address = sent.public_udp_socket_address;
                      })
                      id sent.remote_node still h)
              | inr c ↦ rw (e, c, send_request_to_node) h
            ]
      ]

  step-AllKnown :
      (m : RemoteNodeManager) (op : Op) → AllKnown verify m.node → AllKnown verify (step m op).node
  unfolding step prune_remote_nodes
  step-AllKnown m (announces now info local) h = announce-AllKnown verify now m info local h
  step-AllKnown m (sets_bootstrap id address ws us) h =
      bootstrap-AllKnown verify m id address ws us h
  step-AllKnown m (prunes now) h =
      prune_nodes-AllKnown verify m.node.node_id now m.node.remote_nodes h
  step-AllKnown m (sends transport now timeout request_id id asked x) h =
      sends-AllKnown transport now timeout request_id m id asked x h

  -- Every announcement that a manager keeps has a valid signature, is of the node and of the channel under
  -- which it is kept, and is not of this node itself; and this stays so after any history of announcements,
  -- bootstrap nodes, requests and prunings.
  pub announcements_are_genuine :
      (m : RemoteNodeManager) (ops : List Op)
      → AllKnown verify m.node
      → AllKnown verify (run m ops).node
  unfolding run
  announcements_are_genuine m [] h = h
  announcements_are_genuine m (op ∷ ops) h =
      announcements_are_genuine (step m op) ops (step-AllKnown m op h)
