-- ===== src/Nodes/Sending.antt =====
-- RemoteNode.sendRequest leaves what was announced of a node as it is.
use kachery_p2p.Base.{ℕ, ◌≡◌, refl, ◌∙◌, inl, inr, Bool, Option, String, Bool-cases, Option-cases}
use kachery_p2p.Json.{Value}
use kachery_p2p.Json.Dispatch.{Request, ResponseBody}
use kachery_p2p.Nodes.{RemoteNode}
use kachery_p2p.Nodes.Routes.{Node, is_authorized_to_communicate}
use kachery_p2p.Nodes.Methods.{SendRequestMethod, determine_send_request_method}
use kachery_p2p.Nodes.Requests.{
  Route, Reply, route_of, count_sent, count_received, over_http, over_udp, over_websocket,
  form_request, try_send_request, send_request,
}

-- The same node with the same announcements.
abbrev pub Keeps : RemoteNode → RemoteNode → Type 0
Keeps before after =
    (after.remote_node_id ≡ before.remote_node_id)
    × (after.channel_node_info_by_channel ≡ before.channel_node_info_by_channel)

count_sent-Keeps : (route : Route) (size : ℕ) (n : RemoteNode) → Keeps n (count_sent route size n)
count_sent-Keeps (over_http a) size n = (refl, refl)
count_sent-Keeps (over_udp a) size n = (refl, refl)
count_sent-Keeps (over_websocket c) size n = (refl, refl)

count_received-Keeps : (route : Route) (n : RemoteNode) → Keeps n (count_received route n)
count_received-Keeps (over_http a) n = (refl, refl)
count_received-Keeps (over_udp a) n = (refl, refl)
count_received-Keeps (over_websocket c) n = (refl, refl)

module _ (stringified_length : Request → ℕ) (sign : Request → String)
    (verify : ResponseBody → (signature node_id : String) → Bool)
    (transport : Route → Request → Option Reply) (now timeout : ℕ) (request_id : String) where
  try_send_request-Keeps :
      (node : Node) (n : RemoteNode) (asked : SendRequestMethod) (x : Value)
      → Keeps n
          (try_send_request stringified_length sign verify transport now timeout request_id node n
            asked x).remote_node
  unfolding try_send_request
  try_send_request-Keeps node n asked x =
      elim (Option-cases (determine_send_request_method node n asked)) [
        | inl e ↦ rw (e, try_send_request) (refl, refl)
        | inr (method, e) ↦ elim (Option-cases (route_of node n method)) [
          | inl f ↦ rw (e, f, try_send_request) (refl, refl)
          | inr (route, f) ↦
              let q = form_request sign now timeout request_id node n x in
              let size = stringified_length q in
              let sent = count_sent-Keeps route size n in
              let back = count_received-Keeps route (count_sent route size n) in
              elim (Option-cases (transport route q)) [
                | inl g ↦ rw (e, f, g, try_send_request) sent
                | inr (r, g) ↦ rw (e, f, g, try_send_request) (back.0 ∙ sent.0, back.1 ∙ sent.1)
              ]
        ]
      ]

  pub send_request-Keeps :
      (node : Node) (n : RemoteNode) (asked : SendRequestMethod) (x : Value)
      → Keeps n
          (send_request stringified_length sign verify transport now timeout request_id node n asked
            x).remote_node
  unfolding send_request
  send_request-Keeps node n asked x = elim (Bool-cases (is_authorized_to_communicate node n)) [
    | inr b ↦ rw (b, send_request) (refl, refl)
    | inl a ↦ rw (a, send_request) (try_send_request-Keeps node n asked x)
  ]
