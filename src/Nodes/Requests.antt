-- ===== src/Nodes/Requests.antt =====
-- daemon/src/RemoteNode.ts: a request to another node, and the checks of the response. The transport is an
-- argument: it gives what comes back, or none where it fails or where the reply over HTTP does not pass
-- isNodeToNodeResponse. So are the signature, its check and the length of a request as text.
use kachery_p2p.Base.{
  ℕ, ◌+◌, Bool, true, false, List, [], ◌∷◌, Option, none, some, String, ltb, if◌then◌else◌, ◌==◌,
  string_eq,
}
use kachery_p2p.Base.Maps
use kachery_p2p.Udp.{Address}
use kachery_p2p.Json
use kachery_p2p.Json.{Value, string, is_equal_to}
use kachery_p2p.Json.Requests.{protocol_version}
use kachery_p2p.Json.Dispatch.{Request, ResponseBody}
use kachery_p2p.Nodes.{RemoteNode, get_remote_node_http_address, get_udp_address_for_remote_node}
use kachery_p2p.Nodes.Routes.{
  Node, message_proxy, is_authorized_to_communicate, get_remote_node_proxy_node,
}
use kachery_p2p.Nodes.Methods.{
  SendRequestMethod, http, http_proxy, udp, websocket, determine_send_request_method,
}
use kachery_p2p.Nodes.Manager.{RemoteNodeManager, put_remote_node, can_send_request_to_node}

-- Where a request goes: to an address, or over a connection of a proxy.
pub data Route : Type 0 where
  over_http over_udp : Address → Route
  over_websocket : (connection : ℕ) → Route

-- What comes back; `to_address` is that of the header of a message over UDP.
pub record Reply : Type 0 where
  pub body : ResponseBody
  pub signature : String
  pub to_address : Option Address

pub data Failure : Type 0 where
  not_authorized no_method no_route no_reply : Failure
  bad_request_type bad_from_node bad_to_node bad_request_id early_timestamp bad_signature : Failure

pub data Outcome : Type 0 where
  received : Value → Outcome
  failed : Failure → Outcome

abbrev pub http_route : Option Address → Option Route
http_route none = none
http_route (some a) = some (over_http a)

abbrev pub websocket_route : Option ℕ → Option Route
websocket_route none = none
websocket_route (some c) = some (over_websocket c)

unfoldable pub route_of : Node → RemoteNode → SendRequestMethod → Option Route
route_of node n http = http_route (get_remote_node_http_address n)
route_of node n http_proxy = elim (get_remote_node_proxy_node message_proxy node n) [
  | none ↦ none
  | some prn ↦ http_route (get_remote_node_http_address prn)
]
route_of node n udp =
    if node.has_public_udp_socket_server
    then elim (get_udp_address_for_remote_node n) [ none ↦ none | some a ↦ some (over_udp a) ]
    else none
route_of node n websocket = elim (Maps.get n.remote_node_id node.proxy_connections_to_servers) [
  | some c ↦ some (over_websocket c)
  | none ↦ websocket_route (Maps.get n.remote_node_id node.proxy_connections_to_clients)
]
route_of node n _ = none

-- The counters of a remote node when a request leaves, and when a reply is there; there is none for
-- connections of proxies.
abbrev pub count_sent : Route → (size : ℕ) → RemoteNode → RemoteNode
count_sent (over_http a) size n = record n {
  num_http_bytes_sent = n.num_http_bytes_sent + size;
  num_requests_sent = n.num_requests_sent + 1;
}
count_sent (over_udp a) size n = record n {
  num_udp_bytes_sent = n.num_udp_bytes_sent + size;
  num_requests_sent = n.num_requests_sent + 1;
}
count_sent (over_websocket c) size n = n

abbrev pub count_received : Route → RemoteNode → RemoteNode
count_received (over_websocket c) n = n
count_received _ n = record n { num_responses_received = n.num_responses_received + 1 }

-- The public address of this node, as a bootstrap node sees it.
abbrev pub learned_address : Route → RemoteNode → Reply → Option Address → Option Address
learned_address (over_udp a) n r old =
    if n.is_bootstrap then elim r.to_address [ none ↦ old | some b ↦ some b ] else old
learned_address _ n r old = old

abbrev pub request_type_of : Value → String
request_type_of x = elim (Json.get x "requestType") [ string s ↦ s | _ ↦ "" ]

-- A remote node after a request, the public address of this one, what was handed to the transport, and the
-- outcome.
pub record Sent : Type 0 where
  pub remote_node : RemoteNode
  pub public_udp_socket_address : Option Address
  pub requests : List (Route × Request)
  pub outcome : Outcome

abbrev pub is_received : Outcome → Bool
is_received (received x) = true
is_received (failed f) = false

module _ (sign : Request → String) where
  -- `_formRequestFromRequestData`, with a new identifier.
  unfoldable pub form_request :
      (now timeout_msec : ℕ) (request_id : String) → Node → RemoteNode → Value → Request
  form_request now timeout_msec request_id node n request_data =
      let unsigned : Request = record {
        protocol_version = protocol_version;
        request_id = request_id;
        from_node_id = node.node_id;
        to_node_id = n.remote_node_id;
        timestamp = now;
        request_data = request_data;
        timeout_msec = timeout_msec;
        signature = "";
      } in
      record unsigned { signature = sign unsigned }

module _ (verify : ResponseBody → (signature node_id : String) → Bool) where
  -- The checks of the response, in their order.
  unfoldable pub check_response : Node → RemoteNode → Request → Reply → Outcome
  check_response node n q r =
      if is_equal_to (request_type_of q.request_data) (Json.get r.body.response_data "requestType")
      then if r.body.from_node_id == n.remote_node_id
        then if r.body.to_node_id == node.node_id
          then if r.body.request_id == q.request_id
            then if ltb (r.body.timestamp + 1000) q.timestamp
              then failed early_timestamp
              else if verify r.body r.signature n.remote_node_id
              then received r.body.response_data
              else failed bad_signature
            else failed bad_request_id
          else failed bad_to_node
        else failed bad_from_node
      else failed bad_request_type

-- A request that is not sent.
abbrev pub unsent : Node → RemoteNode → Failure → Sent
unsent node n f = record {
  remote_node = n;
  public_udp_socket_address = node.public_udp_socket_address;
  requests = [];
  outcome = failed f;
}

module _ (stringified_length : Request → ℕ) (sign : Request → String)
    (verify : ResponseBody → (signature node_id : String) → Bool) where
  -- `_trySendRequest`.
  unfoldable pub try_send_request :
      (transport : Route → Request → Option Reply) (now timeout_msec : ℕ) (request_id : String)
      → Node
      → RemoteNode
      → SendRequestMethod
      → Value
      → Sent
  try_send_request transport now timeout_msec request_id node n asked request_data =
      let q = form_request sign now timeout_msec request_id node n request_data in
      elim (determine_send_request_method node n asked) [
        | none ↦ unsent node n no_method
        | some method ↦ elim (route_of node n method) [
          | none ↦ unsent node n no_route
          | some route ↦
              let counted = count_sent route (stringified_length q) n in
              elim (transport route q) [
                | none ↦ record {
                  remote_node = counted;
                  public_udp_socket_address = node.public_udp_socket_address;
                  requests = (route, q) ∷ [];
                  outcome = failed no_reply;
                }
                | some r ↦ record {
                  remote_node = count_received route counted;
                  public_udp_socket_address =
                      learned_address route n r node.public_udp_socket_address;
                  requests = (route, q) ∷ [];
                  outcome = check_response verify node n q r;
                }
              ]
        ]
      ]

  -- `sendRequest`: the node is online exactly if the request succeeds.
  unfoldable pub send_request :
      (transport : Route → Request → Option Reply) (now timeout_msec : ℕ) (request_id : String)
      → Node
      → RemoteNode
      → SendRequestMethod
      → Value
      → Sent
  send_request transport now timeout_msec request_id node n asked request_data =
      if is_authorized_to_communicate node n
      then (let sent =
            try_send_request transport now timeout_msec request_id node n asked request_data in
          record sent {
            remote_node = record (sent.remote_node) { is_online = is_received sent.outcome };
          })
      else unsent node n not_authorized

  -- `sendRequestToNode` of the manager; none where it throws before a request is made.
  unfoldable pub send_request_to_node :
      (transport : Route → Request → Option Reply)
      → (now timeout_msec : ℕ) (request_id : String) → RemoteNodeManager
      → (node_id : String) → SendRequestMethod
      → Value
      → RemoteNodeManager × Option Outcome
  send_request_to_node transport now timeout_msec request_id m id asked request_data =
      elim (Maps.get id m.node.remote_nodes) [
        | none ↦ (m, none)
        | some n ↦
            if can_send_request_to_node m id asked
            then (let sent =
                  send_request transport now timeout_msec request_id m.node n asked request_data in
                (
                  record m {
                    node = put_remote_node id sent.remote_node (record (m.node) {
                      public_udp_socket_address = sent.public_udp_socket_address;
                    });
                  },
                  some sent.outcome,
                ))
            else (m, none)
      ]
