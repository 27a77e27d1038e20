-- ===== src/Tests/Remotes.antt =====
-- Remote nodes on concrete inputs.
use kachery_p2p.Base.{
  ◌≡◌, refl, ◌↔◌, ◌⊎◌, Bool, true, false, List, [], ◌∷◌, Option, none, some, String, string_eq,
  nat_eq, ◌==◌, if◌then◌else◌,
}
use mathlib.Core.List.{Memᴰ}
use kachery_p2p.Base.Maps
use kachery_p2p.Udp.{Address}
use kachery_p2p.Json.{Value, object, string, field, no_field}
use kachery_p2p.Json.Requests.{protocol_version}
use kachery_p2p.Json.Dispatch.{Request, ResponseBody}
use kachery_p2p.Nodes
use kachery_p2p.Nodes.{ChannelNodeInfo, RemoteNode, new_remote_node}
use kachery_p2p.Nodes.Routes
use kachery_p2p.Nodes.Routes.{
  Node, AuthorizedNode, message_proxy, is_authorized_to_communicate, get_remote_node_proxy_node,
}
use kachery_p2p.Nodes.Methods
use kachery_p2p.Nodes.Methods.{default, determine_send_request_method}
use kachery_p2p.Nodes.Choice
use kachery_p2p.Nodes.Choice.{IsChoice}
use kachery_p2p.Nodes.Proxies
use kachery_p2p.Nodes.Proxies.{IsProxy}
use kachery_p2p.Nodes.Manager.{RemoteNodeManager, get_remote_nodes_in_channel}
use kachery_p2p.Nodes.Requests.{
  Route, Reply, Failure, not_authorized, received, failed, Sent, form_request, send_request,
}
use kachery_p2p.Nodes.Responses
use kachery_p2p.Nodes.Responses.{IsAnswered, AtMostOnce}
use kachery_p2p.Nodes.Known.{AllKnown}
use kachery_p2p.Nodes.Histories
use kachery_p2p.Nodes.Histories.{Op, announces, sets_bootstrap, prunes, sends}
use kachery_p2p.Nodes.Listing
use kachery_p2p.Nodes.Listing.{IsListed}
use kachery_p2p.Nodes.Broadcast.{Broadcast, send_request_to_all_nodes}
use kachery_p2p.Nodes.Broadcast.Finishing
use kachery_p2p.Nodes.Broadcast.Finishing.{
  responds, fails, fires, times_out, count_ends, responses_after_end, has_timeout,
}

abbrev some_address : Address
some_address = record { host_name = some "host"; port = some 80; url = none }

-- A node that is reached by the proxy "proxy".
abbrev far_info : ChannelNodeInfo
far_info = record {
  channel_config_url = "c";
  node_id = "far";
  node_label = "far";
  http_address = none;
  web_socket_address = none;
  public_udp_socket_address = none;
  is_message_proxy = none;
  is_data_proxy = none;
  is_public = none;
  message_proxy_websocket_node_ids = "proxy" ∷ [];
  data_proxy_websocket_node_ids = [];
  timestamp = 1000;
  signature = "s";
}

abbrev a_node : (id : String) (infos : List (String × ChannelNodeInfo)) → RemoteNode
a_node id infos = record {
  remote_node_id = id;
  channel_node_info_by_channel = infos;
  is_bootstrap = false;
  bootstrap_address = none;
  bootstrap_web_socket_address = none;
  bootstrap_udp_socket_address = none;
  local_udp_address_for_remote_node = none;
  num_udp_bytes_sent = 0;
  num_http_bytes_sent = 0;
  num_requests_sent = 0;
  num_responses_received = 0;
  is_online = true;
}

abbrev far_node : RemoteNode
far_node = a_node "far" (("c", far_info) ∷ [])

abbrev proxy_node : RemoteNode
proxy_node = record (a_node "proxy" []) {
  is_bootstrap = true;
  bootstrap_address = some some_address;
}

abbrev member : (id : String) → Option Bool → AuthorizedNode
member id proxy = record {
  node_id = id;
  is_public = none;
  is_message_proxy = proxy;
  is_data_proxy = none;
}

abbrev home : Node
home = record {
  node_id = "home";
  is_bootstrap_node = false;
  joined_channels = record { channel_config_url = "c"; is_public = none } ∷ [];
  get_channel_config_sync =
      λ url. some (member "home" none ∷ member "far" none ∷ member "proxy" (some true) ∷ []);
  has_public_udp_socket_server = false;
  public_udp_socket_address = none;
  proxy_connections_to_servers = [];
  proxy_connections_to_clients = [];
  remote_nodes = ("proxy", proxy_node) ∷ ("far", far_node) ∷ [];
}

determine_send_request_method_lem_example :
    IsChoice home far_node default (determine_send_request_method home far_node default)
determine_send_request_method_lem_example =
    Choice.determine_send_request_method_lem home far_node default

-- A message goes by the proxy.
by_proxy : determine_send_request_method home far_node default ≡ some Methods.http_proxy
unfolding determine_send_request_method Methods.determine_preferring_http Methods.is_available
    get_remote_node_proxy_node Routes.proxy_on_some Routes.first_proxy Routes.serves
    Routes.authorized_node Routes.find_authorized Nodes.get_remote_node_http_address
    Nodes.most_recent Maps.get Maps.has
by_proxy = refl

proxy_node_lem_example :
    (url : String) × (info : ChannelNodeInfo) × Memᴰ
      (url, info)
      far_node.channel_node_info_by_channel
    × IsProxy message_proxy home "far" url info proxy_node
unfolding get_remote_node_proxy_node Routes.proxy_on_some Routes.first_proxy Routes.serves
    Routes.authorized_node Routes.find_authorized Nodes.get_remote_node_http_address
    Nodes.most_recent Maps.get Maps.has
proxy_node_lem_example = Proxies.proxy_node_lem message_proxy home far_node proxy_node refl

abbrev alive_data : Value
alive_data = object (field "requestType" (string "checkAlive") no_field)

abbrev sign_s : Request → String
sign_s q = "s"

abbrev alive_request : Request
alive_request = form_request sign_s 5000 2000 "abcdefghij" home far_node alive_data

abbrev alive_body : Request → ResponseBody
alive_body q = record {
  protocol_version = protocol_version;
  request_id = q.request_id;
  from_node_id = q.to_node_id;
  to_node_id = q.from_node_id;
  timestamp = 5100;
  response_data = q.request_data;
}

abbrev echo : Route → Request → Option Reply
echo route q = some (record { body = alive_body q; signature = "t"; to_address = none })

abbrev accept : ResponseBody → (signature node_id : String) → Bool
accept body signature id = signature == "t"

abbrev alive_sent : Sent
alive_sent =
    send_request (λ q. 100) sign_s accept echo 5000 2000 "abcdefghij" home far_node default
      alive_data

send_request_lem_example :
    ((alive_sent.outcome ≡ failed not_authorized)
      × (alive_sent.requests ≡ [])
      × (alive_sent.remote_node ≡ far_node)
      × (is_authorized_to_communicate home far_node ≡ false))
    ⊎ ((x : Value) × (alive_sent.outcome ≡ received x)
        × (alive_sent.remote_node.is_online ≡ true)
        × IsAnswered accept echo home far_node default alive_request alive_sent.requests x)
    ⊎ ((f : Failure) × (alive_sent.outcome ≡ failed f)
        × AtMostOnce alive_request alive_sent.requests
        × (alive_sent.remote_node.is_online ≡ false)
        × (is_authorized_to_communicate home far_node ≡ true))
send_request_lem_example =
    Responses.send_request_lem (λ q. 100) sign_s accept echo 5000 2000 "abcdefghij" home far_node
      default alive_data

abbrev signed_s : ChannelNodeInfo → Bool
signed_s info = info.signature == "s"

abbrev new_manager : RemoteNodeManager
new_manager = record {
  node = record home { remote_nodes = [] };
  on_node_channel_added_callbacks = 7 ∷ [];
  on_bootstrap_node_added_callbacks = [];
  calls = [];
}

abbrev some_calls : List Op
some_calls =
    sets_bootstrap "proxy" some_address none none
    ∷ announces 1500 far_info none
    ∷ announces 1600 (record far_info { signature = "forged"; timestamp = 1550 }) none
    ∷ sends echo 2000 500 "abcdefghij" "far" default alive_data
    ∷ prunes 200000
    ∷ []

announcements_are_genuine_example :
    AllKnown signed_s (Histories.run (λ q. 100) sign_s accept signed_s new_manager some_calls).node
announcements_are_genuine_example =
    Histories.announcements_are_genuine (λ q. 100) sign_s accept signed_s new_manager some_calls tt

abbrev far_manager : RemoteNodeManager
far_manager = record new_manager { node = home }

get_remote_nodes_in_channel_lem_example :
    Memᴰ far_node (get_remote_nodes_in_channel 3000 far_manager "c" false).1
    ↔ IsListed 3000 far_manager "c" false far_node
get_remote_nodes_in_channel_lem_example =
    Listing.get_remote_nodes_in_channel_lem 3000 far_manager "c" false far_node

abbrev two_answers : List Finishing.Event
two_answers =
    responds "far" alive_data ∷ fails "proxy" ∷ fires ∷ responds "late" alive_data ∷ times_out ∷ []

abbrev broadcast : Broadcast
broadcast = Finishing.run (send_request_to_all_nodes far_manager) two_answers

finishes_once_example :
    (count_ends broadcast.notices ≡ (if broadcast.finished then 1 else 0))
    × (responses_after_end false broadcast.notices ≡ 0)
    × ((has_timeout two_answers ≡ false) ⊎ (count_ends broadcast.notices ≡ 1))
finishes_once_example = Finishing.finishes_once far_manager two_answers
