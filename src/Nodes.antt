-- ===== src/Nodes.antt =====
-- daemon/src/RemoteNode.ts: what a node knows of another one, from the announcements on its channels and
-- from its configuration. The scale of durations is 1. Labels and statistics are not modelled.
pub mod Routes
pub mod Methods
pub mod Choice
pub mod Proxies
pub mod Manager
pub mod Known
pub mod Histories
pub mod Requests
pub mod Sending
pub mod Pruning
pub mod Listing
pub mod Broadcast
pub mod Responses
use kachery_p2p.Base.{
  ℕ, ◌+◌, ◌-◌, ◌*◌, Bool, true, false, not, ◌&&◌, List, [], ◌∷◌, ◌++◌, map, Option, none, some,
  String, ltb, if◌then◌else◌, ◌==◌, string_eq,
}
use kachery_p2p.Base.Maps
use kachery_p2p.Udp.{Address}

-- The announcement of a node on a channel. What it may leave out is none.
pub record ChannelNodeInfo : Type 0 where
  pub channel_config_url : String
  pub node_id : String
  pub node_label : String
  pub http_address : Option Address
  pub web_socket_address : Option Address
  pub public_udp_socket_address : Option Address
  pub is_message_proxy : Option Bool
  pub is_data_proxy : Option Bool
  pub is_public : Option Bool
  pub message_proxy_websocket_node_ids : List String
  pub data_proxy_websocket_node_ids : List String
  pub timestamp : ℕ
  pub signature : String

pub record RemoteNode : Type 0 where
  pub remote_node_id : String
  pub channel_node_info_by_channel : List (String × ChannelNodeInfo)
  pub is_bootstrap : Bool
  pub bootstrap_address : Option Address
  pub bootstrap_web_socket_address : Option Address
  pub bootstrap_udp_socket_address : Option Address
  pub local_udp_address_for_remote_node : Option Address
  pub num_udp_bytes_sent : ℕ
  pub num_http_bytes_sent : ℕ
  pub num_requests_sent : ℕ
  pub num_responses_received : ℕ
  pub is_online : Bool

unfoldable pub new_remote_node :
    (remote_node_id : String) (is_bootstrap : Bool)
    → (address web_socket_address udp_socket_address : Option Address) → RemoteNode
new_remote_node remote_node_id is_bootstrap address web_socket_address udp_socket_address = record {
  remote_node_id = remote_node_id;
  channel_node_info_by_channel = [];
  is_bootstrap = is_bootstrap;
  bootstrap_address = address;
  bootstrap_web_socket_address = web_socket_address;
  bootstrap_udp_socket_address = udp_socket_address;
  local_udp_address_for_remote_node = none;
  num_udp_bytes_sent = 0;
  num_http_bytes_sent = 0;
  num_requests_sent = 0;
  num_responses_received = 0;
  is_online = false;
}

-- `x ? true : false` for an object or null, and for a boolean that may be left out.
abbrev pub is_there {ℓ} : {A : Type ℓ} → Option A → Bool
is_there none = false
is_there (some a) = true

abbrev pub is_set : Option Bool → Bool
is_set none = false
is_set (some b) = b

-- `x || y`
abbrev pub or_else {ℓ} : {A : Type ℓ} → Option A → Option A → Option A
or_else none y = y
or_else (some a) y = some a

unfoldable pub channel_node_info_is_expired : (now : ℕ) → ChannelNodeInfo → Bool
channel_node_info_is_expired now info = ltb (2 * 60 * 1000) (now - info.timestamp)

-- `setChannelNodeInfoIfMoreRecent`, with whether a request is sent that asks if the node is alive.
unfoldable pub set_channel_node_info_if_more_recent :
    (now : ℕ) (is_authorized_to_communicate : Bool)
    → RemoteNode
    → (channel_config_url : String) → ChannelNodeInfo
    → RemoteNode × Bool
set_channel_node_info_if_more_recent now authorized n url info =
    let accepted : RemoteNode × Bool = (
      record n { channel_node_info_by_channel = Maps.set url info n.channel_node_info_by_channel },
      not n.is_online && authorized,
    ) in
    if channel_node_info_is_expired now info
    then (n, false)
    else elim (Maps.get url n.channel_node_info_by_channel) [
      | none ↦ accepted
      | some x ↦ if ltb info.timestamp x.timestamp then (n, false) else accepted
    ]

unfoldable pub get_joined_channel_config_urls : RemoteNode → List String
get_joined_channel_config_urls n = map (λ entry. entry.0) n.channel_node_info_by_channel

-- The last address on a web socket, and the first for packets, that a channel gives.
unfoldable pub last_web_socket_address :
    Option Address → List (String × ChannelNodeInfo) → Option Address
last_web_socket_address found [] = found
last_web_socket_address found ((url, info) ∷ infos) =
    last_web_socket_address (or_else info.web_socket_address found) infos

unfoldable pub get_remote_node_web_socket_address : RemoteNode → Option Address
get_remote_node_web_socket_address n =
    or_else n.bootstrap_web_socket_address
      (last_web_socket_address none n.channel_node_info_by_channel)

unfoldable pub first_public_udp_address : List (String × ChannelNodeInfo) → Option Address
first_public_udp_address [] = none
first_public_udp_address ((url, info) ∷ infos) =
    or_else info.public_udp_socket_address (first_public_udp_address infos)

unfoldable pub get_udp_address_for_remote_node : RemoteNode → Option Address
get_udp_address_for_remote_node n = or_else n.bootstrap_udp_socket_address (
    or_else n.local_udp_address_for_remote_node
      (first_public_udp_address n.channel_node_info_by_channel))

unfoldable pub prune : (now : ℕ) → List (String × ChannelNodeInfo) → List (String × ChannelNodeInfo)
prune now [] = []
prune now ((url, info) ∷ infos) =
    let rest = prune now infos in
    if channel_node_info_is_expired now info then rest else (url, info) ∷ rest

unfoldable pub prune_channel_node_infos : (now : ℕ) → RemoteNode → RemoteNode
prune_channel_node_infos now n = record n {
  channel_node_info_by_channel = prune now n.channel_node_info_by_channel;
}

-- `_getMostRecentChannelNodeInfo`: the first of the latest.
unfoldable pub most_recent :
    Option ChannelNodeInfo → List (String × ChannelNodeInfo) → Option ChannelNodeInfo
most_recent found [] = found
most_recent none ((url, info) ∷ infos) = most_recent (some info) infos
most_recent (some best) ((url, info) ∷ infos) =
    most_recent (some (if ltb best.timestamp info.timestamp then info else best)) infos

unfoldable pub get_remote_node_http_address : RemoteNode → Option Address
get_remote_node_http_address n =
    let announced : Option Address = elim (most_recent none n.channel_node_info_by_channel) [
      | none ↦ none
      | some info ↦ info.http_address
    ] in
    if n.is_bootstrap && is_there n.bootstrap_address then n.bootstrap_address else announced
