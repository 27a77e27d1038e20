-- ===== src/Nodes/Routes.antt =====
-- daemon/src/RemoteNode.ts: whether this node may communicate with another one, and by which proxies. What
-- a node is asked for about channels is in daemon/src/KacheryP2PNode.ts. The configurations of the
-- channels, which are downloaded, are a function of the state of the node.
use kachery_p2p.Base.{
  ℕ, Bool, false, not, ◌&&◌, ◌||◌, List, [], ◌∷◌, Option, none, some, String, if◌then◌else◌, ◌==◌,
  string_eq,
}
use kachery_p2p.Base.Maps
use kachery_p2p.Udp.{Address}
use kachery_p2p.Nodes.{ChannelNodeInfo, RemoteNode, is_there, is_set, get_remote_node_http_address}

pub record AuthorizedNode : Type 0 where
  pub node_id : String
  pub is_public : Option Bool
  pub is_message_proxy : Option Bool
  pub is_data_proxy : Option Bool

pub record JoinedChannel : Type 0 where
  pub channel_config_url : String
  pub is_public : Option Bool

-- The connections of the proxies are numbers.
pub record Node : Type 0 where
  pub node_id : String
  pub is_bootstrap_node : Bool
  pub joined_channels : List JoinedChannel
  pub get_channel_config_sync : (channel_config_url : String) → Option (List AuthorizedNode)
  pub has_public_udp_socket_server : Bool
  pub public_udp_socket_address : Option Address
  pub proxy_connections_to_servers : List (String × ℕ)
  pub proxy_connections_to_clients : List (String × ℕ)
  pub remote_nodes : List (String × RemoteNode)

unfoldable pub find_authorized : (node_id : String) → List AuthorizedNode → Option AuthorizedNode
find_authorized id [] = none
find_authorized id (an ∷ ans) = if an.node_id == id then some an else find_authorized id ans

unfoldable pub find_joined :
    (channel_config_url : String) → List JoinedChannel → Option JoinedChannel
find_joined url [] = none
find_joined url (c ∷ cs) = if c.channel_config_url == url then some c else find_joined url cs

-- The entry of a node in the configuration of a channel.
unfoldable pub authorized_node :
    Node → (node_id channel_config_url : String) → Option AuthorizedNode
authorized_node node id url = elim (node.get_channel_config_sync url) [
  | none ↦ none
  | some ans ↦ find_authorized id ans
]

unfoldable pub node_is_authorized_on_channel : Node → (node_id channel_config_url : String) → Bool
node_is_authorized_on_channel node id url = is_there (authorized_node node id url)

unfoldable pub get_remote_channel_node_info :
    Node → (node_id channel_config_url : String) → Option ChannelNodeInfo
get_remote_channel_node_info node id url = elim (Maps.get id node.remote_nodes) [
  | none ↦ none
  | some rn ↦ Maps.get url rn.channel_node_info_by_channel
]

unfoldable pub node_is_on_channel : Node → (node_id channel_config_url : String) → Bool
node_is_on_channel node id url =
    if id == node.node_id
    then is_there (find_joined url node.joined_channels)
    else elim (Maps.get id node.remote_nodes) [
      | none ↦ false
      | some rn ↦ Maps.has url rn.channel_node_info_by_channel
    ]

unfoldable pub node_is_public_on_channel : Node → (node_id channel_config_url : String) → Bool
node_is_public_on_channel node id url = elim (authorized_node node id url) [
  | none ↦ false
  | some an ↦
      is_set an.is_public
      && (if id == node.node_id
          then elim (find_joined url node.joined_channels) [
            | none ↦ false
            | some c ↦ is_set c.is_public
          ]
          else elim (get_remote_channel_node_info node id url) [
            | none ↦ false
            | some info ↦ is_set info.is_public
          ])
]

unfoldable pub authorized_on_some :
    Node → (remote_node_id : String) → (channels : List JoinedChannel) → Bool
authorized_on_some node id [] = false
authorized_on_some node id (c ∷ cs) =
    let url = c.channel_config_url in
    (node_is_authorized_on_channel node node.node_id url
      && node_is_authorized_on_channel node id url)
    || (node_is_public_on_channel node node.node_id url && node_is_on_channel node id url)
    || node_is_public_on_channel node id url
    || authorized_on_some node id cs

unfoldable pub is_authorized_to_communicate : Node → RemoteNode → Bool
is_authorized_to_communicate node n =
    node.is_bootstrap_node
    || n.is_bootstrap
    || authorized_on_some node n.remote_node_id node.joined_channels

-- The kinds of proxies, for messages and for data, with the lists of an announcement and the permission
-- of the channel.
pub data ProxyKind : Type 0 where
  message_proxy data_proxy : ProxyKind

abbrev pub websocket_node_ids : ProxyKind → ChannelNodeInfo → List String
websocket_node_ids message_proxy info = info.message_proxy_websocket_node_ids
websocket_node_ids data_proxy info = info.data_proxy_websocket_node_ids

abbrev pub may_be_proxy : ProxyKind → AuthorizedNode → Bool
may_be_proxy message_proxy an = is_set an.is_message_proxy
may_be_proxy data_proxy an = is_set an.is_data_proxy

-- Whether a node can pass on what is sent to another one.
unfoldable pub serves :
    ProxyKind → Node → (url remote_node_id : String) → (proxy_node_id : String) → RemoteNode → Bool
serves kind node url id proxy_node_id prn =
    not (proxy_node_id == id)
    && prn.is_online
    && is_there (get_remote_node_http_address prn)
    && elim (authorized_node node prn.remote_node_id url) [
      | none ↦ false
      | some an ↦ may_be_proxy kind an
    ]

unfoldable pub first_proxy :
    ProxyKind → Node → (url remote_node_id : String) → List String → Option RemoteNode
first_proxy kind node url id [] = none
first_proxy kind node url id (p ∷ ps) =
    let rest = first_proxy kind node url id ps in
    elim (Maps.get p node.remote_nodes) [
      | none ↦ rest
      | some prn ↦ if serves kind node url id p prn then some prn else rest
    ]

-- `getRemoteNodeMessageProxyNode` and `getRemoteNodeDataProxyNode`: the loop over the channels.
unfoldable pub proxy_on_some :
    ProxyKind
    → Node
    → (remote_node_id : String) → List (String × ChannelNodeInfo)
    → Option RemoteNode
proxy_on_some kind node id [] = none
proxy_on_some kind node id ((url, info) ∷ infos) =
    let rest = proxy_on_some kind node id infos in
    elim (first_proxy kind node url id (websocket_node_ids kind info)) [
      | some prn ↦ some prn
      | none ↦ rest
    ]

unfoldable pub get_remote_node_proxy_node : ProxyKind → Node → RemoteNode → Option RemoteNode
get_remote_node_proxy_node kind node n =
    proxy_on_some kind node n.remote_node_id n.channel_node_info_by_channel
