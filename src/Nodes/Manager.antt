-- ===== src/Nodes/Manager.antt =====
-- daemon/src/RemoteNodeManager.ts: the nodes that are known. A callback is a number, and its call an entry
-- of `calls`, as is a request that asks whether a node is alive. The signature of an announcement is
-- checked by `verify`. Warnings are not modelled.
use kachery_p2p.Base.{
  ℕ, Bool, true, false, not, ◌&&◌, ◌||◌, List, [], ◌∷◌, ◌++◌, map, Option, none, some, String,
  length, if◌then◌else◌, ◌==◌, string_eq, nat_eq,
}
use kachery_p2p.Base.Maps
use kachery_p2p.Udp.{Address}
use kachery_p2p.Nodes.{
  ChannelNodeInfo, RemoteNode, new_remote_node, is_there, channel_node_info_is_expired,
  set_channel_node_info_if_more_recent, prune_channel_node_infos,
}
use kachery_p2p.Nodes.Routes.{Node, is_authorized_to_communicate, find_joined}
use kachery_p2p.Nodes.Methods.{SendRequestMethod, can_send_request}

pub data Call : Type 0 where
  channel_added : (callback : ℕ) (node_id channel_config_url : String) → Call
  bootstrap_added : (callback : ℕ) (node_id : String) → Call
  asks_if_alive : (node_id : String) → Call

-- The manager is a part of the node, and the nodes that it knows stand there.
pub record RemoteNodeManager : Type 0 where
  pub node : Node
  pub on_node_channel_added_callbacks : List ℕ
  pub on_bootstrap_node_added_callbacks : List ℕ
  pub calls : List Call

abbrev pub put_remote_node : (node_id : String) → RemoteNode → Node → Node
put_remote_node id n node = record node { remote_nodes = Maps.set id n node.remote_nodes }

-- `jsonObjectsMatch` of two addresses.
unfoldable pub match_option {ℓ} : {A : Type ℓ} → (A → A → Bool) → Option A → Option A → Bool
match_option same none none = true
match_option same (some a) (some b) = same a b
match_option same _ _ = false

unfoldable pub addresses_match : Address → Address → Bool
addresses_match a b =
    match_option (λ x y. x == y) a.host_name b.host_name
    && match_option (λ x y. x == y) a.port b.port
    && match_option (λ x y. x == y) a.url b.url

abbrev pub ask_if_alive : Bool → (node_id : String) → List Call
ask_if_alive asks id = if asks then asks_if_alive id ∷ [] else []

-- The node of an announcement, made if it is not known.
unfoldable pub find_or_new : Node → (node_id : String) → RemoteNode
find_or_new node id = elim (Maps.get id node.remote_nodes) [
  | some n ↦ n
  | none ↦ new_remote_node id false none none none
]

-- The rest of `setChannelNodeInfo`, for an announcement of another node that has passed the checks.
unfoldable pub take_channel_node_info : ℕ → RemoteNodeManager → ChannelNodeInfo → RemoteNodeManager
take_channel_node_info now m info =
    let n = find_or_new m.node info.node_id in
    let node = put_remote_node info.node_id n m.node in
    let r =
      set_channel_node_info_if_more_recent now (is_authorized_to_communicate node n) n
        info.channel_config_url info in
    let added =
      if Maps.has info.channel_config_url n.channel_node_info_by_channel
      then []
      else map (λ cb. channel_added cb n.remote_node_id info.channel_config_url)
          m.on_node_channel_added_callbacks in
    record m {
      node = put_remote_node info.node_id r.0 node;
      calls = (m.calls ++ ask_if_alive r.1 info.node_id) ++ added;
    }

unfoldable pub has_joined_channel : Node → (channel_config_url : String) → Bool
has_joined_channel node url = is_there (find_joined url node.joined_channels)

-- The address on the local network from which an announcement came.
unfoldable pub set_local_address :
    RemoteNodeManager → (node_id : String) → Option Address → RemoteNodeManager
set_local_address m id none = m
set_local_address m id (some a) = elim (Maps.get id m.node.remote_nodes) [
  | none ↦ m
  | some n ↦ record m {
    node = put_remote_node id (record n { local_udp_address_for_remote_node = some a }) m.node;
  }
]

module _ (verify : ChannelNodeInfo → Bool) where
  -- `setChannelNodeInfo`; false where it throws.
  unfoldable pub set_channel_node_info :
      ℕ → RemoteNodeManager → ChannelNodeInfo → RemoteNodeManager × Bool
  set_channel_node_info now m info =
      if channel_node_info_is_expired now info
      then (m, true)
      else if verify info
      then (if info.node_id == m.node.node_id
          then (m, false)
          else (take_channel_node_info now m info, true))
      else (m, false)

  -- `handleAnnounceRequest`: whether the response says success, or none where it throws.
  unfoldable pub handle_announce_request :
      ℕ
      → RemoteNodeManager
      → ChannelNodeInfo
      → (local_udp_address : Option Address) → RemoteNodeManager × Option Bool
  handle_announce_request now m info local =
      if m.node.is_bootstrap_node || has_joined_channel m.node info.channel_config_url
      then (let r = set_channel_node_info now m info in
          if r.1 then (set_local_address r.0 info.node_id local, some true) else (r.0, none))
      else (m, some false)

-- Whether a known node is to be replaced by a bootstrap node with an address.
unfoldable pub is_outdated : RemoteNode → Address → Bool
is_outdated n address =
    not n.is_bootstrap
    || not (elim n.bootstrap_address [ none ↦ false | some a ↦ addresses_match a address ])

-- `setBootstrapNode`
unfoldable pub set_bootstrap_node :
    RemoteNodeManager
    → (remote_node_id : String) (address : Address)
      (web_socket_address udp_socket_address : Option Address)
    → RemoteNodeManager
set_bootstrap_node m id address web_socket_address udp_socket_address =
    let fresh : RemoteNodeManager = record m {
      node =
          put_remote_node id
            (new_remote_node id true (some address) web_socket_address udp_socket_address)
            (record (m.node) { remote_nodes = Maps.delete id m.node.remote_nodes });
      calls = m.calls ++ map (λ cb. bootstrap_added cb id) m.on_bootstrap_node_added_callbacks;
    } in
    elim (Maps.get id m.node.remote_nodes) [
      | none ↦ fresh
      | some n ↦ if is_outdated n address then fresh else m
    ]

-- `_pruneRemoteNodes`
unfoldable pub prune_nodes : ℕ → List (String × RemoteNode) → List (String × RemoteNode)
prune_nodes now [] = []
prune_nodes now ((id, n) ∷ ns) =
    let rest = prune_nodes now ns in
    let pruned = prune_channel_node_infos now n in
    if not pruned.is_bootstrap && length pruned.channel_node_info_by_channel == 0
    then rest
    else (id, pruned) ∷ rest

unfoldable pub prune_remote_nodes : ℕ → RemoteNodeManager → RemoteNodeManager
prune_remote_nodes now m = record m {
  node = record (m.node) { remote_nodes = prune_nodes now m.node.remote_nodes };
}

-- The nodes that pass a test, and are online or asked for all the same.
unfoldable pub select_nodes :
    (include_offline : Bool) (passes : RemoteNode → Bool)
    → List (String × RemoteNode)
    → List RemoteNode
select_nodes include_offline passes [] = []
select_nodes include_offline passes ((id, n) ∷ ns) =
    let rest = select_nodes include_offline passes ns in
    if (include_offline || n.is_online) && passes n then n ∷ rest else rest

unfoldable pub get_remote_nodes_in_channel :
    ℕ
    → RemoteNodeManager
    → (channel_config_url : String) (include_offline : Bool) → RemoteNodeManager × List RemoteNode
get_remote_nodes_in_channel now m url include_offline =
    let pruned = prune_remote_nodes now m in
    (
      pruned,
      select_nodes include_offline (λ n. Maps.has url n.channel_node_info_by_channel)
          pruned.node.remote_nodes,
    )

unfoldable pub get_bootstrap_remote_nodes :
    ℕ → RemoteNodeManager → (include_offline : Bool) → RemoteNodeManager × List RemoteNode
get_bootstrap_remote_nodes now m include_offline =
    let pruned = prune_remote_nodes now m in
    (
      pruned,
      select_nodes include_offline (λ n. n.is_bootstrap && is_there n.bootstrap_address)
          pruned.node.remote_nodes,
    )

unfoldable pub get_all_remote_nodes :
    ℕ → RemoteNodeManager → (include_offline : Bool) → RemoteNodeManager × List RemoteNode
get_all_remote_nodes now m include_offline =
    let pruned = prune_remote_nodes now m in
    (pruned, select_nodes include_offline (λ n. true) pruned.node.remote_nodes)

-- `getChannelInfo`: the announcements on a channel, and this node's own, which is an argument.
unfoldable pub infos_on_channel :
    (channel_config_url : String) → List (String × RemoteNode) → List ChannelNodeInfo
infos_on_channel url [] = []
infos_on_channel url ((id, n) ∷ ns) =
    let rest = infos_on_channel url ns in
    elim (Maps.get url n.channel_node_info_by_channel) [ none ↦ rest | some info ↦ info ∷ rest ]

unfoldable pub get_channel_info :
    (own : ChannelNodeInfo)
    → RemoteNodeManager
    → (channel_config_url : String) → List ChannelNodeInfo
get_channel_info own m url =
    infos_on_channel url m.node.remote_nodes
    ++ (if is_there (find_joined url m.node.joined_channels) then own ∷ [] else [])

unfoldable pub can_send_request_to_node :
    RemoteNodeManager → (node_id : String) → SendRequestMethod → Bool
can_send_request_to_node m id method = elim (Maps.get id m.node.remote_nodes) [
  | none ↦ false
  | some n ↦ can_send_request m.node n method
]

unfoldable pub remote_node_is_online : RemoteNodeManager → (node_id : String) → Bool
remote_node_is_online m id = elim (Maps.get id m.node.remote_nodes) [
  | none ↦ false
  | some n ↦ n.is_online
]
