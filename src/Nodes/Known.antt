-- ===== src/Nodes/Known.antt =====
-- RemoteNodeManager: what the announcements that it keeps are, through each of its methods.
use kachery_p2p.Base.{
  ℕ, ◌≡◌, refl, inl, inr, Bool, true, false, not, ◌&&◌, ◌||◌, List, [], ◌∷◌, Option, none, some,
  String, All, length, ltb, ◌==◌, string_eq, nat_eq, Bool-cases, Option-cases,
}
use kachery_p2p.Base.Maps
use kachery_p2p.Base.Maps.{All-set, All-delete, All-get}
use kachery_p2p.Udp.{Address}
use kachery_p2p.Nodes.{
  ChannelNodeInfo, RemoteNode, new_remote_node, set_channel_node_info_if_more_recent, prune,
  channel_node_info_is_expired, prune_channel_node_infos,
}
use kachery_p2p.Nodes.Routes.{Node, is_authorized_to_communicate}
use kachery_p2p.Nodes.Manager.{
  RemoteNodeManager, put_remote_node, find_or_new, take_channel_node_info, set_channel_node_info,
  set_local_address, has_joined_channel, handle_announce_request, set_bootstrap_node, prune_nodes,
  is_outdated,
}

-- An announcement that is kept for a node under a channel: it is of that node and that channel, its
-- signature is valid, and it is not of the node that keeps it.
pub record IsGenuine (verify : ChannelNodeInfo → Bool) (self id : String)
    (entry : String × ChannelNodeInfo) : Type 0 where
  pub signed : verify entry.1 ≡ true
  pub of_channel : entry.1.channel_config_url ≡ entry.0
  pub of_node : entry.1.node_id ≡ id
  pub of_other : (entry.1.node_id == self) ≡ false

-- A node that is known, under its identifier.
abbrev pub IsKnown :
    (verify : ChannelNodeInfo → Bool) (self : String) → String × RemoteNode → Type 0
IsKnown verify self (id, n) =
    (n.remote_node_id ≡ id) × All (IsGenuine verify self id) n.channel_node_info_by_channel

abbrev pub AllKnown : (verify : ChannelNodeInfo → Bool) → Node → Type 0
AllKnown verify node = All (λ e. IsKnown verify node.node_id e) node.remote_nodes

prune-All :
    (P : String × ChannelNodeInfo → Type 0) (now : ℕ) (infos : List (String × ChannelNodeInfo))
    → All P infos
    → All P (prune now infos)
unfolding prune
prune-All P now [] h = tt
prune-All P now ((url, info) ∷ infos) h =
    elim (Bool-cases (channel_node_info_is_expired now info)) [
      | inl e ↦ rw e (prune-All P now infos h.1)
      | inr e ↦ rw e (h.0, prune-All P now infos h.1)
    ]

module _ (verify : ChannelNodeInfo → Bool) where
  pub prune_nodes-AllKnown :
      (self : String) (now : ℕ) (ns : List (String × RemoteNode))
      → All (IsKnown verify self) ns
      → All (IsKnown verify self) (prune_nodes now ns)
  unfolding prune_nodes prune_channel_node_infos
  prune_nodes-AllKnown self now [] h = tt
  prune_nodes-AllKnown self now ((id, n) ∷ ns) h =
      let rest = prune_nodes-AllKnown self now ns h.1 in
      let kept = prune-All (IsGenuine verify self id) now n.channel_node_info_by_channel h.0.1 in
      elim (Bool-cases
        (not n.is_bootstrap && length (prune now n.channel_node_info_by_channel) == 0)) [
          | inl e ↦ rw e rest
          | inr e ↦ rw e ((h.0.0, kept), rest)
        ]

  find_or_new-IsKnown :
      (node : Node) (id : String)
      → AllKnown verify node
      → IsKnown verify node.node_id (id, find_or_new node id)
  unfolding find_or_new new_remote_node
  find_or_new-IsKnown node id h = elim (Option-cases (Maps.get id node.remote_nodes)) [
    | inl e ↦ rw (e, find_or_new) (refl, tt)
    | inr (n, e) ↦
        rw (e, find_or_new) (All-get (IsKnown verify node.node_id) id n node.remote_nodes e h)
  ]

  pub put_remote_node-AllKnown :
      (node : Node) (id : String) (n : RemoteNode)
      → IsKnown verify node.node_id (id, n)
      → AllKnown verify node
      → AllKnown verify (put_remote_node id n node)
  put_remote_node-AllKnown node id n known h =
      All-set (IsKnown verify node.node_id) id n node.remote_nodes known h

  set_if_more_recent-IsKnown :
      (self id : String) (now : ℕ) (authorized : Bool) (n : RemoteNode) (info : ChannelNodeInfo)
      → IsGenuine verify self id (info.channel_config_url, info)
      → IsKnown verify self (id, n)
      → IsKnown verify self (
        id,
        (set_channel_node_info_if_more_recent now authorized n info.channel_config_url info).0,
      )
  unfolding set_channel_node_info_if_more_recent
  set_if_more_recent-IsKnown self id now authorized n info genuine h =
      let url = info.channel_config_url in
      let grown =
        All-set (IsGenuine verify self id) url info n.channel_node_info_by_channel genuine h.1 in
      elim (Bool-cases (channel_node_info_is_expired now info)) [
        | inl e ↦ rw e h
        | inr e ↦ elim (Option-cases (Maps.get url n.channel_node_info_by_channel)) [
          | inl f ↦ rw (e, f) (h.0, grown)
          | inr (x, f) ↦ elim (Bool-cases (ltb info.timestamp x.timestamp)) [
            | inl older ↦ rw (e, f, older) h
            | inr newer ↦ rw (e, f, newer) (h.0, grown)
          ]
        ]
      ]

  set_channel_node_info-AllKnown :
      (now : ℕ) (m : RemoteNodeManager) (info : ChannelNodeInfo)
      → AllKnown verify m.node
      → AllKnown verify (set_channel_node_info verify now m info).0.node
  unfolding set_channel_node_info take_channel_node_info
  set_channel_node_info-AllKnown now m info h =
      let n = find_or_new m.node info.node_id in
      let known = find_or_new-IsKnown m.node info.node_id h in
      let node = put_remote_node info.node_id n m.node in
      elim (Bool-cases (channel_node_info_is_expired now info)) [
        | inl e ↦ rw e h
        | inr e ↦ elim (Bool-cases (verify info)) [
          | inr v ↦ rw (e, v) h
          | inl v ↦ elim (Bool-cases (info.node_id == m.node.node_id)) [
            | inl s ↦ rw (e, v, s) h
            | inr s ↦
                rw (e, v, s)
                  (put_remote_node-AllKnown node info.node_id
                    (set_channel_node_info_if_more_recent now (is_authorized_to_communicate node n)
                      n info.channel_config_url info).0
                    (set_if_more_recent-IsKnown m.node.node_id info.node_id now
                      (is_authorized_to_communicate node n) n info
                      (record { signed = v; of_channel = refl; of_node = refl; of_other = s })
                      known)
                    (put_remote_node-AllKnown m.node info.node_id n known h))
          ]
        ]
      ]

  set_local_address-AllKnown :
      (m : RemoteNodeManager) (id : String) (local : Option Address)
      → AllKnown verify m.node
      → AllKnown verify (set_local_address m id local).node
  unfolding set_local_address
  set_local_address-AllKnown m id none h = h
  set_local_address-AllKnown m id (some a) h =
      elim (Option-cases (Maps.get id m.node.remote_nodes)) [
        | inl e ↦ rw (e, set_local_address) h
        | inr (n, e) ↦
            rw (e, set_local_address)
              (put_remote_node-AllKnown m.node id
                (record n { local_udp_address_for_remote_node = some a })
                (All-get (IsKnown verify m.node.node_id) id n m.node.remote_nodes e h) h)
      ]

  pub announce-AllKnown :
      (now : ℕ) (m : RemoteNodeManager) (info : ChannelNodeInfo) (local : Option Address)
      → AllKnown verify m.node
      → AllKnown verify (handle_announce_request verify now m info local).0.node
  unfolding handle_announce_request
  announce-AllKnown now m info local h =
      let kept = set_channel_node_info-AllKnown now m info h in
      let r = set_channel_node_info verify now m info in
      elim (Bool-cases
        (m.node.is_bootstrap_node || has_joined_channel m.node info.channel_config_url)) [
          | inr out ↦ rw (out, handle_announce_request) h
          | inl member ↦ elim (Bool-cases r.1) [
            | inl fine ↦
                rw (member, fine, handle_announce_request)
                  (set_local_address-AllKnown r.0 info.node_id local kept)
            | inr threw ↦ rw (member, threw, handle_announce_request) kept
          ]
        ]

  pub bootstrap-AllKnown :
      (m : RemoteNodeManager) (id : String) (address : Address)
      (web_socket_address udp_socket_address : Option Address)
      → AllKnown verify m.node
      → AllKnown verify (set_bootstrap_node m id address web_socket_address udp_socket_address).node
  unfolding set_bootstrap_node new_remote_node
  bootstrap-AllKnown m id address ws us h =
      let fresh = new_remote_node id true (some address) ws us in
      let cleared : Node = record (m.node) { remote_nodes = Maps.delete id m.node.remote_nodes } in
      let replaced : AllKnown verify (put_remote_node id fresh cleared) =
        put_remote_node-AllKnown cleared id fresh (refl, tt)
          (All-delete (IsKnown verify m.node.node_id) id m.node.remote_nodes h) in
      elim (Option-cases (Maps.get id m.node.remote_nodes)) [
        | inl e ↦ rw (e, set_bootstrap_node) replaced
        | inr (n, e) ↦ elim (Bool-cases (is_outdated n address)) [
          | inl o ↦ rw (e, o, set_bootstrap_node) replaced
          | inr o ↦ rw (e, o, set_bootstrap_node) h
        ]
      ]
