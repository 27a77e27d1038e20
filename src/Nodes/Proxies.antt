-- ===== src/Nodes/Proxies.antt =====
-- RemoteNode: the proxies that messages and data for another node go through.
use kachery_p2p.Base.{
  ◌≡◌, refl, sym, inl, inr, true, false, List, [], ◌∷◌, some, String, arith, ◌==◌, string_eq,
  Bool-cases, Option-cases,
}
use mathlib.Core.List.{Memᴰ}
use kachery_p2p.Base.Maps
use kachery_p2p.Nodes.{ChannelNodeInfo, RemoteNode, is_there, get_remote_node_http_address}
use kachery_p2p.Nodes.Routes.{
  Node, AuthorizedNode, ProxyKind, websocket_node_ids, may_be_proxy, authorized_node, serves,
  first_proxy, proxy_on_some, get_remote_node_proxy_node,
}

-- A proxy of the kind for a node, by an announcement of the node on a channel: the announcement names it,
-- it is not the node itself, it was online when it was last asked, it has an address, and the
-- configuration of the channel allows it to be one.
pub record IsProxy (kind : ProxyKind) (node : Node) (id url : String) (info : ChannelNodeInfo)
    (prn : RemoteNode) : Type 0 where
  pub proxy_node_id : String
  pub entry : AuthorizedNode
  pub named : Memᴰ proxy_node_id (websocket_node_ids kind info)
  pub known : Maps.get proxy_node_id node.remote_nodes ≡ some prn
  pub other : (proxy_node_id == id) ≡ false
  pub online : prn.is_online ≡ true
  pub reachable : is_there (get_remote_node_http_address prn) ≡ true
  pub authorized : authorized_node node prn.remote_node_id url ≡ some entry
  pub allowed : may_be_proxy kind entry ≡ true

serves-IsProxy :
    (kind : ProxyKind) (node : Node) (id url : String) (info : ChannelNodeInfo) (p : String)
    (prn : RemoteNode)
    → Memᴰ p (websocket_node_ids kind info)
    → Maps.get p node.remote_nodes ≡ some prn
    → serves kind node url id p prn ≡ true
    → IsProxy kind node id url info prn
unfolding serves
serves-IsProxy kind node id url info p prn named known h =
    elim (Option-cases (authorized_node node prn.remote_node_id url)) [
      | inl e ↦ absurd (ground (arith, e, h))
      | inr (an, e) ↦ record {
        proxy_node_id = p;
        entry = an;
        named = named;
        known = known;
        other = ground (arith, e, h);
        online = ground (arith, e, h);
        reachable = ground (arith, e, h);
        authorized = e;
        allowed = ground (arith, e, h);
      }
    ]

first_proxy-IsProxy :
    (kind : ProxyKind) (node : Node) (id url : String) (info : ChannelNodeInfo) (prn : RemoteNode)
    (ps : List String)
    → ((p : String) → Memᴰ p ps → Memᴰ p (websocket_node_ids kind info))
    → first_proxy kind node url id ps ≡ some prn
    → IsProxy kind node id url info prn
unfolding first_proxy
first_proxy-IsProxy kind node id url info prn [] among h = cc
first_proxy-IsProxy kind node id url info prn (p ∷ ps) among h =
    let later = first_proxy-IsProxy kind node id url info prn ps (λ q i. among q (Memᴰ.tail i)) in
    elim (Option-cases (Maps.get p node.remote_nodes)) [
      | inl e ↦ later (ground (arith, e, h))
      | inr (x, e) ↦ elim (Bool-cases (serves kind node url id p x)) [
        | inl s ↦
            let same : x ≡ prn = ground (arith, e, h, s) in
            serves-IsProxy kind node id url info p prn (among p (Memᴰ.head refl)) (rw (sym same) e)
              (rw (sym same) s)
        | inr s ↦ later (ground (arith, e, h, s))
      ]
    ]

proxy_on_some-IsProxy :
    (kind : ProxyKind) (node : Node) (id : String) (prn : RemoteNode)
    (infos : List (String × ChannelNodeInfo))
    → proxy_on_some kind node id infos ≡ some prn
    → (url : String) × (info : ChannelNodeInfo) × Memᴰ (url, info) infos
      × IsProxy kind node id url info prn
unfolding proxy_on_some
proxy_on_some-IsProxy kind node id prn [] h = cc
proxy_on_some-IsProxy kind node id prn ((url, info) ∷ infos) h =
    elim (Option-cases (first_proxy kind node url id (websocket_node_ids kind info))) [
      | inl e ↦
          let (u, i, there, p) : (u : String) × (i : ChannelNodeInfo) × Memᴰ (u, i) infos
              × IsProxy kind node id u i prn =
            proxy_on_some-IsProxy kind node id prn infos (ground (arith, e, h)) in
          (u, i, Memᴰ.tail there, p)
      | inr (x, e) ↦
          let found : first_proxy kind node url id (websocket_node_ids kind info) ≡ some prn =
            ground (arith, e, h) in
          (
            url,
            info,
            Memᴰ.head refl,
            first_proxy-IsProxy kind node id url info prn (websocket_node_ids kind info) (λ q i. i)
                found,
          )
    ]

-- The proxy that is found for a node is one by an announcement of the node on one of its channels.
pub proxy_node_lem :
    (kind : ProxyKind) (node : Node) (n prn : RemoteNode)
    → get_remote_node_proxy_node kind node n ≡ some prn
    → (url : String) × (info : ChannelNodeInfo) × Memᴰ (url, info) n.channel_node_info_by_channel
      × IsProxy kind node n.remote_node_id url info prn
unfolding get_remote_node_proxy_node
proxy_node_lem kind node n prn h =
    proxy_on_some-IsProxy kind node n.remote_node_id prn n.channel_node_info_by_channel h
