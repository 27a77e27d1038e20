-- ===== src/Nodes/Listing.antt =====
-- RemoteNodeManager.getRemoteNodesInChannel: which nodes it lists.
use kachery_p2p.Base.{
  ℕ, ◌≡◌, sym, subst, ◌∙◌, inl, inr, ◌↔◌, Bool, true, false, ◌||◌, List, [], ◌∷◌, String, arith,
  ◌==◌, string_eq, Bool-cases,
}
use text.Mathlib.TextEquality.{eq_iff}
use mathlib.Core.Logic.{if_pos, if_neg}
use mathlib.Core.List.{Memᴰ, filter}
use kachery_p2p.Base.Maps
use kachery_p2p.Nodes.{ChannelNodeInfo, RemoteNode, prune_channel_node_infos}
use kachery_p2p.Nodes.Manager.{
  RemoteNodeManager, prune_nodes, prune_remote_nodes, select_nodes, get_remote_nodes_in_channel,
}
use kachery_p2p.Nodes.Pruning.{
  IsFresh, dec_fresh, prune-filter, has-length, listed, dropped, select_nodes_sound,
  select_nodes_complete, prune_nodes_sound, prune_nodes_complete, Mem-cases,
}

mem-filter_sound :
    (now : ℕ) (e : String × ChannelNodeInfo) (infos : List (String × ChannelNodeInfo))
    → Memᴰ e (filter (dec_fresh now) infos)
    → Memᴰ e infos × IsFresh now e
mem-filter_sound now e [] i = elim i [ ]
mem-filter_sound now e (x ∷ infos) i =
    let rest = filter (dec_fresh now) infos in
    elim (dec_fresh now x) [
      | yes p ↦
          elim (Mem-cases e x rest
            (subst (λ l. Memᴰ e l) (if_pos (dec_fresh now x) p (x ∷ rest) rest) i)) [
              | inl same ↦ (Memᴰ.head same, subst (λ y. IsFresh now y) (sym same) p)
              | inr k ↦
                  let (there, fresh) = mem-filter_sound now e infos k in (Memᴰ.tail there, fresh)
            ]
      | no p ↦
          let (there, fresh) =
            mem-filter_sound now e infos
              (subst (λ l. Memᴰ e l) (if_neg (dec_fresh now x) p (x ∷ rest) rest) i) in
          (Memᴰ.tail there, fresh)
    ]

mem-filter_complete :
    (now : ℕ) (e : String × ChannelNodeInfo) (infos : List (String × ChannelNodeInfo))
    → Memᴰ e infos
    → IsFresh now e
    → Memᴰ e (filter (dec_fresh now) infos)
mem-filter_complete now e [] i f = elim i [ ]
mem-filter_complete now e (x ∷ infos) i f = elim (dec_fresh now x) [
  | yes p ↦ rw (if_pos (dec_fresh now x) p) (elim (Mem-cases e x infos i) [
    | inl same ↦ Memᴰ.head same
    | inr k ↦ Memᴰ.tail (mem-filter_complete now e infos k f)
  ])
  | no p ↦ rw (if_neg (dec_fresh now x) p) (elim (Mem-cases e x infos i) [
    | inl same ↦ absurd (p (subst (λ y. IsFresh now y) same f))
    | inr k ↦ mem-filter_complete now e infos k f
  ])
]

has-mem :
    (url : String) (infos : List (String × ChannelNodeInfo))
    → Maps.has url infos ≡ true
    → (info : ChannelNodeInfo) × Memᴰ (url, info) infos
unfolding Maps.has
has-mem url [] h = absurd (cc h)
has-mem url ((u, x) ∷ infos) h = elim (Bool-cases (u == url)) [
  | inl t ↦ (x, Memᴰ.head (λ i. (sym ((eq_iff u url).0 t) i, x)))
  | inr f ↦ let (info, there) = has-mem url infos (ground (arith, f, h)) in (info, Memᴰ.tail there)
]

mem-has :
    (url : String) (info : ChannelNodeInfo) (infos : List (String × ChannelNodeInfo))
    → Memᴰ (url, info) infos
    → Maps.has url infos ≡ true
unfolding Maps.has
mem-has url info [] i = elim i [ ]
mem-has url info ((u, x) ∷ infos) i = elim (Mem-cases (url, info) (u, x) infos i) [
  | inl same ↦ let e : url ≡ u = λ t. (same t).0 in ground (arith, (eq_iff u url).1 (sym e))
  | inr k ↦ ground (arith, mem-has url info infos k)
]

-- A node as it was known, without the announcements that have expired.
abbrev pub without_expired : (now : ℕ) → RemoteNode → RemoteNode
without_expired now n = record n {
  channel_node_info_by_channel = filter (dec_fresh now) n.channel_node_info_by_channel;
}

pruned_lem : (now : ℕ) (n : RemoteNode) → prune_channel_node_infos now n ≡ without_expired now n
unfolding prune_channel_node_infos
pruned_lem now n = λ i. record n {
  channel_node_info_by_channel = prune-filter now n.channel_node_info_by_channel i;
}

-- A node of the list, as it was known before: it has an announcement on the channel that is at most two
-- minutes old, and it is online, or nodes that are offline are asked for too.
abbrev pub IsListed :
    (now : ℕ) → RemoteNodeManager → (url : String) (include_offline : Bool) → RemoteNode → Type 0
IsListed now m url include_offline n =
    (id : String) × (old : RemoteNode) × (info : ChannelNodeInfo) × Memᴰ (id, old)
      m.node.remote_nodes
    × Memᴰ (url, info) old.channel_node_info_by_channel
    × IsFresh now (url, info)
    × ((include_offline || old.is_online) ≡ true)
    × (n ≡ without_expired now old)

-- The nodes that are listed for a channel are exactly the known nodes with an announcement on it that is
-- at most two minutes old, those that are offline left out unless they are asked for; each comes with
-- all of its announcements that are that young, in their order, and no others.
pub get_remote_nodes_in_channel_lem :
    (now : ℕ) (m : RemoteNodeManager) (url : String) (include_offline : Bool) (n : RemoteNode)
    → Memᴰ n (get_remote_nodes_in_channel now m url include_offline).1
      ↔ IsListed now m url include_offline n
unfolding get_remote_nodes_in_channel prune_remote_nodes
get_remote_nodes_in_channel_lem now m url inc n =
    let on_channel : RemoteNode → Bool = λ x. Maps.has url x.channel_node_info_by_channel in
    let ns = prune_nodes now m.node.remote_nodes in
    (
      λ i.
          let (id, there, h) : (id : String) × Memᴰ (id, n) ns × (listed inc on_channel n ≡ true) =
            select_nodes_sound inc on_channel ns n i in
          let (old, known, same) : (old : RemoteNode) × Memᴰ (id, old) m.node.remote_nodes
              × (n ≡ prune_channel_node_infos now old) =
            prune_nodes_sound now m.node.remote_nodes id n there in
          let filtered = same ∙ pruned_lem now old in
          let kept = subst (λ y. listed inc on_channel y ≡ true) filtered h in
          let fresh_infos = filter (dec_fresh now) old.channel_node_info_by_channel in
          let (info, among) : (info : ChannelNodeInfo) × Memᴰ (url, info) fresh_infos =
            has-mem url fresh_infos (ground (arith, kept)) in
          let (announced, fresh) =
            mem-filter_sound now (url, info) old.channel_node_info_by_channel among in
          (id, old, info, known, announced, fresh, ground (arith, kept), filtered),
      λ (id, old, info, known, announced, fresh, shown, same).
          let infos = filter (dec_fresh now) old.channel_node_info_by_channel in
          let has = mem-has url info infos (
            mem-filter_complete now (url, info) old.channel_node_info_by_channel announced fresh) in
          let back = sym (pruned_lem now old) in
          let kept : dropped (without_expired now old) ≡ false =
            ground (arith, has-length url infos has) in
          let there =
            prune_nodes_complete now m.node.remote_nodes id old known
              (subst (λ y. dropped y ≡ false) back kept) in
          let listed_old : listed inc on_channel (without_expired now old) ≡ true =
            ground (arith, has, shown) in
          subst (λ y. Memᴰ y (select_nodes inc on_channel ns)) (sym (same ∙ back))
            (select_nodes_complete inc on_channel ns id (prune_channel_node_infos now old) there
              (subst (λ y. listed inc on_channel y ≡ true) back listed_old)),
    )
