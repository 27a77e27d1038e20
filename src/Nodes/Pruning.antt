-- ===== src/Nodes/Pruning.antt =====
-- RemoteNodeManager: what pruning and a selection of the known nodes leave.
use kachery_p2p.Base.{
  ℕ, ◌+◌, ◌≤◌, leb, leb→le, ◌≡◌, refl, sym, subst, ◌⊎◌, inl, inr, ◌↔◌, Bool, true, false, not, ◌&&◌,
  ◌||◌, List, [], ◌∷◌, String, arith, length, if◌then◌else◌, ◌==◌, string_eq, nat_eq, Bool-cases,
}
use mathlib.Core.Logic.{if_pos, if_neg}
use mathlib.Core.List.{Memᴰ, filter}
use kachery_p2p.Base.Maps
use kachery_p2p.Base.Maps.{All-get, has-get, has_of_get}
use kachery_p2p.Nodes.{
  ChannelNodeInfo, RemoteNode, channel_node_info_is_expired, prune, prune_channel_node_infos,
}
use kachery_p2p.Nodes.Manager.{prune_nodes, select_nodes}

-- The announcements that have not expired, two minutes after they were made at the latest.
abbrev pub IsFresh : (now : ℕ) → String × ChannelNodeInfo → Type 0
IsFresh now e = now ≤ e.1.timestamp + 120000

not-leb : (a b : ℕ) → leb a b ≡ false → ¬ (a ≤ b)
not-leb a b f = ground (arith, f)

pub dec_fresh : (now : ℕ) (e : String × ChannelNodeInfo) → Dec (IsFresh now e)
dec_fresh now e = elim (Bool-cases (leb now (e.1.timestamp + 120000))) [
  | inl t ↦ yes (leb→le now (e.1.timestamp + 120000) t)
  | inr f ↦ no (not-leb now (e.1.timestamp + 120000) f)
]

expired_iff :
    (now : ℕ) (info : ChannelNodeInfo)
    → (channel_node_info_is_expired now info ≡ false) ↔ (now ≤ info.timestamp + 120000)
unfolding channel_node_info_is_expired
expired_iff now info = ground arith

expired :
    (now : ℕ) (info : ChannelNodeInfo)
    → ¬ (now ≤ info.timestamp + 120000)
    → channel_node_info_is_expired now info ≡ true
unfolding channel_node_info_is_expired
expired now info old = ground (arith, old)

-- Pruning is the filter of the library.
pub prune-filter :
    (now : ℕ) (infos : List (String × ChannelNodeInfo))
    → prune now infos ≡ filter (dec_fresh now) infos
unfolding prune
prune-filter now [] = refl
prune-filter now ((url, info) ∷ infos) =
    let rest = prune-filter now infos in
    elim (dec_fresh now (url, info)) [
      | yes p ↦
          rw (if_pos (dec_fresh now (url, info)) p, (expired_iff now info).1 p)
            (λ i. (url, info) ∷ rest i)
      | no p ↦ rw (if_neg (dec_fresh now (url, info)) p, expired now info p) rest
    ]

pub has-length :
    (url : String) (infos : List (String × ChannelNodeInfo))
    → Maps.has url infos ≡ true
    → (length infos == 0) ≡ false
unfolding Maps.has
has-length url [] h = cc
has-length url (e ∷ infos) h = ground arith

pub Mem-cases {ℓ} : {A : Type ℓ} (a x : A) (xs : List A) → Memᴰ a (x ∷ xs) → (a ≡ x) ⊎ Memᴰ a xs
Mem-cases a x xs (Memᴰ.head same) = inl same
Mem-cases a x xs (Memᴰ.tail i) = inr i

Mem-if {ℓ} :
    {A : Type ℓ} (b : Bool) (a x : A) (xs : List A) → Memᴰ a xs → Memᴰ a (if b then x ∷ xs else xs)
Mem-if true a x xs i = Memᴰ.tail i
Mem-if false a x xs i = i

Mem-unless {ℓ} :
    {A : Type ℓ} (b : Bool) (a x : A) (xs : List A) → Memᴰ a xs → Memᴰ a (if b then xs else x ∷ xs)
Mem-unless true a x xs i = i
Mem-unless false a x xs i = Memᴰ.tail i

-- Whether a node is listed.
abbrev pub listed : (include_offline : Bool) (passes : RemoteNode → Bool) → RemoteNode → Bool
listed inc passes n = (inc || n.is_online) && passes n

pub select_nodes_sound :
    (inc : Bool) (passes : RemoteNode → Bool) (ns : List (String × RemoteNode)) (n : RemoteNode)
    → Memᴰ n (select_nodes inc passes ns)
    → (id : String) × Memᴰ (id, n) ns × (listed inc passes n ≡ true)
unfolding select_nodes
select_nodes_sound inc passes [] n i = elim i [ ]
select_nodes_sound inc passes ((id, x) ∷ ns) n i =
    let rest = select_nodes inc passes ns in
    let later : Memᴰ n rest
        → (id' : String) × Memᴰ (id', n) ((id, x) ∷ ns) × (listed inc passes n ≡ true) =
      λ k.
        let (j, there, h) : (j : String) × Memᴰ (j, n) ns × (listed inc passes n ≡ true) =
          select_nodes_sound inc passes ns n k in
        (j, Memᴰ.tail there, h) in
    elim (Bool-cases (listed inc passes x)) [
      | inr e ↦ later (subst (λ b. Memᴰ n (if b then x ∷ rest else rest)) e i)
      | inl e ↦ elim (Mem-cases n x rest (subst (λ b. Memᴰ n (if b then x ∷ rest else rest)) e i)) [
        | inl same ↦ (
          id,
          subst (λ y. Memᴰ (id, y) ((id, x) ∷ ns)) (sym same) (Memᴰ.head refl),
          subst (λ y. listed inc passes y ≡ true) (sym same) e,
        )
        | inr k ↦ later k
      ]
    ]

pub select_nodes_complete :
    (inc : Bool) (passes : RemoteNode → Bool) (ns : List (String × RemoteNode)) (id : String)
    (n : RemoteNode)
    → Memᴰ (id, n) ns
    → listed inc passes n ≡ true
    → Memᴰ n (select_nodes inc passes ns)
unfolding select_nodes
select_nodes_complete inc passes [] id n i h = elim i [ ]
select_nodes_complete inc passes ((j, x) ∷ ns) id n i h =
    let rest = select_nodes inc passes ns in
    elim (Mem-cases (id, n) (j, x) ns i) [
      | inl same ↦
          let same_node : n ≡ x = λ t. (same t).1 in
          subst (λ b. Memᴰ n (if b then x ∷ rest else rest))
            (sym (subst (λ y. listed inc passes y ≡ true) same_node h)) (Memᴰ.head same_node)
      | inr k ↦ Mem-if (listed inc passes x) n x rest (select_nodes_complete inc passes ns id n k h)
    ]

-- Whether a node is dropped.
abbrev pub dropped : RemoteNode → Bool
dropped n = not n.is_bootstrap && length n.channel_node_info_by_channel == 0

pub prune_nodes_sound :
    (now : ℕ) (ns : List (String × RemoteNode)) (id : String) (n : RemoteNode)
    → Memᴰ (id, n) (prune_nodes now ns)
    → (old : RemoteNode) × Memᴰ (id, old) ns × (n ≡ prune_channel_node_infos now old)
unfolding prune_nodes
prune_nodes_sound now [] id n i = elim i [ ]
prune_nodes_sound now ((j, x) ∷ ns) id n i =
    let rest = prune_nodes now ns in
    let pruned = prune_channel_node_infos now x in
    let later : Memᴰ (id, n) rest
        → (old : RemoteNode) × Memᴰ (id, old) ((j, x) ∷ ns)
          × (n ≡ prune_channel_node_infos now old) =
      λ k.
        let (old, there, h) : (old : RemoteNode) × Memᴰ (id, old) ns
            × (n ≡ prune_channel_node_infos now old) =
          prune_nodes_sound now ns id n k in
        (old, Memᴰ.tail there, h) in
    elim (Bool-cases (dropped pruned)) [
      | inl e ↦ later (subst (λ b. Memᴰ (id, n) (if b then rest else (j, pruned) ∷ rest)) e i)
      | inr e ↦
          elim (Mem-cases (id, n) (j, pruned) rest
            (subst (λ b. Memᴰ (id, n) (if b then rest else (j, pruned) ∷ rest)) e i)) [
              | inl same ↦ (x, Memᴰ.head (λ t. ((same t).0, x)), λ t. (same t).1)
              | inr k ↦ later k
            ]
    ]

pub prune_nodes_complete :
    (now : ℕ) (ns : List (String × RemoteNode)) (id : String) (old : RemoteNode)
    → Memᴰ (id, old) ns
    → dropped (prune_channel_node_infos now old) ≡ false
    → Memᴰ (id, prune_channel_node_infos now old) (prune_nodes now ns)
unfolding prune_nodes
prune_nodes_complete now [] id old i h = elim i [ ]
prune_nodes_complete now ((j, x) ∷ ns) id old i h =
    let rest = prune_nodes now ns in
    let pruned = prune_channel_node_infos now x in
    let n = prune_channel_node_infos now old in
    elim (Mem-cases (id, old) (j, x) ns i) [
      | inl same ↦
          let same_node : old ≡ x = λ t. (same t).1 in
          subst (λ b. Memᴰ (id, n) (if b then rest else (j, pruned) ∷ rest))
            (sym (subst (λ y. dropped (prune_channel_node_infos now y) ≡ false) same_node h))
            (Memᴰ.head (λ t. ((same t).0, prune_channel_node_infos now (same_node t))))
      | inr k ↦
          Mem-unless (dropped pruned) (id, n) (j, pruned) rest
            (prune_nodes_complete now ns id old k h)
    ]
