-- ===== src/Nodes/Choice.antt =====
-- SendMessageMethodOptimizer: which way a request is sent.
use kachery_p2p.Base.{
  ◌≡◌, refl, ◌⊎◌, inl, inr, Bool, true, false, Option, none, some, arith, if◌then◌else◌, Bool-cases,
}
use kachery_p2p.Nodes.{RemoteNode}
use kachery_p2p.Nodes.Routes.{Node}
use kachery_p2p.Nodes.Methods.{
  SendRequestMethod, default, http, http_proxy, udp, websocket, prefer_udp, prefer_http,
  udp_fallback, is_available, determine_preferring_http, determine_send_request_method,
}

abbrev pub is_a_way : SendRequestMethod → Bool
is_a_way http = true
is_a_way http_proxy = true
is_a_way udp = true
is_a_way websocket = true
is_a_way _ = false

-- Whether a request for a method may be sent in this way.
abbrev pub allows : (asked way : SendRequestMethod) → Bool
allows http http = true
allows http _ = false
allows http_proxy http_proxy = true
allows http_proxy _ = false
allows udp udp = true
allows udp _ = false
allows websocket websocket = true
allows websocket _ = false
allows udp_fallback udp = false
allows asked way = is_a_way way

-- What is chosen for a method: a way that it allows and that leads to the node, or nothing where there is
-- none.
abbrev pub IsChoice :
    Node → RemoteNode → (asked : SendRequestMethod) → Option SendRequestMethod → Type 0
IsChoice node n asked chosen =
    ((way : SendRequestMethod) × (chosen ≡ some way)
      × (allows asked way ≡ true)
      × (is_available node n way ≡ true))
    ⊎ ((chosen ≡ none)
        × ((way : SendRequestMethod) → allows asked way ≡ true → is_available node n way ≡ false))

no_way :
    (node : Node) (n : RemoteNode) (asked : SendRequestMethod)
    → (allows asked http ≡ true → is_available node n http ≡ false)
    → (allows asked http_proxy ≡ true → is_available node n http_proxy ≡ false)
    → (allows asked udp ≡ true → is_available node n udp ≡ false)
    → (allows asked websocket ≡ true → is_available node n websocket ≡ false)
    → (way : SendRequestMethod) → allows asked way ≡ true
    → is_available node n way ≡ false
unfolding is_available
no_way node n asked h p u w http a = h a
no_way node n asked h p u w http_proxy a = p a
no_way node n asked h p u w udp a = u a
no_way node n asked h p u w websocket a = w a
no_way node n asked h p u w default a = refl
no_way node n asked h p u w prefer_udp a = refl
no_way node n asked h p u w prefer_http a = refl
no_way node n asked h p u w udp_fallback a = refl

preferring_http_lem :
    (node : Node) (n : RemoteNode) → IsChoice node n default (determine_preferring_http node n)
unfolding determine_preferring_http
preferring_http_lem node n = elim (Bool-cases (is_available node n http)) [
  | inl h ↦ inl (http, rw h refl, refl, h)
  | inr no_http ↦ elim (Bool-cases (is_available node n websocket)) [
    | inl w ↦ inl (websocket, rw (no_http, w) refl, refl, w)
    | inr no_socket ↦ elim (Bool-cases (is_available node n udp)) [
      | inl u ↦ inl (udp, ground arith, refl, u)
      | inr no_udp ↦ elim (Bool-cases (is_available node n http_proxy)) [
        | inl p ↦ inl (http_proxy, ground arith, refl, p)
        | inr no_proxy ↦ inr (
          ground arith,
          no_way node n default (λ a. no_http) (λ a. no_proxy) (λ a. no_udp) (λ a. no_socket),
        )
      ]
    ]
  ]
]

fallback_lem :
    (node : Node) (n : RemoteNode)
    → IsChoice node n udp_fallback (determine_send_request_method node n udp_fallback)
unfolding determine_send_request_method
fallback_lem node n = elim (Bool-cases (is_available node n http)) [
  | inl h ↦ inl (http, rw h refl, refl, h)
  | inr no_http ↦ elim (Bool-cases (is_available node n websocket)) [
    | inl w ↦ inl (websocket, rw (no_http, w) refl, refl, w)
    | inr no_socket ↦ elim (Bool-cases (is_available node n http_proxy)) [
      | inl p ↦ inl (http_proxy, rw (no_http, no_socket, p) refl, refl, p)
      | inr no_proxy ↦ inr (
        rw (no_http, no_socket, no_proxy) refl,
        no_way node n udp_fallback (λ a. no_http) (λ a. no_proxy) (λ a. absurd (cc a))
            (λ a. no_socket),
      )
    ]
  ]
]

-- A method that is a way of its own is chosen if it leads to the node.
single_lem :
    (node : Node) (n : RemoteNode) (asked : SendRequestMethod)
    → allows asked asked ≡ true
    → ((way : SendRequestMethod)
        → allows asked way ≡ true
        → is_available node n asked ≡ false
        → is_available node n way ≡ false)
    → IsChoice node n asked (if is_available node n asked then some asked else none)
single_lem node n asked a only = elim (Bool-cases (is_available node n asked)) [
  | inl h ↦ inl (asked, rw h refl, a, h)
  | inr closed ↦ inr (rw closed refl, λ way a. only way a closed)
]

-- Whatever method is asked for, a request is sent in a way that the method allows and that leads to the
-- node, and a way is found whenever there is one.
pub determine_send_request_method_lem :
    (node : Node) (n : RemoteNode) (asked : SendRequestMethod)
    → IsChoice node n asked (determine_send_request_method node n asked)
unfolding determine_send_request_method
determine_send_request_method_lem node n udp_fallback = fallback_lem node n
determine_send_request_method_lem node n default = preferring_http_lem node n
determine_send_request_method_lem node n prefer_http = preferring_http_lem node n
determine_send_request_method_lem node n prefer_udp = elim (Bool-cases (is_available node n udp)) [
  | inl u ↦ inl (udp, rw u refl, refl, u)
  | inr closed ↦ rw closed (preferring_http_lem node n)
]
determine_send_request_method_lem node n http = single_lem node n http refl (λ way a closed.
    no_way node n http (λ b. closed) (λ b. absurd (cc b)) (λ b. absurd (cc b)) (λ b. absurd (cc b))
      way a)
determine_send_request_method_lem node n http_proxy =
    single_lem node n http_proxy refl (λ way a closed.
      no_way node n http_proxy (λ b. absurd (cc b)) (λ b. closed) (λ b. absurd (cc b))
        (λ b. absurd (cc b)) way a)
determine_send_request_method_lem node n udp = single_lem node n udp refl (λ way a closed.
    no_way node n udp (λ b. absurd (cc b)) (λ b. absurd (cc b)) (λ b. closed) (λ b. absurd (cc b))
      way a)
determine_send_request_method_lem node n websocket =
    single_lem node n websocket refl (λ way a closed.
      no_way node n websocket (λ b. absurd (cc b)) (λ b. absurd (cc b)) (λ b. absurd (cc b))
        (λ b. closed) way a)
