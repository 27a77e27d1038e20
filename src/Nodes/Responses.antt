-- ===== src/Nodes/Responses.antt =====
-- RemoteNode.sendRequest: what a caller that gets an answer may rely on.
use kachery_p2p.Base.{
  ℕ, ◌+◌, ◌≤◌, ◌≡◌, refl, ◌⊎◌, inl, inr, Bool, true, false, List, [], ◌∷◌, Option, some, String,
  arith, string_eq, Bool-cases, Option-cases,
}
use text.Mathlib.TextEquality.{eq_iff}
use kachery_p2p.Json
use kachery_p2p.Json.{Value, is_equal_to}
use kachery_p2p.Json.Dispatch.{Request, ResponseBody}
use kachery_p2p.Nodes.{RemoteNode}
use kachery_p2p.Nodes.Routes.{Node, is_authorized_to_communicate}
use kachery_p2p.Nodes.Methods.{SendRequestMethod, determine_send_request_method}
use kachery_p2p.Nodes.Requests.{
  Route, Reply, Failure, not_authorized, Outcome, received, failed, route_of, request_type_of,
  form_request, check_response, try_send_request, send_request,
}

-- A reply that answers a request of this node to a remote node.
pub record Answers (verify : ResponseBody → (signature node_id : String) → Bool) (node : Node)
    (n : RemoteNode) (q : Request) (r : Reply) : Type 0 where
  pub same_type :
      is_equal_to (request_type_of q.request_data) (Json.get r.body.response_data "requestType")
      ≡ true
  pub from_node : r.body.from_node_id ≡ n.remote_node_id
  pub to_node : r.body.to_node_id ≡ node.node_id
  pub same_id : r.body.request_id ≡ q.request_id
  pub not_early : q.timestamp ≤ r.body.timestamp + 1000
  pub signed : verify r.body r.signature n.remote_node_id ≡ true

outcome-cases : (o : Outcome) → ((x : Value) × (o ≡ received x)) ⊎ ((f : Failure) × (o ≡ failed f))
outcome-cases (received x) = inl (x, refl)
outcome-cases (failed f) = inr (f, refl)

module _ (verify : ResponseBody → (signature node_id : String) → Bool) where
  check_response-Answers :
      (node : Node) (n : RemoteNode) (q : Request) (r : Reply) (x : Value)
      → check_response verify node n q r ≡ received x
      → Answers verify node n q r × (r.body.response_data ≡ x)
  unfolding check_response
  check_response-Answers node n q r x h = (
    record {
      same_type = ground (arith, h);
      from_node = ground (arith, h, eq_iff r.body.from_node_id n.remote_node_id);
      to_node = ground (arith, h, eq_iff r.body.to_node_id node.node_id);
      same_id = ground (arith, h, eq_iff r.body.request_id q.request_id);
      not_early = ground (arith, h);
      signed = ground (arith, h);
    },
    ground (arith, h),
  )

-- A request that is answered: this node may communicate with the other one, the request goes out once, by
-- the way that was chosen, the reply is what came back and answers it, and its data are the outcome.
pub record IsAnswered (verify : ResponseBody → (signature node_id : String) → Bool)
    (transport : Route → Request → Option Reply) (node : Node) (n : RemoteNode)
    (asked : SendRequestMethod) (q : Request) (sent : List (Route × Request)) (x : Value)
    : Type 0 where
  pub method : SendRequestMethod
  pub route : Route
  pub reply : Reply
  pub authorized : is_authorized_to_communicate node n ≡ true
  pub chosen : determine_send_request_method node n asked ≡ some method
  pub way : route_of node n method ≡ some route
  pub once : sent ≡ (route, q) ∷ []
  pub came : transport route q ≡ some reply
  pub answers : Answers verify node n q reply
  pub data_of_reply : reply.body.response_data ≡ x

-- What goes out when a request fails: nothing, or the request once.
abbrev pub AtMostOnce : Request → List (Route × Request) → Type 0
AtMostOnce q sent = (sent ≡ []) ⊎ ((route : Route) × (sent ≡ (route, q) ∷ []))

module _ (stringified_length : Request → ℕ) (sign : Request → String)
    (verify : ResponseBody → (signature node_id : String) → Bool)
    (transport : Route → Request → Option Reply) (now timeout_msec : ℕ) (request_id : String) where
  try_send_request-IsAnswered :
      (node : Node) (n : RemoteNode) (asked : SendRequestMethod) (request_data x : Value)
      → let q = form_request sign now timeout_msec request_id node n request_data in
        let sent =
          try_send_request stringified_length sign verify transport now timeout_msec request_id node
            n asked request_data in
        is_authorized_to_communicate node n ≡ true
        → sent.outcome ≡ received x
        → IsAnswered verify transport node n asked q sent.requests x
  unfolding try_send_request
  try_send_request-IsAnswered node n asked request_data x a h =
      let q = form_request sign now timeout_msec request_id node n request_data in
      elim (Option-cases (determine_send_request_method node n asked)) [
        | inl e ↦ absurd (ground (arith, e, h))
        | inr (method, e) ↦ elim (Option-cases (route_of node n method)) [
          | inl f ↦ absurd (ground (arith, e, f, h))
          | inr (route, f) ↦ elim (Option-cases (transport route q)) [
            | inl g ↦ absurd (ground (arith, e, f, g, h))
            | inr (r, g) ↦
                let checked =
                  check_response-Answers verify node n q r x (ground (arith, e, f, g, h)) in
                record {
                  method = method;
                  route = route;
                  reply = r;
                  authorized = a;
                  chosen = e;
                  way = f;
                  once = rw (e, f, g, try_send_request) refl;
                  came = g;
                  answers = checked.0;
                  data_of_reply = checked.1;
                }
          ]
        ]
      ]

  try_send_request-AtMostOnce :
      (node : Node) (n : RemoteNode) (asked : SendRequestMethod) (request_data : Value)
      → AtMostOnce
          (form_request sign now timeout_msec request_id node n request_data)
          (try_send_request stringified_length sign verify transport now timeout_msec request_id
            node n asked request_data).requests
  unfolding try_send_request
  try_send_request-AtMostOnce node n asked request_data =
      let q = form_request sign now timeout_msec request_id node n request_data in
      elim (Option-cases (determine_send_request_method node n asked)) [
        | inl e ↦ inl (rw (e, try_send_request) refl)
        | inr (method, e) ↦ elim (Option-cases (route_of node n method)) [
          | inl f ↦ inl (rw (e, f, try_send_request) refl)
          | inr (route, f) ↦ elim (Option-cases (transport route q)) [
            | inl g ↦ inr (route, rw (e, f, g, try_send_request) refl)
            | inr (r, g) ↦ inr (route, rw (e, f, g, try_send_request) refl)
          ]
        ]
      ]

  -- A request to another node ends in one of three ways. Without permission to communicate nothing is handed
  -- to the transport and what is known of the node stays as it is. With an answer, the signed request went
  -- out once, by the chosen way, and the answer came by that way: it is from that node and signed by it, for
  -- this node, with the identifier and the type of the request, and no more than a second older; the node is
  -- then online. Otherwise the request went out at most once, it fails, and the node is offline.
  pub send_request_lem :
      (node : Node) (n : RemoteNode) (asked : SendRequestMethod) (request_data : Value)
      → let q = form_request sign now timeout_msec request_id node n request_data in
        let sent =
          send_request stringified_length sign verify transport now timeout_msec request_id node n
            asked request_data in
        ((sent.outcome ≡ failed not_authorized)
          × (sent.requests ≡ [])
          × (sent.remote_node ≡ n)
          × (is_authorized_to_communicate node n ≡ false))
        ⊎ ((x : Value) × (sent.outcome ≡ received x)
            × (sent.remote_node.is_online ≡ true)
            × IsAnswered verify transport node n asked q sent.requests x)
        ⊎ ((f : Failure) × (sent.outcome ≡ failed f)
            × AtMostOnce q sent.requests
            × (sent.remote_node.is_online ≡ false)
            × (is_authorized_to_communicate node n ≡ true))
  unfolding send_request
  send_request_lem node n asked request_data =
      let q = form_request sign now timeout_msec request_id node n request_data in
      let tried =
        try_send_request stringified_length sign verify transport now timeout_msec request_id node n
          asked request_data in
      elim (Bool-cases (is_authorized_to_communicate node n)) [
        | inr b ↦ inl (rw b refl, rw b refl, rw b refl, b)
        | inl a ↦ elim (outcome-cases tried.outcome) [
          | inl (x, h) ↦ inr (
              inl (
                x,
                rw a h,
                rw (a, h) refl,
                rw a (try_send_request-IsAnswered node n asked request_data x a h),
              ))
          | inr (f, h) ↦ inr (
              inr (
                f,
                rw a h,
                rw a (try_send_request-AtMostOnce node n asked request_data),
                rw (a, h) refl,
                a,
              ))
        ]
      ]
