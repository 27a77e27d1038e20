-- ===== src/Feeds/Renewal.antt =====
-- NewOutgoingSubfeedSubscriptionManager: how often a subscription is requested.
use kachery_p2p.Base.{
  ℕ, ◌+◌, ◌≤◌, ◌<◌, ◌≡◌, ◌∙◌, refl, ap, sym, subst, List, map, All, [], ◌∷◌, ◌++◌, Option, none,
  some, arith,
}
use kachery_p2p.Base.Maps
use kachery_p2p.Base.Maps.{IsMap, get-set, set-IsMap}
use kachery_p2p.GarbageMap
use kachery_p2p.GarbageMap.{GarbageMap, Entry, check_garbage_collection}
use kachery_p2p.GarbageMap.Collecting.{check-none, check-IsMap, check-keeps, check-timeout}
use kachery_p2p.GarbageMap.Laws.{set-keeps_self, set-timeout, operations-IsMap}
use kachery_p2p.Feeds.{Result, ok, err}
use kachery_p2p.Feeds.Codes.{Code, code_eq, code_beq_iff}
use kachery_p2p.Feeds.Outgoing.{
  OutgoingSubfeedSubscription, Target, OutgoingManager, subscription_lifetime_msec, modify, code_of,
  new_subscription, find_or_create, begin_renew, finish_renew,
  create_or_renew_outgoing_subscription,
}

abbrev Subscriptions : Type 0
Subscriptions = GarbageMap Code OutgoingSubfeedSubscription

-- The map refers to a subscription for the target, renewed and entered at the time `now`.
record IsRenewed (now : ℕ) (t : Target) (g : Subscriptions) : Type 0 where
  distinct : IsMap g.entries
  limit : g.expiration_timeout_msec ≡ some subscription_lifetime_msec
  entered :
      Maps.get (code_of t) g.entries
      ≡ some (record {
        value = record (new_subscription t) { last_renew_timestamp = now };
        timestamp = now;
      })

-- A map without a subscription for the target, after one was entered.
abbrev entered_at : ℕ → Target → Subscriptions → Subscriptions
entered_at now t g =
    GarbageMap.set now (check_garbage_collection now g) (code_of t) (new_subscription t)

abbrev renewed_at : ℕ → Target → Subscriptions → Subscriptions
renewed_at now t g = record g {
  entries = modify (code_of t) (λ old. record old { last_renew_timestamp = now }) g.entries;
}

find_or_create-missing :
    (now : ℕ) (m : OutgoingManager) (t : Target)
    → IsMap m.outgoing_subscriptions.entries
    → Maps.get (code_of t) m.outgoing_subscriptions.entries ≡ none
    → find_or_create now m t ≡ (
      record m { outgoing_subscriptions = entered_at now t m.outgoing_subscriptions },
      new_subscription t,
    )
unfolding find_or_create GarbageMap.get
find_or_create-missing now m t h missing =
    let gone = check-none now m.outgoing_subscriptions (code_of t) h missing in ground (arith, gone)

renewed_at-IsRenewed :
    (now : ℕ) (t : Target) (g : Subscriptions)
    → IsMap g.entries
    → g.expiration_timeout_msec ≡ some subscription_lifetime_msec
    → IsRenewed now t (renewed_at now t (entered_at now t g))
unfolding modify
renewed_at-IsRenewed now t g h limit =
    let c = check_garbage_collection now g in
    let cm = check-IsMap now g h in
    let kept = set-keeps_self now c (code_of t) (new_subscription t) cm in
    let valid = (operations-IsMap now c (code_of t) (new_subscription t) cm).0 in
    let entry : Entry OutgoingSubfeedSubscription = record {
      value = record (new_subscription t) { last_renew_timestamp = now };
      timestamp = now;
    } in
    let entries = (entered_at now t g).entries in
    record {
      distinct = ground (arith, kept, valid, set-IsMap (code_of t) entry entries valid);
      limit = set-timeout now c (code_of t) (new_subscription t) ∙ check-timeout now g ∙ limit;
      entered = ground (
        arith,
        kept,
        get-set (code_of t) (code_of t) entry entries,
        code_beq_iff (code_of t) (code_of t),
      );
    }

first_call :
    (now later : ℕ) (response : Result (Option ℕ)) (m : OutgoingManager) (t : Target)
    → IsMap m.outgoing_subscriptions.entries
    → Maps.get (code_of t) m.outgoing_subscriptions.entries ≡ none
    → 30000 ≤ now
    → ((create_or_renew_outgoing_subscription now later response m t).1
        ≡ elim response [ err e ↦ err e | ok n ↦ ok tt ])
      × ((create_or_renew_outgoing_subscription now later response m t).0.requests
          ≡ m.requests ++ t ∷ [])
      × ((create_or_renew_outgoing_subscription now later response m t).0.outgoing_subscriptions
          ≡ renewed_at now t (entered_at now t m.outgoing_subscriptions))
unfolding create_or_renew_outgoing_subscription begin_renew finish_renew
first_call now later response m t h missing age =
    ground (arith, find_or_create-missing now m t h missing)

-- A call soon after finds it, asks for nothing, and leaves it as it is.
renewed_soon :
    (now next : ℕ) (m : OutgoingManager) (t : Target) (later : ℕ) (response : Result (Option ℕ))
    → IsRenewed now t m.outgoing_subscriptions
    → now ≤ next
    → next < now + 30000
    → let r = create_or_renew_outgoing_subscription next later response m t in
      (r.1 ≡ ok tt)
      × (r.0.requests ≡ m.requests)
      × (r.0.outgoing_subscriptions ≡ check_garbage_collection next m.outgoing_subscriptions)
unfolding create_or_renew_outgoing_subscription find_or_create begin_renew GarbageMap.get
renewed_soon now next m t later response r after soon =
    let kept =
      check-keeps next m.outgoing_subscriptions (code_of t) _ r.distinct r.entered
        (rw r.limit (omega arith)) in
    ground (arith, kept)

check-IsRenewed :
    (now next : ℕ) (t : Target) (g : Subscriptions)
    → IsRenewed now t g
    → next < now + 30000
    → IsRenewed now t (check_garbage_collection next g)
check-IsRenewed now next t g r soon = record {
  distinct = check-IsMap next g r.distinct;
  limit = check-timeout next g ∙ r.limit;
  entered = check-keeps next g (code_of t) _ r.distinct r.entered (rw r.limit (omega arith));
}

-- A call: its time, that of the response, and the response if a request is sent.
pub record Call : Type 0 where
  pub at : ℕ
  pub answered : ℕ
  pub response : Result (Option ℕ)

-- Calls for a target, one after the other, with their results.
unfoldable pub run_calls :
    Target → OutgoingManager → List Call → OutgoingManager × List (Result (Unit {0}))
run_calls t m [] = (m, [])
run_calls t m (call ∷ calls) =
    let r = create_or_renew_outgoing_subscription call.at call.answered call.response m t in
    let rest = run_calls t r.0 calls in (rest.0, r.1 ∷ rest.1)

abbrev pub IsSoon : (now : ℕ) → Call → Type 0
IsSoon now call = (now ≤ call.at) × (call.at < now + 30000)

run_calls-soon :
    (now : ℕ) (t : Target) (calls : List Call) (m : OutgoingManager)
    → IsRenewed now t m.outgoing_subscriptions
    → All (IsSoon now) calls
    → ((run_calls t m calls).0.requests ≡ m.requests)
      × ((run_calls t m calls).1 ≡ map (λ call. ok tt) calls)
      × IsRenewed now t (run_calls t m calls).0.outgoing_subscriptions
unfolding run_calls
run_calls-soon now t [] m r h = (refl, refl, r)
run_calls-soon now t (call ∷ calls) m r h =
    let (result, requests, kept) =
      renewed_soon now call.at m t call.answered call.response r h.0.0 h.0.1 in
    let next = create_or_renew_outgoing_subscription call.at call.answered call.response m t in
    let still =
      subst (IsRenewed now t) (sym kept)
        (check-IsRenewed now call.at t m.outgoing_subscriptions r h.0.1) in
    let (more, results, renewed) = run_calls-soon now t calls next.0 still h.1 in
    (more ∙ requests, λ i. result i ∷ results i, renewed)

-- A call for which the time has come sends a request again.
renewed_later :
    (now next : ℕ) (m : OutgoingManager) (t : Target) (later : ℕ) (response : Result (Option ℕ))
    → IsRenewed now t m.outgoing_subscriptions
    → now + 30000 ≤ next
    → next ≤ now + subscription_lifetime_msec
    → (create_or_renew_outgoing_subscription next later response m t).0.requests
      ≡ m.requests ++ t ∷ []
unfolding create_or_renew_outgoing_subscription find_or_create begin_renew finish_renew
    GarbageMap.get
renewed_later now next m t later response r after soon =
    let kept =
      check-keeps next m.outgoing_subscriptions (code_of t) _ r.distinct r.entered
        (rw r.limit (omega arith)) in
    ground (arith, kept)

-- A subscription is requested once in thirty seconds, whatever comes of the request. On a manager
-- without a subscription for the target, a call sends a request and ends as its response says. All further
-- calls for the target within the thirty seconds after it, in whatever number, send none and succeed,
-- even where the response was an error. The first call after the thirty seconds, and within five hours,
-- sends the next request.
pub requests_once :
    (now later next later' : ℕ) (response response' : Result (Option ℕ)) (m : OutgoingManager)
    (t : Target) (calls : List Call)
    → IsMap m.outgoing_subscriptions.entries
    → m.outgoing_subscriptions.expiration_timeout_msec ≡ some subscription_lifetime_msec
    → Maps.get (code_of t) m.outgoing_subscriptions.entries ≡ none
    → 30000 ≤ now
    → All (IsSoon now) calls
    → now + 30000 ≤ next
    → next ≤ now + subscription_lifetime_msec
    → let first = create_or_renew_outgoing_subscription now later response m t in
      let soon = run_calls t first.0 calls in
      (first.1 ≡ elim response [ err e ↦ err e | ok n ↦ ok tt ])
      × (first.0.requests ≡ m.requests ++ t ∷ [])
      × (soon.1 ≡ map (λ call. ok tt) calls)
      × (soon.0.requests ≡ m.requests ++ t ∷ [])
      × ((create_or_renew_outgoing_subscription next later' response' soon.0 t).0.requests
          ≡ (m.requests ++ t ∷ []) ++ t ∷ [])
requests_once now later next later' response response' m t calls h limit missing age soon after
      within =
    let first = create_or_renew_outgoing_subscription now later response m t in
    let (result, requests, subscriptions) = first_call now later response m t h missing age in
    let renewed =
      subst (IsRenewed now t) (sym subscriptions)
        (renewed_at-IsRenewed now t m.outgoing_subscriptions h limit) in
    let (silent, results, still) = run_calls-soon now t calls first.0 renewed soon in
    let again =
      renewed_later now next (run_calls t first.0 calls).0 t later' response' still after within in
    let before = silent ∙ requests in
    (result, requests, results, before, again ∙ ap (λ rs. rs ++ t ∷ []) before)
