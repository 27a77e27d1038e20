-- ===== src/Feeds/Outgoing.antt =====
-- daemon/src/feeds/NewOutgoingSubfeedSubscriptionManager.ts: subscriptions to subfeeds of other nodes.
-- A subscription is an object that the map refers to: a renewal changes it where it is, and leaves the
-- timestamp of its entry. `requests` and `reports` record the calls of the other components; `timers`
-- are the times at which `_checkRemove` is called, with its arguments.
use kachery_p2p.Base.{
  ℕ, ◌+◌, ◌-◌, ◌*◌, Bool, true, false, List, [], ◌∷◌, ◌++◌, Option, none, some, String, ltb,
  if◌then◌else◌,
}
use kachery_p2p.Base.Maps
use kachery_p2p.GarbageMap
use kachery_p2p.GarbageMap.{GarbageMap, Entry}
use kachery_p2p.Feeds.{Result, ok, err}
use kachery_p2p.Feeds.Codes.{Code, code_eq, make_subscription_code}

pub record OutgoingSubfeedSubscription : Type 0 where
  pub remote_node_id : String
  pub feed_id : String
  pub subfeed_hash : String
  pub last_renew_timestamp : ℕ

pub record Target : Type 0 where
  pub remote_node_id : String
  pub feed_id : String
  pub subfeed_hash : String

pub record OutgoingManager : Type 0 where
  pub outgoing_subscriptions : GarbageMap Code OutgoingSubfeedSubscription
  pub requests : List Target
  pub reports : List (Target × ℕ)
  pub timers : List (ℕ × Target)

abbrev pub duration_msec : ℕ
duration_msec = 1000 * 60

abbrev pub subscription_lifetime_msec : ℕ
subscription_lifetime_msec = 300 * 60 * 1000

unfoldable pub new_outgoing_manager : ℕ → OutgoingManager
new_outgoing_manager now = record {
  outgoing_subscriptions = GarbageMap.new_garbage_map now (some subscription_lifetime_msec);
  requests = [];
  reports = [];
  timers = [];
}

-- An object of the map is changed where it is.
unfoldable pub modify :
    Code
    → (OutgoingSubfeedSubscription → OutgoingSubfeedSubscription)
    → List (Code × Entry OutgoingSubfeedSubscription)
    → List (Code × Entry OutgoingSubfeedSubscription)
modify k f m = elim (Maps.get k m) [
  | none ↦ m
  | some entry ↦ Maps.set k (record entry { value = f entry.value }) m
]

abbrev pub code_of : Target → Code
code_of t = make_subscription_code t.remote_node_id t.feed_id t.subfeed_hash

-- A new subscription; its timestamp is the zero timestamp.
abbrev pub new_subscription : Target → OutgoingSubfeedSubscription
new_subscription t = record {
  remote_node_id = t.remote_node_id;
  feed_id = t.feed_id;
  subfeed_hash = t.subfeed_hash;
  last_renew_timestamp = 0;
}

-- The subscription for the target, made if there is none.
unfoldable pub find_or_create :
    ℕ → OutgoingManager → Target → OutgoingManager × OutgoingSubfeedSubscription
find_or_create now m t =
    let r = GarbageMap.get now m.outgoing_subscriptions (code_of t) in
    elim r.1 [
      | some s ↦ (record m { outgoing_subscriptions = r.0 }, s)
      | none ↦ (
        record m {
          outgoing_subscriptions = GarbageMap.set now r.0 (code_of t) (new_subscription t);
        },
        new_subscription t,
      )
    ]

-- `renew` up to the request; whether one is sent.
unfoldable pub begin_renew :
    ℕ → OutgoingManager → OutgoingSubfeedSubscription → Target → OutgoingManager × Bool
begin_renew now m s t =
    if ltb (2 * (now - s.last_renew_timestamp)) duration_msec then (m, false) else (
      record m {
        outgoing_subscriptions = record (m.outgoing_subscriptions) {
          entries =
              modify (code_of t) (λ old. record old { last_renew_timestamp = now })
                m.outgoing_subscriptions.entries;
        };
        requests = m.requests ++ t ∷ [];
      },
      true,
    )

-- The rest of it, with the response: the number of messages of the remote node, if it knows it.
unfoldable pub finish_renew :
    OutgoingManager → Target → Result (Option ℕ) → OutgoingManager × Result (Unit {0})
finish_renew m t (err e) = (m, err e)
finish_renew m t (ok none) = (m, ok tt)
finish_renew m t (ok (some n)) = (record m { reports = m.reports ++ (t, n) ∷ [] }, ok tt)

-- Behind the renewal: the timer, or the exception.
abbrev pub set_timer :
    ℕ → Target → OutgoingManager × Result (Unit {0}) → OutgoingManager × Result (Unit {0})
set_timer now t (m, err e) = (m, err e)
set_timer now t (m, ok u) =
    (record m { timers = m.timers ++ (now + duration_msec + 5000, t) ∷ [] }, ok u)

-- The response comes in at the time `later`.
unfoldable pub create_or_renew_outgoing_subscription :
    (now later : ℕ) (response : Result (Option ℕ))
    → OutgoingManager
    → Target
    → OutgoingManager × Result (Unit {0})
create_or_renew_outgoing_subscription now later response m t =
    let f = find_or_create now m t in
    let b = begin_renew now f.0 f.1 t in
    elim b.1 [
      | false ↦ set_timer now t (b.0, ok tt)
      | true ↦ set_timer later t (finish_renew b.0 t response)
    ]

unfoldable pub check_remove : ℕ → OutgoingManager → Target → OutgoingManager
check_remove now m t =
    let r = GarbageMap.get now m.outgoing_subscriptions (code_of t) in
    elim r.1 [
      | none ↦ record m { outgoing_subscriptions = r.0 }
      | some s ↦ record m {
        outgoing_subscriptions =
            if ltb duration_msec (now - s.last_renew_timestamp)
            then GarbageMap.delete now r.0 (code_of t)
            else r.0;
      }
    ]
