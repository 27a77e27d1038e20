-- ===== src/Feeds/Incoming.antt =====
-- daemon/src/feeds/NewIncomingSubfeedSubscriptionManager.ts: subscriptions of other nodes to subfeeds.
-- `requests` records the requests `reportNewSubfeedMessages`; `timers` are the times at which
-- `_checkRemove` is called, with its arguments.
use kachery_p2p.Base.{
  ℕ, ◌+◌, ◌-◌, ◌*◌, List, [], ◌∷◌, ◌++◌, Option, none, some, String, ltb, if◌then◌else◌, ◌==◌,
}
use kachery_p2p.Base.Maps
use kachery_p2p.GarbageMap
use kachery_p2p.GarbageMap.{GarbageMap, Entry}
use kachery_p2p.Feeds.Codes.{Code, code_eq, make_subscription_code, make_subfeed_code}

pub record IncomingSubfeedSubscription : Type 0 where
  pub remote_node_id : String
  pub feed_id : String
  pub subfeed_hash : String
  pub last_renew_timestamp : ℕ

-- A request to a node: there are `num_messages` messages in the subfeed.
pub record Report : Type 0 where
  pub to_node_id : String
  pub feed_id : String
  pub subfeed_hash : String
  pub num_messages : ℕ

pub record Timer : Type 0 where
  pub due : ℕ
  pub remote_node_id : String
  pub feed_id : String
  pub subfeed_hash : String

pub record IncomingManager : Type 0 where
  pub incoming_subscriptions : GarbageMap Code IncomingSubfeedSubscription
  pub subscription_codes_by_subfeed_code : GarbageMap Code (List Code)
  pub requests : List Report
  pub timers : List Timer

abbrev pub incoming_lifetime_msec : ℕ
incoming_lifetime_msec = 300 * 60 * 1000

unfoldable pub new_incoming_manager : ℕ → IncomingManager
new_incoming_manager now = record {
  incoming_subscriptions = GarbageMap.new_garbage_map now (some incoming_lifetime_msec);
  subscription_codes_by_subfeed_code = GarbageMap.new_garbage_map now (some incoming_lifetime_msec);
  requests = [];
  timers = [];
}

-- `{...codes, [code]: true}`, with the keys of the object in their order.
abbrev pub add_code : Code → List Code → List Code
add_code code [] = code ∷ []
add_code code (c ∷ codes) = if c == code then c ∷ codes else c ∷ add_code code codes

-- `x || {}`
abbrev pub or_empty : Option (List Code) → List Code
or_empty none = []
or_empty (some codes) = codes

-- The object in the map is renewed where it is.
unfoldable pub renew_entry :
    (now : ℕ)
    → Code
    → List (Code × Entry IncomingSubfeedSubscription)
    → List (Code × Entry IncomingSubfeedSubscription)
renew_entry now k m = elim (Maps.get k m) [
  | none ↦ m
  | some entry ↦
      let s = record (entry.value) { last_renew_timestamp = now } in
      Maps.set k (record entry { value = s }) m
]

-- The map is asked for the code of the subfeed, and a new subscription entered under its own code.
unfoldable pub create_or_renew_incoming_subscription :
    ℕ → IncomingManager → (remote_node_id feed_id subfeed_hash : String) → IncomingManager
create_or_renew_incoming_subscription now m node feed_id hash =
    let subfeed_code = make_subfeed_code feed_id hash in
    let subscription_code = make_subscription_code node feed_id hash in
    let codes = GarbageMap.get now m.subscription_codes_by_subfeed_code subfeed_code in
    let r = GarbageMap.get now m.incoming_subscriptions subfeed_code in
    let new : IncomingSubfeedSubscription = record {
      remote_node_id = node;
      feed_id = feed_id;
      subfeed_hash = hash;
      last_renew_timestamp = now;
    } in
    record m {
      subscription_codes_by_subfeed_code =
          GarbageMap.set now codes.0 subfeed_code (add_code subscription_code (or_empty codes.1));
      incoming_subscriptions = elim r.1 [
        | none ↦ GarbageMap.set now r.0 subscription_code new
        | some s ↦ record (r.0) { entries = renew_entry now subfeed_code (r.0).entries }
      ];
      timers =
          m.timers
          ++ record {
            due = now + 60000;
            remote_node_id = node;
            feed_id = feed_id;
            subfeed_hash = hash;
          }
            ∷ [];
    }

-- The loop of `reportMessagesAdded`, over the codes.
unfoldable pub report_to :
    ℕ
    → (num_messages : ℕ) → GarbageMap Code IncomingSubfeedSubscription
    → List Code
    → GarbageMap Code IncomingSubfeedSubscription × List Report
report_to now n g [] = (g, [])
report_to now n g (code ∷ codes) =
    let r = GarbageMap.get now g code in
    let rest = report_to now n r.0 codes in
    elim r.1 [
      | none ↦ rest
      | some s ↦ (
        rest.0,
        record {
          to_node_id = s.remote_node_id;
          feed_id = s.feed_id;
          subfeed_hash = s.subfeed_hash;
          num_messages = n;
        }
            ∷ rest.1,
      )
    ]

unfoldable pub report_messages_added :
    ℕ → IncomingManager → (feed_id subfeed_hash : String) (num_messages : ℕ) → IncomingManager
report_messages_added now m feed_id hash n =
    let codes =
      GarbageMap.get now m.subscription_codes_by_subfeed_code (make_subfeed_code feed_id hash) in
    let r = report_to now n m.incoming_subscriptions (or_empty codes.1) in
    record m {
      subscription_codes_by_subfeed_code = codes.0;
      incoming_subscriptions = r.0;
      requests = m.requests ++ r.1;
    }

unfoldable pub check_remove_incoming :
    ℕ → IncomingManager → (remote_node_id feed_id subfeed_hash : String) → IncomingManager
check_remove_incoming now m node feed_id hash =
    let code = make_subscription_code node feed_id hash in
    let r = GarbageMap.get now m.incoming_subscriptions code in
    record m {
      incoming_subscriptions = elim r.1 [
        | none ↦ r.0
        | some s ↦
            if ltb 60000 (now - s.last_renew_timestamp) then GarbageMap.delete now r.0 code else r.0
      ];
    }
