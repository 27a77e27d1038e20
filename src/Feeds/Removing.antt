-- ===== src/Feeds/Removing.antt =====
-- NewIncomingSubfeedSubscriptionManager: the timers that remove a subscription.
use kachery_p2p.Base.{
  ℕ, ◌+◌, ◌-◌, ◌≤◌, ◌<◌, ◌≡◌, refl, ◌∙◌, ◌⊎◌, inl, inr, List, [], ◌∷◌, none, some, String, arith,
  ltb, All, Option-cases, Bool-cases,
}
use kachery_p2p.Base.Maps
use kachery_p2p.Base.Maps.{IsMap}
use kachery_p2p.GarbageMap
use kachery_p2p.GarbageMap.{GarbageMap, Entry, check_garbage_collection}
use kachery_p2p.GarbageMap.Collecting.{check-only, check-IsMap, check-keeps, check-timeout}
use kachery_p2p.GarbageMap.Laws.{delete-keeps, delete-none, delete-timeout, delete_keeps_IsMap}
use kachery_p2p.Feeds.Codes.{Code, code_eq, make_subscription_code, make_subfeed_code}
use kachery_p2p.Feeds.Incoming.{
  IncomingSubfeedSubscription, IncomingManager, Timer, incoming_lifetime_msec,
  check_remove_incoming,
}

abbrev pub IsIn : Code → List Code → Type 0
IsIn c [] = ⊥
IsIn c (d ∷ ds) = (d ≡ c) ⊎ IsIn c ds

-- The manager's maps are as they are after its operations.
pub record IsValid (m : IncomingManager) : Type 0 where
  pub distinct : IsMap m.incoming_subscriptions.entries
  pub distinct_codes : IsMap m.subscription_codes_by_subfeed_code.entries
  pub limit : m.incoming_subscriptions.expiration_timeout_msec ≡ some incoming_lifetime_msec
  pub limit_codes :
      m.subscription_codes_by_subfeed_code.expiration_timeout_msec ≡ some incoming_lifetime_msec

abbrev pub subscription_of : (now : ℕ) (node feed_id hash : String) → IncomingSubfeedSubscription
subscription_of now node feed_id hash = record {
  remote_node_id = node;
  feed_id = feed_id;
  subfeed_hash = hash;
  last_renew_timestamp = now;
}

-- The node has subscribed at that time, in both maps.
pub record HasSubscription (now : ℕ) (node feed_id hash : String) (m : IncomingManager)
    : Type 0 where
  pub valid : IsValid m
  pub codes : List Code
  pub member : IsIn (make_subscription_code node feed_id hash) codes
  pub listed :
      Maps.get (make_subfeed_code feed_id hash) m.subscription_codes_by_subfeed_code.entries
      ≡ some (record { value = codes; timestamp = now })
  pub found :
      Maps.get (make_subscription_code node feed_id hash) m.incoming_subscriptions.entries
      ≡ some (record { value = subscription_of now node feed_id hash; timestamp = now })

-- Timers fire, one after the other.
unfoldable pub fire_timers : IncomingManager → List Timer → IncomingManager
fire_timers m [] = m
fire_timers m (t ∷ timers) =
    fire_timers (check_remove_incoming t.due m t.remote_node_id t.feed_id t.subfeed_hash) timers

-- What one timer does to the map of subscriptions: it only collects, or it deletes the subscription of its
-- code, when that is older than a minute.
check_remove-cases :
    (t : ℕ) (m : IncomingManager) (node feed_id hash : String)
    → let code = make_subscription_code node feed_id hash in
      let g = check_garbage_collection t m.incoming_subscriptions in
      let after = check_remove_incoming t m node feed_id hash in
      ((after ≡ record m { incoming_subscriptions = g })
        × ((Maps.get code g.entries ≡ none)
            ⊎ ((x : Entry IncomingSubfeedSubscription) × (Maps.get code g.entries ≡ some x)
                × (t ≤ x.value.last_renew_timestamp + 60000))))
      ⊎ ((after ≡ record m { incoming_subscriptions = GarbageMap.delete t g code })
          × ((x : Entry IncomingSubfeedSubscription) × (Maps.get code g.entries ≡ some x)
              × (x.value.last_renew_timestamp + 60000 < t)))
unfolding check_remove_incoming GarbageMap.get
check_remove-cases t m node feed_id hash =
    let code = make_subscription_code node feed_id hash in
    let g = check_garbage_collection t m.incoming_subscriptions in
    elim (Option-cases (Maps.get code g.entries)) [
      | inl gone ↦ inl (ground (arith, gone), inl gone)
      | inr (x, there) ↦ elim (Bool-cases (ltb 60000 (t - x.value.last_renew_timestamp))) [
        | inl old ↦ inr (ground (arith, there, old), (x, there, ground (arith, old)))
        | inr young ↦ inl (ground (arith, there, young), inr (x, there, ground (arith, young)))
      ]
    ]

module _ (now : ℕ) (node feed_id hash : String) where
  -- A timer that fires within a minute leaves the subscription.
  check_remove-HasSubscription :
      (t : Timer) (m : IncomingManager)
      → t.due ≤ now + 60000
      → HasSubscription now node feed_id hash m
      → HasSubscription now node feed_id hash
          (check_remove_incoming t.due m t.remote_node_id t.feed_id t.subfeed_hash)
  check_remove-HasSubscription t m soon h =
      let code = make_subscription_code node feed_id hash in
      let other = make_subscription_code t.remote_node_id t.feed_id t.subfeed_hash in
      let new : Entry IncomingSubfeedSubscription = record {
        value = subscription_of now node feed_id hash;
        timestamp = now;
      } in
      let g = check_garbage_collection t.due m.incoming_subscriptions in
      let v = h.valid in
      let distinct = check-IsMap t.due m.incoming_subscriptions v.distinct in
      let limit = check-timeout t.due m.incoming_subscriptions ∙ v.limit in
      let kept : Maps.get code g.entries ≡ some new =
        check-keeps t.due m.incoming_subscriptions code new v.distinct h.found
          (rw v.limit (omega (arith, soon))) in
      elim (check_remove-cases t.due m t.remote_node_id t.feed_id t.subfeed_hash) [
        | inl (e, c) ↦ rw e (record {
          valid = record {
            distinct = distinct;
            distinct_codes = v.distinct_codes;
            limit = limit;
            limit_codes = v.limit_codes;
          };
          codes = h.codes;
          member = h.member;
          listed = h.listed;
          found = kept;
        })
        | inr (e, (x, there, old)) ↦
            let differs : ¬ (other ≡ code) = λ same. ground (arith, soon, old, there, kept, same) in
            rw e (record {
              valid = record {
                distinct = delete_keeps_IsMap t.due g other distinct;
                distinct_codes = v.distinct_codes;
                limit = delete-timeout t.due g other ∙ limit;
                limit_codes = v.limit_codes;
              };
              codes = h.codes;
              member = h.member;
              listed = h.listed;
              found =
                  delete-keeps t.due g other code new distinct kept (rw limit (omega (arith, soon)))
                    differs;
            })
      ]

  pub fire_timers-HasSubscription :
      (timers : List Timer) (m : IncomingManager)
      → HasSubscription now node feed_id hash m
      → All (λ t. t.due ≤ now + 60000) timers
      → HasSubscription now node feed_id hash (fire_timers m timers)
  unfolding fire_timers
  fire_timers-HasSubscription [] m h fired = h
  fire_timers-HasSubscription (t ∷ timers) m h (soon, fired) =
      fire_timers-HasSubscription timers
        (check_remove_incoming t.due m t.remote_node_id t.feed_id t.subfeed_hash)
        (check_remove-HasSubscription t m soon h) fired

  -- A timer that fires later removes it.
  pub check_remove-removes :
      (late : ℕ) (m : IncomingManager)
      → IsMap m.incoming_subscriptions.entries
      → Maps.get (make_subscription_code node feed_id hash) m.incoming_subscriptions.entries
        ≡ some (record { value = subscription_of now node feed_id hash; timestamp = now })
      → now + 60000 < late
      → Maps.get
          (make_subscription_code node feed_id hash)
          (check_remove_incoming late m node feed_id hash).incoming_subscriptions.entries
        ≡ none
  check_remove-removes late m distinct found over =
      let code = make_subscription_code node feed_id hash in
      let g = check_garbage_collection late m.incoming_subscriptions in
      elim (check_remove-cases late m node feed_id hash) [
        | inl (e, inl gone) ↦ rw e gone
        | inl (e, inr (x, there, young)) ↦
            let before = check-only late m.incoming_subscriptions code x there in
            absurd (ground (arith, over, young, before, found))
        | inr (e, gone) ↦ rw e (
            delete-none late g code code (check-IsMap late m.incoming_subscriptions distinct)
              (inl refl))
      ]
