-- ===== src/Tests/Subscriptions.antt =====
-- Subscriptions and their theorems on concrete inputs.
use kachery_p2p.Base.{◌≡◌, refl, List, [], ◌∷◌, none, arith}
use kachery_p2p.Base.Maps
use kachery_p2p.GarbageMap
use kachery_p2p.Feeds.{ok, err, database_error}
use kachery_p2p.Feeds.Outgoing.{Target, new_outgoing_manager, create_or_renew_outgoing_subscription}
use kachery_p2p.Feeds.Incoming.{Timer}
use kachery_p2p.Feeds.Codes.{code_eq}
use kachery_p2p.Feeds.Announcing
use kachery_p2p.Feeds.Renewal
use kachery_p2p.Feeds.Renewal.{Call, run_calls}

abbrev some_target : Target
some_target = record { remote_node_id = "node"; feed_id = "feed"; subfeed_hash = "hash" }

-- The first request fails, and two calls follow within thirty seconds.
abbrev two_calls : List Call
two_calls =
    record { at = 60000; answered = 61000; response = ok none }
    ∷ record { at = 69000; answered = 69500; response = ok none }
    ∷ []

requests_once_example :
    let first =
      create_or_renew_outgoing_subscription 40000 41000
        (err database_error)
        (new_outgoing_manager 35000)
        some_target in
    let soon = run_calls some_target first.0 two_calls in
    (first.1 ≡ err database_error)
    × (first.0.requests ≡ some_target ∷ [])
    × (soon.1 ≡ ok tt ∷ ok tt ∷ [])
    × (soon.0.requests ≡ some_target ∷ [])
    × ((create_or_renew_outgoing_subscription 70000 70100 (ok none) soon.0 some_target).0.requests
        ≡ some_target ∷ some_target ∷ [])
unfolding new_outgoing_manager GarbageMap.new_garbage_map Maps.get
requests_once_example =
    Renewal.requests_once 40000 41000 70000 70100 (err database_error) (ok none)
      (new_outgoing_manager 35000) some_target two_calls tt refl refl (omega arith)
      ((omega arith, omega arith), ((omega arith, omega arith), tt)) (omega arith) (omega arith)

-- Its own timer, in time, and that of another subscription.
abbrev two_timers : List Timer
two_timers =
    record { due = 60010; remote_node_id = "node"; feed_id = "feed"; subfeed_hash = "hash" }
    ∷ record { due = 60005; remote_node_id = "other"; feed_id = "feed"; subfeed_hash = "hash" }
    ∷ []
