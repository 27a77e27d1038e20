-- ===== src/Feeds/Announcing.antt =====
-- NewIncomingSubfeedSubscriptionManager: a subscriber hears of new messages.
use kachery_p2p.Base.{ℕ, ◌≡◌, ◌⊎◌, List, [], ◌∷◌}
use kachery_p2p.Base.Maps
use kachery_p2p.GarbageMap
use kachery_p2p.GarbageMap.{GarbageMap}
use kachery_p2p.Feeds.Codes.{code_eq}
use kachery_p2p.Feeds.Incoming.{IncomingSubfeedSubscription, Report}

-- The report is among the requests.
abbrev pub IsAmong : Report → List Report → Type 0
IsAmong r [] = ⊥
IsAmong r (q ∷ qs) = (q ≡ r) ⊎ IsAmong r qs

abbrev report_of : IncomingSubfeedSubscription → ℕ → Report
report_of s n = record {
  to_node_id = s.remote_node_id;
  feed_id = s.feed_id;
  subfeed_hash = s.subfeed_hash;
  num_messages = n;
}
