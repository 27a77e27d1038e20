-- ===== src/Feeds/Remote.antt =====
-- daemon/src/feeds/RemoteFeedManager.ts: feeds of other nodes. `findLiveFeed` and the test whether a node
-- is online are other components: their answers are arguments, and `searches` and `submissions` record the
-- calls. A search that fails gives none, which is null.
pub mod Search
use kachery_p2p.Base.{
  ℕ, zero, suc, ◌+◌, ◌-◌, ◌*◌, Bool, true, false, List, [], ◌∷◌, ◌++◌, Option, none, some, String,
  ltb, leb, if◌then◌else◌, string_eq,
}
use kachery_p2p.GarbageMap
use kachery_p2p.GarbageMap.{GarbageMap}
use kachery_p2p.Feeds.{Result, ok, err, live_feed_not_found}
use kachery_p2p.Feeds.Outgoing.{
  OutgoingManager, Target, new_outgoing_manager, create_or_renew_outgoing_subscription,
}

-- A cached result: the node of the feed, or none if it was not found.
pub record LiveFeedInfo : Type 0 where
  pub result : Option String
  pub timestamp : ℕ

pub record Submission : Type 0 where
  pub node_id : String
  pub feed_id : String
  pub subfeed_hash : String
  pub message : String

pub record RemoteFeedManager : Type 0 where
  pub live_feed_infos : GarbageMap String LiveFeedInfo
  pub outgoing : OutgoingManager
  pub searches : List String
  pub submissions : List Submission

abbrev pub live_feed_lifetime_msec : ℕ
live_feed_lifetime_msec = 60 * 60 * 1000

unfoldable pub new_remote_feed_manager : ℕ → RemoteFeedManager
new_remote_feed_manager now = record {
  live_feed_infos = GarbageMap.new_garbage_map now (some live_feed_lifetime_msec);
  outgoing = new_outgoing_manager now;
  searches = [];
  submissions = [];
}

-- A feed that was found is believed for ten minutes, one that was not for half a minute.
unfoldable pub still_valid : ℕ → LiveFeedInfo → Bool
still_valid now info = elim info.result [
  | some node_id ↦ leb (now - info.timestamp) (1000 * 60 * 10)
  | none ↦ leb (now - info.timestamp) (1000 * 30)
]

-- A search, answered at the time `later`, and its entry in the cache.
abbrev pub search_and_cache :
    (later : ℕ)
    → RemoteFeedManager
    → (feed_id : String) (answer : Option String) → RemoteFeedManager
search_and_cache later m feed_id answer = record m {
  live_feed_infos =
      GarbageMap.set later m.live_feed_infos feed_id
        (record { result = answer; timestamp = later });
  searches = m.searches ++ feed_id ∷ [];
}

-- The first part of `subscribeToRemoteSubfeed`: the result for the feed, from the cache or by a search.
unfoldable pub look_up :
    (now later : ℕ)
    → RemoteFeedManager
    → (feed_id : String) (answer : Option String) → RemoteFeedManager × Option String
look_up now later m feed_id answer =
    let r = GarbageMap.get now m.live_feed_infos feed_id in
    let kept = record m { live_feed_infos = r.0 } in
    elim r.1 [
      | none ↦ (search_and_cache later kept feed_id answer, answer)
      | some info ↦
          if still_valid now info
          then (kept, info.result)
          else (search_and_cache later kept feed_id answer, answer)
    ]

-- `subscribeToRemoteSubfeed`: false if the feed is not found.
unfoldable pub subscribe_to_remote_subfeed :
    (now later : ℕ) (answer : Option String) (response : Result (Option ℕ))
    → RemoteFeedManager
    → (feed_id subfeed_hash : String) → RemoteFeedManager × Result Bool
subscribe_to_remote_subfeed now later answer response m feed_id subfeed_hash =
    let found = look_up now later m feed_id answer in
    elim found.1 [
      | none ↦ (found.0, ok false)
      | some node_id ↦
          let target : Target = record {
            remote_node_id = node_id;
            feed_id = feed_id;
            subfeed_hash = subfeed_hash;
          } in
          let r =
            create_or_renew_outgoing_subscription later later response found.0.outgoing target in
          (record (found.0) { outgoing = r.0 }, elim r.1 [ err e ↦ err e | ok u ↦ ok true ])
    ]

-- The search of `findLiveFeedInfo`, where the cache has no node that is online.
abbrev pub search_live_feed :
    ℕ → RemoteFeedManager → (feed_id : String) → Option String → RemoteFeedManager × Result String
search_live_feed now m feed_id none =
    (record m { searches = m.searches ++ feed_id ∷ [] }, err live_feed_not_found)
search_live_feed now m feed_id (some node_id) =
    (search_and_cache now m feed_id (some node_id), ok node_id)

-- `findLiveFeedInfo`
unfoldable pub find_live_feed_info :
    (now : ℕ) (is_online : String → Bool)
    → RemoteFeedManager
    → (feed_id : String) (answer : Option String) → RemoteFeedManager × Result String
find_live_feed_info now is_online m feed_id answer =
    let r = GarbageMap.get now m.live_feed_infos feed_id in
    let kept = record m { live_feed_infos = r.0 } in
    let dropped = record m { live_feed_infos = GarbageMap.delete now r.0 feed_id } in
    elim r.1 [
      | none ↦ search_live_feed now kept feed_id answer
      | some info ↦ elim info.result [
        | none ↦ search_live_feed now kept feed_id answer
        | some node_id ↦
            if is_online node_id
            then (kept, ok node_id)
            else search_live_feed now dropped feed_id answer
      ]
    ]

-- What the rounds of a submission meet: the time, who is online, and the answer to a search.
pub record Round : Type 0 where
  pub now : ℕ
  pub is_online : String → Bool
  pub answer : Option String

-- The loop of `submitMessage`: a search that fails is tried again after two seconds, while two seconds of
-- waiting are left. None is the loop's end without a result.
unfoldable pub find_with_retries :
    ℕ
    → (wait_msec : ℕ) (rounds : ℕ → Round) → RemoteFeedManager
    → (feed_id : String) → RemoteFeedManager × Option String
find_with_retries zero wait_msec rounds m feed_id = (m, none)
find_with_retries (suc fuel) wait_msec rounds m feed_id =
    let round = rounds 0 in
    let r = find_live_feed_info round.now round.is_online m feed_id round.answer in
    elim r.1 [
      | ok node_id ↦ (r.0, some node_id)
      | err e ↦ elim (leb 2000 wait_msec) [
        | true ↦ find_with_retries fuel (wait_msec - 2000) (λ i. rounds (suc i)) r.0 feed_id
        | false ↦ (r.0, none)
      ]
    ]

-- `submitMessage`, up to the request that is sent to the node. A loop of two rounds is enough.
unfoldable pub submit_message :
    (rounds : ℕ → Round)
    → RemoteFeedManager
    → (feed_id subfeed_hash message : String) → RemoteFeedManager × Result (Unit {0})
submit_message rounds m feed_id subfeed_hash message =
    let r = find_with_retries 2 2000 rounds m feed_id in
    elim r.1 [
      | none ↦ (r.0, err live_feed_not_found)
      | some node_id ↦ (
        record (r.0) {
          submissions =
              r.0.submissions
              ++ record {
                node_id = node_id;
                feed_id = feed_id;
                subfeed_hash = subfeed_hash;
                message = message;
              }
                ∷ [];
        },
        ok tt,
      )
    ]
