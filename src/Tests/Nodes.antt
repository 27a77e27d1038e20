-- ===== src/Tests/Nodes.antt =====
-- The managers of local and of remote feeds on concrete inputs.
use kachery_p2p.Base.{
  ℕ, ◌+◌, ◌≡◌, refl, ◌⊎◌, true, false, [], ◌∷◌, none, some, String, string_eq, nat_eq,
  if◌then◌else◌, ◌==◌,
}
use kachery_p2p.Base.Maps
use kachery_p2p.GarbageMap
use kachery_p2p.Mutables.{JsonCodec, new_mutable_manager}
use kachery_p2p.Mutables.History.{new-Represents}
use kachery_p2p.Json
use kachery_p2p.Json.{Value, string}
use kachery_p2p.Feeds.{Result, ok, err, live_feed_not_found}
use kachery_p2p.Feeds.Database.{empty_database, has_feed, contains}
use kachery_p2p.Feeds.Local.{
  FeedConfig, config_key, name_key, config_value, LocalFeedManager, create_feed,
}
use kachery_p2p.Feeds.Local.Lifecycle
use kachery_p2p.Feeds.Local.Lifecycle.{Owns}
use kachery_p2p.Feeds.Remote.{
  RemoteFeedManager, Round, new_remote_feed_manager, look_up, submit_message,
}
use kachery_p2p.Feeds.Remote.Search

abbrev some_keys : FeedConfig
some_keys = record {
  feed_id = "abababababababababababababababababababababababababababababababab";
  private_key = "0101010101010101010101010101010101010101010101010101010101010101";
}

-- The four values that a feed stores, by their texts.
abbrev four_values : JsonCodec Value
four_values = record {
  stringify = λ v.
      if Json.truthy (Json.get v "feedName")
      then "name key"
      else if Json.truthy (Json.get v "privateKey")
      then "config"
      else if Json.is_object v
      then "config key"
      else "id";
  parse = λ s.
      if s == "name key"
      then some (name_key "some feed")
      else if s == "config"
      then some (config_value some_keys)
      else if s == "config key"
      then some (config_key some_keys.feed_id)
      else some (string some_keys.feed_id);
  sha1 = λ s. s;
}

abbrev empty_manager : LocalFeedManager
empty_manager = record { mutables = new_mutable_manager 0 []; database = empty_database }

abbrev with_feed : LocalFeedManager × Result String
with_feed = create_feed four_values 5 empty_manager some_keys (some "some feed")

create_feed-Owns_example :
    (with_feed.1 ≡ ok some_keys.feed_id) × Owns four_values with_feed.0 "some feed" some_keys
unfolding Json.get Json.properties Json.entries_of Json.find_property Json.truthy Json.is_object
    Json.Types.is_feed_id Json.Types.is_private_key_hex Json.Types.is_hexadecimal has_feed contains
create_feed-Owns_example =
    Lifecycle.create_feed-Owns four_values 5 (λ h. none) empty_manager "some feed" some_keys
      (new-Represents four_values 0) refl refl refl refl
      (record {
        config_key_json = refl;
        config_json = refl;
        name_key_json = refl;
        id_json = refl;
        apart = refl;
      })

-- Nobody answers the first search; the second is answered.
abbrev two_rounds : ℕ → Round
two_rounds i = record {
  now = 100 + i;
  is_online = λ n. false;
  answer = if i == 0 then none else some "node";
}

abbrev submitted : RemoteFeedManager × Result (Unit {0})
submitted = submit_message two_rounds (new_remote_feed_manager 0) "feed" "hash" "hello"

submit_message_lem_example :
    ((submitted.0.searches ≡ [])
      ⊎ (submitted.0.searches ≡ "feed" ∷ [])
      ⊎ (submitted.0.searches ≡ "feed" ∷ "feed" ∷ []))
    × (((submitted.1 ≡ err live_feed_not_found)
          × (submitted.0.submissions ≡ [])
          × ((two_rounds 0).answer ≡ none)
          × ((two_rounds 1).answer ≡ none))
        ⊎ ((node_id : String) × (submitted.1 ≡ ok tt)
            × (submitted.0.submissions
                ≡ record {
                  node_id = node_id;
                  feed_id = "feed";
                  subfeed_hash = "hash";
                  message = "hello";
                }
                  ∷ [])
            × (((two_rounds 0).answer ≡ some node_id)
                ⊎ ((two_rounds 0).is_online node_id ≡ true)
                ⊎ ((two_rounds 1).answer ≡ some node_id)
                ⊎ ((two_rounds 1).is_online node_id ≡ true))))
unfolding new_remote_feed_manager
submit_message_lem_example =
    Search.submit_message_lem two_rounds (new_remote_feed_manager 0) "feed" "hash" "hello"

abbrev once_searched : RemoteFeedManager
once_searched = (look_up 10 12 (new_remote_feed_manager 0) "feed" none).0

-- Thirty seconds after the search its result is believed; a moment later it is not.
look_up-cached_example :
    ((look_up 30013 30015 once_searched "feed" (some "node")).1 ≡ some "node")
    × ((look_up 30013 30015 once_searched "feed" (some "node")).0.searches ≡ "feed" ∷ "feed" ∷ [])
unfolding look_up new_remote_feed_manager Maps.get GarbageMap.get GarbageMap.new_garbage_map
    GarbageMap.check_garbage_collection GarbageMap.keys_to_delete
look_up-cached_example =
    Search.look_up-cached 10 12 30013 30015 (new_remote_feed_manager 0) "feed" none (some "node") tt
      refl refl
