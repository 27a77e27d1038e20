-- ===== src/Feeds/Local/Lifecycle.antt =====
-- LocalFeedManager: what a feed that was created, or deleted, is to the other methods.
use kachery_p2p.Base.{
  ℕ, ◌≡◌, refl, Bool, true, false, List, [], ◌∷◌, ◌++◌, Option, none, some, String, arith, ◌==◌,
  string_eq,
}
use text.Mathlib.TextEquality.{eq_iff}
use kachery_p2p.Mutables
use kachery_p2p.Mutables.{JsonCodec, MutableManager, MutableRecord, missing, found, threw, key_hash}
use kachery_p2p.Mutables.History.{
  Represents, IsJson, next_truth, sets, deletes, gets, step, get-Represents, set-Represents,
  delete-Represents, step-Represents,
}
use kachery_p2p.Json
use kachery_p2p.Json.{Value, string}
use kachery_p2p.Json.Types.{is_feed_id, is_private_key_hex}
use kachery_p2p.Json.Requests.{is_feed_config}
use kachery_p2p.Feeds.{ok}
use kachery_p2p.Feeds.Database.{has_feed, add_feed, delete_feed, contains, remove_text}
use kachery_p2p.Feeds.Local.{
  FeedConfig, config_key, name_key, config_value, config_of, LocalFeedManager, get_feed_config,
  add_config, delete_config, set_feed_id_for_name, get_feed_id_for_name, create_feed,
  delete_local_feed, feed_exists_locally, get_feed_id, get_private_key_for_feed,
  has_writeable_local_feed,
}

-- A configuration whose parts have the right form passes the check.
config_value-is_feed_config :
    (config : FeedConfig)
    → is_feed_id (string config.feed_id) ≡ true
    → is_private_key_hex (string config.private_key) ≡ true
    → is_feed_config (config_value config) ≡ true
unfolding is_feed_config Json.validate_object Json.validate_fields Json.knows_all Json.properties
    Json.entries_of Json.find_property Json.is_object Json.names Json.get
config_value-is_feed_config config h k = ground arith

config_of-config_value : (config : FeedConfig) → config_of (config_value config) ≡ config
unfolding Json.properties Json.entries_of Json.find_property Json.get
config_of-config_value config = refl

contains-append : (x : String) (ys : List String) → contains x (ys ++ x ∷ []) ≡ true
unfolding contains
contains-append x [] = ground (arith, eq_iff x x)
contains-append x (y ∷ ys) = ground (arith, contains-append x ys)

contains-remove_text : (x : String) (ys : List String) → contains x (remove_text x ys) ≡ false
unfolding contains remove_text
contains-remove_text x [] = refl
contains-remove_text x (y ∷ ys) = ground (arith, contains-remove_text x ys)

module _ (c : JsonCodec Value) where
  get_feed_config_lem :
      (now : ℕ) (truth : String → Option (MutableRecord Value)) (m : MutableManager Value)
      (config : FeedConfig) (key : Value)
      → Represents c truth m
      → truth (key_hash c (config_key config.feed_id))
        ≡ some (record { key = key; value = config_value config })
      → is_feed_id (string config.feed_id) ≡ true
      → is_private_key_hex (string config.private_key) ≡ true
      → (get_feed_config c now m config.feed_id).1 ≡ ok (some config)
  unfolding get_feed_config
  get_feed_config_lem now truth m config key r known good_id good_key = ground (
    arith,
    get-Represents c now truth m (config_key config.feed_id) r,
    config_value-is_feed_config config good_id good_key,
    config_of-config_value config,
  )

  get_feed_config-none :
      (now : ℕ) (truth : String → Option (MutableRecord Value)) (m : MutableManager Value)
      (feed_id : String)
      → Represents c truth m
      → truth (key_hash c (config_key feed_id)) ≡ none
      → (get_feed_config c now m feed_id).1 ≡ ok none
  unfolding get_feed_config
  get_feed_config-none now truth m feed_id r unknown =
      ground (arith, get-Represents c now truth m (config_key feed_id) r)

  get_feed_config-Represents :
      (now : ℕ) (truth : String → Option (MutableRecord Value)) (m : MutableManager Value)
      (feed_id : String)
      → Represents c truth m
      → Represents c truth (get_feed_config c now m feed_id).0
  unfolding get_feed_config step
  get_feed_config-Represents now truth m feed_id r =
      step-Represents c truth m (gets now (config_key feed_id)) tt r

  -- What the other methods find of a feed that this node owns under a name.
  pub record Owns (m : LocalFeedManager) (feed_name : String) (keys : FeedConfig) : Type 0 where
    pub private_key :
        (now : ℕ) → (get_private_key_for_feed c now m keys.feed_id).1 ≡ ok (some keys.private_key)
    pub writeable : (now : ℕ) → (has_writeable_local_feed c now m keys.feed_id).1 ≡ ok true
    pub named : (now : ℕ) → (get_feed_id c now m feed_name).1 ≡ ok (some keys.feed_id)

  -- The texts of the keys and values that a new feed stores can be read back.
  pub record IsStorable (feed_name : String) (keys : FeedConfig) : Type 0 where
    pub config_key_json : IsJson c (config_key keys.feed_id)
    pub config_json : IsJson c (config_value keys)
    pub name_key_json : IsJson c (name_key feed_name)
    pub id_json : IsJson c (string keys.feed_id)
    pub apart : (key_hash c (name_key feed_name) == key_hash c (config_key keys.feed_id)) ≡ false

  Owns-stored :
      (truth : String → Option (MutableRecord Value)) (m : LocalFeedManager) (feed_name : String)
      (keys : FeedConfig)
      → Represents c truth m.mutables
      → truth (key_hash c (config_key keys.feed_id))
        ≡ some (record { key = config_key keys.feed_id; value = config_value keys })
      → truth (key_hash c (name_key feed_name))
        ≡ some (record { key = name_key feed_name; value = string keys.feed_id })
      → has_feed m.database keys.feed_id ≡ true
      → is_feed_id (string keys.feed_id) ≡ true
      → is_private_key_hex (string keys.private_key) ≡ true
      → Owns m feed_name keys
  unfolding get_private_key_for_feed has_writeable_local_feed get_feed_id get_feed_id_for_name
      feed_exists_locally
  Owns-stored truth m feed_name keys r known named there good_id good_key = record {
    private_key = λ now. ground (
      arith,
      get_feed_config_lem now truth m.mutables keys (config_key keys.feed_id) r known good_id
          good_key,
    );
    writeable = λ now. ground (
      arith,
      get_feed_config_lem now truth m.mutables keys (config_key keys.feed_id) r known good_id
          good_key,
    );
    named = λ now. ground (arith, get-Represents c now truth m.mutables (name_key feed_name) r);
  }

  -- A feed is created under a name by a node whose mutables have no configuration of it and whose
  -- database does not have it; its keys have the right form, what is stored can be read back, and the two
  -- keys of the mutables have different hashes. Then the call gives the identifier of the feed, and at any
  -- later time the private key is found, the feed is writeable, and its name leads to it.
  pub create_feed-Owns :
      (now : ℕ) (truth : String → Option (MutableRecord Value)) (m : LocalFeedManager)
      (feed_name : String) (keys : FeedConfig)
      → Represents c truth m.mutables
      → truth (key_hash c (config_key keys.feed_id)) ≡ none
      → has_feed m.database keys.feed_id ≡ false
      → is_feed_id (string keys.feed_id) ≡ true
      → is_private_key_hex (string keys.private_key) ≡ true
      → IsStorable feed_name keys
      → ((create_feed c now m keys (some feed_name)).1 ≡ ok keys.feed_id)
        × Owns (create_feed c now m keys (some feed_name)).0 feed_name keys
  unfolding create_feed add_config add_feed has_feed set_feed_id_for_name
  create_feed-Owns now truth m feed_name keys r unknown new good_id good_key s =
      let looked = get_feed_config c now m.mutables keys.feed_id in
      let absent = get_feed_config-none now truth m.mutables keys.feed_id r unknown in
      let r0 = get_feed_config-Represents now truth m.mutables keys.feed_id r in
      let r1 =
        set-Represents c now truth looked.0 (config_key keys.feed_id) (config_value keys)
          s.config_key_json s.config_json r0 in
      let with_config = Mutables.set c now looked.0 (config_key keys.feed_id) (config_value keys) in
      let truth1 = next_truth c truth (sets now (config_key keys.feed_id) (config_value keys)) in
      let r2 =
        set-Represents c now truth1 with_config (name_key feed_name) (string keys.feed_id)
          s.name_key_json s.id_json r1 in
      let truth2 = next_truth c truth1 (sets now (name_key feed_name) (string keys.feed_id)) in
      let final : LocalFeedManager = record {
        mutables = Mutables.set c now with_config (name_key feed_name) (string keys.feed_id);
        database = record (m.database) { feeds = m.database.feeds ++ keys.feed_id ∷ [] };
      } in
      let made : create_feed c now m keys (some feed_name) ≡ (final, ok keys.feed_id) =
        ground (arith, absent) in
      rw made (
        refl,
        Owns-stored truth2 final feed_name keys r2
            (ground (
              arith,
              s.apart,
              eq_iff (key_hash c (config_key keys.feed_id)) (key_hash c (config_key keys.feed_id)),
            ))
            (ground
              (arith, eq_iff (key_hash c (name_key feed_name)) (key_hash c (name_key feed_name))))
            (contains-append keys.feed_id m.database.feeds) good_id good_key,
      )

  -- A feed that was deleted is no longer there for the other methods, at any later time: it has no private
  -- key, it is not writeable, and a name that led to it leads to no feed, though the name is kept.
  pub delete_local_feed_lem :
      (cascades : Bool) (now later : ℕ) (truth : String → Option (MutableRecord Value))
      (m : LocalFeedManager) (feed_name feed_id : String)
      → Represents c truth m.mutables
      → truth (key_hash c (name_key feed_name))
        ≡ some (record { key = name_key feed_name; value = string feed_id })
      → is_feed_id (string feed_id) ≡ true
      → (key_hash c (config_key feed_id) == key_hash c (name_key feed_name)) ≡ false
      → let after = delete_local_feed c cascades now m feed_id in
        ((get_private_key_for_feed c later after feed_id).1 ≡ ok none)
        × ((has_writeable_local_feed c later after feed_id).1 ≡ ok false)
        × ((get_feed_id c later after feed_name).1 ≡ ok none)
  unfolding delete_local_feed delete_config delete_feed has_feed get_private_key_for_feed
      has_writeable_local_feed get_feed_id get_feed_id_for_name feed_exists_locally
  delete_local_feed_lem cascades now later truth m feed_name feed_id r named good_id apart =
      let gone = delete-Represents c now truth m.mutables (config_key feed_id) r in
      let after = Mutables.delete c now m.mutables (config_key feed_id) in
      let truth1 = next_truth c truth (deletes now (config_key feed_id)) in
      let absent = get_feed_config-none later truth1 after feed_id gone (
        ground
          (arith, eq_iff (key_hash c (config_key feed_id)) (key_hash c (config_key feed_id)))) in
      let name = get-Represents c later truth1 after (name_key feed_name) gone in
      let missing = contains-remove_text feed_id m.database.feeds in
      (ground (arith, absent), ground (arith, absent), ground (arith, name, missing))
