-- ===== src/Feeds/Local.antt =====
-- daemon/src/external/real/LocalFeedManager.ts: the feeds of this node, whose configurations are mutables
-- and whose messages are in the database. A method takes one time for its calls; the migration from
-- files of the old format is not modelled, nor is the form of a key outside of the configuration.
pub mod Lifecycle
use kachery_p2p.Base.{ℕ, Bool, true, false, Option, none, some, String, if◌then◌else◌}
use kachery_p2p.Mutables
use kachery_p2p.Mutables.{JsonCodec, MutableManager, missing, found, threw}
use kachery_p2p.Json
use kachery_p2p.Json.{Value, string, object, field, no_field}
use kachery_p2p.Json.Types.{is_feed_id}
use kachery_p2p.Json.Requests.{is_feed_config}
use kachery_p2p.Feeds.{
  Error, Result, ok, err, ◌>>=◌, feed_exists, bad_feed_config, bad_feed_id, bad_json,
}
use kachery_p2p.Feeds.Database.{Database, has_feed, add_feed, delete_feed}

pub record FeedConfig : Type 0 where
  pub feed_id : String
  pub private_key : String

-- `{type: 'feedConfig', feedId}` and `{type: 'feedIdForName', feedName}`
abbrev pub config_key : String → Value
config_key feed_id =
    object (field "type" (string "feedConfig") (field "feedId" (string feed_id) no_field))

abbrev pub name_key : String → Value
name_key feed_name =
    object (field "type" (string "feedIdForName") (field "feedName" (string feed_name) no_field))

abbrev pub config_value : FeedConfig → Value
config_value config = object (
    field "feedId" (string config.feed_id)
      (field "privateKey" (string config.private_key) no_field))

-- A value as a text; the check has passed before.
abbrev pub text_of : Value → String
text_of (string s) = s
text_of _ = ""

abbrev pub config_of : Value → FeedConfig
config_of x = record {
  feed_id = text_of (Json.get x "feedId");
  private_key = text_of (Json.get x "privateKey");
}

pub record LocalFeedManager : Type 0 where
  pub mutables : MutableManager Value
  pub database : Database

module _ (c : JsonCodec Value) where
  -- `FeedsConfigManager`
  unfoldable pub get_feed_config :
      ℕ
      → MutableManager Value
      → (feed_id : String) → MutableManager Value × Result (Option FeedConfig)
  get_feed_config now m feed_id =
      let r = Mutables.get c now m (config_key feed_id) in
      (
        r.0,
        elim r.1 [
          | missing ↦ ok none
          | threw ↦ err bad_json
          | found rec ↦
              if is_feed_config rec.value
              then ok (some (config_of rec.value))
              else err bad_feed_config
        ],
      )

  unfoldable pub add_config :
      ℕ → MutableManager Value → FeedConfig → MutableManager Value × Result (Unit {0})
  add_config now m config =
      let r = get_feed_config now m config.feed_id in
      elim r.1 [
        | err e ↦ (r.0, err e)
        | ok (some old) ↦ (r.0, err feed_exists)
        | ok none ↦
            (Mutables.set c now r.0 (config_key config.feed_id) (config_value config), ok tt)
      ]

  unfoldable pub delete_config :
      ℕ → MutableManager Value → (feed_id : String) → MutableManager Value
  delete_config now m feed_id = Mutables.delete c now m (config_key feed_id)

  unfoldable pub set_feed_id_for_name :
      ℕ → MutableManager Value → (feed_name feed_id : String) → MutableManager Value
  set_feed_id_for_name now m feed_name feed_id =
      Mutables.set c now m (name_key feed_name) (string feed_id)

  unfoldable pub get_feed_id_for_name :
      ℕ
      → MutableManager Value
      → (feed_name : String) → MutableManager Value × Result (Option String)
  get_feed_id_for_name now m feed_name =
      let r = Mutables.get c now m (name_key feed_name) in
      (
        r.0,
        elim r.1 [
          | missing ↦ ok none
          | threw ↦ err bad_json
          | found rec ↦
              if is_feed_id rec.value then ok (some (text_of rec.value)) else err bad_feed_id
        ],
      )

  -- The name of a new feed, where it has one.
  abbrev pub set_name :
      ℕ → MutableManager Value → (feed_name : Option String) → String → MutableManager Value
  set_name now m none feed_id = m
  set_name now m (some feed_name) feed_id = set_feed_id_for_name now m feed_name feed_id

  -- `LocalFeedManager`. The key pair that `createKeyPair` makes is an argument; the public key is the
  -- identifier of the feed.
  unfoldable pub create_feed :
      ℕ
      → LocalFeedManager
      → (keys : FeedConfig) (feed_name : Option String) → LocalFeedManager × Result String
  create_feed now m keys feed_name =
      let added = add_config now m.mutables keys in
      elim added.1 [
        | err e ↦ (record m { mutables = added.0 }, err e)
        | ok u ↦
            let stored = add_feed m.database keys.feed_id in
            (
              record {
                mutables = set_name now added.0 feed_name keys.feed_id;
                database = stored.0;
              },
              stored.1 >>= (λ u. ok keys.feed_id),
            )
      ]

  unfoldable pub delete_local_feed :
      (cascades : Bool) (now : ℕ) → LocalFeedManager → (feed_id : String) → LocalFeedManager
  delete_local_feed cascades now m feed_id = record {
    mutables = delete_config now m.mutables feed_id;
    database = delete_feed cascades m.database feed_id;
  }

  unfoldable pub feed_exists_locally : LocalFeedManager → (feed_id : String) → Bool
  feed_exists_locally m feed_id = has_feed m.database feed_id

  unfoldable pub get_feed_id :
      ℕ → LocalFeedManager → (feed_name : String) → LocalFeedManager × Result (Option String)
  get_feed_id now m feed_name =
      let r = get_feed_id_for_name now m.mutables feed_name in
      (
        record m { mutables = r.0 },
        r.1 >>= (λ found. elim found [
          | none ↦ ok none
          | some feed_id ↦ if feed_exists_locally m feed_id then ok (some feed_id) else ok none
        ]),
      )

  unfoldable pub get_private_key_for_feed :
      ℕ → LocalFeedManager → (feed_id : String) → LocalFeedManager × Result (Option String)
  get_private_key_for_feed now m feed_id =
      let r = get_feed_config now m.mutables feed_id in
      (
        record m { mutables = r.0 },
        r.1 >>= (λ found. ok (elim found [ none ↦ none | some config ↦ some config.private_key ])),
      )

  -- `hasWriteableFeed`
  unfoldable pub has_writeable_local_feed :
      ℕ → LocalFeedManager → (feed_id : String) → LocalFeedManager × Result Bool
  has_writeable_local_feed now m feed_id =
      let r = get_private_key_for_feed now m feed_id in
      (
        r.0,
        r.1 >>= (λ found. elim found [
          | none ↦ ok false
          | some key ↦ ok (feed_exists_locally r.0 feed_id)
        ]),
      )
