-- ===== src/Feeds/Deletion.antt =====
-- LocalFeedsDatabase.deleteFeed and setSubfeedAccessRules: the calls that delete rows, and what they
-- leave of the messages.
use kachery_p2p.Base.{
  ◌≡◌, refl, Bool, true, false, List, [], ◌∷◌, ◌++◌, some, String, arith, ◌==◌, nat_eq, string_eq,
}
use text.Mathlib.TextEquality.{eq_iff}
use kachery_p2p.Feeds.{SignedSubfeedMessage, ok, Codec}
use kachery_p2p.Feeds.Database.{
  MessageRow, SubfeedRow, Database, new_subfeed_row, find_subfeed, remove_subfeed, delete_feed,
  add_feed, remove_messages, get_subfeed_access_rules, set_subfeed_access_rules, select,
  order_by_position, read_rows, get_signed_subfeed_messages, create_feed_row_if_needed,
}
use kachery_p2p.Feeds.Storage.{Stores, get_signed_subfeed_messages-Stores, create_feed_row-messages}

module _ (c : Codec) (feed_id subfeed_hash : String) where
  find-replaced :
      (rows : List SubfeedRow) (rules : String)
      → find_subfeed feed_id subfeed_hash (
          remove_subfeed feed_id subfeed_hash rows
          ++ new_subfeed_row feed_id subfeed_hash (some rules) ∷ [])
        ≡ some (new_subfeed_row feed_id subfeed_hash (some rules))
  unfolding find_subfeed remove_subfeed
  find-replaced [] rules = ground (arith, eq_iff feed_id feed_id, eq_iff subfeed_hash subfeed_hash)
  find-replaced (r ∷ rows) rules = ground (arith, find-replaced rows rules)

  -- Where foreign keys are not enforced, deleting a feed leaves its messages: a feed that is added
  -- again under the same id has them all.
  pub delete_feed_leaves_messages :
      (db : Database) (ms : List SignedSubfeedMessage)
      → Stores c feed_id subfeed_hash db ms
      → get_signed_subfeed_messages c feed_id subfeed_hash
          (add_feed (delete_feed false db feed_id) feed_id).0
        ≡ ok ms
  unfolding delete_feed add_feed
  delete_feed_leaves_messages db ms s =
      get_signed_subfeed_messages-Stores c feed_id subfeed_hash
        (add_feed (delete_feed false db feed_id) feed_id).0 ms
        (record { rows = ground (arith, s.rows); numbered = s.numbered; readable = s.readable })

  select-remove :
      (rows : List MessageRow) → select feed_id subfeed_hash (remove_messages feed_id rows) ≡ []
  unfolding select remove_messages
  select-remove [] = refl
  select-remove (r ∷ rows) = ground (arith, select-remove rows)

  -- Where they are enforced, it leaves none.
  pub delete_feed_cascades :
      (db : Database)
      → get_signed_subfeed_messages c feed_id subfeed_hash (delete_feed true db feed_id) ≡ ok []
  unfolding delete_feed get_signed_subfeed_messages order_by_position read_rows
  delete_feed_cascades db = rw (select-remove db.subfeed_messages)

  -- New access rules are read back, and, where foreign keys are not enforced, leave the messages.
  pub set_subfeed_access_rules_lem :
      (is_rules : String → Bool) (db : Database) (rules : String)
      → is_rules rules ≡ true
      → (rules == "") ≡ false
      → (get_subfeed_access_rules is_rules
            (set_subfeed_access_rules false db feed_id subfeed_hash rules)
            feed_id
            subfeed_hash
          ≡ ok (some rules))
        × ((set_subfeed_access_rules false db feed_id subfeed_hash rules).subfeed_messages
            ≡ db.subfeed_messages)
  unfolding get_subfeed_access_rules set_subfeed_access_rules
  set_subfeed_access_rules_lem is_rules db rules valid full = (
    ground (arith, find-replaced (create_feed_row_if_needed db feed_id).subfeeds rules),
    create_feed_row-messages c feed_id subfeed_hash db,
  )
