-- ===== src/Feeds/Database.antt =====
-- daemon/src/external/real/LocalFeedsDatabase.ts: the tables, and the statements that are run on them.
-- A transaction that fails leaves the tables as they were before it; opening, closing and locking the
-- database file are not modelled here.
use kachery_p2p.Base.{
  ℕ, suc, Bool, true, false, ◌&&◌, List, [], ◌∷◌, ◌++◌, Option, none, some, String, leb,
  if◌then◌else◌, ◌==◌, nat_eq, string_eq,
}
use kachery_p2p.Feeds.{
  SignedSubfeedMessage, Result, ok, err, ◌>>=◌, ◌>>◌, guard, Codec, database_error, bad_position,
  bad_message, bad_message_number, bad_access_rules, or_null, or_fail,
}

pub record SubfeedRow : Type 0 where
  pub feed_id : String
  pub subfeed_hash : String
  pub access_rules : Option String

pub record MessageRow : Type 0 where
  pub feed_id : String
  pub subfeed_hash : String
  pub position : ℕ
  pub message : String

pub record Database : Type 0 where
  pub feeds : List String
  pub subfeeds : List SubfeedRow
  pub subfeed_messages : List MessageRow

abbrev pub empty_database : Database
empty_database = record { feeds = []; subfeeds = []; subfeed_messages = [] }

unfoldable pub contains : String → List String → Bool
contains x [] = false
contains x (y ∷ ys) = if y == x then true else contains x ys

abbrev pub is_row_of : String → String → MessageRow → Bool
is_row_of feed_id subfeed_hash row = row.feed_id == feed_id && row.subfeed_hash == subfeed_hash

abbrev is_subfeed : String → String → SubfeedRow → Bool
is_subfeed feed_id subfeed_hash row = row.feed_id == feed_id && row.subfeed_hash == subfeed_hash

-- `SELECT … WHERE feedId = … AND subfeedHash = …`
unfoldable pub select : String → String → List MessageRow → List MessageRow
select feed_id subfeed_hash [] = []
select feed_id subfeed_hash (row ∷ rows) =
    let rest = select feed_id subfeed_hash rows in
    if is_row_of feed_id subfeed_hash row then row ∷ rest else rest

-- `ORDER BY position ASC`
unfoldable pub insert_by_position : MessageRow → List MessageRow → List MessageRow
insert_by_position row [] = row ∷ []
insert_by_position row (r ∷ rows) =
    if leb row.position r.position then row ∷ r ∷ rows else r ∷ insert_by_position row rows

unfoldable pub order_by_position : List MessageRow → List MessageRow
order_by_position [] = []
order_by_position (row ∷ rows) = insert_by_position row (order_by_position rows)

unfoldable pub has_feed : Database → String → Bool
has_feed db feed_id = contains feed_id db.feeds

-- A feed that is there already breaks the primary key.
unfoldable pub add_feed : Database → String → Database × Result (Unit {0})
add_feed db feed_id =
    if contains feed_id db.feeds
    then (db, err database_error)
    else (record db { feeds = db.feeds ++ feed_id ∷ [] }, ok tt)

unfoldable pub remove_text : String → List String → List String
remove_text x [] = []
remove_text x (y ∷ ys) = if y == x then remove_text x ys else y ∷ remove_text x ys

unfoldable pub remove_subfeeds : String → List SubfeedRow → List SubfeedRow
remove_subfeeds feed_id [] = []
remove_subfeeds feed_id (row ∷ rows) =
    let rest = remove_subfeeds feed_id rows in if row.feed_id == feed_id then rest else row ∷ rest

unfoldable pub remove_messages : String → List MessageRow → List MessageRow
remove_messages feed_id [] = []
remove_messages feed_id (row ∷ rows) =
    let rest = remove_messages feed_id rows in if row.feed_id == feed_id then rest else row ∷ rest

unfoldable pub remove_messages_of : String → String → List MessageRow → List MessageRow
remove_messages_of feed_id subfeed_hash [] = []
remove_messages_of feed_id subfeed_hash (row ∷ rows) =
    let rest = remove_messages_of feed_id subfeed_hash rows in
    if is_row_of feed_id subfeed_hash row then rest else row ∷ rest

-- `cascades` says whether the connection enforces foreign keys. SQLite does so only on a connection
-- with the pragma `foreign_keys`; the source sets it on the one that makes the tables, and opens a new
-- one for each call.
unfoldable pub delete_feed : (cascades : Bool) → Database → String → Database
delete_feed cascades db feed_id =
    let deleted = record db { feeds = remove_text feed_id db.feeds } in
    if cascades
    then record deleted {
      subfeeds = remove_subfeeds feed_id db.subfeeds;
      subfeed_messages = remove_messages feed_id db.subfeed_messages;
    }
    else deleted

-- `INSERT OR IGNORE`
unfoldable pub create_feed_row_if_needed : Database → String → Database
create_feed_row_if_needed db feed_id =
    if contains feed_id db.feeds then db else record db { feeds = db.feeds ++ feed_id ∷ [] }

unfoldable pub find_subfeed : String → String → List SubfeedRow → Option SubfeedRow
find_subfeed feed_id subfeed_hash [] = none
find_subfeed feed_id subfeed_hash (row ∷ rows) =
    if is_subfeed feed_id subfeed_hash row then some row else find_subfeed feed_id subfeed_hash rows

unfoldable pub remove_subfeed : String → String → List SubfeedRow → List SubfeedRow
remove_subfeed feed_id subfeed_hash [] = []
remove_subfeed feed_id subfeed_hash (row ∷ rows) =
    let rest = remove_subfeed feed_id subfeed_hash rows in
    if is_subfeed feed_id subfeed_hash row then rest else row ∷ rest

abbrev pub new_subfeed_row : String → String → Option String → SubfeedRow
new_subfeed_row feed_id subfeed_hash rules = record {
  feed_id = feed_id;
  subfeed_hash = subfeed_hash;
  access_rules = rules;
}

unfoldable pub create_subfeed_row_if_needed : Database → String → String → Database
create_subfeed_row_if_needed db0 feed_id subfeed_hash =
    let db = create_feed_row_if_needed db0 feed_id in
    elim (find_subfeed feed_id subfeed_hash db.subfeeds) [
      | some row ↦ db
      | none ↦ record db {
        subfeeds = db.subfeeds ++ new_subfeed_row feed_id subfeed_hash none ∷ [];
      }
    ]

-- `is_rules` is `JSON.parse` followed by the check `isSubfeedAccessRules`.
unfoldable pub get_subfeed_access_rules :
    (is_rules : String → Bool) → Database → String → String → Result (Option String)
get_subfeed_access_rules is_rules db feed_id subfeed_hash =
    elim (find_subfeed feed_id subfeed_hash db.subfeeds) [
      | none ↦ ok none
      | some row ↦ elim (or_null row.access_rules) [
        | none ↦ ok none
        | some rules ↦ if is_rules rules then ok (some rules) else err bad_access_rules
      ]
    ]

-- `INSERT OR REPLACE`, which deletes the old row first.
unfoldable pub set_subfeed_access_rules :
    (cascades : Bool) → Database → String → String → String → Database
set_subfeed_access_rules cascades db0 feed_id subfeed_hash rules =
    let db = create_feed_row_if_needed db0 feed_id in
    let others = remove_subfeed feed_id subfeed_hash db.subfeeds in
    record db {
      subfeeds = others ++ new_subfeed_row feed_id subfeed_hash (some rules) ∷ [];
      subfeed_messages =
          if cascades
          then remove_messages_of feed_id subfeed_hash db.subfeed_messages
          else db.subfeed_messages;
    }

-- The primary key of a message.
unfoldable pub has_position : String → String → ℕ → List MessageRow → Bool
has_position feed_id subfeed_hash position [] = false
has_position feed_id subfeed_hash position (row ∷ rows) =
    if is_row_of feed_id subfeed_hash row && row.position == position
    then true
    else has_position feed_id subfeed_hash position rows

module _ (c : Codec) (feed_id subfeed_hash : String) where
  abbrev pub message_row : SignedSubfeedMessage → MessageRow
  message_row m = record {
    feed_id = feed_id;
    subfeed_hash = subfeed_hash;
    position = m.body.message_number;
    message = c.stringify m;
  }

  -- The loop of `INSERT`s.
  unfoldable pub insert_messages :
      List MessageRow → List SignedSubfeedMessage → Result (List MessageRow)
  insert_messages rows [] = ok rows
  insert_messages rows (m ∷ messages) =
      let rest = insert_messages (rows ++ message_row m ∷ []) messages in
      if has_position feed_id subfeed_hash m.body.message_number rows
      then err database_error
      else rest

  unfoldable pub append_signed_messages_to_subfeed :
      Database → List SignedSubfeedMessage → Database × Result (Unit {0})
  append_signed_messages_to_subfeed db0 [] = (db0, ok tt)
  append_signed_messages_to_subfeed db0 (m ∷ messages) =
      let db = create_subfeed_row_if_needed db0 feed_id subfeed_hash in
      elim (insert_messages db.subfeed_messages (m ∷ messages)) [
        | err e ↦ (db, err e)
        | ok rows ↦ (record db { subfeed_messages = rows }, ok tt)
      ]

  -- The loop over the rows in `getSignedSubfeedMessages`, from row `i`.
  unfoldable pub read_rows : ℕ → List MessageRow → Result (List SignedSubfeedMessage)
  read_rows i [] = ok []
  read_rows i (row ∷ rows) = do
    guard (row.position == i) bad_position
    m ← or_fail (c.parse row.message) bad_message
    guard (m.body.message_number == i) bad_message_number
    ms ← read_rows (suc i) rows
    ok (m ∷ ms)

  unfoldable pub get_signed_subfeed_messages : Database → Result (List SignedSubfeedMessage)
  get_signed_subfeed_messages db =
      read_rows 0 (order_by_position (select feed_id subfeed_hash db.subfeed_messages))
