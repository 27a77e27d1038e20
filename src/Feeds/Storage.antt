-- ===== src/Feeds/Storage.antt =====
-- LocalFeedsDatabase: what is appended to a subfeed is what is read.
use kachery_p2p.Base.{
  ℕ, suc, ◌+◌, ◌≤◌, ◌≡◌, refl, ◌∙◌, ap, false, List, [], ◌∷◌, ◌++◌, map, some, String, arith,
  length, length-append, nat_eq, string_eq, All, All-append, append_assoc, append-nil,
}
use native.Mathlib.Nat.{zero-add}
use text.Mathlib.TextEquality.{eq_iff}
use kachery_p2p.Feeds.{SignedSubfeedMessage, Error, ok, err, Codec}
use kachery_p2p.Feeds.Database.{
  MessageRow, Database, select, insert_by_position, order_by_position, has_position, message_row,
  insert_messages, append_signed_messages_to_subfeed, read_rows, get_signed_subfeed_messages,
  create_subfeed_row_if_needed, create_feed_row_if_needed,
}

-- The messages carry the numbers `n`, `n + 1`, and so on.
abbrev pub Numbered : ℕ → List SignedSubfeedMessage → Type 0
Numbered n [] = Unit {0}
Numbered n (m ∷ ms) = (m.body.message_number ≡ n) × Numbered (suc n) ms

pub Numbered-append :
    (n : ℕ) (ms new : List SignedSubfeedMessage)
    → Numbered n ms
    → Numbered (n + length ms) new
    → Numbered n (ms ++ new)
Numbered-append n [] new h k = let e : n + 0 ≡ n = omega arith in rw e at k
Numbered-append n (m ∷ ms) new h k =
    let e : n + suc (length ms) ≡ suc n + length ms = omega arith in
    (h.0, Numbered-append (suc n) ms new h.1 (rw e at k))

-- The message can be read back from the text that is stored for it.
abbrev pub IsReadable : Codec → SignedSubfeedMessage → Type 0
IsReadable c m = c.parse (c.stringify m) ≡ some m

module _ (feed_id subfeed_hash : String) where
  select-append :
      (xs ys : List MessageRow)
      → select feed_id subfeed_hash (xs ++ ys)
        ≡ select feed_id subfeed_hash xs ++ select feed_id subfeed_hash ys
  unfolding select
  select-append [] ys = refl
  select-append (x ∷ xs) ys = ground (arith, select-append xs ys)

  -- A position is taken if a selected row has it.
  has_position-select :
      (n : ℕ) (rows : List MessageRow)
      → has_position feed_id subfeed_hash n rows
        ≡ has_position feed_id subfeed_hash n (select feed_id subfeed_hash rows)
  unfolding has_position select
  has_position-select n [] = refl
  has_position-select n (row ∷ rows) = ground (arith, has_position-select n rows)

module _ (c : Codec) (feed_id subfeed_hash : String) where
  abbrev row : SignedSubfeedMessage → MessageRow
  row = message_row c feed_id subfeed_hash

  -- The tables hold the messages `ms` for the subfeed.
  pub record Stores (db : Database) (ms : List SignedSubfeedMessage) : Type 0 where
    pub rows : select feed_id subfeed_hash db.subfeed_messages ≡ map row ms
    pub numbered : Numbered 0 ms
    pub readable : All (IsReadable c) ms

  select-row : (m : SignedSubfeedMessage) → select feed_id subfeed_hash (row m ∷ []) ≡ row m ∷ []
  unfolding select
  select-row m = ground (arith, eq_iff feed_id feed_id, eq_iff subfeed_hash subfeed_hash)

  order-Numbered :
      (n : ℕ) (ms : List SignedSubfeedMessage)
      → Numbered n ms
      → order_by_position (map row ms) ≡ map row ms
  unfolding order_by_position insert_by_position
  order-Numbered n [] h = refl
  order-Numbered n (m ∷ []) h = refl
  order-Numbered n (m ∷ k ∷ ms) h = ground (arith, order-Numbered (suc n) (k ∷ ms) h.1)

  read_rows-Numbered :
      (n : ℕ) (ms : List SignedSubfeedMessage)
      → Numbered n ms
      → All (IsReadable c) ms
      → read_rows c feed_id subfeed_hash n (map row ms) ≡ ok ms
  unfolding read_rows
  read_rows-Numbered n [] h r = refl
  read_rows-Numbered n (m ∷ ms) h r = ground (arith, read_rows-Numbered (suc n) ms h.1 r.1)

  -- The messages that the tables hold are read in full and in their order.
  pub get_signed_subfeed_messages-Stores :
      (db : Database) (ms : List SignedSubfeedMessage)
      → Stores db ms
      → get_signed_subfeed_messages c feed_id subfeed_hash db ≡ ok ms
  unfolding get_signed_subfeed_messages
  get_signed_subfeed_messages-Stores db ms s =
      rw (s.rows, order-Numbered 0 ms s.numbered) (read_rows-Numbered 0 ms s.numbered s.readable)

  has_position-Numbered :
      (n k : ℕ) (ms : List SignedSubfeedMessage)
      → Numbered n ms
      → n + length ms ≤ k
      → has_position feed_id subfeed_hash k (map row ms) ≡ false
  unfolding has_position
  has_position-Numbered n k [] h le = refl
  has_position-Numbered n k (m ∷ ms) h le = ground (arith, has_position-Numbered (suc n) k ms h.1)

  map-append-row :
      (xs ys : List SignedSubfeedMessage) → map row (xs ++ ys) ≡ map row xs ++ map row ys
  map-append-row [] ys = refl
  map-append-row (x ∷ xs) ys = ap (◌∷◌ (row x)) (map-append-row xs ys)

  -- New messages that go on from the old ones are all inserted.
  insert_messages-Numbered :
      (rows : List MessageRow) (ms new : List SignedSubfeedMessage)
      → select feed_id subfeed_hash rows ≡ map row ms
      → Numbered 0 ms
      → Numbered (length ms) new
      → insert_messages c feed_id subfeed_hash rows new ≡ ok (rows ++ map row new)
  unfolding insert_messages
  insert_messages-Numbered rows ms [] s h k = rw append-nil
  insert_messages-Numbered rows ms (m ∷ new) s h k =
      let e : length (ms ++ m ∷ []) ≡ suc (length ms) = omega (arith, length-append ms (m ∷ [])) in
      let more =
        insert_messages-Numbered (rows ++ row m ∷ []) (ms ++ m ∷ []) new
          (ground (
            arith,
            select-append feed_id subfeed_hash rows (row m ∷ []),
            select-row m,
            map-append-row ms (m ∷ []),
          ))
          (Numbered-append 0 ms (m ∷ []) h (omega arith, tt)) (rw e k.1) in
      ground (
        arith,
        more,
        has_position-select feed_id subfeed_hash m.body.message_number rows,
        has_position-Numbered 0 m.body.message_number ms h,
        append_assoc rows (row m ∷ []) (map row new),
      )

  pub create_feed_row-messages :
      (db : Database)
      → (create_feed_row_if_needed db feed_id).subfeed_messages ≡ db.subfeed_messages
  unfolding create_feed_row_if_needed
  create_feed_row-messages db = ground arith

  create_row-messages :
      (db : Database)
      → (create_subfeed_row_if_needed db feed_id subfeed_hash).subfeed_messages
        ≡ db.subfeed_messages
  unfolding create_subfeed_row_if_needed create_feed_row_if_needed
  create_row-messages db = ground arith

  select-rows :
      (ms : List SignedSubfeedMessage) → select feed_id subfeed_hash (map row ms) ≡ map row ms
  unfolding select
  select-rows [] = refl
  select-rows (m ∷ ms) =
      ground (arith, select-rows ms, eq_iff feed_id feed_id, eq_iff subfeed_hash subfeed_hash)

  -- Messages whose numbers go on from the stored ones are appended: the call succeeds, and the tables
  -- hold the old messages followed by the new ones.
  pub append-Stores :
      (db : Database) (ms new : List SignedSubfeedMessage)
      → Stores db ms
      → Numbered (length ms) new
      → All (IsReadable c) new
      → ((append_signed_messages_to_subfeed c feed_id subfeed_hash db new).1 ≡ ok tt)
        × Stores (append_signed_messages_to_subfeed c feed_id subfeed_hash db new).0 (ms ++ new)
  unfolding append_signed_messages_to_subfeed
  append-Stores db ms [] s k r = (refl, rw append-nil s)
  append-Stores db ms (m ∷ new) s k r =
      let made = create_subfeed_row_if_needed db feed_id subfeed_hash in
      let inserted =
        insert_messages-Numbered made.subfeed_messages ms (m ∷ new)
          (ap (select feed_id subfeed_hash) (create_row-messages db) ∙ s.rows) s.numbered k in
      rw (inserted, append_signed_messages_to_subfeed)
        (
          refl,
          record {
            rows = ground (
              arith,
              create_row-messages db,
              select-append feed_id subfeed_hash made.subfeed_messages (map row (m ∷ new)),
              select-rows (m ∷ new),
              map-append-row ms (m ∷ new),
              s.rows,
            );
            numbered = Numbered-append 0 ms (m ∷ new) s.numbered (rw zero-add k);
            readable = All-append (IsReadable c) ms (m ∷ new) s.readable r;
          },
        )

  -- An append that fails stores no message, for any subfeed.
  pub append_failed :
      (db : Database) (new : List SignedSubfeedMessage) {e : Error}
      → (append_signed_messages_to_subfeed c feed_id subfeed_hash db new).1 ≡ err e
      → (append_signed_messages_to_subfeed c feed_id subfeed_hash db new).0.subfeed_messages
        ≡ db.subfeed_messages
  unfolding append_signed_messages_to_subfeed
  append_failed db [] h = refl
  append_failed db (m ∷ new) h = ground (arith, create_row-messages db)
