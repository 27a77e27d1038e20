-- ===== src/Feeds/Subfeed.antt =====
-- daemon/src/feeds/Subfeed.ts: a subfeed over its messages in memory and in the database.
-- The listeners of new messages are not called here; `appended` counts the `nextTick`s that call them.
use kachery_p2p.Base.{
  ℕ, suc, ◌+◌, ◌-◌, Bool, List, [], ◌∷◌, Option, none, some, String, length, drop, take, min,
  get_last?, ltb, leb, if◌then◌else◌, ◌==◌, nat_eq,
}
use kachery_p2p.Feeds.{
  MessageBody, SignedSubfeedMessage, Result, ok, err, ◌>>=◌, ◌>>◌, guard, Codec, same_text, or_null,
  not_initialized, bad_signature, bad_previous_signature, bad_message_number, no_private_key,
  out_of_range,
}
use kachery_p2p.Feeds.Database.{Database, append_signed_messages_to_subfeed}
use kachery_p2p.Feeds.SignedMessages.{Manager, begin_append, finish_append}

pub record Subfeed : Type 0 where
  pub public_key : String
  pub private_key : Option String
  pub feed_id : String
  pub subfeed_hash : String
  pub manager : Manager
  pub access_rules : Option String
  pub is_writeable : Option Bool
  pub appended : ℕ

-- What the daemon holds for a subfeed: the subfeed, and the database that it shares.
pub record Store : Type 0 where
  pub subfeed : Subfeed
  pub database : Database

-- The messages that are not there yet: `signedMessages.slice(…)`.
abbrev pub skip_known : (num_messages : ℕ) → List SignedSubfeedMessage → List SignedSubfeedMessage
skip_known n [] = []
skip_known n (m ∷ messages) =
    if ltb m.body.message_number n
    then drop (n - m.body.message_number) (m ∷ messages)
    else m ∷ messages

abbrev pub last_signature : List SignedSubfeedMessage → Option String
last_signature messages = elim (get_last? messages) [ none ↦ none | some m ↦ some m.signature ]

-- The loop of `appendSignedMessages`.
unfoldable pub verify_new :
    Codec
    → String
    → (previous : Option String) (message_number : ℕ) → List SignedSubfeedMessage
    → Result (Unit {0})
verify_new c public_key previous n [] = ok tt
verify_new c public_key previous n (m ∷ messages) = do
  guard (c.verify m.body m.signature public_key) bad_signature
  guard (same_text (or_null m.body.previous_signature) (or_null previous)) bad_previous_signature
  guard (m.body.message_number == n) bad_message_number
  verify_new c public_key (some m.signature) (suc n) messages

-- The manager's `appendSignedMessages` with the database: begin, write, finish.
unfoldable pub manager_append :
    Codec → Store → List SignedSubfeedMessage → Store × Result (Unit {0})
manager_append c s new =
    let sub = s.subfeed in
    let b = begin_append sub.manager new in
    elim b.1 [
      | err e ↦ (record s { subfeed = record sub { manager = b.0 } }, err e)
      | ok _ ↦
          let w = append_signed_messages_to_subfeed c sub.feed_id sub.subfeed_hash s.database new in
          let f = finish_append b.0 new w.1 in
          (record { subfeed = record sub { manager = f.0 }; database = w.0 }, f.1)
    ]

abbrev notify : Store × Result (Unit {0}) → Store × Result (Unit {0})
notify (s, err e) = (s, err e)
notify (s, ok u) =
    (record s { subfeed = record (s.subfeed) { appended = s.subfeed.appended + 1 } }, ok u)

-- `appendSignedMessages` on the messages that are new.
unfoldable pub append_new :
    Codec → Store → (messages new : List SignedSubfeedMessage) → Store × Result (Unit {0})
append_new c s messages [] = (s, ok tt)
append_new c s messages (m ∷ new) =
    elim (verify_new c s.subfeed.public_key (last_signature messages) (length messages) (m ∷ new)) [
      | err e ↦ (s, err e)
      | ok _ ↦ notify (manager_append c s (m ∷ new))
    ]

unfoldable pub append_signed_messages :
    Codec → Store → List SignedSubfeedMessage → Store × Result (Unit {0})
append_signed_messages c s signed_messages = elim s.subfeed.manager.signed_messages [
  | none ↦ (s, err not_initialized)
  | some messages ↦ append_new c s messages (skip_known (length messages) signed_messages)
]

-- The loop of `appendMessages`: message `n` is signed at the time `now n`.
unfoldable pub sign_messages :
    Codec
    → (public_key private_key : String) (meta_data : Option String) (now : ℕ → ℕ)
    → (previous : Option String) (message_number : ℕ) → List String
    → Result (List SignedSubfeedMessage)
sign_messages c public_key private_key meta now previous n [] = ok []
sign_messages c public_key private_key meta now previous n (msg ∷ messages) =
    let body : MessageBody = record {
      previous_signature = previous;
      message_number = n;
      message = msg;
      timestamp = now n;
      meta_data = meta;
    } in
    let signature = c.sign body public_key private_key in
    do
      guard (c.verify body signature public_key) bad_signature
      rest ← sign_messages c public_key private_key meta now (some signature) (suc n) messages
      ok (record { body = body; signature = signature } ∷ rest)

unfoldable pub append_messages :
    Codec
    → (now : ℕ → ℕ) → Store
    → List String
    → (meta_data : Option String) → Store × Result (Unit {0})
append_messages c now s [] meta = elim s.subfeed.manager.signed_messages [
  | none ↦ (s, err not_initialized)
  | some messages ↦ (s, ok tt)
]
append_messages c now s (msg ∷ rest) meta = elim s.subfeed.manager.signed_messages [
  | none ↦ (s, err not_initialized)
  | some messages ↦ elim s.subfeed.private_key [
    | none ↦ (s, err no_private_key)
    | some key ↦
        elim (sign_messages c s.subfeed.public_key key meta now (last_signature messages)
          (length messages) (msg ∷ rest)) [
            | err e ↦ (s, err e)
            | ok signed ↦ append_signed_messages c s signed
          ]
  ]
]

unfoldable pub get_local_signed_messages :
    Subfeed → (position num_messages : ℕ) → Result (List SignedSubfeedMessage)
get_local_signed_messages sub position n = elim sub.manager.signed_messages [
  | none ↦ err not_initialized
  | some messages ↦
      if leb (position + n) (length messages)
      then ok (take n (drop position messages))
      else err out_of_range
]

-- `check` of `waitForSignedMessages`; a `max_num_messages` of 0 is no limit.
unfoldable pub check_messages :
    Subfeed → (position max_num_messages : ℕ) → Result (List SignedSubfeedMessage)
check_messages sub position limit = elim sub.manager.signed_messages [
  | none ↦ err not_initialized
  | some messages ↦
      if ltb position (length messages)
      then get_local_signed_messages sub position (
          if ltb 0 limit
          then min limit (length messages - position)
          else length messages - position)
      else ok []
]
