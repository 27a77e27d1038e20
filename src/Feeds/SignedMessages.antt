-- ===== src/Feeds/SignedMessages.antt =====
-- daemon/src/feeds/LocalSubfeedSignedMessagesManager.ts: the messages of a subfeed in memory.
-- The database comes in as the result of the awaited call; an append is a part before it and one
-- after it.
use kachery_p2p.Base.{
  ℕ, suc, ◌+◌, Bool, true, false, List, [], ◌∷◌, ◌++◌, Option, none, some, String, length, head?,
  get_last?, get_elem?, ◌==◌, nat_eq,
}
use kachery_p2p.Feeds.{
  SignedSubfeedMessage, Result, ok, err, ◌>>◌, guard, Codec, same_text, or_null, not_initialized,
  bad_signature, bad_previous_signature, bad_message_number, already_appending,
  unexpected_first_number,
}

pub record Manager : Type 0 where
  pub signed_messages : Option (List SignedSubfeedMessage)
  pub appending : Bool

abbrev pub new_manager : Manager
new_manager = record { signed_messages = none; appending = false }

-- The loop of `initializeFromLocal`; `n` is `previousMessageNumber + 1`.
unfoldable pub verify_stored :
    Codec
    → String
    → (previous : Option String) (n : ℕ) → List SignedSubfeedMessage
    → Result (Unit {0})
verify_stored c public_key previous n [] = ok tt
verify_stored c public_key previous n (m ∷ messages) = do
  guard (c.verify m.body m.signature public_key) bad_signature
  guard (same_text previous (or_null m.body.previous_signature)) bad_previous_signature
  guard (n == m.body.message_number) bad_message_number
  verify_stored c public_key (some m.signature) (suc n) messages

unfoldable pub initialize_from_local :
    Codec → String → Manager → Result (List SignedSubfeedMessage) → Manager × Result (Unit {0})
initialize_from_local c public_key g (err e) = (g, err e)
initialize_from_local c public_key g (ok messages) =
    elim (verify_stored c public_key none 0 messages) [
      | err e ↦ (g, err e)
      | ok _ ↦ (record g { signed_messages = some messages }, ok tt)
    ]

unfoldable pub initialize_empty_message_list : Manager → Manager
initialize_empty_message_list g = record g { signed_messages = some [] }

unfoldable pub is_initialized : Manager → Bool
is_initialized g = elim g.signed_messages [ none ↦ false | some _ ↦ true ]

unfoldable pub get_num_messages : Manager → Result ℕ
get_num_messages g = elim g.signed_messages [
  | none ↦ err not_initialized
  | some messages ↦ ok (length messages)
]

-- Out of range the source gives undefined.
unfoldable pub get_signed_message : Manager → ℕ → Result (Option SignedSubfeedMessage)
get_signed_message g i = elim g.signed_messages [
  | none ↦ err not_initialized
  | some messages ↦ ok (get_elem? messages i)
]

-- The number that the first new message must have.
abbrev pub number_after : Option SignedSubfeedMessage → ℕ
number_after none = 0
number_after (some last) = last.body.message_number + 1

abbrev pub first_number_fits : Option SignedSubfeedMessage → List SignedSubfeedMessage → Bool
first_number_fits none messages = true
first_number_fits (some first) messages =
    first.body.message_number == number_after (get_last? messages)

-- `appendSignedMessages` up to the call of the database.
unfoldable pub begin_append : Manager → List SignedSubfeedMessage → Manager × Result (Unit {0})
begin_append g new = elim g.signed_messages [
  | none ↦ (g, err not_initialized)
  | some messages ↦ elim (first_number_fits (head? new) messages) [
    | false ↦ (g, err unexpected_first_number)
    | true ↦ elim g.appending [
      | true ↦ (g, err already_appending)
      | false ↦ (record g { appending = true }, ok tt)
    ]
  ]
]

-- After it: an error of the database is thrown on, with the flag still set.
unfoldable pub finish_append :
    Manager → List SignedSubfeedMessage → Result (Unit {0}) → Manager × Result (Unit {0})
finish_append g new (err e) = (g, err e)
finish_append g new (ok _) = elim g.signed_messages [
  | none ↦ (g, err not_initialized)
  | some messages ↦
      (record g { signed_messages = some (messages ++ new); appending = false }, ok tt)
]
