-- ===== src/Feeds/Access.antt =====
-- FeedManager: who may append to a subfeed, and what is read of it.
use kachery_p2p.Base.{
  ℕ, ◌-◌, ◌<◌, ◌≡◌, ◌≢◌, refl, ◌∙◌, ap, sym, subst, ◌⊎◌, true, false, List, [], ◌∷◌, ◌++◌, Option,
  none, some, String, arith, length, get_last?, take, drop, ltb, All, if◌then◌else◌, string_eq,
}
use kachery_p2p.Feeds.{SignedSubfeedMessage, Result, ok, err, Codec, out_of_range}
use kachery_p2p.Feeds.Database.{has_feed}
use kachery_p2p.Feeds.Storage.{IsReadable}
use kachery_p2p.Feeds.SignedMessages.{get_num_messages}
use kachery_p2p.Feeds.Subfeed.{
  Subfeed, Store, append_messages, get_local_signed_messages, sign_messages, last_signature,
}
use kachery_p2p.Feeds.Append.{IsConsistent}
use kachery_p2p.Feeds.Writer.{IsKeyPair, contents, append_messages-Appends}
use kachery_p2p.Feeds.Manager.{
  is_writeable, append_to_writeable, get_final_local_message, get_access_rules, has_writeable_feed,
  SubfeedAccessRule, may_write, success, append_response, handle_submit_message, Watch, limited,
  watch_local,
}

append_response_ok :
    (r : Store × Result (Unit {0})) → r.1 ≡ ok tt → append_response r ≡ (r.0, success)
append_response_ok (s, ok u) h = refl
append_response_ok (s, err e) h = cc h

module _ (c : Codec) (rules_of : String → List SubfeedAccessRule) where
  -- A message of another node changes nothing unless the rules let that node write, the node has the
  -- private key of the feed, and the subfeed is writeable: in every other case memory and database
  -- stay as they are, and the response is not success.
  pub submit_needs_permission :
      (now : ℕ → ℕ) (key : Option String) (s : Store) (node message : String)
      → (may_write rules_of s.subfeed.access_rules node ≡ false)
        ⊎ (key ≡ none)
        ⊎ (s.subfeed.is_writeable ≡ some false)
      → ((handle_submit_message c rules_of now key s node message).0 ≡ s)
        × ((handle_submit_message c rules_of now key s node message).1 ≢ success)
  unfolding handle_submit_message get_access_rules has_writeable_feed is_writeable
  submit_needs_permission now key s node message forbidden = ground arith

  -- A message of a node that the rules let write is appended: on a consistent store of a writeable
  -- feed that the database has, with a private key whose signatures verify, and where what is signed can
  -- be read back from the text stored for it, the response is success, and behind the old messages
  -- stands one signed message with this content, in memory and in the database.
  pub submit-Appends :
      (now : ℕ → ℕ) (key : String) (s : Store) (ms : List SignedSubfeedMessage)
      (node message : String)
      → IsConsistent c s ms
      → s.subfeed.private_key ≡ some key
      → IsKeyPair c s.subfeed.public_key key
      → ((signed : List SignedSubfeedMessage)
          → sign_messages c s.subfeed.public_key key none now
              (last_signature ms)
              (length ms)
              (message ∷ [])
            ≡ ok signed
          → All (IsReadable c) signed)
      → s.subfeed.is_writeable ≡ some true
      → has_feed s.database s.subfeed.feed_id ≡ true
      → may_write rules_of s.subfeed.access_rules node ≡ true
      → (signed : List SignedSubfeedMessage) × (contents c signed ≡ message ∷ [])
        × ((handle_submit_message c rules_of now (some key) s node message).1 ≡ success)
        × IsConsistent c
            (handle_submit_message c rules_of now (some key) s node message).0
            (ms ++ signed)
  unfolding handle_submit_message get_access_rules has_writeable_feed is_writeable
      append_to_writeable
  submit-Appends now key s ms node message v has_key pair readable writeable there allowed =
      let (signed, same, appended) =
        append_messages-Appends c now s ms (message ∷ []) none key v has_key pair readable in
      let handled : handle_submit_message c rules_of now (some key) s node message
          ≡ append_response (append_messages c now s (message ∷ []) none) =
        ground arith in
      let response =
        append_response_ok (append_messages c now s (message ∷ []) none) appended.succeeds in
      (
        signed,
        same,
        ap (λ r. r.1) (handled ∙ response),
        subst (λ r. IsConsistent c r.0 (ms ++ signed)) (sym (handled ∙ response))
            appended.consistent,
      )

take-last :
    (m : SignedSubfeedMessage) (ms : List SignedSubfeedMessage)
    → (last : SignedSubfeedMessage) × (get_last? (m ∷ ms) ≡ some last)
      × (take 1 (drop (length ms) (m ∷ ms)) ≡ last ∷ [])
take-last m [] = (m, refl, refl)
take-last m (n ∷ ms) =
    let (last, is_last, taken) = take-last n ms in (last, is_last, ground (arith, taken))

-- The last message of a subfeed is returned; of one without messages, the call throws instead of
-- returning null.
pub final_local_message :
    (s : Store) (ms : List SignedSubfeedMessage)
    → s.subfeed.manager.signed_messages ≡ some ms
    → get_final_local_message s
      ≡ elim (get_last? ms) [ none ↦ err out_of_range | some m ↦ ok (some m.body.message) ]
unfolding get_final_local_message get_num_messages get_local_signed_messages
final_local_message s [] loaded = ground arith
final_local_message s (m ∷ ms) loaded =
    let (last, is_last, taken) = take-last m ms in ground (arith, is_last, taken)

-- The subfeeds that are watched have loaded the messages `mss`.
abbrev pub AreLoaded : List Watch → List (List SignedSubfeedMessage) → Type 0
AreLoaded [] [] = Unit {0}
AreLoaded (w ∷ watches) (ms ∷ mss) =
    (w.subfeed.manager.signed_messages ≡ some ms) × AreLoaded watches mss
AreLoaded _ _ = ⊥

-- The messages from a position on, as many as the limit lets through.
abbrev pub page : (limit position : ℕ) → List SignedSubfeedMessage → List SignedSubfeedMessage
page limit position ms = take (limited limit (length ms - position)) (drop position ms)

-- The watches that have messages at their positions, in their order, each with its page.
abbrev pub due :
    (limit : ℕ)
    → List Watch
    → List (List SignedSubfeedMessage)
    → List (String × List SignedSubfeedMessage)
due limit (w ∷ watches) (ms ∷ mss) =
    if ltb w.position (length ms)
    then (w.name, page limit w.position ms) ∷ due limit watches mss
    else due limit watches mss
due limit _ _ = []

get_local-page :
    (sub : Subfeed) (limit position : ℕ) (ms : List SignedSubfeedMessage)
    → sub.manager.signed_messages ≡ some ms
    → position < length ms
    → get_local_signed_messages sub position (limited limit (length ms - position))
      ≡ ok (page limit position ms)
unfolding get_local_signed_messages
get_local-page sub limit position ms loaded within = ground arith

-- The messages that are there already. For watches of loaded subfeeds the first loop does not throw:
-- it returns those with messages behind their positions, in their order, each with the messages from
-- its position on, and no more than the limit if that is above 0.
pub watch_local_lem :
    (limit : ℕ) (watches : List Watch) (mss : List (List SignedSubfeedMessage))
    → AreLoaded watches mss
    → watch_local limit watches ≡ ok (due limit watches mss)
unfolding watch_local get_num_messages
watch_local_lem limit [] [] loaded = refl
watch_local_lem limit [] (ms ∷ mss) loaded = absurd loaded
watch_local_lem limit (w ∷ watches) [] loaded = absurd loaded
watch_local_lem limit (w ∷ watches) (ms ∷ mss) loaded = ground (
  arith,
  loaded.0,
  get_local-page w.subfeed limit w.position ms loaded.0,
  watch_local_lem limit watches mss loaded.1,
)
