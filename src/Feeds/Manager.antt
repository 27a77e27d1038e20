-- ===== src/Feeds/Manager.antt =====
-- daemon/src/feeds/FeedManager.ts, and the handler of submitted messages of
-- daemon/src/nodeToNodeRequestHandlers/handleSubmitMessageToLiveFeedRequest.ts.
-- A method works on the store of a subfeed that is loaded (`_loadSubfeed`); the lock that it holds
-- meanwhile lets no other method in between. Access rules are read from their JSON text by `rules_of`.
use kachery_p2p.Base.{
  ℕ, ◌-◌, Bool, true, false, ◌&&◌, List, [], ◌∷◌, Option, none, some, String, length, get_last?,
  ltb, min, if◌then◌else◌, ◌==◌, string_eq,
}
use kachery_p2p.Feeds.{
  SignedSubfeedMessage, Error, Result, ok, err, ◌>>=◌, Codec, not_initialized, not_writeable,
}
use kachery_p2p.Feeds.Database.{has_feed, set_subfeed_access_rules}
use kachery_p2p.Feeds.SignedMessages.{get_num_messages}
use kachery_p2p.Feeds.Subfeed.{Subfeed, Store, append_messages, get_local_signed_messages}

-- `Subfeed.isWriteable`
unfoldable pub is_writeable : Subfeed → Result Bool
is_writeable sub = elim sub.is_writeable [ none ↦ err not_initialized | some b ↦ ok b ]

-- `appendMessages`
unfoldable pub append_to_writeable :
    Codec → (now : ℕ → ℕ) → Store → List String → Store × Result (Unit {0})
append_to_writeable c now s messages = elim (is_writeable s.subfeed) [
  | err e ↦ (s, err e)
  | ok false ↦ (s, err not_writeable)
  | ok true ↦ append_messages c now s messages none
]

-- `getFinalLocalMessage`; none is null.
unfoldable pub get_final_local_message : Store → Result (Option String)
get_final_local_message s = do
  num_messages ← get_num_messages s.subfeed.manager
  messages ← get_local_signed_messages s.subfeed (num_messages - 1) 1
  ok (elim (get_last? messages) [ none ↦ none | some m ↦ some m.body.message ])

-- `getAccessRules`, and that of the subfeed.
unfoldable pub get_access_rules : Store → Result (Option String)
get_access_rules s = elim (is_writeable s.subfeed) [
  | err e ↦ err e
  | ok false ↦ err not_writeable
  | ok true ↦ ok s.subfeed.access_rules
]

-- `setAccessRules`, and that of the subfeed: first in the database, then in memory.
unfoldable pub set_access_rules :
    (cascades : Bool) → Store → (rules : String) → Store × Result (Unit {0})
set_access_rules cascades s rules = elim (is_writeable s.subfeed) [
  | err e ↦ (s, err e)
  | ok false ↦ (s, err not_writeable)
  | ok true ↦ (
    record {
      subfeed = record (s.subfeed) { access_rules = some rules };
      database =
          set_subfeed_access_rules cascades s.database s.subfeed.feed_id s.subfeed.subfeed_hash
            rules;
    },
    ok tt,
  )
]

-- `LocalFeedManager.hasWriteableFeed`, with the private key that the configuration has for the feed.
unfoldable pub has_writeable_feed : Store → (private_key : Option String) → Bool
has_writeable_feed s none = false
has_writeable_feed s (some key) = has_feed s.database s.subfeed.feed_id

pub record SubfeedAccessRule : Type 0 where
  pub node_id : String
  pub write : Bool

-- `rules.filter(r => r.nodeId === fromNodeId && r.write)`
unfoldable pub rules_for : (from_node_id : String) → List SubfeedAccessRule → List SubfeedAccessRule
rules_for node [] = []
rules_for node (r ∷ rules) =
    let rest = rules_for node rules in if r.node_id == node && r.write then r ∷ rest else rest

-- Whether the rules let the node submit messages.
unfoldable pub may_write :
    (rules_of : String → List SubfeedAccessRule)
    → (rules : Option String) (from_node_id : String) → Bool
may_write rules_of none node = false
may_write rules_of (some rules) node = ltb 0 (length (rules_for node (rules_of rules)))

pub data Response : Type 0 where
  success no_writeable_feed permission_denied error_appending : Response
  threw : Error → Response

-- The last step of the handler, under `try`.
abbrev pub append_response : Store × Result (Unit {0}) → Store × Response
append_response (s, ok u) = (s, success)
append_response (s, err e) = (s, error_appending)

-- `handleSubmitMessageToLiveFeedRequest`
unfoldable pub handle_submit_message :
    Codec
    → (rules_of : String → List SubfeedAccessRule) → (now : ℕ → ℕ) → (private_key : Option String)
    → Store
    → (from_node_id message : String) → Store × Response
handle_submit_message c rules_of now key s node message =
    if has_writeable_feed s key
    then elim (get_access_rules s) [
      | err e ↦ (s, threw e)
      | ok rules ↦
          if may_write rules_of rules node
          then append_response (append_to_writeable c now s (message ∷ []))
          else (s, permission_denied)
    ]
    else (s, no_writeable_feed)

-- What is watched: a subfeed, by its store, from a position on.
pub record Watch : Type 0 where
  pub name : String
  pub subfeed : Subfeed
  pub position : ℕ

-- The number of messages that are returned of a watch; a limit of 0 is no limit.
abbrev pub limited : (limit num_messages : ℕ) → ℕ
limited limit n = if ltb 0 limit then min limit n else n

-- The first loop of `watchForNewMessages`, with signed messages: those that are there already.
unfoldable pub watch_local :
    (limit : ℕ) → List Watch → Result (List (String × List SignedSubfeedMessage))
watch_local limit [] = ok []
watch_local limit (w ∷ watches) =
    let rest = watch_local limit watches in
    elim (get_num_messages w.subfeed.manager) [
      | err e ↦ err e
      | ok num_local ↦
          if ltb w.position num_local
          then get_local_signed_messages w.subfeed w.position
              (limited limit (num_local - w.position))
            >>= (λ messages. rest >>= (λ found. ok ((w.name, messages) ∷ found)))
          else rest
    ]
