-- ===== src/Feeds/Downloader.antt =====
-- daemon/src/feeds/RemoteSubfeedMessageDownloader.ts: a subfeed follows a remote node.
-- A round is one request to the remote node. `fetch` gives its outcome, and the report of a new
-- number of messages, if one comes in while the request is awaited; no other append runs meanwhile.
use kachery_p2p.Base.{
  ℕ, zero, suc, ◌-◌, Bool, true, false, List, Option, none, some, String, length, ltb,
  if◌then◌else◌, ◌==◌, nat_eq,
}
use kachery_p2p.Feeds.{SignedSubfeedMessage, Error, Result, ok, err, Codec}
use kachery_p2p.Feeds.SignedMessages.{get_num_messages}
use kachery_p2p.Feeds.Subfeed.{Store, append_signed_messages}

pub record Downloader : Type 0 where
  pub remote_node_id : Option String
  pub num_remote_messages : Option ℕ
  pub active_download : Bool

abbrev pub new_downloader : Downloader
new_downloader = record {
  remote_node_id = none;
  num_remote_messages = none;
  active_download = false;
}

pub record Reply : Type 0 where
  pub messages : Result (List SignedSubfeedMessage)
  pub reported : Option (String × ℕ)

abbrev pub note_report : Downloader → Option (String × ℕ) → Downloader
note_report d none = d
note_report d (some (node_id, n)) = record d {
  remote_node_id = some node_id;
  num_remote_messages = some n;
}

-- How a run of the loop ends: by a `break`, by an exception, or not within the rounds.
pub data Ending : Type 0 where
  done : Ending
  threw : Error → Ending
  unfinished : Ending

pub record Outcome : Type 0 where
  pub downloader : Downloader
  pub store : Store
  pub ending : Ending

-- What a round asks for: the node, the position and the number of messages; none ends the loop.
abbrev pub request : Downloader → (num_local : ℕ) → Option (String × ℕ × ℕ)
request d n = elim d.num_remote_messages [
  | none ↦ none
  | some m ↦ elim d.remote_node_id [
    | none ↦ none
    | some node_id ↦ if ltb n m then some (node_id, n, m - n) else none
  ]
]

-- The part of the body behind the request: whether to go on, with the store after the append.
unfoldable pub take_reply : Codec → Store → (num_messages : ℕ) → Reply → Store × Result Bool
take_reply c s n reply = elim reply.messages [
  | err e ↦ (s, ok false)
  | ok messages ↦
      let r = append_signed_messages c s messages in
      if length messages == n
      then (r.0, elim r.1 [ err e ↦ err e | ok _ ↦ ok true ])
      else (s, ok false)
]

-- The loop of `_startDownload`; an exception skips the reset of `activeDownload` behind it.
unfoldable pub download_rounds :
    Codec → (fetch : ℕ → String × ℕ × ℕ → Reply) → (rounds round : ℕ) → Downloader → Store → Outcome
download_rounds c fetch zero round d s = record { downloader = d; store = s; ending = unfinished }
download_rounds c fetch (suc rounds) round d s = elim (get_num_messages s.subfeed.manager) [
  | err e ↦ record { downloader = d; store = s; ending = threw e }
  | ok num_local ↦ elim (request d num_local) [
    | none ↦ record { downloader = record d { active_download = false }; store = s; ending = done }
    | some (node_id, position, n) ↦
        let reply = fetch round (node_id, position, n) in
        let d' = note_report d reply.reported in
        let r = take_reply c s n reply in
        elim r.1 [
          | err e ↦ record { downloader = d'; store = r.0; ending = threw e }
          | ok false ↦ record {
            downloader = record d' { active_download = false };
            store = r.0;
            ending = done;
          }
          | ok true ↦ download_rounds c fetch rounds (suc round) d' r.0
        ]
  ]
]

unfoldable pub start_download :
    Codec → (fetch : ℕ → String × ℕ × ℕ → Reply) → (rounds : ℕ) → Downloader → Store → Outcome
start_download c fetch rounds d s =
    if d.active_download
    then record { downloader = d; store = s; ending = done }
    else download_rounds c fetch rounds 0 (record d { active_download = true }) s

unfoldable pub report_num_remote_messages :
    Codec
    → (fetch : ℕ → String × ℕ × ℕ → Reply) → (rounds : ℕ) → Downloader
    → Store
    → (remote_node_id : String) (num_remote_messages : ℕ) → Outcome
report_num_remote_messages c fetch rounds d s node_id n =
    let d' = note_report d (some (node_id, n)) in
    elim (get_num_messages s.subfeed.manager) [
      | err e ↦ record { downloader = d'; store = s; ending = threw e }
      | ok num_local ↦
          if ltb num_local n
          then if d'.active_download
            then record { downloader = d'; store = s; ending = done }
            else start_download c fetch rounds d' s
          else record { downloader = d'; store = s; ending = done }
    ]
