-- ===== src/Feeds/Replication.antt =====
-- RemoteSubfeedMessageDownloader: a replica comes to hold the messages of the writer.
use kachery_p2p.Base.{
  ℕ, suc, ◌-◌, ◌<◌, ◌≡◌, refl, ap, true, false, List, [], ◌∷◌, ◌++◌, none, some, String, arith,
  length, length-append, drop, take, drop-append, take_of_length-le, append-nil, All, nat_eq, subst,
}
use native.Mathlib.Nat.{le_refl}
use kachery_p2p.Feeds.{SignedSubfeedMessage, ok, Codec}
use kachery_p2p.Feeds.Storage.{IsReadable}
use kachery_p2p.Feeds.SignedMessages.{get_num_messages}
use kachery_p2p.Feeds.Subfeed.{Store, append_signed_messages, last_signature}
use kachery_p2p.Feeds.Chain.{IsChain}
use kachery_p2p.Feeds.Append.{
  IsConsistent, Appends, append_signed_messages-Appends, skip_known-IsChain,
}
use kachery_p2p.Feeds.Downloader.{
  Downloader, Reply, done, note_report, take_reply, download_rounds, start_download,
  report_num_remote_messages,
}

-- The remote node answers a request with the messages that it asks for.
abbrev pub honest : List SignedSubfeedMessage → ℕ → String × ℕ × ℕ → Reply
honest log round (node_id, position, n) = record {
  messages = ok (take n (drop position log));
  reported = none;
}

module _ (c : Codec) where
  pub num_local :
      (s : Store) (ms : List SignedSubfeedMessage)
      → s.subfeed.manager.signed_messages ≡ some ms
      → get_num_messages s.subfeed.manager ≡ ok (length ms)
  unfolding get_num_messages
  num_local s ms h = ground arith

  -- Once it has everything the loop ends.
  last_round :
      (fetch : ℕ → String × ℕ × ℕ → Reply) (rounds round : ℕ) (d : Downloader) (s : Store)
      (ms : List SignedSubfeedMessage)
      → s.subfeed.manager.signed_messages ≡ some ms
      → d.num_remote_messages ≡ some (length ms)
      → download_rounds c fetch (suc rounds) round d s
        ≡ record { downloader = record d { active_download = false }; store = s; ending = done }
  unfolding download_rounds
  last_round fetch rounds round d s ms h e = ground (arith, num_local s ms h)

  take_reply-Appends :
      (s : Store) (ms new : List SignedSubfeedMessage) (reply : Reply)
      → reply.messages ≡ ok new
      → Appends c s (append_signed_messages c s new) (ms ++ new)
      → take_reply c s (length new) reply ≡ ((append_signed_messages c s new).0, ok true)
  unfolding take_reply
  take_reply-Appends s ms new reply e a = ground (arith, a.succeeds)

  length-rest : (ms new : List SignedSubfeedMessage) → length (ms ++ new) - length ms ≡ length new
  length-rest ms new = omega (arith, length-append ms new)

  honest-rest :
      (ms new : List SignedSubfeedMessage) (round : ℕ) (node_id : String)
      → honest (ms ++ new) round (node_id, length ms, length new)
        ≡ record { messages = ok new; reported = none }
  honest-rest ms new round node_id =
      rw (drop-append ms new, take_of_length-le (length new) new (le_refl _))

  full_round :
      (d : Downloader) (s : Store) (ms new : List SignedSubfeedMessage) (node_id : String)
      (rounds : ℕ)
      → IsConsistent c s ms
      → Appends c s (append_signed_messages c s new) (ms ++ new)
      → 0 < length new
      → d.remote_node_id ≡ some node_id
      → d.num_remote_messages ≡ some (length (ms ++ new))
      → download_rounds c (honest (ms ++ new)) (suc (suc rounds)) 0 d s ≡ record {
        downloader = record d { active_download = false };
        store = (append_signed_messages c s new).0;
        ending = done;
      }
  unfolding download_rounds
  full_round d s ms new node_id rounds v a pos node num =
      let reply : Reply = record { messages = ok new; reported = none } in
      ground (
        arith,
        num_local s ms v.loaded,
        length-append ms new,
        length-rest ms new,
        honest-rest ms new 0 node_id,
        take_reply-Appends s ms new reply refl a,
        last_round (honest (ms ++ new)) rounds 1 d (append_signed_messages c s new).0 (ms ++ new)
            a.consistent.loaded num,
      )

  start_full :
      (d : Downloader) (s : Store) (ms new : List SignedSubfeedMessage) (node_id : String)
      (rounds : ℕ)
      → IsConsistent c s ms
      → Appends c s (append_signed_messages c s new) (ms ++ new)
      → 0 < length new
      → d.active_download ≡ false
      → report_num_remote_messages c
          (honest (ms ++ new))
          (suc (suc rounds))
          d
          s
          node_id
          (length (ms ++ new))
        ≡ record {
          downloader = record {
            remote_node_id = some node_id;
            num_remote_messages = some (length (ms ++ new));
            active_download = false;
          };
          store = (append_signed_messages c s new).0;
          ending = done;
        }
  unfolding report_num_remote_messages start_download
  start_full d s ms new node_id rounds v a pos idle =
      let d' : Downloader = record {
        remote_node_id = some node_id;
        num_remote_messages = some (length (ms ++ new));
        active_download = true;
      } in
      ground (
        arith,
        num_local s ms v.loaded,
        length-append ms new,
        full_round d' s ms new node_id rounds v a pos refl refl,
      )

  -- A replica that has the first messages `ms` of the writer's log `ms ++ new` and hears of its length
  -- asks for the rest and takes it, in memory and in the database; two rounds are enough, and the
  -- downloader is ready for the next report.
  pub replication :
      (d : Downloader) (s : Store) (ms new : List SignedSubfeedMessage) (node_id : String)
      (rounds : ℕ)
      → IsConsistent c s ms
      → IsChain c s.subfeed.public_key (last_signature ms) (length ms) new
      → All (IsReadable c) new
      → d.active_download ≡ false
      → let o =
          report_num_remote_messages c
            (honest (ms ++ new))
            (suc (suc rounds))
            d
            s
            node_id
            (length (ms ++ new)) in
        (o.ending ≡ done)
        × IsConsistent c o.store (ms ++ new)
        × (o.downloader.active_download ≡ false)
  unfolding report_num_remote_messages
  replication d s ms [] node_id rounds v k r idle =
      let n = num_local s ms v.loaded in
      let same = append-nil ms in
      let o : report_num_remote_messages c (honest (ms ++ [])) (suc (suc rounds)) d s node_id
            (length (ms ++ []))
          ≡ record {
            downloader = note_report d (some (node_id, length (ms ++ [])));
            store = s;
            ending = done;
          } =
        ground (arith, n, ap length same) in
      rw o (refl, rw same v, idle)
  replication d s ms (m ∷ new) node_id rounds v k r idle =
      let skips =
        skip_known-IsChain c s.subfeed.public_key (last_signature ms) (length ms) (m ∷ new) k in
      let a =
        subst (λ l. Appends c s (append_signed_messages c s (m ∷ new)) (ms ++ l)) skips
          (append_signed_messages-Appends c s ms (m ∷ new) v (rw skips r) (rw skips k)) in
      rw (start_full d s ms (m ∷ new) node_id rounds v a (omega arith) idle)
        (refl, a.consistent, refl)
