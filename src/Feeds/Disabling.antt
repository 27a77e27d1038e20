-- ===== src/Feeds/Disabling.antt =====
-- RemoteSubfeedMessageDownloader: what a bad reply does to the downloader.
use kachery_p2p.Base.{
  ℕ, suc, ◌-◌, ◌<◌, ◌≡◌, refl, sym, ◌∙◌, true, false, List, [], ◌∷◌, none, some, String, arith,
  length, nat_eq, subst,
}
use kachery_p2p.Feeds.{SignedSubfeedMessage, ok, Codec}
use kachery_p2p.Feeds.Subfeed.{Store, skip_known, last_signature}
use kachery_p2p.Feeds.Chain.{IsChain}
use kachery_p2p.Feeds.Append.{IsConsistent, append_signed_messages-refuses}
use kachery_p2p.Feeds.Downloader.{
  Downloader, Reply, threw, take_reply, download_rounds, start_download, report_num_remote_messages,
}
use kachery_p2p.Feeds.Replication.{num_local}

-- A report of another node's messages, with what the node answers if it is asked.
pub record Event : Type 0 where
  pub fetch : ℕ → String × ℕ × ℕ → Reply
  pub rounds : ℕ
  pub node_id : String
  pub num_messages : ℕ

module _ (c : Codec) where
  -- The reports come in one after the other.
  unfoldable pub run_reports : Downloader → Store → List Event → Downloader × Store
  run_reports d s [] = (d, s)
  run_reports d s (e ∷ es) =
      let o = report_num_remote_messages c e.fetch e.rounds d s e.node_id e.num_messages in
      run_reports o.downloader o.store es

  -- A downloader that is busy takes no report.
  busy_ignores :
      (e : Event) (d : Downloader) (s : Store) (ms : List SignedSubfeedMessage)
      → s.subfeed.manager.signed_messages ≡ some ms
      → d.active_download ≡ true
      → let o = report_num_remote_messages c e.fetch e.rounds d s e.node_id e.num_messages in
        (o.store ≡ s) × (o.downloader.active_download ≡ true)
  unfolding report_num_remote_messages
  busy_ignores e d s ms loaded busy = ground (arith, num_local c s ms loaded)

  stays_disabled :
      (es : List Event) (d : Downloader) (s : Store) (ms : List SignedSubfeedMessage)
      → s.subfeed.manager.signed_messages ≡ some ms
      → d.active_download ≡ true
      → ((run_reports d s es).1 ≡ s) × ((run_reports d s es).0.active_download ≡ true)
  unfolding run_reports
  stays_disabled [] d s ms loaded busy = (refl, busy)
  stays_disabled (e ∷ es) d s ms loaded busy =
      let o = report_num_remote_messages c e.fetch e.rounds d s e.node_id e.num_messages in
      let (same, still) = busy_ignores e d s ms loaded busy in
      let rest =
        stays_disabled es o.downloader o.store ms
          (subst (λ x. x.subfeed.manager.signed_messages ≡ some ms) (sym same) loaded) still in
      (rest.0 ∙ same, rest.1)

  -- A defect. If the remote node answers the first request with the right number of messages that do
  -- not continue the chain, then nothing is stored, as it should be, but `activeDownload` stays set: after
  -- any further reports, of whichever nodes, in whatever number, the store is the same and the flag set.
  pub bad_reply_disables :
      (d : Downloader) (s : Store) (ms bad : List SignedSubfeedMessage) (node_id : String)
      (rounds n : ℕ) (fetch : ℕ → String × ℕ × ℕ → Reply) (es : List Event)
      → IsConsistent c s ms
      → d.active_download ≡ false
      → length ms < n
      → fetch 0 (node_id, length ms, n - length ms) ≡ record { messages = ok bad; reported = none }
      → length bad ≡ n - length ms
      → ¬ IsChain c s.subfeed.public_key
          (last_signature ms)
          (length ms)
          (skip_known (length ms) bad)
      → let o = report_num_remote_messages c fetch (suc rounds) d s node_id n in
        (o.store ≡ s)
        × (o.downloader.active_download ≡ true)
        × ((run_reports o.downloader o.store es).1 ≡ s)
        × ((run_reports o.downloader o.store es).0.active_download ≡ true)
  unfolding report_num_remote_messages start_download download_rounds take_reply
  bad_reply_disables d s ms bad node_id rounds n fetch es v idle more answer size broken =
      let (e, refused) = append_signed_messages-refuses c s ms bad v broken in
      let stuck : Downloader = record {
        remote_node_id = some node_id;
        num_remote_messages = some n;
        active_download = true;
      } in
      let o : report_num_remote_messages c fetch (suc rounds) d s node_id n
          ≡ record { downloader = stuck; store = s; ending = threw e } =
        ground (arith, num_local c s ms v.loaded, refused) in
      let stuck_still = stays_disabled es stuck s ms v.loaded refl in
      rw o (refl, refl, stuck_still.0, stuck_still.1)
