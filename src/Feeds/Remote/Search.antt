-- ===== src/Feeds/Remote/Search.antt =====
-- RemoteFeedManager: how often a live feed is searched for, and where a message is sent.
use kachery_p2p.Base.{
  ℕ, suc, ◌+◌, ◌*◌, ◌∙◌, ◌≤◌, ◌<◌, ◌≡◌, ◌≢◌, refl, ap, length, length-append, ◌⊎◌, inl, inr, true,
  false, leb, Bool-cases, if◌then◌else◌, List, [], ◌∷◌, ◌++◌, Option, none, some, String, arith,
  append_assoc, string_eq, Option-cases,
}
use kachery_p2p.Base.Maps.{IsMap}
use kachery_p2p.GarbageMap
use kachery_p2p.GarbageMap.{GarbageMap, check_garbage_collection}
use kachery_p2p.GarbageMap.Laws.{get-set_self, get-set_only}
use kachery_p2p.GarbageMap.Collecting.{check-timeout, check-IsMap}
use kachery_p2p.Feeds.{Error, Result, ok, err, live_feed_not_found}
use kachery_p2p.Feeds.Remote.{
  LiveFeedInfo, RemoteFeedManager, live_feed_lifetime_msec, still_valid, look_up, search_and_cache,
  find_live_feed_info, Round, find_with_retries, submit_message,
}

-- The loop of a submission with one second try, as a sequence of two searches.
abbrev pub two_searches :
    Round → Round → RemoteFeedManager → (feed_id : String) → RemoteFeedManager × Result String
two_searches first second m feed_id =
    let r = find_live_feed_info first.now first.is_online m feed_id first.answer in
    elim r.1 [
      | ok node_id ↦ (r.0, ok node_id)
      | err e ↦ find_live_feed_info second.now second.is_online r.0 feed_id second.answer
    ]

-- More fuel than two rounds changes nothing.
pub find_with_retries_lem :
    (more : ℕ) (rounds : ℕ → Round) (m : RemoteFeedManager) (feed_id : String)
    → let found = two_searches (rounds 0) (rounds 1) m feed_id in
      find_with_retries (suc (suc more)) 2000 rounds m feed_id
      ≡ (found.0, elim found.1 [ err e ↦ none | ok node_id ↦ some node_id ])
unfolding find_with_retries
find_with_retries_lem more rounds m feed_id = ground arith

-- What a call of findLiveFeedInfo does: it searches once at most and submits nothing; the node that it
-- finds is online or the answer of the search; and it fails only if a search gave no answer.
record Finds (round : Round) (m : RemoteFeedManager) (feed_id : String)
    (r : RemoteFeedManager × Result String) : Type 0 where
  searched : (r.0.searches ≡ m.searches) ⊎ (r.0.searches ≡ m.searches ++ feed_id ∷ [])
  quiet : r.0.submissions ≡ m.submissions
  source :
      (node_id : String)
      → r.1 ≡ ok node_id
      → (round.answer ≡ some node_id) ⊎ (round.is_online node_id ≡ true)
  failed : r.1 ≡ err live_feed_not_found → round.answer ≡ none
  only : (e : Error) → r.1 ≡ err e → e ≡ live_feed_not_found

find_live_feed_info-Finds :
    (round : Round) (m : RemoteFeedManager) (feed_id : String)
    → Finds round m feed_id (find_live_feed_info round.now round.is_online m feed_id round.answer)
unfolding find_live_feed_info
find_live_feed_info-Finds round m feed_id = record {
  searched = ground (arith, Option-cases round.answer);
  quiet = ground (arith, Option-cases round.answer);
  source = λ k h. ground (arith, Option-cases round.answer);
  failed = λ h. ground (arith, Option-cases round.answer);
  only = λ e h. ground (arith, Option-cases round.answer);
}

found_or_failed : (r : Result String) → ((n : String) × (r ≡ ok n)) ⊎ ((e : Error) × (r ≡ err e))
found_or_failed (ok n) = inl (n, refl)
found_or_failed (err e) = inr (e, refl)

-- A submission searches twice at most, with a wait between. It submits the message once, to the node that
-- was found, which is online or the answer of one of the two searches; or it fails, with nothing
-- submitted, and then neither search had an answer.
pub submit_message_lem :
    (rounds : ℕ → Round) (m : RemoteFeedManager) (feed_id subfeed_hash message : String)
    → let r = submit_message rounds m feed_id subfeed_hash message in
      ((r.0.searches ≡ m.searches)
        ⊎ (r.0.searches ≡ m.searches ++ feed_id ∷ [])
        ⊎ (r.0.searches ≡ m.searches ++ feed_id ∷ feed_id ∷ []))
      × (((r.1 ≡ err live_feed_not_found)
            × (r.0.submissions ≡ m.submissions)
            × ((rounds 0).answer ≡ none)
            × ((rounds 1).answer ≡ none))
          ⊎ ((node_id : String) × (r.1 ≡ ok tt)
              × (r.0.submissions
                  ≡ m.submissions
                    ++ record {
                      node_id = node_id;
                      feed_id = feed_id;
                      subfeed_hash = subfeed_hash;
                      message = message;
                    }
                      ∷ [])
              × (((rounds 0).answer ≡ some node_id)
                  ⊎ ((rounds 0).is_online node_id ≡ true)
                  ⊎ ((rounds 1).answer ≡ some node_id)
                  ⊎ ((rounds 1).is_online node_id ≡ true))))
unfolding submit_message
submit_message_lem rounds m feed_id subfeed_hash message =
    let first = rounds 0 in
    let second = rounds 1 in
    let loop = find_with_retries_lem 0 rounds m feed_id in
    let f = find_live_feed_info-Finds first m feed_id in
    let one = find_live_feed_info first.now first.is_online m feed_id first.answer in
    let g = find_live_feed_info-Finds second one.0 feed_id in
    let two = find_live_feed_info second.now second.is_online one.0 feed_id second.answer in
    elim (found_or_failed one.1) [
      | inl (n, found) ↦ (
        ground (arith, f.searched),
        inr (n, ground arith, ground (arith, f.quiet), ground (arith, f.source n)),
      )
      | inr (e, failed) ↦ elim (found_or_failed two.1) [
        | inl (n, found) ↦ (
          ground (
            arith,
            f.searched,
            g.searched,
            append_assoc m.searches (feed_id ∷ []) (feed_id ∷ []),
          ),
          inr (n, ground arith, ground (arith, f.quiet, g.quiet), ground (arith, g.source n)),
        )
        | inr (e', again) ↦ (
          ground (
            arith,
            f.searched,
            g.searched,
            append_assoc m.searches (feed_id ∷ []) (feed_id ∷ []),
          ),
          inl (
            ground arith,
            ground (arith, f.quiet, g.quiet),
            ground (arith, f.failed, f.only e failed),
            ground (arith, g.failed, g.only e' again),
          ),
        )
      ]
    ]

append_longer : (xs : List String) (x : String) → xs ≢ xs ++ x ∷ []
append_longer xs x h = omega (arith, ap length h, length-append xs (x ∷ []))

-- How long a result is believed.
abbrev pub believed_msec : Option String → ℕ
believed_msec none = 1000 * 30
believed_msec (some node_id) = 1000 * 60 * 10

-- A search was made, so its result is in the map.
look_up_searched :
    (now later : ℕ) (m : RemoteFeedManager) (feed_id : String) (answer : Option String)
    → (look_up now later m feed_id answer).0.searches ≡ m.searches ++ feed_id ∷ []
    → look_up now later m feed_id answer ≡ (
      search_and_cache later
          (record m { live_feed_infos = (GarbageMap.get now m.live_feed_infos feed_id).0 })
          feed_id
          answer,
      answer,
    )
unfolding look_up
look_up_searched now later m feed_id answer searched =
    ground (arith, append_longer m.searches feed_id)

look_up-hit :
    (now later : ℕ) (m : RemoteFeedManager) (feed_id : String) (answer : Option String)
    (info : LiveFeedInfo)
    → (GarbageMap.get now m.live_feed_infos feed_id).1 ≡ some info
    → still_valid now info ≡ true
    → ((look_up now later m feed_id answer).1 ≡ info.result)
      × ((look_up now later m feed_id answer).0.searches ≡ m.searches)
unfolding look_up
look_up-hit now later m feed_id answer info found valid = (ground arith, ground arith)

still_valid_soon :
    (later again : ℕ) (answer : Option String)
    → again ≤ later + believed_msec answer
    → still_valid again (record { result = answer; timestamp = later }) ≡ true
unfolding still_valid
still_valid_soon later again none h = ground arith
still_valid_soon later again (some n) h = ground arith

lifetime_is_longer : (answer : Option String) → believed_msec answer ≤ live_feed_lifetime_msec
lifetime_is_longer none = omega arith
lifetime_is_longer (some n) = omega arith

still_valid_late :
    (later again : ℕ) (answer : Option String)
    → later + believed_msec answer < again
    → still_valid again (record { result = answer; timestamp = later }) ≡ false
unfolding still_valid
still_valid_late later again none h = ground arith
still_valid_late later again (some n) h = ground arith

-- A result that is missing or too old is searched for again.
look_up-miss :
    (now later : ℕ) (m : RemoteFeedManager) (feed_id : String) (answer : Option String)
    → ((info : LiveFeedInfo)
        → (GarbageMap.get now m.live_feed_infos feed_id).1 ≡ some info
        → still_valid now info ≡ false)
    → ((look_up now later m feed_id answer).1 ≡ answer)
      × ((look_up now later m feed_id answer).0.searches ≡ m.searches ++ feed_id ∷ [])
unfolding look_up
look_up-miss now later m feed_id answer old =
    elim (Option-cases (GarbageMap.get now m.live_feed_infos feed_id).1) [
      | inl e ↦ rw (e, look_up) (refl, refl)
      | inr (info, e) ↦ rw (e, look_up, old info e) (refl, refl)
    ]

-- When a subscription has searched for a feed, a later one takes the result from the cache without a
-- search, whatever a search would give: for half a minute if the feed was not found, for ten minutes if it
-- was. After that time a later one searches again, and takes what this search gives.
pub look_up-cached :
    (now later again answered : ℕ) (m : RemoteFeedManager) (feed_id : String)
    (answer other : Option String)
    → IsMap m.live_feed_infos.entries
    → m.live_feed_infos.expiration_timeout_msec ≡ some live_feed_lifetime_msec
    → (look_up now later m feed_id answer).0.searches ≡ m.searches ++ feed_id ∷ []
    → let r = look_up again answered (look_up now later m feed_id answer).0 feed_id other in
      let searched = m.searches ++ feed_id ∷ [] in
      let is_believed = leb again (later + believed_msec answer) in
      (r.1 ≡ (if is_believed then answer else other))
      × (r.0.searches ≡ (if is_believed then searched else searched ++ feed_id ∷ []))
unfolding GarbageMap.get
look_up-cached now later again answered m feed_id answer other h limit searched =
    let g = check_garbage_collection now m.live_feed_infos in
    let info : LiveFeedInfo = record { result = answer; timestamp = later } in
    let lasting : g.expiration_timeout_msec ≡ some live_feed_lifetime_msec =
      check-timeout now m.live_feed_infos ∙ limit in
    let first = look_up_searched now later m feed_id answer searched in
    let state = search_and_cache later (record m { live_feed_infos = g }) feed_id answer in
    elim (Bool-cases (leb again (later + believed_msec answer))) [
      | inl t ↦
          let soon : again ≤ later + believed_msec answer = ground arith in
          let kept =
            get-set_self later again g feed_id info (check-IsMap now m.live_feed_infos h)
              (rw lasting (omega (arith, lifetime_is_longer answer))) in
          let hit =
            look_up-hit again answered state feed_id other info kept
              (still_valid_soon later again answer soon) in
          rw (first, t) hit
      | inr f ↦
          let late : later + believed_msec answer < again = ground arith in
          let miss = look_up-miss again answered state feed_id other (λ x found.
            rw (get-set_only later again g feed_id info x found)
              (still_valid_late later again answer late)) in
          rw (first, f) miss
    ]
