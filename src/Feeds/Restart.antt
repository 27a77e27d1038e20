-- ===== src/Feeds/Restart.antt =====
-- LocalSubfeedSignedMessagesManager.initializeFromLocal: a restart of the daemon.
use kachery_p2p.Base.{
  ℕ, suc, ◌≡◌, refl, inl, inr, ◌⊎◌, true, false, List, [], ◌∷◌, Option, none, some, String, arith,
  ◌==◌, string_eq, nat_eq, Bool-cases,
}
use kachery_p2p.Feeds.{MessageBody, SignedSubfeedMessage, Error, Result, ok, err, Codec, or_null}
use kachery_p2p.Feeds.Database.{get_signed_subfeed_messages}
use kachery_p2p.Feeds.Storage.{get_signed_subfeed_messages-Stores}
use kachery_p2p.Feeds.SignedMessages.{Manager, new_manager, verify_stored, initialize_from_local}
use kachery_p2p.Feeds.Subfeed.{Store}
use kachery_p2p.Feeds.Chain.{IsChain, same_text_iff}
use kachery_p2p.Feeds.Append.{IsConsistent, Result-cases}

or_null_idem : (x : Option String) → or_null (or_null x) ≡ or_null x
or_null_idem none = refl
or_null_idem (some s) = elim (Bool-cases (s == "")) [ inl t ↦ rw t | inr f ↦ rw (f, f) ]

module _ (c : Codec) (public_key : String) where
  -- No signature that is accepted is the empty text; an ed25519 signature has 64 bytes.
  abbrev pub RejectsEmpty : Type 0
  RejectsEmpty =
      (b : MessageBody) (signature : String)
      → c.verify b signature public_key ≡ true
      → (signature == "") ≡ false

  -- What the checks of a restart accept is a chain.
  pub verify_stored-IsChain :
      (previous : Option String) (n : ℕ) (ms : List SignedSubfeedMessage)
      → verify_stored c public_key previous n ms ≡ ok tt
      → IsChain c public_key previous n ms
  unfolding verify_stored
  verify_stored-IsChain previous n [] h = tt
  verify_stored-IsChain previous n (m ∷ ms) h = ground (
    arith,
    same_text_iff previous (or_null m.body.previous_signature),
    or_null_idem m.body.previous_signature,
    verify_stored-IsChain (some m.signature) (suc n) ms,
  )

  IsChain-verify_stored :
      (previous : Option String) (n : ℕ) (ms : List SignedSubfeedMessage)
      → RejectsEmpty
      → or_null previous ≡ previous
      → IsChain c public_key previous n ms
      → verify_stored c public_key previous n ms ≡ ok tt
  unfolding verify_stored
  IsChain-verify_stored previous n [] law clean h = refl
  IsChain-verify_stored previous n (m ∷ ms) law clean h =
      let full = law m.body m.signature h.0 in
      let rest = IsChain-verify_stored (some m.signature) (suc n) ms law (rw full) h.3 in
      ground (arith, same_text_iff previous (or_null m.body.previous_signature), rest)

-- A restart. From the database of a consistent store a new manager loads exactly the messages that
-- were in memory: what an append wrote passes every check of the next start.
pub restart :
    (c : Codec) (s : Store) (ms : List SignedSubfeedMessage)
    → RejectsEmpty c s.subfeed.public_key
    → IsConsistent c s ms
    → initialize_from_local c s.subfeed.public_key new_manager
        (get_signed_subfeed_messages c s.subfeed.feed_id s.subfeed.subfeed_hash s.database)
      ≡ (record { signed_messages = some ms; appending = false }, ok tt)
unfolding initialize_from_local
restart c s ms law v =
    let read =
      get_signed_subfeed_messages-Stores c s.subfeed.feed_id s.subfeed.subfeed_hash s.database ms
        v.stored in
    let checked = IsChain-verify_stored c s.subfeed.public_key none 0 ms law refl v.chain in
    ground (arith, read, checked)

-- What a start loads, from any database, is a chain of the feed; a start that fails loads nothing.
pub initialize_from_local-IsChain :
    (c : Codec) (public_key : String) (g : Manager) (read : Result (List SignedSubfeedMessage))
    → let r = initialize_from_local c public_key g read in
      ((ms : List SignedSubfeedMessage) × (r.1 ≡ ok tt)
        × (r.0.signed_messages ≡ some ms)
        × IsChain c public_key none 0 ms)
      ⊎ ((e : Error) × (r ≡ (g, err e)))
unfolding initialize_from_local
initialize_from_local-IsChain c public_key g (err e) = inr (e, refl)
initialize_from_local-IsChain c public_key g (ok ms) =
    elim (Result-cases (verify_stored c public_key none 0 ms)) [
      | inl t ↦ inl (ms, ground arith, ground arith, verify_stored-IsChain c public_key none 0 ms t)
      | inr (e, t) ↦ inr (e, ground arith)
    ]
