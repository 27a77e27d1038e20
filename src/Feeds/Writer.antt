-- ===== src/Feeds/Writer.antt =====
-- Subfeed.appendMessages: the messages that the writer of a feed signs continue its chain.
use kachery_p2p.Base.{
  ℕ, suc, ◌≡◌, refl, ap, true, List, [], ◌∷◌, ◌++◌, map, Option, some, String, arith, length,
  nat_eq, string_eq, All, append-nil, subst,
}
use kachery_p2p.Feeds.{SignedSubfeedMessage, MessageBody, ok, Codec}
use kachery_p2p.Feeds.Storage.{IsReadable}
use kachery_p2p.Feeds.Subfeed.{
  Store, last_signature, append_signed_messages, sign_messages, append_messages,
}
use kachery_p2p.Feeds.Chain.{IsChain}
use kachery_p2p.Feeds.Append.{
  IsConsistent, Appends, append_signed_messages-Appends, skip_known-IsChain,
}

module _ (c : Codec) where
  -- Every signature that is made with the private key is accepted under the public one.
  abbrev pub IsKeyPair : (public_key private_key : String) → Type 0
  IsKeyPair public_key private_key =
      (b : MessageBody) → c.verify b (c.sign b public_key private_key) public_key ≡ true

  -- The messages of the bodies.
  abbrev pub contents : List SignedSubfeedMessage → List String
  contents = map (λ m. m.body.message)

  sign_messages-IsChain :
      (public_key private_key : String) (meta : Option String) (now : ℕ → ℕ)
      (previous : Option String) (n : ℕ) (messages : List String)
      → IsKeyPair public_key private_key
      → (signed : List SignedSubfeedMessage) × (sign_messages c public_key private_key meta now
            previous n messages
          ≡ ok signed)
        × IsChain c public_key previous n signed
        × (contents signed ≡ messages)
  unfolding sign_messages
  sign_messages-IsChain pk key meta now previous n [] pair = ([], refl, tt, refl)
  sign_messages-IsChain pk key meta now previous n (msg ∷ messages) pair =
      let body : MessageBody = record {
        previous_signature = previous;
        message_number = n;
        message = msg;
        timestamp = now n;
        meta_data = meta;
      } in
      let signature = c.sign body pk key in
      let (rest, made, chain, same) =
        sign_messages-IsChain pk key meta now (some signature) (suc n) messages pair in
      (
        record { body = body; signature = signature } ∷ rest,
        ground (arith, pair body),
        (pair body, refl, refl, chain),
        ap (◌∷◌ msg) same,
      )

  append_none :
      (now : ℕ → ℕ) (s : Store) (ms : List SignedSubfeedMessage) (meta : Option String)
      → s.subfeed.manager.signed_messages ≡ some ms
      → append_messages c now s [] meta ≡ (s, ok tt)
  unfolding append_messages
  append_none now s ms meta h = ground arith

  -- The writer. A consistent store with a private key whose signatures verify appends any list of
  -- messages, provided that what is signed can be read back from the text stored for it: the append
  -- succeeds, signed messages with these contents, in their order, stand behind the old ones, and the
  -- store is consistent.
  pub append_messages-Appends :
      (now : ℕ → ℕ) (s : Store) (ms : List SignedSubfeedMessage) (messages : List String)
      (meta : Option String) (key : String)
      → IsConsistent c s ms
      → s.subfeed.private_key ≡ some key
      → IsKeyPair s.subfeed.public_key key
      → ((signed : List SignedSubfeedMessage)
          → sign_messages c s.subfeed.public_key key meta now
              (last_signature ms)
              (length ms)
              messages
            ≡ ok signed
          → All (IsReadable c) signed)
      → (signed : List SignedSubfeedMessage) × (contents signed ≡ messages)
        × Appends c s (append_messages c now s messages meta) (ms ++ signed)
  unfolding append_messages
  append_messages-Appends now s ms [] meta key v has_key pair r = (
    [],
    refl,
    rw (append_none now s ms meta v.loaded) (record {
      succeeds = refl;
      consistent = rw append-nil v;
      same_key = refl;
      same_private_key = refl;
    }),
  )
  append_messages-Appends now s ms (msg ∷ messages) meta key v has_key pair r =
      let (signed, made, chain, same) =
        sign_messages-IsChain s.subfeed.public_key key meta now (last_signature ms) (length ms)
          (msg ∷ messages) pair in
      let skips =
        skip_known-IsChain c s.subfeed.public_key (last_signature ms) (length ms) signed chain in
      let result : append_messages c now s (msg ∷ messages) meta
          ≡ append_signed_messages c s signed =
        ground arith in
      (
        signed,
        same,
        rw result (
            subst (λ l. Appends c s (append_signed_messages c s signed) (ms ++ l)) skips
              (append_signed_messages-Appends c s ms signed v (rw skips (r signed made))
                (rw skips chain))),
      )
