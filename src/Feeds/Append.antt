-- ===== src/Feeds/Append.antt =====
-- Subfeed.appendSignedMessages and appendMessages: memory and database stay one chain.
use kachery_p2p.Base.{
  ℕ, ◌+◌, ◌≡◌, refl, inl, inr, ◌⊎◌, true, false, List, [], ◌∷◌, ◌++◌, Option, none, some, String,
  arith, length, nat_eq, nat_beq_iff, string_eq, All, append-nil,
}
use native.Mathlib.Nat.{zero-add}
use kachery_p2p.Feeds.{SignedSubfeedMessage, Error, Result, ok, err, Codec}
use kachery_p2p.Feeds.Database.{append_signed_messages_to_subfeed}
use kachery_p2p.Feeds.Storage.{Stores, IsReadable, append-Stores}
use kachery_p2p.Feeds.SignedMessages.{begin_append, finish_append, first_number_fits}
use kachery_p2p.Feeds.Subfeed.{
  Store, skip_known, last_signature, verify_new, manager_append, append_new, append_signed_messages,
}
use kachery_p2p.Feeds.Chain.{
  IsChain, IsChain-append, IsChain-Numbered, verify_new-IsChain, last_from-none, number_after_all,
}

pub Result-cases : (r : Result (Unit {0})) → (r ≡ ok tt) ⊎ ((e : Error) × (r ≡ err e))
Result-cases (ok tt) = inl refl
Result-cases (err e) = inr (e, refl)

module _ (c : Codec) where
  -- The subfeed has loaded the messages `ms`, which are a chain of its feed, the database holds the
  -- same ones, and no append is under way.
  pub record IsConsistent (s : Store) (ms : List SignedSubfeedMessage) : Type 0 where
    pub loaded : s.subfeed.manager.signed_messages ≡ some ms
    pub idle : s.subfeed.manager.appending ≡ false
    pub chain : IsChain c s.subfeed.public_key none 0 ms
    pub stored : Stores c s.subfeed.feed_id s.subfeed.subfeed_hash s.database ms

  -- An append succeeds, with the store then holding `ms`.
  pub record Appends (s : Store) (r : Store × Result (Unit {0})) (ms : List SignedSubfeedMessage)
      : Type 0 where
    pub succeeds : r.1 ≡ ok tt
    pub consistent : IsConsistent r.0 ms
    pub same_key : r.0.subfeed.public_key ≡ s.subfeed.public_key
    pub same_private_key : r.0.subfeed.private_key ≡ s.subfeed.private_key

  first_fits :
      (public_key : String) (ms : List SignedSubfeedMessage) (m : SignedSubfeedMessage)
      (new : List SignedSubfeedMessage)
      → IsChain c public_key none 0 ms
      → IsChain c public_key (last_signature ms) (length ms) (m ∷ new)
      → first_number_fits (some m) ms ≡ true
  first_fits public_key ms m new h k =
      ground
        (arith, number_after_all c public_key ms h, nat_beq_iff m.body.message_number (length ms))

  IsChain-continue :
      (public_key : String) (ms new : List SignedSubfeedMessage)
      → IsChain c public_key none 0 ms
      → IsChain c public_key (last_signature ms) (length ms) new
      → IsChain c public_key none 0 (ms ++ new)
  IsChain-continue public_key ms new h k =
      IsChain-append c public_key none 0 ms new h (rw (last_from-none c public_key ms, zero-add) k)

  append_new-Appends :
      (s : Store) (ms new : List SignedSubfeedMessage)
      → IsConsistent s ms
      → All (IsReadable c) new
      → IsChain c s.subfeed.public_key (last_signature ms) (length ms) new
      → Appends s (append_new c s ms new) (ms ++ new)
  unfolding append_new manager_append begin_append finish_append
  append_new-Appends s ms [] v r k = record {
    succeeds = refl;
    consistent = rw append-nil v;
    same_key = refl;
    same_private_key = refl;
  }
  append_new-Appends s ms (m ∷ new) v r k =
      let sub = s.subfeed in
      let checked =
        (verify_new-IsChain c sub.public_key (last_signature ms) (length ms) (m ∷ new)).1 k in
      let fits = first_fits sub.public_key ms m new v.chain k in
      let written =
        append-Stores c sub.feed_id sub.subfeed_hash s.database ms (m ∷ new) v.stored
          (IsChain-Numbered c sub.public_key (last_signature ms) (length ms) (m ∷ new) k) r in
      let joined = IsChain-continue sub.public_key ms (m ∷ new) v.chain k in
      let final : Store = record {
        subfeed = record sub {
          manager = record { signed_messages = some (ms ++ m ∷ new); appending = false };
          appended = sub.appended + 1;
        };
        database =
            (append_signed_messages_to_subfeed c sub.feed_id sub.subfeed_hash s.database
              (m ∷ new)).0;
      } in
      let result : append_new c s ms (m ∷ new) ≡ (final, ok tt) =
        ground (arith, checked, fits, written.0) in
      rw result (record {
        succeeds = refl;
        consistent = record { loaded = refl; idle = refl; chain = joined; stored = written.1 };
        same_key = refl;
        same_private_key = refl;
      })

  -- Messages that do not continue the chain are refused, with nothing changed.
  append_new-refuses :
      (s : Store) (ms new : List SignedSubfeedMessage)
      → ¬ IsChain c s.subfeed.public_key (last_signature ms) (length ms) new
      → (e : Error) × (append_new c s ms new ≡ (s, err e))
  unfolding append_new
  append_new-refuses s ms [] h = absurd (h tt)
  append_new-refuses s ms (m ∷ new) h =
      elim (Result-cases
        (verify_new c s.subfeed.public_key (last_signature ms) (length ms) (m ∷ new))) [
          | inl t ↦ absurd (h ((verify_new-IsChain c _ _ _ _).0 t))
          | inr (e, t) ↦ (e, ground arith)
        ]

  append_loaded :
      (s : Store) (ms new : List SignedSubfeedMessage)
      → s.subfeed.manager.signed_messages ≡ some ms
      → append_signed_messages c s new ≡ append_new c s ms (skip_known (length ms) new)
  unfolding append_signed_messages
  append_loaded s ms new h = ground arith

  pub skip_known-IsChain :
      (public_key : String) (previous : Option String) (n : ℕ) (ms : List SignedSubfeedMessage)
      → IsChain c public_key previous n ms
      → skip_known n ms ≡ ms
  skip_known-IsChain public_key previous n [] h = refl
  skip_known-IsChain public_key previous n (m ∷ ms) h = ground arith

  -- Received messages. A consistent store skips those that it has; if the rest continues its chain,
  -- it takes them all, in memory and in the database, and stays consistent.
  pub append_signed_messages-Appends :
      (s : Store) (ms new : List SignedSubfeedMessage)
      → IsConsistent s ms
      → All (IsReadable c) (skip_known (length ms) new)
      → IsChain c s.subfeed.public_key (last_signature ms) (length ms) (skip_known (length ms) new)
      → Appends s (append_signed_messages c s new) (ms ++ skip_known (length ms) new)
  append_signed_messages-Appends s ms new v r k =
      rw (append_loaded s ms new v.loaded)
        (append_new-Appends s ms (skip_known (length ms) new) v r k)

  -- If the rest does not continue the chain (a forged signature, a gap, a fork), the call fails, and
  -- memory and database are as they were.
  pub append_signed_messages-refuses :
      (s : Store) (ms new : List SignedSubfeedMessage)
      → IsConsistent s ms
      → ¬ IsChain c s.subfeed.public_key
          (last_signature ms)
          (length ms)
          (skip_known (length ms) new)
      → (e : Error) × (append_signed_messages c s new ≡ (s, err e))
  append_signed_messages-refuses s ms new v h =
      rw (append_loaded s ms new v.loaded) (append_new-refuses s ms (skip_known (length ms) new) h)
