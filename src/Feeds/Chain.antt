-- ===== src/Feeds/Chain.antt =====
-- Subfeed.appendSignedMessages and LocalSubfeedSignedMessagesManager: the chain of signed messages.
use kachery_p2p.Base.{
  ℕ, suc, ◌+◌, ◌≡◌, refl, ◌∙◌, ◌↔◌, true, List, [], ◌∷◌, ◌++◌, Option, none, some, String, arith,
  length, get_last?, nat_eq, string_eq,
}
use native.Mathlib.Nat.{zero-add, add-zero}
use text.Mathlib.TextEquality.{eq_iff}
use kachery_p2p.Feeds.{SignedSubfeedMessage, ok, Codec, or_null, same_text}
use kachery_p2p.Feeds.Storage.{Numbered}
use kachery_p2p.Feeds.SignedMessages.{number_after}
use kachery_p2p.Feeds.Subfeed.{last_signature, verify_new}

pub same_text_iff : (a b : Option String) → (same_text a b ≡ true) ↔ (a ≡ b)
same_text_iff none none = ground arith
same_text_iff none (some b) = ground arith
same_text_iff (some a) none = ground arith
same_text_iff (some a) (some b) = ground (arith, eq_iff a b)

module _ (c : Codec) (public_key : String) where
  -- Each message is signed by the feed, names the signature before it, and carries the next number.
  abbrev pub IsChain : Option String → ℕ → List SignedSubfeedMessage → Type 0
  IsChain previous n [] = Unit {0}
  IsChain previous n (m ∷ messages) =
      (c.verify m.body m.signature public_key ≡ true)
      × (or_null m.body.previous_signature ≡ or_null previous)
      × (m.body.message_number ≡ n)
      × IsChain (some m.signature) (suc n) messages

  -- The signature that the message after the list must name.
  abbrev pub last_from : Option String → List SignedSubfeedMessage → Option String
  last_from previous [] = previous
  last_from previous (m ∷ messages) = last_from (some m.signature) messages

  pub IsChain-append :
      (previous : Option String) (n : ℕ) (xs ys : List SignedSubfeedMessage)
      → IsChain previous n xs
      → IsChain (last_from previous xs) (n + length xs) ys
      → IsChain previous n (xs ++ ys)
  IsChain-append previous n [] ys h k = rw add-zero at k
  IsChain-append previous n (x ∷ xs) ys h k =
      let e : n + suc (length xs) ≡ suc n + length xs = omega arith in
      (h.0, h.1, h.2, IsChain-append (some x.signature) (suc n) xs ys h.3 (rw e at k))

  pub IsChain-Numbered :
      (previous : Option String) (n : ℕ) (ms : List SignedSubfeedMessage)
      → IsChain previous n ms
      → Numbered n ms
  IsChain-Numbered previous n [] h = tt
  IsChain-Numbered previous n (m ∷ ms) h = (h.2, IsChain-Numbered (some m.signature) (suc n) ms h.3)

  -- The checks of an append accept exactly the lists that continue the chain.
  pub verify_new-IsChain :
      (previous : Option String) (n : ℕ) (ms : List SignedSubfeedMessage)
      → (verify_new c public_key previous n ms ≡ ok tt) ↔ IsChain previous n ms
  unfolding verify_new
  verify_new-IsChain previous n [] = (λ _. tt, λ _. refl)
  verify_new-IsChain previous n (m ∷ ms) = (
    λ h. ground (
      arith,
      same_text_iff (or_null m.body.previous_signature) (or_null previous),
      verify_new-IsChain (some m.signature) (suc n) ms,
    ),
    λ h. ground (
      arith,
      same_text_iff (or_null m.body.previous_signature) (or_null previous),
      verify_new-IsChain (some m.signature) (suc n) ms,
    ),
  )

  last_from-last_signature :
      (previous : Option String) (m : SignedSubfeedMessage) (ms : List SignedSubfeedMessage)
      → last_from previous (m ∷ ms) ≡ last_signature (m ∷ ms)
  last_from-last_signature previous m [] = refl
  last_from-last_signature previous m (k ∷ ms) = last_from-last_signature (some m.signature) k ms

  pub last_from-none : (ms : List SignedSubfeedMessage) → last_from none ms ≡ last_signature ms
  last_from-none [] = refl
  last_from-none (m ∷ ms) = last_from-last_signature none m ms

  number_after-IsChain :
      (previous : Option String) (n : ℕ) (m : SignedSubfeedMessage) (ms : List SignedSubfeedMessage)
      → IsChain previous n (m ∷ ms)
      → number_after (get_last? (m ∷ ms)) ≡ n + length (m ∷ ms)
  number_after-IsChain previous n m [] h = ground arith
  number_after-IsChain previous n m (k ∷ ms) h =
      number_after-IsChain (some m.signature) (suc n) k ms h.3 ∙ omega arith

  pub number_after_all :
      (ms : List SignedSubfeedMessage) → IsChain none 0 ms → number_after (get_last? ms) ≡ length ms
  number_after_all [] h = refl
  number_after_all (m ∷ ms) h = number_after-IsChain none 0 m ms h ∙ zero-add _
