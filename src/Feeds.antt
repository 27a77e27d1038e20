-- ===== src/Feeds.antt =====
-- daemon/src/feeds and daemon/src/external/real/LocalFeedsDatabase.ts: feeds of signed messages.
-- A message, its meta data and access rules are their JSON texts; signatures and keys are texts.
pub mod Database
pub mod Storage
pub mod Deletion
pub mod SignedMessages
pub mod Subfeed
pub mod Chain
pub mod Append
pub mod Writer
pub mod Downloader
pub mod Replication
pub mod Disabling
pub mod Restart
pub mod Codes
pub mod Outgoing
pub mod Renewal
pub mod Incoming
pub mod Removing
pub mod Announcing
pub mod Manager
pub mod Local
pub mod Remote
pub mod Access
use kachery_p2p.Base.{
  ℕ, Bool, true, false, Option, none, some, String, ◌==◌, string_eq, if◌then◌else◌,
}

pub record MessageBody : Type 0 where
  pub previous_signature : Option String
  pub message_number : ℕ
  pub message : String
  pub timestamp : ℕ
  pub meta_data : Option String

pub record SignedSubfeedMessage : Type 0 where
  pub body : MessageBody
  pub signature : String

-- What the source throws.
pub data Error : Type 0 where
  not_initialized bad_signature bad_previous_signature bad_message_number : Error
  no_private_key already_appending unexpected_first_number : Error
  database_error bad_position bad_message bad_access_rules : Error
  out_of_range not_writeable : Error
  feed_exists bad_feed_config bad_feed_id bad_json live_feed_not_found : Error

pub data Result {ℓ} (A : Type ℓ) : Type ℓ where
  err : Error → Result A
  ok : A → Result A

infixl 5 ◌>>=◌ ◌>>◌
abbrev pub ◌>>=◌ {ℓ κ} : {A : Type ℓ} {B : Type κ} → Result A → (A → Result B) → Result B
err thrown >>= next = err thrown
ok value >>= next = next value

abbrev pub ◌>>◌ {ℓ} : {B : Type ℓ} → Result (Unit {0}) → Result B → Result B
check >> next = check >>= λ _. next

abbrev pub guard : Bool → Error → Result (Unit {0})
guard test thrown = if test then ok tt else err thrown

abbrev pub or_fail {ℓ} : {A : Type ℓ} → Option A → Error → Result A
or_fail none e = err e
or_fail (some a) e = ok a

-- `x || null` on a text that may be undefined: the empty text counts as missing.
abbrev pub or_null : Option String → Option String
or_null none = none
or_null (some s) = if s == "" then none else some s

-- `===` on texts that may be null.
abbrev pub same_text : Option String → Option String → Bool
same_text none none = true
same_text (some a) (some b) = a == b
same_text _ _ = false

-- Signatures (ed25519 over BSON) and JSON come from libraries.
pub record Codec : Type 0 where
  pub sign : MessageBody → (public_key private_key : String) → String
  pub verify : MessageBody → (signature public_key : String) → Bool
  pub stringify : SignedSubfeedMessage → String
  -- `JSON.parse` and the check by `isSignedSubfeedMessage`
  pub parse : String → Option SignedSubfeedMessage
