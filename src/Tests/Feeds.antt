-- ===== src/Tests/Feeds.antt =====
-- Feeds on concrete messages, with a toy signature and a toy JSON.
use text.Mathlib.Text.{◌==◌ as str_beq}
use text.Mathlib.TextEquality.{eq_iff}
use kachery_p2p.Base.{
  ℕ, ◌+◌, ◌≡◌, refl, subst, true, false, List, [], ◌∷◌, Option, none, some, String, arith, All,
  if◌then◌else◌, string_eq,
}
use kachery_p2p.Feeds.{SignedSubfeedMessage, Error, ok, err, Codec}
use kachery_p2p.Feeds.Database.{Database, message_row, get_signed_subfeed_messages, select}
use kachery_p2p.Feeds.Storage.{Stores, IsReadable}
use kachery_p2p.Feeds.SignedMessages.{new_manager, initialize_from_local}
use kachery_p2p.Feeds.Subfeed.{Store, append_signed_messages, append_messages, sign_messages}
use kachery_p2p.Feeds.Chain.{IsChain}
use kachery_p2p.Feeds.Append
use kachery_p2p.Feeds.Append.{IsConsistent, Appends}
use kachery_p2p.Feeds.Writer
use kachery_p2p.Feeds.Writer.{contents}
use kachery_p2p.Feeds.Restart
use kachery_p2p.Feeds.Restart.{RejectsEmpty}
use kachery_p2p.Feeds.Downloader.{new_downloader, Reply, done, report_num_remote_messages}
use kachery_p2p.Feeds.Disabling
use kachery_p2p.Feeds.Disabling.{Event, run_reports}
use kachery_p2p.Feeds.Replication
use kachery_p2p.Feeds.Replication.{honest}

abbrev pub hello : SignedSubfeedMessage
hello = record {
  body = record {
    previous_signature = none;
    message_number = 0;
    message = "hello";
    timestamp = 5;
    meta_data = none;
  };
  signature = "sig";
}

abbrev pub world : SignedSubfeedMessage
world = record {
  body = record {
    previous_signature = some "sig";
    message_number = 1;
    message = "world";
    timestamp = 6;
    meta_data = none;
  };
  signature = "sig";
}

abbrev pub forged : SignedSubfeedMessage
forged = record world { signature = "bad" }

abbrev pub toy_parse : String → Option SignedSubfeedMessage
toy_parse t =
    if str_beq t "hello" then some hello else if str_beq t "world" then some world else none

abbrev pub toy : Codec
toy = record {
  sign = λ body public_key private_key. "sig";
  verify = λ body signature public_key. str_beq signature "sig";
  stringify = λ m. m.body.message;
  parse = toy_parse;
}

abbrev pub one_database : Database
one_database = record {
  feeds = "f" ∷ [];
  subfeeds = record { feed_id = "f"; subfeed_hash = "h"; access_rules = none } ∷ [];
  subfeed_messages = message_row toy "f" "h" hello ∷ [];
}

abbrev pub one : Store
one = record {
  subfeed = record {
    public_key = "pk";
    private_key = some "sk";
    feed_id = "f";
    subfeed_hash = "h";
    manager = record { signed_messages = some (hello ∷ []); appending = false };
    access_rules = none;
    is_writeable = some true;
    appended = 0;
  };
  database = one_database;
}

pub one-Stores : Stores toy "f" "h" one_database (hello ∷ [])
unfolding select
one-Stores = record { rows = refl; numbered = (refl, tt); readable = (refl, tt) }

pub hello-IsChain : IsChain toy "pk" none 0 (hello ∷ [])
hello-IsChain = (refl, refl, refl, tt)

world-IsChain : IsChain toy "pk" (some "sig") 1 (world ∷ [])
world-IsChain = (refl, refl, refl, tt)

not_forged : ¬ IsChain toy "pk" (some "sig") 1 (forged ∷ [])
not_forged h = cc (h.0)

one-IsConsistent : IsConsistent toy one (hello ∷ [])
one-IsConsistent = record { loaded = refl; idle = refl; chain = hello-IsChain; stored = one-Stores }

append_signed_messages-Appends_example :
    Appends toy one (append_signed_messages toy one (hello ∷ world ∷ [])) (hello ∷ world ∷ [])
append_signed_messages-Appends_example =
    Append.append_signed_messages-Appends toy one (hello ∷ []) (hello ∷ world ∷ []) one-IsConsistent
      (refl, tt) world-IsChain

append_signed_messages-refuses_example :
    (e : Error) × (append_signed_messages toy one (forged ∷ []) ≡ (one, err e))
append_signed_messages-refuses_example =
    Append.append_signed_messages-refuses toy one (hello ∷ []) (forged ∷ []) one-IsConsistent
      not_forged

pub signed_is_world :
    (signed : List SignedSubfeedMessage)
    → sign_messages toy "pk" "sk" none (λ n. n + 5) (some "sig") 1 ("world" ∷ []) ≡ ok signed
    → All (IsReadable toy) signed
unfolding sign_messages
signed_is_world signed e =
    let p : world ∷ [] ≡ signed = ground arith in subst (All (IsReadable toy)) p (refl, tt)

append_messages-Appends_example :
    (signed : List SignedSubfeedMessage) × (contents toy signed ≡ "world" ∷ [])
    × Appends toy one (append_messages toy (λ n. n + 5) one ("world" ∷ []) none) (hello ∷ signed)
append_messages-Appends_example =
    Writer.append_messages-Appends toy (λ n. n + 5) one (hello ∷ []) ("world" ∷ []) none "sk"
      one-IsConsistent refl (λ b. refl) signed_is_world

toy-RejectsEmpty : RejectsEmpty toy "pk"
toy-RejectsEmpty b s h = ground (arith, eq_iff s "sig", eq_iff s "", eq_iff "sig" "")

restart_example :
    initialize_from_local toy "pk" new_manager
      (get_signed_subfeed_messages toy "f" "h" one_database)
    ≡ (record { signed_messages = some (hello ∷ []); appending = false }, ok tt)
restart_example = Restart.restart toy one (hello ∷ []) toy-RejectsEmpty one-IsConsistent

replication_example :
    let o =
      report_num_remote_messages toy (honest (hello ∷ world ∷ [])) 2 new_downloader one "node" 2 in
    (o.ending ≡ done)
    × IsConsistent toy o.store (hello ∷ world ∷ [])
    × (o.downloader.active_download ≡ false)
replication_example =
    Replication.replication toy new_downloader one (hello ∷ []) (world ∷ []) "node" 0
      one-IsConsistent world-IsChain (refl, tt) refl

abbrev dishonest : ℕ → String × ℕ × ℕ → Reply
dishonest round asked = record { messages = ok (forged ∷ []); reported = none }

-- Two honest reports come after the bad reply.
abbrev later_reports : List Event
later_reports =
    record { fetch = honest (hello ∷ world ∷ []); rounds = 3; node_id = "node"; num_messages = 2 }
    ∷ record {
      fetch = honest (hello ∷ world ∷ []);
      rounds = 3;
      node_id = "other";
      num_messages = 2;
    }
    ∷ []

bad_reply_disables_example :
    let o = report_num_remote_messages toy dishonest 3 new_downloader one "node" 2 in
    (o.store ≡ one)
    × (o.downloader.active_download ≡ true)
    × ((run_reports toy o.downloader o.store later_reports).1 ≡ one)
    × ((run_reports toy o.downloader o.store later_reports).0.active_download ≡ true)
bad_reply_disables_example =
    Disabling.bad_reply_disables toy new_downloader one (hello ∷ []) (forged ∷ []) "node" 2 2
      dishonest later_reports one-IsConsistent refl (omega arith) refl refl not_forged
