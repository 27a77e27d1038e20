-- ===== src/Tests/Access.antt =====
-- The feed manager and its theorems on concrete inputs.
use kachery_p2p.Base.{◌+◌, ◌≡◌, ◌≢◌, refl, inl, true, List, [], ◌∷◌, some, String}
use kachery_p2p.Feeds.{SignedSubfeedMessage}
use kachery_p2p.Feeds.Database.{has_feed, contains}
use kachery_p2p.Feeds.Subfeed.{Store}
use kachery_p2p.Feeds.Append.{IsConsistent}
use kachery_p2p.Feeds.Writer.{contents}
use kachery_p2p.Feeds.Manager.{
  SubfeedAccessRule, may_write, rules_for, success, handle_submit_message, Watch,
}
use kachery_p2p.Feeds.Access
use kachery_p2p.Feeds.Access.{due}
use kachery_p2p.Tests.Feeds.{toy, one, hello, one-Stores, hello-IsChain, signed_is_world}

-- The node `writer` may write, and no other one.
abbrev some_rules : String → List SubfeedAccessRule
some_rules t = record { node_id = "writer"; write = true } ∷ []

abbrev one_shared : Store
one_shared = record one { subfeed = record (one.subfeed) { access_rules = some "rules" } }

shared-IsConsistent : IsConsistent toy one_shared (hello ∷ [])
shared-IsConsistent = record {
  loaded = refl;
  idle = refl;
  chain = hello-IsChain;
  stored = one-Stores;
}

submit-Appends_example :
    (signed : List SignedSubfeedMessage) × (contents toy signed ≡ "world" ∷ [])
    × ((handle_submit_message toy some_rules (λ n. n + 5) (some "sk") one_shared "writer" "world").1
        ≡ success)
    × IsConsistent toy
        (handle_submit_message toy some_rules
          (λ n. n + 5)
          (some "sk")
          one_shared
          "writer"
          "world").0
        (hello ∷ signed)
unfolding may_write rules_for has_feed contains
submit-Appends_example =
    Access.submit-Appends toy some_rules (λ n. n + 5) "sk" one_shared (hello ∷ []) "writer" "world"
      shared-IsConsistent refl (λ b. refl) signed_is_world refl refl refl

submit_needs_permission_example :
    ((handle_submit_message toy some_rules (λ n. n + 5) (some "sk") one_shared "reader" "world").0
      ≡ one_shared)
    × ((handle_submit_message toy some_rules (λ n. n + 5) (some "sk") one_shared "reader" "world").1
        ≢ success)
unfolding may_write rules_for
submit_needs_permission_example =
    Access.submit_needs_permission toy some_rules (λ n. n + 5) (some "sk") one_shared "reader"
      "world" (inl refl)

abbrev two_watches : List Watch
two_watches =
    record { name = "old"; subfeed = one.subfeed; position = 1 }
    ∷ record { name = "new"; subfeed = one.subfeed; position = 0 }
    ∷ []

due_is_new : due 5 two_watches ((hello ∷ []) ∷ (hello ∷ []) ∷ []) ≡ ("new", hello ∷ []) ∷ []
due_is_new = refl
