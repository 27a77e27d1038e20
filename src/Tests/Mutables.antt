-- ===== src/Tests/Mutables.antt =====
-- Mutables and the database lock on concrete inputs.
use kachery_p2p.Base.{
  ◌+◌, length, if◌then◌else◌, ◌≡◌, refl, true, List, [], ◌∷◌, ◌++◌, none, some, String, string_eq,
  ◌⊎◌,
}
use kachery_p2p.DatabaseLock
use kachery_p2p.DatabaseLock.{
  DatabaseLock, Reachable, unused, acquires, releases, acquire_database_lock, release_database_lock,
}
use kachery_p2p.Mutables
use kachery_p2p.Mutables.{
  JsonCodec, MutableManager, Lookup, found, missing, new_mutable_manager, key_hash,
}
use kachery_p2p.Mutables.History
use kachery_p2p.Mutables.History.{Op, sets, deletes, gets, listens, run, truth_after, lookup_of}

-- JSON values that are texts, which stand for themselves.
abbrev text_codec : JsonCodec String
text_codec = record { stringify = λ s. s; parse = λ s. some s; sha1 = λ s. s }

abbrev some_ops : List (Op text_codec)
some_ops =
    sets 1 "a" "x" ∷ listens 3 ∷ sets 2 "b" "y" ∷ gets 3 "a" ∷ sets 4 "a" "z" ∷ deletes 5 "b" ∷ []

get_finds_last_example :
    (Mutables.get text_codec 900000 (run text_codec (new_mutable_manager 0 []) some_ops) "a").1
    ≡ lookup_of text_codec (truth_after text_codec (λ h. none) some_ops (key_hash text_codec "a"))
get_finds_last_example =
    History.get_finds_last text_codec 0 900000 some_ops "a"
      ((refl, refl), (tt, ((refl, refl), (tt, ((refl, refl), (tt, tt))))))

last_of_a :
    lookup_of text_codec (truth_after text_codec (λ h. none) some_ops "a")
    ≡ found (record { key = "a"; value = "z" })
last_of_a = refl

-- Three callers ask for the lock, and the first releases it.
abbrev used_lock : DatabaseLock
used_lock = record {
  database_locked = true;
  on_database_lock_released_callbacks = 9 ∷ [];
  granted = 7 ∷ 8 ∷ [];
}

used-Reachable : Reachable (7 ∷ 8 ∷ 9 ∷ []) 1 used_lock
unfolding acquire_database_lock release_database_lock
used-Reachable = releases (acquires (acquires (acquires unused 7) 8) 9) refl

lock_is_fair_example :
    (used_lock.granted ++ used_lock.on_database_lock_released_callbacks ≡ 7 ∷ 8 ∷ 9 ∷ [])
    × (length used_lock.granted ≡ 1 + (if used_lock.database_locked then 1 else 0))
    × ((used_lock.on_database_lock_released_callbacks ≡ []) ⊎ (used_lock.database_locked ≡ true))
lock_is_fair_example = DatabaseLock.lock_is_fair (7 ∷ 8 ∷ 9 ∷ []) 1 used_lock used-Reachable
