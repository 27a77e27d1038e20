-- ===== src/DatabaseLock.antt =====
-- The lock on a database file, of daemon/src/external/real/LocalFeedsDatabase.ts and, with the same
-- code, of daemon/src/mutables/MutableDatabase.ts.
-- A caller is a number. `granted` records the callers whose wait for the lock has ended, oldest first.
use kachery_p2p.Base.{
  ℕ, suc, ◌+◌, ◌≡◌, refl, ◌⊎◌, inl, inr, Bool, true, false, List, [], ◌∷◌, ◌++◌, append_assoc,
  append-nil, Option, none, some, arith, length, length-append, if◌then◌else◌,
}

pub record DatabaseLock : Type 0 where
  pub database_locked : Bool
  pub on_database_lock_released_callbacks : List ℕ
  pub granted : List ℕ

abbrev pub new_lock : DatabaseLock
new_lock = record {
  database_locked = false;
  on_database_lock_released_callbacks = [];
  granted = [];
}

abbrev grant : DatabaseLock → ℕ → DatabaseLock
grant l caller = record l { database_locked = true; granted = l.granted ++ caller ∷ [] }

-- `_acquireDatabaseLock`
unfoldable pub acquire_database_lock : DatabaseLock → ℕ → DatabaseLock
acquire_database_lock l caller = elim l.database_locked [
  | false ↦ grant l caller
  | true ↦ record l {
    on_database_lock_released_callbacks = l.on_database_lock_released_callbacks ++ caller ∷ [];
  }
]

-- `_releaseDatabaseLock`; none where it throws.
unfoldable pub release_database_lock : DatabaseLock → Option DatabaseLock
release_database_lock l = elim l.database_locked [
  | false ↦ none
  | true ↦ elim l.on_database_lock_released_callbacks [
    | [] ↦ some (record l { database_locked = false })
    | cb ∷ rest ↦ some (
        grant (record l { database_locked = false; on_database_lock_released_callbacks = rest }) cb)
  ]
]

-- The states of a lock for which `callers` have asked, in this order, and which was released
-- `released` times. Only the caller that has the lock releases it.
pub data Reachable : (callers : List ℕ) (released : ℕ) → DatabaseLock → Type 0 where
  unused : Reachable [] 0 new_lock
  acquires :
      {callers : List ℕ} {released : ℕ} {l : DatabaseLock}
      → Reachable callers released l
      → (caller : ℕ) → Reachable (callers ++ caller ∷ []) released (acquire_database_lock l caller)
  releases :
      {callers : List ℕ} {released : ℕ} {l m : DatabaseLock}
      → Reachable callers released l
      → release_database_lock l ≡ some m
      → Reachable callers (suc released) m

-- What holds of a lock in every state: who waits, and that one caller at most has it.
record IsFair (callers : List ℕ) (released : ℕ) (l : DatabaseLock) : Type 0 where
  order : l.granted ++ l.on_database_lock_released_callbacks ≡ callers
  exclusive : length l.granted ≡ released + (if l.database_locked then 1 else 0)
  waiting : (l.on_database_lock_released_callbacks ≡ []) ⊎ (l.database_locked ≡ true)

callbacks-cases : (cbs : List ℕ) → (cbs ≡ []) ⊎ ((cb : ℕ) × (rest : List ℕ) × (cbs ≡ cb ∷ rest))
callbacks-cases [] = inl refl
callbacks-cases (cb ∷ rest) = inr (cb, rest, refl)

acquire-IsFair :
    (callers : List ℕ) (released : ℕ) (l : DatabaseLock) (caller : ℕ)
    → IsFair callers released l
    → IsFair (callers ++ caller ∷ []) released (acquire_database_lock l caller)
unfolding acquire_database_lock
acquire-IsFair callers released l caller f =
    let waiting = l.on_database_lock_released_callbacks in
    let last = caller ∷ [] in
    record {
      order = ground (
        arith,
        f.order,
        f.waiting,
        append_assoc l.granted waiting last,
        append-nil l.granted,
        append-nil (l.granted ++ last),
      );
      exclusive = ground (arith, f.exclusive, f.waiting, length-append l.granted last);
      waiting = ground (arith, f.waiting);
    }

release-IsFair :
    (callers : List ℕ) (released : ℕ) (l m : DatabaseLock)
    → release_database_lock l ≡ some m
    → IsFair callers released l
    → IsFair callers (suc released) m
unfolding release_database_lock
release-IsFair callers released l m e f =
    elim (callbacks-cases l.on_database_lock_released_callbacks) [
      | inl empty ↦ record {
        order = ground (arith, f.order);
        exclusive = ground (arith, f.exclusive);
        waiting = ground arith;
      }
      | inr (cb, rest, some_wait) ↦ record {
        order = ground (arith, f.order, append_assoc l.granted (cb ∷ []) rest);
        exclusive = ground (arith, f.exclusive, length-append l.granted (cb ∷ []));
        waiting = ground arith;
      }
    ]

Reachable-IsFair :
    {callers : List ℕ} {released : ℕ} {l : DatabaseLock}
    → Reachable callers released l
    → IsFair callers released l
Reachable-IsFair unused = record { order = refl; exclusive = refl; waiting = inl refl }
Reachable-IsFair (acquires {callers} {released} {l} r caller) =
    acquire-IsFair callers released l caller (Reachable-IsFair r)
Reachable-IsFair (releases {callers} {released} {l} {m} r e) =
    release-IsFair callers released l m e (Reachable-IsFair r)

-- The lock is fair and excludes. Callers get it in the order in which they asked; the number of
-- callers that got it is that of the releases, and one more while it is locked, so two never have
-- it at once; and no caller waits for a lock that nobody has.
pub lock_is_fair :
    (callers : List ℕ) (released : ℕ) (l : DatabaseLock)
    → Reachable callers released l
    → (l.granted ++ l.on_database_lock_released_callbacks ≡ callers)
      × (length l.granted ≡ released + (if l.database_locked then 1 else 0))
      × ((l.on_database_lock_released_callbacks ≡ []) ⊎ (l.database_locked ≡ true))
lock_is_fair callers released l r = let f = Reachable-IsFair r in (f.order, f.exclusive, f.waiting)
