-- ===== src/GarbageMap/Laws.antt =====
-- GarbageMap: what a key maps to after a call, and how long.
use kachery_p2p.Base.{
  ℕ, ◌+◌, ◌-◌, ◌*◌, ◌<◌, ◌≡◌, ◌⊎◌, inl, inr, none, some, Eq, arith, Bool-cases, Option-cases,
}
use kachery_p2p.Base.Maps
use kachery_p2p.Base.Maps.{get-set, get-delete, IsMap, set-IsMap, delete-IsMap, get-none_of_has}
use kachery_p2p.GarbageMap.{Entry, GarbageMap, check_garbage_collection, get, set, delete}
use kachery_p2p.GarbageMap.Collecting.{
  get-collect, check-IsMap, check-keeps, check-none, check-only, check-timeout, IsYoung,
  IsYoung-at_once,
}

module _ {ℓ} {K V : Type ℓ} ⦃e : Eq K⦄ where
  pub set-timeout :
      (now : ℕ) (g : GarbageMap K V) (k : K) (v : V)
      → (set now g k v).expiration_timeout_msec ≡ g.expiration_timeout_msec
  unfolding set
  set-timeout now g k v =
      check-timeout now
        (record g { entries = Maps.set k (record { value = v; timestamp = now }) g.entries })

  -- A map keeps its keys distinct under each of its operations.
  pub operations-IsMap :
      (now : ℕ) (g : GarbageMap K V) (k : K) (v : V)
      → IsMap g.entries
      → IsMap (set now g k v).entries
        × IsMap (delete now g k).entries
        × IsMap (get now g k).0.entries
  unfolding set delete get
  operations-IsMap now g k v h = (
    check-IsMap now _ (set-IsMap k (record { value = v; timestamp = now }) g.entries h),
    check-IsMap now _ (ground (arith, delete-IsMap k g.entries h)),
    check-IsMap now g h,
  )

  pub set-keeps_self :
      (now : ℕ) (g : GarbageMap K V) (k : K) (v : V)
      → IsMap g.entries
      → Maps.get k (set now g k v).entries ≡ some (record { value = v; timestamp = now })
  unfolding set
  set-keeps_self now g k v h =
      let entry : Entry V = record { value = v; timestamp = now } in
      check-keeps now _ k entry (set-IsMap k entry g.entries h)
        (ground (arith, get-set k k entry g.entries, e.beq_iff k k))
        (IsYoung-at_once now g.expiration_timeout_msec v)

  -- A value that was set is read back, at any later time that is within the timeout of the map.
  pub get-set_self :
      (now later : ℕ) (g : GarbageMap K V) (k : K) (v : V)
      → IsMap g.entries
      → IsYoung later g.expiration_timeout_msec (record { value = v; timestamp = now })
      → (get later (set now g k v) k).1 ≡ some v
  unfolding get
  get-set_self now later g k v h young =
      let entry : Entry V = record { value = v; timestamp = now } in
      let kept =
        check-keeps later (set now g k v) k entry (operations-IsMap now g k v h).0
          (set-keeps_self now g k v h) (rw (set-timeout now g k v) young) in
      ground (arith, kept)

  pub delete_keeps_IsMap :
      (now : ℕ) (g : GarbageMap K V) (k : K) → IsMap g.entries → IsMap (delete now g k).entries
  unfolding delete
  delete_keeps_IsMap now g k h = check-IsMap now _ (ground (arith, delete-IsMap k g.entries h))

  -- A key that is missing stays so when another one is deleted, and a deleted one is missing.
  pub delete-none :
      (now : ℕ) (g : GarbageMap K V) (k j : K)
      → IsMap g.entries
      → (k ≡ j) ⊎ (Maps.get j g.entries ≡ none)
      → Maps.get j (delete now g k).entries ≡ none
  unfolding delete
  delete-none now g k j h c = elim (Bool-cases (Maps.has k g.entries)) [
    | inl t ↦ rw t (
        check-none now (record g { entries = Maps.delete k g.entries }) j
          (delete-IsMap k g.entries h) (ground (arith, get-delete k j g.entries, e.beq_iff k j)))
    | inr f ↦ rw f (check-none now g j h (ground (arith, get-none_of_has k g.entries f)))
  ]

  -- A young entry stays when another key is deleted.
  pub delete-keeps :
      (now : ℕ) (g : GarbageMap K V) (k j : K) (entry : Entry V)
      → IsMap g.entries
      → Maps.get j g.entries ≡ some entry
      → IsYoung now g.expiration_timeout_msec entry
      → ¬ (k ≡ j)
      → Maps.get j (delete now g k).entries ≡ some entry
  unfolding delete
  delete-keeps now g k j entry h found young other = elim (Bool-cases (Maps.has k g.entries)) [
    | inl t ↦ rw t (
        check-keeps now (record g { entries = Maps.delete k g.entries }) j entry
          (delete-IsMap k g.entries h)
          (ground (arith, get-delete k j g.entries, e.beq_iff k j, found, other)) young)
    | inr f ↦ rw f (check-keeps now g j entry h found young)
  ]

  pub delete-timeout :
      (now : ℕ) (g : GarbageMap K V) (k : K)
      → (delete now g k).expiration_timeout_msec ≡ g.expiration_timeout_msec
  unfolding delete
  delete-timeout now g k = elim (Bool-cases (Maps.has k g.entries)) [
    | inl t ↦ rw t (check-timeout now (record g { entries = Maps.delete k g.entries }))
    | inr f ↦ rw f (check-timeout now g)
  ]

  -- A key that was deleted is not found, at any later time.
  pub get-delete_self :
      (now later : ℕ) (g : GarbageMap K V) (k : K)
      → IsMap g.entries
      → (get later (delete now g k) k).1 ≡ none
  unfolding get delete
  get-delete_self now later g k h = elim (Bool-cases (Maps.has k g.entries)) [
    | inl t ↦
        let dropped : GarbageMap K V = record g { entries = Maps.delete k g.entries } in
        let gone =
          check-none now dropped k (delete-IsMap k g.entries h)
            (ground (arith, get-delete k k g.entries, e.beq_iff k k)) in
        let gone_later =
          check-none later (check_garbage_collection now dropped) k
            (check-IsMap now dropped (delete-IsMap k g.entries h)) gone in
        rw t (ground (arith, gone_later))
    | inr f ↦
        let gone = check-none now g k h (get-none_of_has k g.entries f) in
        let gone_later =
          check-none later (check_garbage_collection now g) k (check-IsMap now g h) gone in
        rw f (ground (arith, gone_later))
  ]

  -- An entry that is older than the timeout is not returned by a call that collects: one that comes
  -- more than half the timeout after the last check.
  pub get-expired :
      (now timeout : ℕ) (g : GarbageMap K V) (k : K) (entry : Entry V)
      → IsMap g.entries
      → g.expiration_timeout_msec ≡ some timeout
      → 0 < timeout
      → timeout < 2 * (now - g.last_check_timestamp)
      → Maps.get k g.entries ≡ some entry
      → entry.timestamp + timeout < now
      → (get now g k).1 ≡ none
  unfolding get check_garbage_collection
  get-expired now timeout g k entry h limit pos due found old =
      ground (arith, get-collect now timeout k g.entries h)

  -- What a call finds that collects only entries of other keys.
  pub get-some :
      (now : ℕ) (g : GarbageMap K V) (k : K) (entry : Entry V)
      → Maps.get k (check_garbage_collection now g).entries ≡ some entry
      → get now g k ≡ (check_garbage_collection now g, some entry.value)
  unfolding get
  get-some now g k entry found = ground (arith, found)

  pub get-missing :
      (now : ℕ) (g : GarbageMap K V) (k : K)
      → Maps.get k (check_garbage_collection now g).entries ≡ none
      → get now g k ≡ (check_garbage_collection now g, none)
  unfolding get
  get-missing now g k gone = ground (arith, gone)

  -- A key that was set has the value that was set, if it has one.
  pub get-set_only :
      (now later : ℕ) (g : GarbageMap K V) (k : K) (v w : V)
      → (get later (set now g k v) k).1 ≡ some w
      → w ≡ v
  unfolding get set
  get-set_only now later g k v w found =
      let entry : Entry V = record { value = v; timestamp = now } in
      let entered : GarbageMap K V = record g { entries = Maps.set k entry g.entries } in
      let collected = check_garbage_collection now entered in
      elim (Option-cases (Maps.get k (check_garbage_collection later collected).entries)) [
        | inl missing ↦ absurd (ground (arith, missing, found))
        | inr (x, there) ↦
            let before = check-only now entered k x (check-only later collected k x there) in
            ground (arith, there, found, before, get-set k k entry g.entries, e.beq_iff k k)
      ]
