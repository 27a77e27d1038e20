-- ===== src/GarbageMap/Cache.antt =====
-- GarbageMap as a cache: it may forget a value, and holds no other one.
use kachery_p2p.Base.{
  ℕ, zero, suc, ◌≡◌, ◌⊎◌, inl, inr, List, Option, none, some, arith, Option-cases, Bool-cases, Eq,
  ◌==◌, if◌then◌else◌,
}
use kachery_p2p.Base.Maps
use kachery_p2p.Base.Maps.{get-set, get-delete, get-none_of_has, IsMap, set-IsMap, delete-IsMap}
use kachery_p2p.GarbageMap.{
  GarbageMap, Entry, check_garbage_collection, collect, find, get, set, delete, new_garbage_map,
}
use kachery_p2p.GarbageMap.Collecting.{get-collect, check-IsMap}

module _ {ℓ} {K V : Type ℓ} ⦃e : Eq K⦄ where
  -- Each value in the map is the one that `truth` has for its key.
  pub record IsCache (truth : K → Option V) (g : GarbageMap K V) : Type ℓ where
    pub distinct : IsMap g.entries
    pub true_values : (k : K) (v : V) → find k g.entries ≡ some v → truth k ≡ some v

  collect-find :
      (now timeout : ℕ) (k : K) (v : V) (m : List (K × Entry V))
      → IsMap m
      → find k (collect now timeout m) ≡ some v
      → find k m ≡ some v
  unfolding collect
  collect-find now zero k v m h found = found
  collect-find now (suc t) k v m h found = ground (arith, get-collect now (suc t) k m h)

  check-find :
      (now : ℕ) (g : GarbageMap K V) (k : K) (v : V)
      → IsMap g.entries
      → find k (check_garbage_collection now g).entries ≡ some v
      → find k g.entries ≡ some v
  unfolding check_garbage_collection
  check-find now g k v h found = elim (Option-cases g.expiration_timeout_msec) [
    | inl n ↦ ground arith
    | inr (t, s) ↦ ground (arith, collect-find now t k v g.entries h)
  ]

  pub new-IsCache :
      (now : ℕ) (timeout : Option ℕ) (truth : K → Option V)
      → IsCache truth (new_garbage_map now timeout)
  unfolding new_garbage_map Maps.get
  new-IsCache now timeout truth = record { distinct = tt; true_values = λ k v found. cc }

  pub check-IsCache :
      (now : ℕ) (truth : K → Option V) (g : GarbageMap K V)
      → IsCache truth g
      → IsCache truth (check_garbage_collection now g)
  check-IsCache now truth g h = record {
    distinct = check-IsMap now g h.distinct;
    true_values = λ k v found. h.true_values k v (check-find now g k v h.distinct found);
  }

  -- The truth after a value was set for a key.
  abbrev pub updated : K → V → (K → Option V) → K → Option V
  updated k v truth j = if k == j then some v else truth j

  -- The truth after a key was deleted.
  abbrev pub removed : K → (K → Option V) → K → Option V
  removed k truth j = if k == j then none else truth j

  pub set-IsCache :
      (now : ℕ) (truth : K → Option V) (g : GarbageMap K V) (k : K) (v : V)
      → IsCache truth g
      → IsCache (updated k v truth) (set now g k v)
  unfolding set
  set-IsCache now truth g k v h =
      let entry : Entry V = record { value = v; timestamp = now } in
      check-IsCache now (updated k v truth) (record g { entries = Maps.set k entry g.entries })
        (record {
          distinct = set-IsMap k entry g.entries h.distinct;
          true_values = λ j w found. elim (Bool-cases (k == j)) [
            | inl t ↦ ground (arith, get-set k j entry g.entries)
            | inr f ↦ rw f (h.true_values j w (ground (arith, get-set k j entry g.entries)))
          ];
        })

  pub delete-IsCache :
      (now : ℕ) (truth : K → Option V) (g : GarbageMap K V) (k : K)
      → IsCache truth g
      → IsCache (removed k truth) (delete now g k)
  unfolding delete
  delete-IsCache now truth g k h = elim (Bool-cases (Maps.has k g.entries)) [
    | inl t ↦ rw t (
        check-IsCache now (removed k truth) (record g { entries = Maps.delete k g.entries })
          (record {
            distinct = delete-IsMap k g.entries h.distinct;
            true_values = λ j w found. elim (Bool-cases (k == j)) [
              | inl same ↦ ground (arith, get-delete k j g.entries)
              | inr f ↦ rw f (h.true_values j w (ground (arith, get-delete k j g.entries)))
            ];
          }))
    | inr f ↦ rw f (
        check-IsCache now (removed k truth) g (record {
          distinct = h.distinct;
          true_values = λ j w found. elim (Bool-cases (k == j)) [
            | inl same ↦ ground (arith, e.beq_iff k j, get-none_of_has k g.entries f)
            | inr other ↦ rw other (h.true_values j w found)
          ];
        }))
  ]

  -- What a cache returns is true, and it stays a cache.
  pub get-IsCache :
      (now : ℕ) (truth : K → Option V) (g : GarbageMap K V) (k : K)
      → IsCache truth g
      → IsCache truth (get now g k).0 × (((get now g k).1 ≡ none) ⊎ ((get now g k).1 ≡ truth k))
  unfolding get
  get-IsCache now truth g k h =
      let c = check-IsCache now truth g h in
      (
        c,
        elim (Option-cases (find k (check_garbage_collection now g).entries)) [
          | inl missing ↦ inl missing
          | inr (v, found) ↦ inr (ground (arith, c.true_values k v found))
        ],
      )
