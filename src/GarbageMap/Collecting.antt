-- ===== src/GarbageMap/Collecting.antt =====
-- GarbageMap.checkGarbageCollection: which entries a collection drops, and which a check keeps.
use kachery_p2p.Base.{
  ℕ, zero, suc, subst, ◌+◌, ◌≤◌, ◌<◌, ◌≡◌, refl, inl, inr, Bool, true, false, List, [], ◌∷◌, Option,
  none, some, Eq, arith, ◌==◌, if◌then◌else◌, Option-cases,
}
use kachery_p2p.Base.Maps
use kachery_p2p.Base.Maps.{get-set, get-delete, IsMap, set-IsMap, delete-IsMap, get-none_of_has}
use kachery_p2p.GarbageMap.{
  Entry, GarbageMap, is_expired, keys_to_delete, delete_all, collect, check_garbage_collection,
}

-- The entry is not too old.
abbrev pub IsYoung {ℓ} : {V : Type ℓ} → ℕ → Option ℕ → Entry V → Type 0
IsYoung now none entry = Unit {0}
IsYoung now (some timeout) entry = now ≤ entry.timestamp + timeout

-- Whether the entry of a key, if it has one, is too old.
abbrev pub is_old {ℓ} : {V : Type ℓ} → (now timeout : ℕ) → Option (Entry V) → Bool
is_old now timeout none = false
is_old now timeout (some entry) = is_expired now timeout entry

pub IsYoung-at_once {ℓ} :
    {V : Type ℓ} (now : ℕ) (timeout : Option ℕ) (v : V)
    → IsYoung now timeout (record { value = v; timestamp = now })
IsYoung-at_once now none v = tt
IsYoung-at_once now (some t) v = omega arith

contains {ℓ} : {K : Type ℓ} ⦃e : Eq K⦄ → K → List K → Bool
contains k [] = false
contains k (j ∷ ks) = if j == k then true else contains k ks

module _ {ℓ} {K V : Type ℓ} ⦃e : Eq K⦄ where
  get-delete_all :
      (k : K) (ks : List K) (m : List (K × Entry V))
      → Maps.get k (delete_all ks m) ≡ (if contains k ks then none else Maps.get k m)
  unfolding delete_all contains
  get-delete_all k [] m = refl
  get-delete_all k (j ∷ ks) m =
      ground (arith, get-delete_all k ks (Maps.delete j m), get-delete j k m)

  delete_all-IsMap : (ks : List K) (m : List (K × Entry V)) → IsMap m → IsMap (delete_all ks m)
  unfolding delete_all
  delete_all-IsMap [] m h = h
  delete_all-IsMap (k ∷ ks) m h = delete_all-IsMap ks (Maps.delete k m) (delete-IsMap k m h)

  contains-keys_to_delete :
      (now timeout : ℕ) (k : K) (m : List (K × Entry V))
      → IsMap m
      → contains k (keys_to_delete now timeout m) ≡ is_old now timeout (Maps.get k m)
  unfolding contains keys_to_delete Maps.get
  contains-keys_to_delete now timeout k [] h = refl
  contains-keys_to_delete now timeout k ((j, entry) ∷ m) h =
      ground
        (arith, contains-keys_to_delete now timeout k m h.1, e.beq_iff j k, get-none_of_has j m)

  pub get-collect :
      (now timeout : ℕ) (k : K) (m : List (K × Entry V))
      → IsMap m
      → 0 < timeout
      → Maps.get k (collect now timeout m)
        ≡ (if is_old now timeout (Maps.get k m) then none else Maps.get k m)
  unfolding collect
  get-collect now timeout k m h pos = ground (
    arith,
    get-delete_all k (keys_to_delete now timeout m) m,
    contains-keys_to_delete now timeout k m h,
  )

  pub collect-IsMap :
      (now timeout : ℕ) (m : List (K × Entry V)) → IsMap m → IsMap (collect now timeout m)
  unfolding collect
  collect-IsMap now timeout m h =
      ground (arith, delete_all-IsMap (keys_to_delete now timeout m) m h)

  pub check-IsMap :
      (now : ℕ) (g : GarbageMap K V)
      → IsMap g.entries
      → IsMap (check_garbage_collection now g).entries
  unfolding check_garbage_collection
  check-IsMap now g h = elim (Option-cases g.expiration_timeout_msec) [
    | inl n ↦ ground arith
    | inr (t, s) ↦ ground (arith, collect-IsMap now t g.entries h)
  ]

  get-collect_young :
      (now timeout : ℕ) (k : K) (m : List (K × Entry V)) (entry : Entry V)
      → IsMap m
      → Maps.get k m ≡ some entry
      → now ≤ entry.timestamp + timeout
      → Maps.get k (collect now timeout m) ≡ some entry
  unfolding collect
  get-collect_young now zero k m entry h found young = found
  get-collect_young now (suc t) k m entry h found young =
      ground (arith, get-collect now (suc t) k m h)

  get-collect-none :
      (now timeout : ℕ) (k : K) (m : List (K × Entry V))
      → IsMap m
      → Maps.get k m ≡ none
      → Maps.get k (collect now timeout m) ≡ none
  unfolding collect
  get-collect-none now zero k m h missing = missing
  get-collect-none now (suc t) k m h missing = ground (arith, get-collect now (suc t) k m h)

  -- A check keeps every entry that is not too old.
  pub check-keeps :
      (now : ℕ) (g : GarbageMap K V) (k : K) (entry : Entry V)
      → IsMap g.entries
      → Maps.get k g.entries ≡ some entry
      → IsYoung now g.expiration_timeout_msec entry
      → Maps.get k (check_garbage_collection now g).entries ≡ some entry
  unfolding check_garbage_collection
  check-keeps now g k entry h found young = elim (Option-cases g.expiration_timeout_msec) [
    | inl n ↦ ground arith
    | inr (t, s) ↦
        let young' = subst (λ o. IsYoung now o entry) s young in
        ground (arith, get-collect_young now t k g.entries entry h found young')
  ]

  -- A check makes no entry up.
  pub check-none :
      (now : ℕ) (g : GarbageMap K V) (k : K)
      → IsMap g.entries
      → Maps.get k g.entries ≡ none
      → Maps.get k (check_garbage_collection now g).entries ≡ none
  unfolding check_garbage_collection
  check-none now g k h missing = elim (Option-cases g.expiration_timeout_msec) [
    | inl n ↦ ground arith
    | inr (t, s) ↦ ground (arith, get-collect-none now t k g.entries h missing)
  ]

  pub check-timeout :
      (now : ℕ) (g : GarbageMap K V)
      → (check_garbage_collection now g).expiration_timeout_msec ≡ g.expiration_timeout_msec
  unfolding check_garbage_collection
  check-timeout now g = ground arith

  -- What is left was there before.
  get-collect-only :
      (now timeout : ℕ) (k : K) (m : List (K × Entry V)) (entry : Entry V)
      → Maps.get k (collect now timeout m) ≡ some entry
      → Maps.get k m ≡ some entry
  unfolding collect
  get-collect-only now timeout k m entry found =
      ground (arith, get-delete_all k (keys_to_delete now timeout m) m)

  pub check-only :
      (now : ℕ) (g : GarbageMap K V) (k : K) (entry : Entry V)
      → Maps.get k (check_garbage_collection now g).entries ≡ some entry
      → Maps.get k g.entries ≡ some entry
  unfolding check_garbage_collection
  check-only now g k entry found = elim (Option-cases g.expiration_timeout_msec) [
    | inl n ↦ ground arith
    | inr (t, s) ↦ ground (arith, get-collect-only now t k g.entries entry)
  ]
