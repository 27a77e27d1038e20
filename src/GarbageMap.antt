-- ===== src/GarbageMap.antt =====
-- daemon/src/common/GarbageMap.ts: a map whose entries are dropped some time after they were set.
-- Each method takes the time at which it is called, in milliseconds; a clock that goes back gives
-- elapsed times below 0, which pass no test of the source, as 0 passes none here.
pub mod Collecting
pub mod Laws
pub mod Cache
use kachery_p2p.Base.{
  ℕ, ◌+◌, ◌-◌, ◌*◌, Bool, true, false, List, [], ◌∷◌, map, Option, none, some, Eq, ltb,
  if◌then◌else◌,
}
use kachery_p2p.Base.Maps

pub record Entry {ℓ} (V : Type ℓ) : Type ℓ where
  pub value : V
  pub timestamp : ℕ

pub record GarbageMap {ℓ} (K V : Type ℓ) : Type ℓ where
  pub entries : List (K × Entry V)
  pub expiration_timeout_msec : Option ℕ
  pub last_check_timestamp : ℕ

abbrev pub is_expired {ℓ} : {V : Type ℓ} → (now timeout : ℕ) → Entry V → Bool
is_expired now timeout entry = ltb timeout (now - entry.timestamp)

module _ {ℓ} {K V : Type ℓ} where
  unfoldable pub new_garbage_map : ℕ → Option ℕ → GarbageMap K V
  new_garbage_map now timeout = record {
    entries = [];
    expiration_timeout_msec = timeout;
    last_check_timestamp = now;
  }

  unfoldable pub keys_to_delete : (now timeout : ℕ) → List (K × Entry V) → List K
  keys_to_delete now timeout [] = []
  keys_to_delete now timeout ((k, entry) ∷ m) =
      let rest = keys_to_delete now timeout m in
      if is_expired now timeout entry then k ∷ rest else rest

module _ {ℓ} {K V : Type ℓ} ⦃e : Eq K⦄ where
  unfoldable pub delete_all : List K → List (K × Entry V) → List (K × Entry V)
  delete_all [] m = m
  delete_all (k ∷ ks) m = delete_all ks (Maps.delete k m)

  -- With a timeout of 0 the source throws at the first entry, before anything is dropped.
  unfoldable pub collect : (now timeout : ℕ) → List (K × Entry V) → List (K × Entry V)
  collect now timeout m = if ltb 0 timeout then delete_all (keys_to_delete now timeout m) m else m

  unfoldable pub check_garbage_collection : ℕ → GarbageMap K V → GarbageMap K V
  check_garbage_collection now g = elim g.expiration_timeout_msec [
    | none ↦ g
    | some timeout ↦
        if ltb timeout (2 * (now - g.last_check_timestamp))
        then record g { entries = collect now timeout g.entries; last_check_timestamp = now }
        else g
  ]

  abbrev pub find : K → List (K × Entry V) → Option V
  find k m = elim (Maps.get k m) [ none ↦ none | some entry ↦ some entry.value ]

  unfoldable pub get : ℕ → GarbageMap K V → K → GarbageMap K V × Option V
  get now g k = let g' = check_garbage_collection now g in (g', find k g'.entries)

  unfoldable pub get_with_default : ℕ → GarbageMap K V → K → V → GarbageMap K V × V
  get_with_default now g k default =
      let g' = check_garbage_collection now g in
      (g', elim (find k g'.entries) [ none ↦ default | some v ↦ v ])

  unfoldable pub set : ℕ → GarbageMap K V → K → V → GarbageMap K V
  set now g k v =
      check_garbage_collection now
        (record g { entries = Maps.set k (record { value = v; timestamp = now }) g.entries })

  unfoldable pub delete : ℕ → GarbageMap K V → K → GarbageMap K V
  delete now g k =
      check_garbage_collection now
        (if Maps.has k g.entries then record g { entries = Maps.delete k g.entries } else g)

  unfoldable pub has : GarbageMap K V → K → Bool
  has g k = Maps.has k g.entries

  unfoldable pub keys : GarbageMap K V → List K
  keys g = map (λ entry. entry.0) g.entries

  unfoldable pub values : GarbageMap K V → List V
  values g = map (λ entry. entry.1.value) g.entries
