-- ===== src/Mutables/History.antt =====
-- MutableManager over every history of calls: the cache never shows.
use kachery_p2p.Base.{
  ℕ, ◌≡◌, refl, inl, inr, List, [], ◌∷◌, Option, none, some, String, arith, All, string_eq, ◌==◌,
  if◌then◌else◌,
}
use kachery_p2p.Base.Maps
use kachery_p2p.Base.Maps.{get-set, get-delete}
use kachery_p2p.GarbageMap.Cache.{
  IsCache, updated, removed, set-IsCache, delete-IsCache, get-IsCache, new-IsCache,
}
use kachery_p2p.Mutables
use kachery_p2p.Mutables.{
  JsonCodec, MutableRecord, MutableRow, MutableManager, Lookup, missing, found, threw,
  new_mutable_manager, database_set, database_delete, database_get, key_hash, on_set,
}

module _ {J : Type 0} (c : JsonCodec J) where
  pub data Op : Type 0 where
    sets : (now : ℕ) (key value : J) → Op
    deletes : (now : ℕ) (key : J) → Op
    gets : (now : ℕ) (key : J) → Op
    listens : (callback : ℕ) → Op

  unfoldable pub step : MutableManager J → Op → MutableManager J
  step m (sets now key value) = Mutables.set c now m key value
  step m (deletes now key) = Mutables.delete c now m key
  step m (gets now key) = (Mutables.get c now m key).0
  step m (listens cb) = on_set c m cb

  unfoldable pub run : MutableManager J → List Op → MutableManager J
  run m [] = m
  run m (op ∷ ops) = run (step m op) ops

  -- The text of the value can be read back.
  abbrev pub IsJson : J → Type 0
  IsJson v = c.parse (c.stringify v) ≡ some v

  abbrev pub IsReadable : Op → Type 0
  IsReadable (sets now key value) = IsJson key × IsJson value
  IsReadable (deletes now key) = Unit {0}
  IsReadable (gets now key) = Unit {0}
  IsReadable (listens cb) = Unit {0}

  -- What a call does to the values, each under the hash of its key.
  abbrev pub next_truth :
      (String → Option (MutableRecord J)) → Op → String → Option (MutableRecord J)
  next_truth truth (sets now key value) =
      updated (key_hash c key) (record { key = key; value = value }) truth
  next_truth truth (deletes now key) = removed (key_hash c key) truth
  next_truth truth (gets now key) = truth
  next_truth truth (listens cb) = truth

  abbrev pub truth_after :
      (String → Option (MutableRecord J)) → List Op → String → Option (MutableRecord J)
  truth_after truth [] = truth
  truth_after truth (op ∷ ops) = truth_after (next_truth truth op) ops

  abbrev pub lookup_of : Option (MutableRecord J) → Lookup J
  lookup_of none = missing
  lookup_of (some rec) = found rec

  -- The database holds the values of `truth`, and the cache holds no others.
  pub record Represents (truth : String → Option (MutableRecord J)) (m : MutableManager J)
      : Type 0 where
    pub stored : (h : String) → database_get c m.mutable_database h ≡ lookup_of (truth h)
    pub cached : IsCache truth m.memory_cache

  database_get-set :
      (rows : List (String × MutableRow)) (h j : String) (rec : MutableRecord J)
      → IsJson rec.key
      → IsJson rec.value
      → database_get c (database_set c rows h rec) j
        ≡ (if h == j then found rec else database_get c rows j)
  unfolding database_set database_get
  database_get-set rows h j rec readable_key readable_value =
      let row : MutableRow = record { key = c.stringify rec.key; value = c.stringify rec.value } in
      ground (arith, get-set h j row rows)

  database_get-delete :
      (rows : List (String × MutableRow)) (h j : String)
      → database_get c (database_delete c rows h) j
        ≡ (if h == j then missing else database_get c rows j)
  unfolding database_delete database_get
  database_get-delete rows h j = ground (arith, get-delete h j rows)

  pub set-Represents :
      (now : ℕ) (truth : String → Option (MutableRecord J)) (m : MutableManager J) (key value : J)
      → IsJson key
      → IsJson value
      → Represents truth m
      → Represents (next_truth truth (sets now key value)) (Mutables.set c now m key value)
  unfolding Mutables.set
  set-Represents now truth m key value readable_key readable_value r =
      let rec : MutableRecord J = record { key = key; value = value } in
      record {
        stored = λ h. ground (
          arith,
          r.stored h,
          database_get-set m.mutable_database (key_hash c key) h rec readable_key readable_value,
        );
        cached = set-IsCache now truth m.memory_cache (key_hash c key) rec r.cached;
      }

  pub delete-Represents :
      (now : ℕ) (truth : String → Option (MutableRecord J)) (m : MutableManager J) (key : J)
      → Represents truth m
      → Represents (next_truth truth (deletes now key)) (Mutables.delete c now m key)
  unfolding Mutables.delete
  delete-Represents now truth m key r = record {
    stored =
        λ h. ground (arith, r.stored h, database_get-delete m.mutable_database (key_hash c key) h);
    cached = delete-IsCache now truth m.memory_cache (key_hash c key) r.cached;
  }

  pub step-Represents :
      (truth : String → Option (MutableRecord J)) (m : MutableManager J) (op : Op)
      → IsReadable op
      → Represents truth m
      → Represents (next_truth truth op) (step m op)
  unfolding step Mutables.get on_set
  step-Represents truth m (sets now key value) readable r =
      set-Represents now truth m key value readable.0 readable.1 r
  step-Represents truth m (deletes now key) readable r = delete-Represents now truth m key r
  step-Represents truth m (gets now key) readable r = record {
    stored = r.stored;
    cached = (get-IsCache now truth m.memory_cache (key_hash c key) r.cached).0;
  }
  step-Represents truth m (listens cb) readable r = record { stored = r.stored; cached = r.cached }

  run-Represents :
      (truth : String → Option (MutableRecord J)) (m : MutableManager J) (ops : List Op)
      → All IsReadable ops
      → Represents truth m
      → Represents (truth_after truth ops) (run m ops)
  unfolding run
  run-Represents truth m [] readable r = r
  run-Represents truth m (op ∷ ops) readable r =
      run-Represents (next_truth truth op) (step m op) ops readable.1
        (step-Represents truth m op readable.0 r)

  pub get-Represents :
      (now : ℕ) (truth : String → Option (MutableRecord J)) (m : MutableManager J) (key : J)
      → Represents truth m
      → (Mutables.get c now m key).1 ≡ lookup_of (truth (key_hash c key))
  unfolding Mutables.get
  get-Represents now truth m key r =
      elim (get-IsCache now truth m.memory_cache (key_hash c key) r.cached).1 [
        | inl forgotten ↦ ground (arith, r.stored (key_hash c key))
        | inr kept ↦ ground (arith, r.stored (key_hash c key))
      ]

  pub new-Represents : (start : ℕ) → Represents (λ h. none) (new_mutable_manager start [])
  unfolding new_mutable_manager database_get Maps.get
  new-Represents start = record {
    stored = λ h. refl;
    cached = new-IsCache start (some Mutables.cache_lifetime_msec) (λ h. none);
  }

  -- After any history of calls on a new manager with an empty database, at whatever times, a get
  -- finds the value that was set last for its key, or none if there is none or it was deleted
  -- since: that the cache forgets does not show. The texts of the keys and values that are set can
  -- be read back.
  pub get_finds_last :
      (start now : ℕ) (ops : List Op) (key : J)
      → All IsReadable ops
      → (Mutables.get c now (run (new_mutable_manager start []) ops) key).1
        ≡ lookup_of (truth_after (λ h. none) ops (key_hash c key))
  get_finds_last start now ops key readable =
      get-Represents now (truth_after (λ h. none) ops) (run (new_mutable_manager start []) ops) key
        (run-Represents (λ h. none) (new_mutable_manager start []) ops readable
          (new-Represents start))
