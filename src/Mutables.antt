-- ===== src/Mutables.antt =====
-- daemon/src/mutables: keyed values in a database, with a cache in memory.
-- A key and a value are JSON values of any kind; their texts and the hash of a text are parameters, since
-- the source has them from libraries. Opening and locking the database file is not modelled.
pub mod History
use kachery_p2p.Base.{ℕ, ◌*◌, Bool, List, [], ◌∷◌, ◌++◌, map, Option, none, some, String, string_eq}
use kachery_p2p.Base.Maps
use kachery_p2p.GarbageMap
use kachery_p2p.GarbageMap.{GarbageMap}

-- `JSONStringifyDeterministic`, `JSON.parse` and `sha1OfString`.
pub record JsonCodec (J : Type 0) : Type 0 where
  pub stringify : J → String
  pub parse : String → Option J
  pub sha1 : String → String

pub record MutableRecord (J : Type 0) : Type 0 where
  pub key : J
  pub value : J

-- A row of the table `mutables`, under its `sha1`.
pub record MutableRow : Type 0 where
  pub key : String
  pub value : String

-- What is found for a key: undefined, a record, or an exception at a text that is not JSON.
pub data Lookup (J : Type 0) : Type 0 where
  missing : Lookup J
  found : MutableRecord J → Lookup J
  threw : Lookup J

pub record MutableManager (J : Type 0) : Type 0 where
  pub memory_cache : GarbageMap String (MutableRecord J)
  pub mutable_database : List (String × MutableRow)
  pub on_set_callbacks : List ℕ
  pub calls : List (ℕ × J)

abbrev pub cache_lifetime_msec : ℕ
cache_lifetime_msec = 1000 * 60 * 10

-- A daemon that starts, with what is in its database.
unfoldable pub new_mutable_manager :
    {J : Type 0} → (now : ℕ) → List (String × MutableRow) → MutableManager J
new_mutable_manager now rows = record {
  memory_cache = GarbageMap.new_garbage_map now (some cache_lifetime_msec);
  mutable_database = rows;
  on_set_callbacks = [];
  calls = [];
}

module _ {J : Type 0} (c : JsonCodec J) where
  -- `JSONStringifyDeterministic` and `INSERT OR REPLACE`
  unfoldable pub database_set :
      List (String × MutableRow) → String → MutableRecord J → List (String × MutableRow)
  database_set rows sha1 rec =
      Maps.set sha1 (record { key = c.stringify rec.key; value = c.stringify rec.value }) rows

  unfoldable pub database_delete : List (String × MutableRow) → String → List (String × MutableRow)
  database_delete rows sha1 = Maps.delete sha1 rows

  unfoldable pub database_has : List (String × MutableRow) → String → Bool
  database_has rows sha1 = Maps.has sha1 rows

  -- `JSON.parse` of both texts of a row.
  abbrev pub read_row : MutableRow → Lookup J
  read_row row = elim (c.parse row.key) [
    | none ↦ threw
    | some key ↦ elim (c.parse row.value) [
      | none ↦ threw
      | some value ↦ found (record { key = key; value = value })
    ]
  ]

  abbrev pub read_rows : Option MutableRow → Lookup J
  read_rows none = missing
  read_rows (some row) = read_row row

  -- The key is the primary key of the table, so there is one row at most.
  unfoldable pub database_get : List (String × MutableRow) → String → Lookup J
  database_get rows sha1 = read_rows (Maps.get sha1 rows)

  abbrev pub key_hash : J → String
  key_hash key = c.sha1 (c.stringify key)

  unfoldable pub set : ℕ → MutableManager J → (key value : J) → MutableManager J
  set now m key value =
      let rec : MutableRecord J = record { key = key; value = value } in
      record m {
        mutable_database = database_set m.mutable_database (key_hash key) rec;
        memory_cache = GarbageMap.set now m.memory_cache (key_hash key) rec;
        calls = m.calls ++ map (λ cb. (cb, key)) m.on_set_callbacks;
      }

  unfoldable pub get : ℕ → MutableManager J → J → MutableManager J × Lookup J
  get now m key =
      let r = GarbageMap.get now m.memory_cache (key_hash key) in
      (
        record m { memory_cache = r.0 },
        elim r.1 [ none ↦ database_get m.mutable_database (key_hash key) | some rec ↦ found rec ],
      )

  unfoldable pub delete : ℕ → MutableManager J → J → MutableManager J
  delete now m key = record m {
    mutable_database = database_delete m.mutable_database (key_hash key);
    memory_cache = GarbageMap.delete now m.memory_cache (key_hash key);
  }

  unfoldable pub on_set : MutableManager J → ℕ → MutableManager J
  on_set m cb = record m { on_set_callbacks = m.on_set_callbacks ++ cb ∷ [] }
