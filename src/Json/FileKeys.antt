-- ===== src/Json/FileKeys.antt =====
-- daemon/src/interfaces/core.ts: isFileKey, which calls itself for the file that a chunk is a part of.
use kachery_p2p.Base.{
  ℕ, zero, suc, ◌+◌, ◌≤◌, ◌<◌, ◌≡◌, refl, inl, inr, Bool-cases, Bool, true, false, List, [], ◌∷◌,
  String, arith,
}
use kachery_p2p.Json
use kachery_p2p.Json.{
  Value, undefined, null, boolean, number, string, array, object, Items, no_item, item, Fields,
  no_field, field, is_object, optional, Spec, done, test, nested, validate_object, validate_fields,
  knows_all, names, properties, items_from, entries_of, find_property,
}
use kachery_p2p.Json.Types.{is_sha1_hash, is_byte_count}

-- What the object says, with the check of the key in `chunkOf` as an argument.
abbrev pub chunk_spec : (Value → Bool) → Spec
chunk_spec check =
    test "fileKey" check (test "startByte" is_byte_count (test "endByte" is_byte_count done))

abbrev pub file_key_spec : (Value → Bool) → Spec
file_key_spec check = test "sha1" is_sha1_hash (
    test "manifestSha1" (optional is_sha1_hash)
      (test "chunkOf" (optional (λ x. validate_object (chunk_spec check) x)) done))

unfoldable mutual
  pub size : Value → ℕ
  size undefined = 0
  size null = 1
  size (boolean b) = 1
  size (number n) = 1
  size (string s) = 1
  size (array xs) = suc (size_items xs)
  size (object fs) = suc (size_fields fs)

  pub size_items : Items → ℕ
  size_items no_item = 0
  size_items (item x xs) = size x + size_items xs

  pub size_fields : Fields → ℕ
  size_fields no_field = 0
  size_fields (field k x fs) = size x + size_fields fs

-- Calls to a depth.
unfoldable pub is_file_key_within : ℕ → Value → Bool
is_file_key_within zero x = false
is_file_key_within (suc depth) x =
    validate_object (file_key_spec (λ y. is_file_key_within depth y)) x

-- `isFileKey`: each call is of a smaller value.
unfoldable pub is_file_key : Value → Bool
is_file_key x = is_file_key_within (suc (size x)) x

knows_all-same :
    (s t : Spec) (ps : List (String × Value))
    → ((k : String) → names s k ≡ names t k)
    → knows_all s ps ≡ knows_all t ps
unfolding knows_all
knows_all-same s t [] h = refl
knows_all-same s t ((k, v) ∷ ps) h = ground (arith, h k, knows_all-same s t ps h)

-- The check of a chunk depends on the check of its file key alone.
chunk_spec-same :
    (c d : Value → Bool) (y : Value)
    → (is_object y ≡ true → c (Json.get y "fileKey") ≡ d (Json.get y "fileKey"))
    → validate_object (chunk_spec c) y ≡ validate_object (chunk_spec d) y
unfolding validate_object validate_fields names
chunk_spec-same c d y h =
    ground (arith, h, knows_all-same (chunk_spec c) (chunk_spec d) (properties y) (λ k. refl))

file_key_spec-same :
    (c d : Value → Bool) (x : Value)
    → (is_object x ≡ true
        → is_object (Json.get x "chunkOf") ≡ true
        → c (Json.get (Json.get x "chunkOf") "fileKey")
          ≡ d (Json.get (Json.get x "chunkOf") "fileKey"))
    → validate_object (file_key_spec c) x ≡ validate_object (file_key_spec d) x
unfolding validate_object validate_fields names optional
file_key_spec-same c d x h = elim (Bool-cases (is_object x)) [
  | inr f ↦ ground arith
  | inl t ↦ ground (
    arith,
    knows_all-same (file_key_spec c) (file_key_spec d) (properties x) (λ k. refl),
    chunk_spec-same c d (Json.get x "chunkOf") (h t),
  )
]

size-item :
    (i : ℕ) (xs : Items) (k : String) → size (find_property k (items_from i xs)) ≤ size_items xs
unfolding size items_from find_property
size-item i no_item k = omega arith
size-item i (item x xs) k = ground (arith, size-item (suc i) xs k)

size-field : (fs : Fields) (k : String) → size (find_property k (entries_of fs)) ≤ size_fields fs
unfolding size entries_of find_property
size-field no_field k = omega arith
size-field (field j x fs) k = ground (arith, size-field fs k)

size-get : (x : Value) (k : String) → is_object x ≡ true → size (Json.get x k) < size x
unfolding size Json.get properties is_object
size-get (array xs) k h = omega (arith, size-item 0 xs k)
size-get (object fs) k h = omega (arith, size-field fs k)
size-get _ k h = cc

-- A depth above the size is deep enough.
within-same :
    (m n : ℕ) (x : Value)
    → size x < m
    → size x < n
    → is_file_key_within m x ≡ is_file_key_within n x
unfolding is_file_key_within
within-same zero n x h k = absurd (omega arith)
within-same (suc m) zero x h k = absurd (omega arith)
within-same (suc m) (suc n) x h k =
    file_key_spec-same (λ y. is_file_key_within m y) (λ y. is_file_key_within n y) x
      (λ o p.
        let y = Json.get x "chunkOf" in
        let outer = size-get x "chunkOf" o in
        let inner = size-get y "fileKey" p in
        within-same m n (Json.get y "fileKey") (omega arith) (omega arith))

-- The recursive equation of the source.
pub is_file_key_lem :
    (x : Value) → is_file_key x ≡ validate_object (file_key_spec (λ y. is_file_key y)) x
unfolding is_file_key is_file_key_within
is_file_key_lem x =
    file_key_spec-same (λ y. is_file_key_within (size x) y) (λ y. is_file_key y) x
      (λ o p.
        let y = Json.get x "chunkOf" in
        let outer = size-get x "chunkOf" o in
        let inner = size-get y "fileKey" p in
        within-same (size x) (suc (size (Json.get y "fileKey"))) (Json.get y "fileKey")
          (omega arith) (omega arith))
