-- ===== src/Json/Chunks.antt =====
-- daemon/src/interfaces/core.ts: which values isFileKey accepts.
use kachery_p2p.Base.{
  ℕ, zero, suc, ◌≡◌, refl, sym, ◌∙◌, ◌⊎◌, inl, inr, ◌↔◌, Bool, true, String, arith, string_eq,
}
use text.Mathlib.TextEquality.{eq_iff}
use kachery_p2p.Json
use kachery_p2p.Json.{
  Value, undefined, null, boolean, number, string, array, object, Spec, done, test, is_object,
  has_name, properties, names, on_prototype, optional, validate_object,
}
use kachery_p2p.Json.Laws.{KeysKnown, validate_object_iff}
use kachery_p2p.Json.Types.{is_sha1_hash, is_byte_count}
use kachery_p2p.Json.FileKeys.{
  chunk_spec, file_key_spec, is_file_key, is_file_key_within, is_file_key_lem, size,
}

-- The keys of a value, other than those on the prototype of every object, are among three names.
abbrev pub HasKeys : (a b c : String) → Value → Type 0
HasKeys a b c x =
    (j : String)
    → has_name j (properties x) ≡ true
    → (j ≡ a) ⊎ (j ≡ b) ⊎ (j ≡ c) ⊎ (on_prototype j ≡ true)

-- An object with the keys of a file key and good hashes.
pub record IsHead (x : Value) : Type 0 where
  pub obj : is_object x ≡ true
  pub keys : HasKeys "sha1" "manifestSha1" "chunkOf" x
  pub sha1 : is_sha1_hash (Json.get x "sha1") ≡ true
  pub manifest :
      (Json.get x "manifestSha1" ≡ undefined) ⊎ (is_sha1_hash (Json.get x "manifestSha1") ≡ true)

-- An object with the keys of a chunk and good bounds.
pub record IsRange (y : Value) : Type 0 where
  pub obj : is_object y ≡ true
  pub keys : HasKeys "fileKey" "startByte" "endByte" y
  pub start : is_byte_count (Json.get y "startByte") ≡ true
  pub end : is_byte_count (Json.get y "endByte") ≡ true

-- The key of a whole file, or of a chunk of a file with a key in its turn.
pub data IsFileKey : Value → Type 0 where
  whole : (x : Value) → IsHead x → Json.get x "chunkOf" ≡ undefined → IsFileKey x
  chunk :
      (x : Value)
      → IsHead x
      → IsRange (Json.get x "chunkOf")
      → IsFileKey (Json.get (Json.get x "chunkOf") "fileKey")
      → IsFileKey x

optional_iff :
    (t : Value → Bool) (x : Value) → (optional t x ≡ true) ↔ ((x ≡ undefined) ⊎ (t x ≡ true))
unfolding optional
optional_iff t undefined = (λ h. inl refl, λ h. refl)
optional_iff t null = ground arith
optional_iff t (boolean b) = ground arith
optional_iff t (number n) = ground arith
optional_iff t (string s) = ground arith
optional_iff t (array xs) = ground arith
optional_iff t (object fs) = ground arith

KeysKnown-HasKeys :
    (a b c : String) (s t u : Value → Bool) (x : Value)
    → KeysKnown (test a s (test b t (test c u done))) x ↔ HasKeys a b c x
unfolding names
KeysKnown-HasKeys a b c s t u x = (
  λ known j there. ground (arith, known j there, eq_iff a j, eq_iff b j, eq_iff c j),
  λ has j there. elim (has j there) [
    | inl e ↦ inl (ground (arith, (eq_iff a j).1 (sym e)))
    | inr (inl e) ↦ inl (ground (arith, (eq_iff b j).1 (sym e)))
    | inr (inr (inl e)) ↦ inl (ground (arith, (eq_iff c j).1 (sym e)))
    | inr (inr (inr p)) ↦ inr p
  ],
)

-- A chunk passes exactly when it is a range and its key passes.
chunk_iff :
    (check : Value → Bool) (y : Value)
    → (validate_object (chunk_spec check) y ≡ true)
      ↔ (IsRange y × (check (Json.get y "fileKey") ≡ true))
chunk_iff check y = (
  λ h.
      let (obj, known, (key, (start, (end, last)))) =
        (validate_object_iff (chunk_spec check) y).0 h in
      (
        record {
          obj = obj;
          keys =
              (KeysKnown-HasKeys "fileKey" "startByte" "endByte" check is_byte_count is_byte_count
                  y).0
                known;
          start = start;
          end = end;
        },
        key,
      ),
  λ (r, key). (validate_object_iff (chunk_spec check) y).1 (
    r.obj,
    (KeysKnown-HasKeys "fileKey" "startByte" "endByte" check is_byte_count is_byte_count y).1
        r.keys,
    (key, (r.start, (r.end, tt))),
  ),
)

-- The same for a file key, with the check of the chunk.
file_key_iff :
    (check : Value → Bool) (x : Value)
    → (validate_object (file_key_spec check) x ≡ true) ↔ (
        IsHead x
        × ((Json.get x "chunkOf" ≡ undefined)
            ⊎ (IsRange (Json.get x "chunkOf")
                × (check (Json.get (Json.get x "chunkOf") "fileKey") ≡ true))))
file_key_iff check x =
    let inner : Value → Bool = λ y. validate_object (chunk_spec check) y in
    let known_iff =
      KeysKnown-HasKeys "sha1" "manifestSha1" "chunkOf" is_sha1_hash (optional is_sha1_hash)
        (optional inner) x in
    (
      λ h.
          let (obj, known, (sha1, (manifest, (chunk_of, last)))) =
            (validate_object_iff (file_key_spec check) x).0 h in
          (
            record {
              obj = obj;
              keys = known_iff.0 known;
              sha1 = sha1;
              manifest = (optional_iff is_sha1_hash (Json.get x "manifestSha1")).0 manifest;
            },
            elim ((optional_iff inner (Json.get x "chunkOf")).0 chunk_of) [
              | inl missing ↦ inl missing
              | inr passed ↦ inr ((chunk_iff check (Json.get x "chunkOf")).0 passed)
            ],
          ),
      λ (head, c).
          let passed : (Json.get x "chunkOf" ≡ undefined) ⊎ (inner (Json.get x "chunkOf") ≡ true) =
            elim c [
              | inl missing ↦ inl missing
              | inr r ↦ inr ((chunk_iff check (Json.get x "chunkOf")).1 r)
            ] in
          (validate_object_iff (file_key_spec check) x).1 (
            head.obj,
            known_iff.1 head.keys,
            (
              head.sha1,
              (
                (optional_iff is_sha1_hash (Json.get x "manifestSha1")).1 head.manifest,
                ((optional_iff inner (Json.get x "chunkOf")).1 passed, tt),
              ),
            ),
          ),
    )

sound : (depth : ℕ) (x : Value) → is_file_key_within depth x ≡ true → IsFileKey x
unfolding is_file_key_within
sound zero x h = absurd (cc h)
sound (suc depth) x h =
    let (head, c) = (file_key_iff (λ y. is_file_key_within depth y) x).0 h in
    elim c [
      | inl missing ↦ whole x head missing
      | inr (range, key) ↦
          chunk x head range (sound depth (Json.get (Json.get x "chunkOf") "fileKey") key)
    ]

complete : (x : Value) → IsFileKey x → is_file_key x ≡ true
complete x (whole _ head missing) =
    is_file_key_lem x ∙ (file_key_iff (λ y. is_file_key y) x).1 (head, inl missing)
complete x (chunk _ head range key) =
    is_file_key_lem x
    ∙ (file_key_iff (λ y. is_file_key y) x).1
        (head, inr (range, complete (Json.get (Json.get x "chunkOf") "fileKey") key))

-- The check of a file key passes exactly for the keys of whole files and of chunks, however deep the keys in
-- them stand. Each is an object with a hash and perhaps the hash of a manifest; that of a chunk also has an
-- object `chunkOf` with two bounds and a file key, of a whole file or of a chunk in its turn. Neither object
-- has other keys but those on every object's prototype.
pub is_file_key_iff : (x : Value) → (is_file_key x ≡ true) ↔ IsFileKey x
unfolding is_file_key
is_file_key_iff x = (λ h. sound (suc (size x)) x h, λ h. complete x h)
