-- ===== src/Base/Maps.antt =====
-- The built-in `Map`: entries in the order of insertion, a key at most once.
use Prim.Native.Nat.{◌≤◌, ◌<◌}
use mathlib.Core.Path.{◌≡◌, refl, sym, subst}
use mathlib.Core.Logic.{inl, inr}
use mathlib.Core.Bool.{Bool, true, false}
use mathlib.Core.List.{List, [], ◌∷◌}
use mathlib.Core.Option.{Option, none, some}
use native.Mathlib.Omega.{arith}
use kachery_p2p.Base.Tests.{Eq, ◌==◌, if◌then◌else◌, Bool-cases}
use kachery_p2p.Base.Lists.{length, All}

module _ {ℓ κ} {K : Type ℓ} {V : Type κ} ⦃e : Eq K⦄ where
  unfoldable pub get : K → List (K × V) → Option V
  get k [] = none
  get k ((j, v) ∷ m) = if j == k then some v else get k m

  unfoldable pub set : K → V → List (K × V) → List (K × V)
  set k v [] = (k, v) ∷ []
  set k v ((j, w) ∷ m) = if j == k then (j, v) ∷ m else (j, w) ∷ set k v m

  unfoldable pub delete : K → List (K × V) → List (K × V)
  delete k [] = []
  delete k ((j, w) ∷ m) = if j == k then delete k m else (j, w) ∷ delete k m

  unfoldable pub has : K → List (K × V) → Bool
  has k [] = false
  has k ((j, v) ∷ m) = if j == k then true else has k m

  pub get-set :
      (k j : K) (v : V) (m : List (K × V))
      → get j (set k v m) ≡ (if k == j then some v else get j m)
  unfolding get set
  get-set k j v [] = refl
  get-set k j v ((i, w) ∷ m) =
      ground (arith, e.beq_iff k j, e.beq_iff i k, e.beq_iff i j, get-set k j v m)

  pub get-delete :
      (k j : K) (m : List (K × V)) → get j (delete k m) ≡ (if k == j then none else get j m)
  unfolding get delete
  get-delete k j [] = elim (Bool-cases (k == j)) [ inl t ↦ rw t | inr f ↦ rw f ]
  get-delete k j ((i, w) ∷ m) =
      ground (arith, e.beq_iff k j, e.beq_iff i k, e.beq_iff i j, get-delete k j m)

  pub has-get : (k : K) (m : List (K × V)) → has k m ≡ true → (v : V) × (get k m ≡ some v)
  unfolding get has
  has-get k [] h = cc
  has-get k ((j, w) ∷ m) h = elim (Bool-cases (j == k)) [
    | inl t ↦ (w, rw t)
    | inr f ↦ rw f (has-get k m (ground arith))
  ]

  pub get-none_of_has : (k : K) (m : List (K × V)) → has k m ≡ false → get k m ≡ none
  unfolding get has
  get-none_of_has k [] h = refl
  get-none_of_has k ((j, w) ∷ m) h = ground (arith, get-none_of_has k m)

  pub length-delete_le : (k : K) (m : List (K × V)) → length (delete k m) ≤ length m
  unfolding delete
  length-delete_le k [] = omega arith
  length-delete_le k ((j, w) ∷ m) = ground (arith, length-delete_le k m)

  pub length-delete_lt :
      (k : K) (m : List (K × V)) → has k m ≡ true → length (delete k m) < length m
  unfolding delete has
  length-delete_lt k [] h = cc
  length-delete_lt k ((j, w) ∷ m) h = ground (arith, length-delete_le k m, length-delete_lt k m)

  pub has_of_get : (k : K) (m : List (K × V)) (v : V) → get k m ≡ some v → has k m ≡ true
  unfolding get has
  has_of_get k [] v h = cc
  has_of_get k ((j, w) ∷ m) v h = ground (arith, has_of_get k m v)

  pub get-none_of_length : (k : K) (m : List (K × V)) → length m ≤ 0 → get k m ≡ none
  unfolding get
  get-none_of_length k [] h = refl
  get-none_of_length k (e ∷ m) h = absurd (omega arith)

  -- No key has two entries.
  abbrev pub IsMap : List (K × V) → Type 0
  IsMap [] = Unit {0}
  IsMap ((k, v) ∷ m) = (has k m ≡ false) × IsMap m

  has-set :
      (k j : K) (v : V) (m : List (K × V)) → has j (set k v m) ≡ (if k == j then true else has j m)
  unfolding has set
  has-set k j v [] = refl
  has-set k j v ((i, w) ∷ m) =
      ground (arith, e.beq_iff k j, e.beq_iff i k, e.beq_iff i j, has-set k j v m)

  has-delete :
      (k j : K) (m : List (K × V)) → has j (delete k m) ≡ (if k == j then false else has j m)
  unfolding has delete
  has-delete k j [] = elim (Bool-cases (k == j)) [ inl t ↦ rw t | inr f ↦ rw f ]
  has-delete k j ((i, w) ∷ m) =
      ground (arith, e.beq_iff k j, e.beq_iff i k, e.beq_iff i j, has-delete k j m)

  pub set-IsMap : (k : K) (v : V) (m : List (K × V)) → IsMap m → IsMap (set k v m)
  unfolding set has
  set-IsMap k v [] h = (refl, tt)
  set-IsMap k v ((j, w) ∷ m) h =
      ground (arith, e.beq_iff j k, e.beq_iff k j, has-set k j v m, set-IsMap k v m h.1)

  pub delete-IsMap : (k : K) (m : List (K × V)) → IsMap m → IsMap (delete k m)
  unfolding delete
  delete-IsMap k [] h = tt
  delete-IsMap k ((j, w) ∷ m) h =
      ground (arith, e.beq_iff j k, e.beq_iff k j, has-delete k j m, delete-IsMap k m h.1)

  -- A predicate at each entry.
  pub All-set {μ} :
      (P : K × V → Type μ) (k : K) (v : V) (m : List (K × V))
      → P (k, v)
      → All P m
      → All P (set k v m)
  unfolding set
  All-set P k v [] p h = (p, tt)
  All-set P k v ((j, w) ∷ m) p h = elim (Bool-cases (j == k)) [
    | inl t ↦ rw t (subst (λ i. P (i, v)) (sym ((e.beq_iff j k).0 t)) p, h.1)
    | inr f ↦ rw f (h.0, All-set P k v m p h.1)
  ]

  pub All-delete {μ} :
      (P : K × V → Type μ) (k : K) (m : List (K × V)) → All P m → All P (delete k m)
  unfolding delete
  All-delete P k [] h = tt
  All-delete P k ((j, w) ∷ m) h = elim (Bool-cases (j == k)) [
    | inl t ↦ rw t (All-delete P k m h.1)
    | inr f ↦ rw f (h.0, All-delete P k m h.1)
  ]

  pub All-get {μ} :
      (P : K × V → Type μ) (k : K) (v : V) (m : List (K × V))
      → get k m ≡ some v
      → All P m
      → P (k, v)
  unfolding get
  All-get P k v [] found h = cc
  All-get P k v ((j, w) ∷ m) found h = elim (Bool-cases (j == k)) [
    | inl t ↦
        let same : w ≡ v = ground (arith, found, t) in
        subst (λ i. P (i, v)) ((e.beq_iff j k).0 t) (subst (λ x. P (j, x)) same h.0)
    | inr f ↦ All-get P k v m (ground (arith, found, f)) h.1
  ]
