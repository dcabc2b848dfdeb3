-- ===== src/Base/Maps.antt =====
-- Go maps as association lists over keys with a decidable equality.
use Prim.Native.Nat.{ℕ, suc, ◌≤◌}
use mathlib.Core.Path.{◌≡◌, refl}
use mathlib.Core.Logic.{ite}
use mathlib.Core.List.{List, [], ◌∷◌}
use mathlib.Core.Option.{Option, none, some}
use native.Mathlib.Omega.{arith}

-- The library's maps are not used: `size` is Go's `len` and is a native number.
abbrev pub Assoc {ℓ} : Type ℓ → Type ℓ → Type ℓ
Assoc K V = List (K × V)

abbrev pub size {ℓ} : {K V : Type ℓ} → Assoc K V → ℕ
size [] = 0
size (e ∷ m) = suc (size m)

module _ {ℓ} {K V : Type ℓ} (dec : Discrete K) where
  -- v, ok := m[k]
  unfoldable pub lookup : K → Assoc K V → Option V
  lookup k [] = none
  lookup k ((j, v) ∷ m) = ite (dec j k) (some v) (lookup k m)

  -- m[k] = v
  unfoldable pub insert : K → V → Assoc K V → Assoc K V
  insert k v [] = (k, v) ∷ []
  insert k v ((j, w) ∷ m) = ite (dec j k) ((k, v) ∷ m) ((j, w) ∷ insert k v m)

  -- delete(m, k)
  unfoldable pub delete : K → Assoc K V → Assoc K V
  delete k [] = []
  delete k ((j, w) ∷ m) = ite (dec j k) (delete k m) ((j, w) ∷ delete k m)

  pub lookup-insert :
      (k j : K) (v : V) (m : Assoc K V)
      → lookup j (insert k v m) ≡ ite (dec k j) (some v) (lookup j m)
  unfolding lookup insert
  lookup-insert k j v [] = refl
  lookup-insert k j v ((i, w) ∷ m) = ground (arith, lookup-insert k j v m)

  pub lookup-delete :
      (k j : K) (m : Assoc K V) → lookup j (delete k m) ≡ ite (dec k j) none (lookup j m)
  unfolding lookup delete
  lookup-delete k j [] = ground arith
  lookup-delete k j ((i, w) ∷ m) = ground (arith, lookup-delete k j m)

  -- Every key stands once.
  abbrev pub Distinct : Assoc K V → Type ℓ
  Distinct [] = Unit
  Distinct ((k, v) ∷ m) = (lookup k m ≡ none) × Distinct m

  pub insert-Distinct : (k : K) (v : V) (m : Assoc K V) → Distinct m → Distinct (insert k v m)
  unfolding lookup insert
  insert-Distinct k v [] d = ground arith
  insert-Distinct k v ((j, w) ∷ m) d = ground (arith, insert-Distinct k v m, lookup-insert k j v m)

  pub delete-Distinct : (k : K) (m : Assoc K V) → Distinct m → Distinct (delete k m)
  unfolding lookup delete
  delete-Distinct k [] d = ground arith
  delete-Distinct k ((j, w) ∷ m) d = ground (arith, delete-Distinct k m, lookup-delete k j m)

  pub size-insert_new :
      (k : K) (v : V) (m : Assoc K V) → lookup k m ≡ none → size (insert k v m) ≡ suc (size m)
  unfolding lookup insert
  size-insert_new k v [] h = refl
  size-insert_new k v ((j, w) ∷ m) h = ground (arith, size-insert_new k v m)

  pub size-insert_old :
      (k : K) (v : V) (m : Assoc K V) {w : V} → lookup k m ≡ some w → size (insert k v m) ≡ size m
  unfolding lookup insert
  size-insert_old k v [] h = cc
  size-insert_old k v ((j, u) ∷ m) {w} h = ground (arith, size-insert_old k v m {w = w})

  pub size-insert-le : (k : K) (v : V) (m : Assoc K V) → size (insert k v m) ≤ suc (size m)
  unfolding insert
  size-insert-le k v [] = omega arith
  size-insert-le k v ((j, w) ∷ m) = ground (arith, size-insert-le k v m)

  pub delete_absent : (k : K) (m : Assoc K V) → lookup k m ≡ none → delete k m ≡ m
  unfolding lookup delete
  delete_absent k [] h = refl
  delete_absent k ((j, w) ∷ m) h = ground (arith, delete_absent k m)

  pub size-delete-le : (k : K) (m : Assoc K V) → size (delete k m) ≤ size m
  unfolding delete
  size-delete-le k [] = omega arith
  size-delete-le k ((j, w) ∷ m) = ground (arith, size-delete-le k m)

  pub size-delete :
      (k : K) (m : Assoc K V) {w : V}
      → Distinct m
      → lookup k m ≡ some w
      → suc (size (delete k m)) ≡ size m
  unfolding lookup delete
  size-delete k [] d h = cc
  size-delete k ((j, u) ∷ m) {w} d h = ground (arith, size-delete k m {w = w}, delete_absent k m)
