-- ===== src/Prelude/Maps.antt =====
-- A JavaScript `Map`: entries in insertion order, at most one for each key.
use Prim.Native.Nat.{ℕ, ◌+◌}
use mathlib.Core.Path.{◌≡◌, refl, sym, ap, ◌∙◌}
use mathlib.Core.Logic.{◌≢◌, inl, inr}
use mathlib.Core.Bool.{Bool, true, false}
use mathlib.Core.List.{List, [], ◌∷◌, ◌++◌, append-nil, append_assoc}
use mathlib.Core.Option.{Option, none, some}
use native.Mathlib.Omega.{arith}
use g_gate.Prelude.Tests.{if◌then◌else◌, Eq, is_some, keep_if, Bool-cases}
use g_gate.Prelude.Lists.{length}

abbrev pub Map {ℓ κ} : Type ℓ → Type κ → Type (ℓ ⊔ κ)
Map K V = List (K × V)

module _ {ℓ κ} {K : Type ℓ} {V : Type κ} where
  -- `m.size` and `[...m.values()]`.
  abbrev pub size : Map K V → ℕ
  size = length

  abbrev pub values : Map K V → List V
  values [] = []
  values ((k, v) ∷ m) = v ∷ values m

module _ {ℓ} {K : Type ℓ} ⦃e : Eq K⦄ where
  pub beq_refl : (k : K) → e.beq k k ≡ true
  beq_refl k = (e.beq_iff k k).1 refl

  pub beq_ne : (j k : K) → j ≢ k → e.beq j k ≡ false
  beq_ne j k h = elim (Bool-cases (e.beq j k)) [
    | inl y ↦ absurd (h ((e.beq_iff j k).0 y))
    | inr n ↦ n
  ]

module _ {ℓ κ} {K : Type ℓ} {V : Type κ} ⦃e : Eq K⦄ where
  -- `m.get(k)`, `m.set(k, v)` (in place on a known key, else at the end), `m.delete(k)`, `m.has(k)`.
  unfoldable pub lookup : K → Map K V → Option V
  lookup k [] = none
  lookup k ((j, v) ∷ m) = let rest = lookup k m in if e.beq j k then some v else rest

  unfoldable pub insert : K → V → Map K V → Map K V
  insert k v [] = (k, v) ∷ []
  insert k v ((j, w) ∷ m) =
      let rest = insert k v m in if e.beq j k then (k, v) ∷ m else (j, w) ∷ rest

  unfoldable pub erase : K → Map K V → Map K V
  erase k [] = []
  erase k ((j, w) ∷ m) = let rest = erase k m in if e.beq j k then m else (j, w) ∷ rest

  unfoldable pub contains : K → Map K V → Bool
  contains k m = is_some (lookup k m)

  -- No key twice: what `Map` keeps by itself.
  abbrev pub IsUnique : Map K V → Type (ℓ ⊔ κ)
  IsUnique [] = Unit
  IsUnique ((k, v) ∷ m) = (lookup k m ≡ none) × IsUnique m

  pub lookup-insert_self : (k : K) (v : V) (m : Map K V) → lookup k (insert k v m) ≡ some v
  unfolding lookup insert
  lookup-insert_self k v [] = rw (beq_refl k)
  lookup-insert_self k v ((j, w) ∷ m) = ground (arith, beq_refl k, lookup-insert_self k v m)

  pub lookup-insert_ne :
      (j k : K) (v : V) (m : Map K V) → j ≢ k → lookup j (insert k v m) ≡ lookup j m
  unfolding lookup insert
  lookup-insert_ne j k v [] h = rw (beq_ne k j (λ q. h (sym q)))
  lookup-insert_ne j k v ((i, w) ∷ m) h =
      ground (arith, e.beq_iff i k, e.beq_iff i j, e.beq_iff k j, lookup-insert_ne j k v m h)

  pub lookup-insert :
      (j k : K) (v : V) (m : Map K V)
      → lookup j (insert k v m) ≡ (if e.beq k j then some v else lookup j m)
  lookup-insert j k v m = elim (Bool-cases (e.beq k j)) [
    | inl y ↦ rw (y, sym ((e.beq_iff k j).0 y)) (lookup-insert_self k v m)
    | inr n ↦ rw n (lookup-insert_ne j k v m (λ q. ground (arith, e.beq_iff k j)))
  ]

  pub lookup-erase_ne : (j k : K) (m : Map K V) → j ≢ k → lookup j (erase k m) ≡ lookup j m
  unfolding lookup erase
  lookup-erase_ne j k [] h = refl
  lookup-erase_ne j k ((i, w) ∷ m) h =
      ground (arith, e.beq_iff i k, e.beq_iff i j, lookup-erase_ne j k m h)

  pub lookup-erase_self : (k : K) (m : Map K V) → IsUnique m → lookup k (erase k m) ≡ none
  unfolding lookup erase
  lookup-erase_self k [] h = refl
  lookup-erase_self k ((i, w) ∷ m) h = ground (arith, e.beq_iff i k, lookup-erase_self k m h.1)

  pub insert-IsUnique : (k : K) (v : V) (m : Map K V) → IsUnique m → IsUnique (insert k v m)
  unfolding lookup insert
  insert-IsUnique k v [] h = (refl, tt)
  insert-IsUnique k v ((i, w) ∷ m) h =
      ground (arith, e.beq_iff i k, insert-IsUnique k v m h.1, lookup-insert_ne i k v m)

  pub erase-IsUnique : (k : K) (m : Map K V) → IsUnique m → IsUnique (erase k m)
  unfolding lookup erase
  erase-IsUnique k [] h = tt
  erase-IsUnique k ((i, w) ∷ m) h =
      ground (arith, e.beq_iff i k, erase-IsUnique k m h.1, lookup-erase_ne i k m)

  pub size-insert_old :
      (k : K) (v w : V) (m : Map K V) → lookup k m ≡ some w → size (insert k v m) ≡ size m
  unfolding lookup insert
  size-insert_old k v w [] h = cc
  size-insert_old k v w ((i, x) ∷ m) h = ground (arith, size-insert_old k v w m)

  pub size-insert_new :
      (k : K) (v : V) (m : Map K V) → lookup k m ≡ none → size (insert k v m) ≡ size m + 1
  unfolding lookup insert
  size-insert_new k v [] h = omega arith
  size-insert_new k v ((i, x) ∷ m) h = ground (arith, size-insert_new k v m)

  pub size-erase :
      (k : K) (v : V) (m : Map K V) → lookup k m ≡ some v → size (erase k m) + 1 ≡ size m
  unfolding lookup erase
  size-erase k v [] h = cc
  size-erase k v ((i, x) ∷ m) h = ground (arith, size-erase k v m)

  -- Writing back what is there changes nothing.
  pub insert_same : (k : K) (v : V) (m : Map K V) → lookup k m ≡ some v → insert k v m ≡ m
  unfolding lookup insert
  insert_same k v [] h = cc
  insert_same k v ((i, x) ∷ m) h = ground (arith, e.beq_iff i k, insert_same k v m)

  pub erase_absent : (k : K) (m : Map K V) → lookup k m ≡ none → erase k m ≡ m
  unfolding lookup erase
  erase_absent k [] h = refl
  erase_absent k ((i, x) ∷ m) h = ground (arith, erase_absent k m)

  -- Deleting, in a walk over the map, every value that fails `p`.
  unfoldable pub retain : (V → Bool) → Map K V → Map K V
  retain p [] = []
  retain p ((j, v) ∷ m) = let rest = retain p m in if p v then (j, v) ∷ rest else rest

  pub lookup-retain-none :
      (p : V → Bool) (k : K) (m : Map K V) → lookup k m ≡ none → lookup k (retain p m) ≡ none
  unfolding lookup retain
  lookup-retain-none p k [] h = refl
  lookup-retain-none p k ((i, x) ∷ m) h = ground (arith, lookup-retain-none p k m)

  pub lookup-retain :
      (p : V → Bool) (k : K) (m : Map K V)
      → IsUnique m
      → lookup k (retain p m) ≡ keep_if p (lookup k m)
  unfolding lookup retain
  lookup-retain p k [] h = refl
  lookup-retain p k ((i, x) ∷ m) h =
      ground (arith, e.beq_iff i k, lookup-retain p k m h.1, lookup-retain-none p k m)

  pub retain-IsUnique : (p : V → Bool) (m : Map K V) → IsUnique m → IsUnique (retain p m)
  unfolding retain
  retain-IsUnique p [] h = tt
  retain-IsUnique p ((i, x) ∷ m) h =
      ground (arith, retain-IsUnique p m h.1, lookup-retain-none p i m h.0)

  -- Every entry lies under the key that `key` reads off its value.
  abbrev pub IsKeyed : (V → K) → Map K V → Type ℓ
  IsKeyed key [] = Unit
  IsKeyed key ((k, v) ∷ m) = (key v ≡ k) × IsKeyed key m

  pub insert-IsKeyed :
      (key : V → K) (v : V) (m : Map K V) → IsKeyed key m → IsKeyed key (insert (key v) v m)
  unfolding insert
  insert-IsKeyed key v [] h = (refl, tt)
  insert-IsKeyed key v ((i, x) ∷ m) h = ground (arith, insert-IsKeyed key v m h.1)

  pub erase-IsKeyed : (key : V → K) (k : K) (m : Map K V) → IsKeyed key m → IsKeyed key (erase k m)
  unfolding erase
  erase-IsKeyed key k [] h = tt
  erase-IsKeyed key k ((i, x) ∷ m) h = ground (arith, erase-IsKeyed key k m h.1)

  pub retain-IsKeyed :
      (key : V → K) (p : V → Bool) (m : Map K V) → IsKeyed key m → IsKeyed key (retain p m)
  unfolding retain
  retain-IsKeyed key p [] h = tt
  retain-IsKeyed key p ((i, x) ∷ m) h = ground (arith, retain-IsKeyed key p m h.1)

  pub lookup-IsKeyed :
      (key : V → K) (k : K) (v : V) (m : Map K V) → IsKeyed key m → lookup k m ≡ some v → key v ≡ k
  unfolding lookup
  lookup-IsKeyed key k v [] h e' = cc
  lookup-IsKeyed key k v ((i, x) ∷ m) h e' =
      ground (arith, e.beq_iff i k, lookup-IsKeyed key k v m h.1)

  -- Setting every value under its key, in order: how a map is read back from a list of values.
  abbrev pub insert_all : (V → K) → List V → Map K V → Map K V
  insert_all key [] m = m
  insert_all key (v ∷ vs) m = insert_all key vs (insert (key v) v m)

  insert-append :
      (k : K) (v : V) (m : Map K V) → lookup k m ≡ none → insert k v m ≡ m ++ (k, v) ∷ []
  unfolding lookup insert
  insert-append k v [] h = refl
  insert-append k v ((i, x) ∷ m) h = ground (arith, insert-append k v m)

  lookup-append_none :
      (k : K) (m n : Map K V) → lookup k m ≡ none → lookup k n ≡ none → lookup k (m ++ n) ≡ none
  unfolding lookup
  lookup-append_none k [] n h g = g
  lookup-append_none k ((i, x) ∷ m) n h g = ground (arith, lookup-append_none k m n)

  -- No key of the second map is in the first.
  abbrev Avoids : Map K V → Map K V → Type (ℓ ⊔ κ)
  Avoids m [] = Unit
  Avoids m ((k, v) ∷ n) = (lookup k m ≡ none) × Avoids m n

  Avoids-append :
      (m n : Map K V) (k : K) (v : V) → lookup k n ≡ none → Avoids m n → Avoids (m ++ (k, v) ∷ []) n
  unfolding lookup
  Avoids-append m [] k v h a = tt
  Avoids-append m ((i, x) ∷ n) k v h a = (
    lookup-append_none i m ((k, v) ∷ []) a.0 (ground (arith, e.beq_iff k i, e.beq_iff i k)),
    Avoids-append m n k v (ground (arith, e.beq_iff k i, e.beq_iff i k)) a.1,
  )

  insert_all-append :
      (key : V → K) (n m : Map K V)
      → IsKeyed key n
      → IsUnique n
      → Avoids m n
      → insert_all key (values n) m ≡ m ++ n
  insert_all-append key [] m h u a = sym (append-nil m)
  insert_all-append key ((k, v) ∷ n) m h u a =
      ap (λ j. insert_all key (values n) (insert j v m)) h.0
      ∙ ap (insert_all key (values n)) (insert-append k v m a.0)
      ∙ insert_all-append key n (m ++ (k, v) ∷ []) h.1 u.1 (Avoids-append m n k v u.0 a.1)
      ∙ append_assoc m ((k, v) ∷ []) n

  Avoids-nil : (n : Map K V) → Avoids [] n
  unfolding lookup
  Avoids-nil [] = tt
  Avoids-nil ((k, v) ∷ n) = (refl, Avoids-nil n)

  -- A map is what its values give when they are read back.
  pub insert_all-values :
      (key : V → K) (n : Map K V) → IsKeyed key n → IsUnique n → insert_all key (values n) [] ≡ n
  insert_all-values key n h u = insert_all-append key n [] h u (Avoids-nil n)
