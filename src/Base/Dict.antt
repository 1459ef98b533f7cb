-- ===== src/Base/Dict.antt =====
-- A `HashMap` with keys that are numbers: an association list in the order of iteration, which the
-- program leaves open.
use ori.Base.Tests.{◌==◌, if◌then◌else◌}
use ori.Base.Lists.{has, Distinct}
use Prim.Native.Nat.{ℕ}
use mathlib.Core.Path.{◌≡◌, refl}
use mathlib.Core.Bool.{true, false}
use mathlib.Core.Option.{Option, none, some}
use mathlib.Core.List.{List, [], ◌∷◌}
use native.Mathlib.Omega.{arith}

abbrev pub Dict {ℓ} : Type ℓ → Type ℓ
Dict V = List (ℕ × V)

module _ {ℓ} {V : Type ℓ} where
  abbrev pub keys : Dict V → List ℕ
  keys [] = []
  keys ((k, _) ∷ d) = k ∷ keys d

  abbrev pub lookup : ℕ → Dict V → Option V
  lookup k [] = none
  lookup k ((j, v) ∷ d) = if k == j then some v else lookup k d

  abbrev pub insert : ℕ → V → Dict V → Dict V
  insert k v [] = (k, v) ∷ []
  insert k v ((j, w) ∷ d) = if k == j then (k, v) ∷ d else (j, w) ∷ insert k v d

  abbrev pub erase : ℕ → Dict V → Dict V
  erase k [] = []
  erase k ((j, w) ∷ d) = if k == j then d else (j, w) ∷ erase k d

  pub lookup-insert :
      (j k : ℕ) (v : V) (d : Dict V)
      → lookup j (insert k v d) ≡ (if j == k then some v else lookup j d)
  lookup-insert j k v [] = refl
  lookup-insert j k v ((i, w) ∷ d) = ground (arith, lookup-insert j k v d)

  pub has-keys-insert :
      (j k : ℕ) (v : V) (d : Dict V)
      → has j (keys (insert k v d)) ≡ (if j == k then true else has j (keys d))
  has-keys-insert j k v [] = ground arith
  has-keys-insert j k v ((i, w) ∷ d) = ground (arith, has-keys-insert j k v d)

  pub insert-Distinct :
      (k : ℕ) (v : V) (d : Dict V) → Distinct (keys d) → Distinct (keys (insert k v d))
  insert-Distinct k v [] h = ground arith
  insert-Distinct k v ((i, w) ∷ d) h =
      ground (arith, insert-Distinct k v d h.1, has-keys-insert i k v d)

  pub lookup-not_has : (k : ℕ) (d : Dict V) → has k (keys d) ≡ false → lookup k d ≡ none
  lookup-not_has k [] h = refl
  lookup-not_has k ((i, w) ∷ d) h = ground (arith, lookup-not_has k d)

  pub has-keys-erase :
      (j k : ℕ) (d : Dict V)
      → Distinct (keys d)
      → has j (keys (erase k d)) ≡ (if j == k then false else has j (keys d))
  has-keys-erase j k [] h = ground arith
  has-keys-erase j k ((i, w) ∷ d) h = ground (arith, has-keys-erase j k d h.1)

  pub erase-Distinct : (k : ℕ) (d : Dict V) → Distinct (keys d) → Distinct (keys (erase k d))
  erase-Distinct k [] h = tt
  erase-Distinct k ((i, w) ∷ d) h = ground (arith, erase-Distinct k d h.1, has-keys-erase i k d h.1)

  pub lookup-erase :
      (j k : ℕ) (d : Dict V)
      → Distinct (keys d)
      → lookup j (erase k d) ≡ (if j == k then none else lookup j d)
  lookup-erase j k [] h = ground arith
  lookup-erase j k ((i, w) ∷ d) h = ground (arith, lookup-erase j k d h.1, lookup-not_has i d h.0)
