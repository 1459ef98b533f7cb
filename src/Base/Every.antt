-- ===== src/Base/Every.antt =====
-- A test that every entry of a dictionary passes.
use ori.Base.Tests.{◌==◌, Bool-cases}
use ori.Base.Dict.{Dict, keys, lookup, insert, erase, lookup-not_has}
use ori.Base.Lists.{has, Distinct}
use Prim.Native.Nat.{ℕ}
use mathlib.Core.Path.{◌≡◌, subst}
use mathlib.Core.Logic.{inl, inr}
use mathlib.Core.Bool.{Bool, true, false, ◌||◌}
use mathlib.Core.Option.{some, none}
use mathlib.Core.List.{[], ◌∷◌}
use native.Mathlib.Omega.{arith}

module _ {ℓ} {V : Type ℓ} (p : ℕ → V → Bool) where
  abbrev pub Every : Dict V → Type 0
  Every [] = Unit
  Every ((k, v) ∷ d) = (p k v ≡ true) × Every d

  pub Every-lookup : (k : ℕ) (v : V) (d : Dict V) → Every d → lookup k d ≡ some v → p k v ≡ true
  Every-lookup k v [] h e = cc
  Every-lookup k v ((j, w) ∷ d) h e = ground (arith, Every-lookup k v d)

  pub Every-insert : (k : ℕ) (v : V) (d : Dict V) → p k v ≡ true → Every d → Every (insert k v d)
  Every-insert k v [] e h = (e, tt)
  Every-insert k v ((j, w) ∷ d) e h = ground (arith, Every-insert k v d e)

  pub Every-erase : (k : ℕ) (d : Dict V) → Every d → Every (erase k d)
  Every-erase k [] h = tt
  Every-erase k ((j, w) ∷ d) h = ground (arith, Every-erase k d)

module _ {ℓ} {V : Type ℓ} where
  -- A key has an entry.
  pub lookup-has : (k : ℕ) (d : Dict V) → has k (keys d) ≡ true → (v : V) × (lookup k d ≡ some v)
  lookup-has k [] h = cc
  lookup-has k ((j, w) ∷ d) h = elim (Bool-cases (k == j)) [
    | inl e ↦ (w, ground (arith, e))
    | inr e ↦
        let rest : (v : V) × (lookup k d ≡ some v) =
          lookup-has k d (subst (λ b. (b || has k (keys d)) ≡ true) e h) in
        (rest.0, ground (arith, e, rest.1))
  ]

  pub Every-mono :
      (p q : ℕ → V → Bool) (d : Dict V)
      → ((k : ℕ) (v : V) → p k v ≡ true → q k v ≡ true)
      → Every p d
      → Every q d
  Every-mono p q [] f h = tt
  Every-mono p q ((k, v) ∷ d) f h = (f k v h.0, Every-mono p q d f h.1)

  -- An entry that is replaced
  pub has-keys-replace :
      (j k : ℕ) (v w : V) (d : Dict V)
      → lookup k d ≡ some w
      → has j (keys (insert k v d)) ≡ has j (keys d)
  has-keys-replace j k v w [] h = cc
  has-keys-replace j k v w ((i, x) ∷ d) h = ground (arith, has-keys-replace j k v w d)

-- A test that weakens at every key but one, on the entries under the others
module _ {ℓ} {V : Type ℓ} (p q : ℕ → V → Bool) (k : ℕ)
    (f : (j : ℕ) (w : V) → (j == k) ≡ false → p j w ≡ true → q j w ≡ true) where
  pub Every-others : (d : Dict V) → lookup k d ≡ none → Every p d → Every q d
  Every-others [] e h = tt
  Every-others ((j, w) ∷ d) e h = elim (Bool-cases (k == j)) [
    | inl same ↦ absurd (ground (arith, same, e))
    | inr other ↦ (f j w (ground (arith, other)) h.0, Every-others d (ground (arith, other, e)) h.1)
  ]

  pub Every-insert_others :
      (v : V) (d : Dict V) → q k v ≡ true → Distinct (keys d) → Every p d → Every q (insert k v d)
  Every-insert_others v [] e u h = (e, tt)
  Every-insert_others v ((j, w) ∷ d) e u h = elim (Bool-cases (k == j)) [
    | inl same ↦ rw same (e, Every-others d (lookup-not_has k d (ground (arith, same, u.0))) h.1)
    | inr other ↦ rw other (f j w (ground (arith, other)) h.0, Every-insert_others v d e u.1 h.1)
  ]

  pub Every-erase_others : (d : Dict V) → Distinct (keys d) → Every p d → Every q (erase k d)
  Every-erase_others [] u h = tt
  Every-erase_others ((j, w) ∷ d) u h = elim (Bool-cases (k == j)) [
    | inl same ↦ rw same (Every-others d (lookup-not_has k d (ground (arith, same, u.0))) h.1)
    | inr other ↦ rw other (f j w (ground (arith, other)) h.0, Every-erase_others d u.1 h.1)
  ]
