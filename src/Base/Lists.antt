-- ===== src/Base/Lists.antt =====
-- Lists measured by native numbers, membership of numbers as a test.
use Prim.Native.Nat.{ℕ, zero, suc, ◌+◌, ◌-◌}
use mathlib.Core.Path.{◌≡◌, refl, ap, ◌∙◌}
use mathlib.Core.Bool.{Bool, true, false, ◌||◌}
use mathlib.Core.List.{List, [], ◌∷◌, ◌++◌}
use mathlib.Core.Option.{Option, none, some}
use native.Mathlib.Omega.{arith}
use ori.Base.Tests.{◌==◌, if◌then◌else◌}

module _ {ℓ} {A : Type ℓ} where
  abbrev pub length : List A → ℕ
  length [] = 0
  length (x ∷ xs) = suc (length xs)

  abbrev pub get_elem? : List A → ℕ → Option A
  get_elem? [] i = none
  get_elem? (x ∷ xs) zero = some x
  get_elem? (x ∷ xs) (suc i) = get_elem? xs i

  abbrev pub drop : ℕ → List A → List A
  drop zero xs = xs
  drop (suc n) [] = []
  drop (suc n) (x ∷ xs) = drop n xs

  abbrev pub take : ℕ → List A → List A
  take zero xs = []
  take (suc n) [] = []
  take (suc n) (x ∷ xs) = x ∷ take n xs

  abbrev pub replicate : ℕ → A → List A
  replicate zero a = []
  replicate (suc n) a = a ∷ replicate n a

  pub length-append : (xs ys : List A) → length (xs ++ ys) ≡ length xs + length ys
  length-append [] ys = omega arith
  length-append (x ∷ xs) ys = omega (arith, length-append xs ys)

  pub length-replicate : (n : ℕ) (a : A) → length (replicate n a) ≡ n
  length-replicate zero a = refl
  length-replicate (suc n) a = ap suc (length-replicate n a)

  pub length-drop : (n : ℕ) (xs : List A) → length (drop n xs) ≡ length xs - n
  length-drop zero xs = omega arith
  length-drop (suc n) [] = omega arith
  length-drop (suc n) (x ∷ xs) = omega (arith, length-drop n xs)

-- `k` stands in the list.
abbrev pub has : ℕ → List ℕ → Bool
has k [] = false
has k (x ∷ xs) = (k == x) || has k xs

-- No number stands in the list twice.
abbrev pub Distinct : List ℕ → Type 0
Distinct [] = Unit
Distinct (x ∷ xs) = (has x xs ≡ false) × Distinct xs

-- A set as a list without repetitions: `add` and `discard` an element.
abbrev pub add : ℕ → List ℕ → List ℕ
add x xs = if has x xs then xs else x ∷ xs

abbrev pub discard : ℕ → List ℕ → List ℕ
discard x [] = []
discard x (y ∷ ys) = if x == y then ys else y ∷ discard x ys

pub has-add : (j k : ℕ) (xs : List ℕ) → has j (add k xs) ≡ (if j == k then true else has j xs)
has-add j k xs = ground arith

pub add-Distinct : (k : ℕ) (xs : List ℕ) → Distinct xs → Distinct (add k xs)
add-Distinct k xs h = ground arith

pub has-discard :
    (j k : ℕ) (xs : List ℕ)
    → Distinct xs
    → has j (discard k xs) ≡ (if j == k then false else has j xs)
has-discard j k [] h = ground arith
has-discard j k (x ∷ xs) h = ground (arith, has-discard j k xs h.1)

pub discard-Distinct : (k : ℕ) (xs : List ℕ) → Distinct xs → Distinct (discard k xs)
discard-Distinct k [] h = tt
discard-Distinct k (x ∷ xs) h = ground (arith, discard-Distinct k xs h.1, has-discard x k xs h.1)

-- Every number of the first list stands in the second.
abbrev pub AllIn : List ℕ → List ℕ → Type 0
AllIn [] ks = Unit
AllIn (x ∷ xs) ks = (has x ks ≡ true) × AllIn xs ks

pub AllIn-of : (xs ks : List ℕ) → ((j : ℕ) → has j xs ≡ true → has j ks ≡ true) → AllIn xs ks
AllIn-of [] ks f = tt
AllIn-of (x ∷ xs) ks f = (f x (ground arith), AllIn-of xs ks (λ j e. f j (ground (arith, e))))

-- A list that differs at a number which is not among them
pub AllIn-others :
    (x : ℕ) (xs ks ks' : List ℕ)
    → has x xs ≡ false
    → ((j : ℕ) → (j == x) ≡ false → has j ks' ≡ has j ks)
    → AllIn xs ks
    → AllIn xs ks'
AllIn-others x [] ks ks' fresh o s = tt
AllIn-others x (y ∷ ys) ks ks' fresh o s =
    (o y (ground (arith, fresh)) ∙ s.0, AllIn-others x ys ks ks' (ground (arith, fresh)) o s.1)
