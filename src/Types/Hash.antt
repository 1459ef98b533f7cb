-- ===== src/Types/Hash.antt =====
-- `Hash` and `Address` of core/src/types.rs. An array of bytes of a fixed width stands here for the
-- number that it spells with the most significant byte first, so `[u8; 32]` is a number below
-- 2 ^ 256 and `[u8; 20]` one below 2 ^ 160; byte strings of any length are lists of numbers.
use native.Mathlib.Nat.{pow-suc}
use ori.Base.{
  ℕ, zero, suc, ◌+◌, ◌-◌, ◌*◌, ◌/◌, ◌%◌, ◌^◌, ◌<◌, ◌≡◌, refl, ◌∙◌, List, [], ◌∷◌, ◌++◌, true, false,
  arith, Bool, ◌==◌, ◌&&◌, ap, Bool-cases, inl, inr, eq_of_==, leb, if◌then◌else◌, length, drop,
  replicate, length-append,
}

abbrev pub Bytes : Type 0
Bytes = List ℕ

abbrev pub Hash : Type 0
Hash = ℕ

abbrev pub Address : Type 0
Address = ℕ

-- The array of `w` bytes that spells `n`.
unfoldable pub be_bytes : ℕ → ℕ → Bytes
be_bytes zero n = []
be_bytes (suc w) n = be_bytes w (n / 256) ++ (n % 256) ∷ []

value_from : ℕ → Bytes → ℕ
value_from acc [] = acc
value_from acc (b ∷ bs) = value_from (acc * 256 + b) bs

-- The number that an array of bytes spells.
unfoldable pub be_value : Bytes → ℕ
unfolding value_from
be_value = value_from 0

abbrev pub is_filled : Bytes → Bool
is_filled [] = false
is_filled (_ ∷ _) = true

-- `Hash::as_bytes`
unfoldable pub as_bytes : Hash → Bytes
as_bytes h = be_bytes 32 h

-- `Address::as_slice`
unfoldable pub as_slice : Address → Bytes
as_slice a = be_bytes 20 a

-- `Hash::from_bytes`: short input is padded on the left, of long input the last 32 bytes count.
unfoldable pub from_bytes : Bytes → Hash
unfolding be_value
from_bytes src = be_value (
    if leb (length src) 32
    then replicate (32 - length src) 0 ++ src
    else drop (length src - 32) src)

is_filled-snoc : (xs : Bytes) (b : ℕ) → is_filled (xs ++ b ∷ []) ≡ true
is_filled-snoc [] b = refl
is_filled-snoc (x ∷ xs) b = refl

pub is_filled-as_bytes : (h : Hash) → is_filled (as_bytes h) ≡ true
unfolding as_bytes be_bytes
is_filled-as_bytes h = is_filled-snoc (be_bytes 31 (h / 256)) (h % 256)

pub length-be_bytes : (w n : ℕ) → length (be_bytes w n) ≡ w
unfolding be_bytes
length-be_bytes zero n = refl
length-be_bytes (suc w) n =
    length-append (be_bytes w (n / 256)) _ ∙ omega (arith, length-be_bytes w (n / 256))

value_from-snoc :
    (acc : ℕ) (xs : Bytes) (b : ℕ) → value_from acc (xs ++ b ∷ []) ≡ value_from acc xs * 256 + b
unfolding value_from
value_from-snoc acc [] b = refl
value_from-snoc acc (x ∷ xs) b = value_from-snoc (acc * 256 + x) xs b

pub be_value-be_bytes : (w n : ℕ) → n < 256 ^ w → be_value (be_bytes w n) ≡ n
unfolding be_value be_bytes
be_value-be_bytes zero n h = omega arith
be_value-be_bytes (suc w) n h =
    value_from-snoc 0 (be_bytes w (n / 256)) (n % 256)
    ∙ omega (arith, be_value-be_bytes w (n / 256) (omega (arith, pow-suc 256 w)))

be_value-zeros : (k : ℕ) (xs : Bytes) → be_value (replicate k 0 ++ xs) ≡ be_value xs
unfolding be_value
be_value-zeros zero xs = refl
be_value-zeros (suc k) xs = be_value-zeros k xs

from_bytes-be_bytes : (w n : ℕ) → leb w 32 ≡ true → n < 256 ^ w → from_bytes (be_bytes w n) ≡ n
unfolding from_bytes
from_bytes-be_bytes w n short h =
    rw (length-be_bytes w n, short)
      (be_value-zeros (32 - w) (be_bytes w n) ∙ be_value-be_bytes w n h)

-- A hash, a number below 2 ^ 256, that was stored as its bytes is read back as itself.
pub from_bytes-as_bytes : (h : Hash) → h < 2 ^ 256 → from_bytes (as_bytes h) ≡ h
unfolding as_bytes
from_bytes-as_bytes h lt = from_bytes-be_bytes 32 h refl lt

pub from_bytes-as_slice : (a : Address) → a < 2 ^ 160 → from_bytes (as_slice a) ≡ a
unfolding as_slice
from_bytes-as_slice a lt = from_bytes-be_bytes 20 a refl lt

abbrev pub same_bytes : Bytes → Bytes → Bool
same_bytes [] [] = true
same_bytes [] (y ∷ ys) = false
same_bytes (x ∷ xs) [] = false
same_bytes (x ∷ xs) (y ∷ ys) = (x == y) && same_bytes xs ys

pub same_bytes_refl : (xs : Bytes) → same_bytes xs xs ≡ true
same_bytes_refl [] = refl
same_bytes_refl (x ∷ xs) = ground (arith, same_bytes_refl xs)

pub eq_of_same_bytes : (xs ys : Bytes) → same_bytes xs ys ≡ true → xs ≡ ys
eq_of_same_bytes [] [] h = refl
eq_of_same_bytes [] (y ∷ ys) h = cc
eq_of_same_bytes (x ∷ xs) [] h = cc
eq_of_same_bytes (x ∷ xs) (y ∷ ys) h = ground (arith, eq_of_same_bytes xs ys)

-- Numbers of a width are told apart by their bytes.
pub same_bytes-be_bytes :
    (w m n : ℕ) → m < 256 ^ w → n < 256 ^ w → same_bytes (be_bytes w m) (be_bytes w n) ≡ (m == n)
same_bytes-be_bytes w m n hm hn = elim (Bool-cases (m == n)) [
  | inl e ↦ rw (eq_of_== m n e) (ground (arith, same_bytes_refl (be_bytes w n)))
  | inr e ↦ elim (Bool-cases (same_bytes (be_bytes w m) (be_bytes w n))) [
    | inr other ↦ rw (other, e)
    | inl same ↦
        let back = ap be_value (eq_of_same_bytes (be_bytes w m) (be_bytes w n) same) in
        ground (arith, back, be_value-be_bytes w m hm, be_value-be_bytes w n hn)
  ]
]
