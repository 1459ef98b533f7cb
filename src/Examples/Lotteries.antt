-- ===== src/Examples/Lotteries.antt =====
-- A curve of two points over the field of two elements.
use ori.Base.{
  ℕ, ◌+◌, ◌%◌, ◌≡◌, refl, Bool, true, false, not, ◌&&◌, Option, none, some, [], ◌∷◌, ◌++◌, arith,
  ◌==◌, if◌then◌else◌,
}
use ori.Types.Hash.{Bytes, Hash, as_bytes, be_bytes}
use ori.Vrf.{Curve, compute, compute_with_proof, is_valid, from_scalar}
use ori.Vrf.Proofs.{compute_with_proof-is_valid}

abbrev xor : Bool → Bool → Bool
xor true b = not b
xor false b = b

abbrev same : Bool → Bool → Bool
same a b = not (xor a b)

abbrev pack : Bool → Hash
pack true = 1
pack false = 0

abbrev unpack : Hash → Option Bool
unpack n = if n == 0 then some false else if n == 1 then some true else none

abbrev total : Bytes → ℕ
total [] = 0
total (b ∷ bs) = b + total bs

abbrev odd : Bytes → Bool
odd bs = total bs % 2 == 1

pub xor_comm : (a b : Bool) → xor a b ≡ xor b a
xor_comm a b = ground arith

pub xor_assoc : (a b c : Bool) → xor (xor a b) c ≡ xor a (xor b c)
xor_assoc a b c = ground arith

pub xor-xor : (a b : Bool) → xor (xor a b) b ≡ a
xor-xor a b = ground arith

pub and_comm : (a b : Bool) → (a && b) ≡ (b && a)
and_comm a b = ground arith

pub and_assoc : (a b c : Bool) → ((a && b) && c) ≡ (a && (b && c))
and_assoc a b c = ground arith

pub and-true : (a : Bool) → (a && true) ≡ a
and-true a = ground arith

pub and-xor : (a b c : Bool) → (a && xor b c) ≡ xor (a && b) (a && c)
and-xor a b c = ground arith

pub inverse : (a : Bool) → same a false ≡ false → (a && a) ≡ true
inverse a h = ground (arith, h)

pub same_refl : (a : Bool) → same a a ≡ true
same_refl a = ground arith

pub xor-and : (a b p : Bool) → (xor a b && p) ≡ xor (a && p) (b && p)
xor-and a b p = ground arith

pub true-and : (p : Bool) → (true && p) ≡ p
true-and p = ground arith

pub unpack-pack : (a : Bool) → unpack (pack a) ≡ some a
unpack-pack true = refl
unpack-pack false = refl

abbrev pub two_points : Curve
two_points = record {
  Scalar = Bool;
  Point = Bool;
  zero = false;
  one = true;
  plus = xor;
  minus = xor;
  times = ◌&&◌;
  invert = λ a. a;
  ct_eq = same;
  base = true;
  add = xor;
  scale = ◌&&◌;
  pack_scalar = pack;
  unpack_scalar = unpack;
  pack_point = pack;
  unpack_point = unpack;
  hash_256 = odd;
  hash_512 = odd;
  expand = λ key. true;
  plus_comm = xor_comm;
  plus_assoc = xor_assoc;
  plus-minus = xor-xor;
  times_comm = and_comm;
  times_assoc = and_assoc;
  times-one = and-true;
  times-plus = and-xor;
  times-invert = inverse;
  ct_eq_refl = same_refl;
  scale-plus = xor-and;
  scale-times = and_assoc;
  scale-one = true-and;
  unpack_scalar-pack_scalar = unpack-pack;
  unpack_point-pack_point = unpack-pack;
}

offset_even : same (xor true (odd (as_bytes 1 ++ 1 ∷ []))) false ≡ false
unfolding as_bytes be_bytes
offset_even = refl

compute_with_proof-is_valid_example :
    let key = from_scalar two_points true in
    let (value, proof) = compute_with_proof two_points key (1 ∷ []) in
    (is_valid two_points key.public (1 ∷ []) value proof ≡ true)
    × (value ≡ compute two_points key (1 ∷ []))
compute_with_proof-is_valid_example =
    compute_with_proof-is_valid two_points true (1 ∷ []) offset_even
