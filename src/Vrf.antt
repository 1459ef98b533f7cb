-- ===== src/Vrf.antt =====
-- common/crypto/src/vrf.rs: the verifiable random function of a block's proposer, over what the
-- packages curve25519-dalek, blake2 and blake2b-rs give. Packed points and scalars are arrays of 32
-- bytes, so numbers below 2 ^ 256, and a proof of 64 bytes is two of them.
pub mod Proofs
use ori.Base.{
  ℕ, ◌≡◌, ◌≢◌, Bool, true, false, not, ◌&&◌, Option, none, some, ◌>>=◌, List, [], ◌++◌,
  if◌then◌else◌,
}
use ori.Types.Hash.{Bytes, Hash, as_bytes}
use ori.Types.Block.{VrfProof}

-- A group of points over a field of scalars, with their encodings.
pub record Curve : Type 1 where
  pub Scalar : Type 0
  pub Point : Type 0
  pub zero : Scalar
  pub one : Scalar
  pub plus : Scalar → Scalar → Scalar
  pub minus : Scalar → Scalar → Scalar
  pub times : Scalar → Scalar → Scalar
  pub invert : Scalar → Scalar
  pub ct_eq : Scalar → Scalar → Bool
  pub base : Point
  pub add : Point → Point → Point
  pub scale : Scalar → Point → Point
  pub pack_scalar : Scalar → Hash
  pub unpack_scalar : Hash → Option Scalar
  pub pack_point : Point → Hash
  pub unpack_point : Hash → Option Point
  -- `Scalar::from_bytes_mod_order` of a `Hash256`, and its wide form of a `Hash512`
  pub hash_256 : Bytes → Scalar
  pub hash_512 : Bytes → Scalar
  -- the first half of the expanded ed25519 key, reduced
  pub expand : Hash → Scalar
  pub plus_comm : (a b : Scalar) → plus a b ≡ plus b a
  pub plus_assoc : (a b c : Scalar) → plus (plus a b) c ≡ plus a (plus b c)
  pub plus-minus : (a b : Scalar) → plus (minus a b) b ≡ a
  pub times_comm : (a b : Scalar) → times a b ≡ times b a
  pub times_assoc : (a b c : Scalar) → times (times a b) c ≡ times a (times b c)
  pub times-one : (a : Scalar) → times a one ≡ a
  pub times-plus : (a b c : Scalar) → times a (plus b c) ≡ plus (times a b) (times a c)
  pub times-invert : (a : Scalar) → ct_eq a zero ≡ false → times a (invert a) ≡ one
  pub ct_eq_refl : (a : Scalar) → ct_eq a a ≡ true
  pub scale-plus : (a b : Scalar) (p : Point) → scale (plus a b) p ≡ add (scale a p) (scale b p)
  pub scale-times : (a b : Scalar) (p : Point) → scale (times a b) p ≡ scale a (scale b p)
  pub scale-one : (p : Point) → scale one p ≡ p
  pub unpack_scalar-pack_scalar : (a : Scalar) → unpack_scalar (pack_scalar a) ≡ some a
  pub unpack_point-pack_point : (p : Point) → unpack_point (pack_point p) ≡ some p

-- The 32 bytes of `Value`
abbrev pub Value : Type 0
Value = Hash

module _ (curve : Curve) where
  open curve use {
    Scalar, Point, zero, one, plus, minus, times, invert, ct_eq, base, add, scale, pack_scalar,
    unpack_scalar, pack_point, unpack_point, hash_256, hash_512, expand,
  }

  -- `PublicKey` and `SecretKey`
  pub record PublicKey : Type 0 where
    pub bytes : Hash
    pub point : curve.Point

  pub record SecretKey : Type 0 where
    pub scalar : curve.Scalar
    pub public : PublicKey

  abbrev pub basemul : Scalar → Point
  basemul s = scale s base

  abbrev pub safe_invert : Scalar → Scalar
  safe_invert s = invert (if ct_eq s zero then one else s)

  -- `vmul2`, the documented sum of the multi-scalar product
  abbrev pub vmul2 : Scalar → Point → Scalar → Point → Point
  vmul2 s₁ p₁ s₂ p₂ = add (scale s₁ p₁) (scale s₂ p₂)

  -- `hash_s!` of a key, a value and two points
  abbrev pub challenge : PublicKey → Value → Point → Point → Scalar
  challenge pk value a b =
      hash_256
        (as_bytes pk.bytes ++ as_bytes value ++ as_bytes (pack_point a) ++ as_bytes (pack_point b))

  abbrev pub offset : PublicKey → Bytes → Scalar
  offset pk input = hash_256 (as_bytes pk.bytes ++ input)

  -- `unpack` of a pair of scalars
  abbrev pub unpack_pair : VrfProof → Option (Scalar × Scalar)
  unpack_pair proof = do r ← unpack_scalar proof.low; c ← unpack_scalar proof.high; some (r, c)

  pub is_valid : PublicKey → Bytes → Value → VrfProof → Bool
  is_valid pk input value proof = elim (unpack_point value) [
    | none ↦ false
    | some p ↦ elim (unpack_pair proof) [
      | none ↦ false
      | some (r, c) ↦
          ct_eq
            (challenge pk value (vmul2 (plus r (times c (offset pk input))) base c pk.point)
              (vmul2 r p c base))
            c
    ]
  ]

  abbrev pub from_scalar : Scalar → SecretKey
  from_scalar sk = record {
    scalar = sk;
    public = record { bytes = pack_point (basemul sk); point = basemul sk };
  }

  pub compute : SecretKey → Bytes → Value
  compute key input = pack_point (basemul (safe_invert (plus key.scalar (offset key.public input))))

  -- The value and the proof from the sum in the exponent and its inverse.
  abbrev pub prove_with : SecretKey → Scalar → Scalar → Value × VrfProof
  prove_with key x inv =
      let value = pack_point (basemul inv) in
      let k = hash_512 (as_bytes (pack_scalar x)) in
      let c = challenge key.public value (basemul k) (basemul (times inv k)) in
      (value, record { low = pack_scalar (minus k (times c x)); high = pack_scalar c })

  unfoldable pub compute_with_proof : SecretKey → Bytes → Value × VrfProof
  compute_with_proof key input =
      let x = plus key.scalar (offset key.public input) in prove_with key x (safe_invert x)

  -- `convert_secret_key`, at a key of 32 bytes
  abbrev pub convert_secret_key : Hash → SecretKey
  convert_secret_key key = from_scalar (expand key)
