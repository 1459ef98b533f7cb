-- ===== src/Vrf/Proofs.antt =====
-- `compute_with_proof` and `is_valid` of common/crypto/src/vrf.rs.
use ori.Base.{◌≡◌, refl, sym, ap, subst, ◌∙◌, true, false, some}
use ori.Types.Hash.{Bytes, as_bytes}
use ori.Types.Block.{VrfProof}
use ori.Vrf.{
  Curve, PublicKey, Value, prove_with, safe_invert, vmul2, basemul, safe_invert, prove_with, vmul2,
  challenge, offset, is_valid, from_scalar, compute, compute_with_proof,
}

module _ (curve : Curve) where
  open curve use {
    Scalar, Point, zero, one, plus, minus, times, invert, ct_eq, base, add, scale, pack_scalar,
    unpack_scalar, pack_point, unpack_point, hash_512, plus_comm, plus_assoc, plus-minus,
    times_comm, times_assoc, times-one, times-plus, times-invert, ct_eq_refl, scale-plus,
    scale-times, unpack_scalar-pack_scalar, unpack_point-pack_point,
  }

  -- The scalar that the verifier puts in front of the base point.
  first_scalar :
      (k c sk off : Scalar)
      → plus (plus (minus k (times c (plus sk off))) (times c off)) (times c sk) ≡ k
  first_scalar k c sk off = rw (
    plus_assoc (minus k (times c (plus sk off))) (times c off) (times c sk),
    sym (times-plus c off sk),
    plus_comm off sk,
    plus-minus k (times c (plus sk off)),
  )

  -- The other one, for a scalar that is not zero.
  second_scalar :
      (k c x : Scalar)
      → ct_eq x zero ≡ false
      → plus (times (minus k (times c x)) (invert x)) c ≡ times (invert x) k
  second_scalar k c x nonzero =
      let r : Scalar = minus k (times c x) in
      let back : times (times c x) (invert x) ≡ c =
        (rw (times_assoc c x (invert x), times-invert x nonzero, times-one c)) in
      let spread : plus (times r (invert x)) (times (times c x) (invert x)) ≡ times (invert x) k =
        (rw (
          times_comm r (invert x),
          times_comm (times c x) (invert x),
          sym (times-plus (invert x) r (times c x)),
          plus-minus k (times c x),
        )) in
      ap (plus (times r (invert x))) (sym back) ∙ spread

  first_point :
      (k c sk off : Scalar)
      → vmul2 curve (plus (minus k (times c (plus sk off))) (times c off)) base c (scale sk base)
        ≡ basemul curve k
  first_point k c sk off = rw (
    vmul2,
    sym (scale-times c sk base),
    sym (scale-plus (plus (minus k (times c (plus sk off))) (times c off)) (times c sk) base),
    first_scalar k c sk off,
  )

  second_point :
      (k c x : Scalar)
      → ct_eq x zero ≡ false
      → vmul2 curve (minus k (times c x)) (basemul curve (invert x)) c base
        ≡ basemul curve (times (invert x) k)
  second_point k c x nonzero = rw (
    vmul2,
    basemul,
    sym (scale-times (minus k (times c x)) (invert x) base),
    sym (scale-plus (times (minus k (times c x)) (invert x)) c base),
    second_scalar k c x nonzero,
  )

  is_valid_of :
      (pk : PublicKey curve) (input : Bytes) (v : Value) (proof : VrfProof) (p : Point)
      (r c : Scalar)
      → unpack_point v ≡ some p
      → unpack_scalar proof.low ≡ some r
      → unpack_scalar proof.high ≡ some c
      → challenge curve pk v
          (vmul2 curve (plus r (times c (offset curve pk input))) base c pk.point)
          (vmul2 curve r p c base)
        ≡ c
      → is_valid curve pk input v proof ≡ true
  unfolding is_valid
  is_valid_of pk input v proof p r c point low high same =
      rw (is_valid, point, low, high, same) (ct_eq_refl c)

  -- For every secret key and input whose sum in the exponent is not zero, the value and the proof that
  -- are computed with the key are valid for its public key, and the value is the one that is computed
  -- without a proof.
  pub compute_with_proof-is_valid :
      (sk : Scalar) (input : Bytes)
      → ct_eq (plus sk (offset curve (from_scalar curve sk).public input)) zero ≡ false
      → let key = from_scalar curve sk in
        let (value, proof) = compute_with_proof curve key input in
        (is_valid curve key.public input value proof ≡ true) × (value ≡ compute curve key input)
  unfolding is_valid compute compute_with_proof
  compute_with_proof-is_valid sk input nonzero =
      let key = from_scalar curve sk in
      let off = offset curve key.public input in
      let x = plus sk off in
      let k = hash_512 (as_bytes (pack_scalar x)) in
      let v = pack_point (basemul curve (invert x)) in
      let c = challenge curve key.public v (basemul curve k) (basemul curve (times (invert x) k)) in
      let r = minus k (times c x) in
      let plain : safe_invert curve x ≡ invert x = (rw (safe_invert, nonzero) refl) in
      let valid : (let (value, proof) = prove_with curve key x (invert x) in
          is_valid curve key.public input value proof ≡ true) =
        (is_valid_of key.public input v (record { low = pack_scalar r; high = pack_scalar c })
          (basemul curve (invert x)) r c (unpack_point-pack_point (basemul curve (invert x)))
          (unpack_scalar-pack_scalar r) (unpack_scalar-pack_scalar c)
          (λ i.
            challenge curve key.public v (first_point k c sk off i)
              (second_point k c x nonzero i))) in
      (
        subst
            (λ (inv : Scalar).
              let (value, proof) = prove_with curve key x inv in
              is_valid curve key.public input value proof ≡ true)
            (sym plain) valid,
        refl,
      )
