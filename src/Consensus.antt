-- ===== src/Consensus.antt =====
-- `POA` of consensus/src/poa.rs. Keys are arrays of 32 bytes, and the second half of a proof of kind 0
-- is unused. `none` in the place of a block or a key is an error of the signature library.
use ori.Base.{
  ◌≡◌, refl, Bool, Option, none, some, false, List, [], ◌∷◌, ◌++◌, arith, not, ◌==◌, if◌then◌else◌,
  ◌>>=◌,
}
use ori.Types.Hash.{Hash}
use ori.Types.Message.{SignatureInfo}
use ori.Types.Block.{VerificationItem, BlockProof, Block}
use ori.External.{External}
use ori.BlockHash.{block_hash, get_hash_from_signs}

-- `POA`, with the private key of the validator
pub record Poa : Type 0 where
  pub validator : Hash

-- The outcome of a verification: the errors of `ConsensusErrorKind` that it raises, and the error of
-- the signature library.
pub data Verdict : Type 0 where
  accepted : Verdict
  none_sign : Verdict
  another_pk : Verdict
  invalid_proof : Verdict
  bad_signature : Verdict

-- The first element, as `Vec::get(0)` gives it.
abbrev pub head_of {ℓ} : {A : Type ℓ} → List A → Option A
head_of [] = none
head_of (x ∷ xs) = some x

module _ (ext : External) where
  -- `is_poa_sign`, over `get_local_pk`
  unfoldable pub is_poa_sign : Poa → Hash → Bool
  is_poa_sign poa pk = elim (ext.to_pubkey poa.validator) [ none ↦ false | some own ↦ own == pk ]

  unfoldable pub add_signs_to_block : Hash → SignatureInfo → Block → Block
  add_signs_to_block h signs b =
      let items = b.signs ++ record { msg = h; signs = signs } ∷ [] in
      record b {
        header = record (b.header) { sign_root = get_hash_from_signs ext items };
        signs = items;
      }

  -- `finalize_block`, whose call of `sign_block` is at the kind 0 and with a key
  unfoldable pub finalize_block : Poa → Block → Hash → Option Block
  unfolding add_signs_to_block
  finalize_block poa b h = do
    let b₁ = record b { header = record (b.header) { state_root = h } }
    signs ← ext.sign poa.validator (block_hash ext b₁)
    some (add_signs_to_block (block_hash ext b₁) signs b₁)

  unfoldable pub poa_verify : Poa → BlockProof → VerificationItem → Verdict
  unfolding is_poa_sign
  poa_verify poa proof info =
      if not (proof.kind == 0)
      then accepted
      else if not (is_poa_sign poa proof.low)
      then another_pk
      else if ext.verify proof.low info.msg info.signs
      then accepted
      else bad_signature

  -- What `verify` does with a proof.
  abbrev pub verify_with : Poa → Block → BlockProof → Verdict
  verify_with poa b proof = elim (head_of b.signs) [
    | none ↦ none_sign
    | some info ↦ poa_verify poa proof info
  ]

  unfoldable pub verify : Poa → Block → Verdict
  unfolding poa_verify
  verify poa b = elim (head_of b.proofs) [
    | some proof ↦ verify_with poa b proof
    | none ↦ elim (ext.to_pubkey poa.validator) [
      | none ↦ invalid_proof
      | some pk ↦ verify_with poa b (record { low = pk; high = 0; kind = 0 })
    ]
  ]

  -- A block without signatures and proofs that the validator finalizes, with a key that has a public
  -- key and signs, carries the given state root and one signature, that of the block's hash
  -- with this root, under the matching root of signatures, and the validator accepts it.
  pub finalize_block-verify :
      (poa : Poa) (b : Block) (h public : Hash) (info : SignatureInfo)
      → b.signs ≡ []
      → b.proofs ≡ []
      → ext.to_pubkey poa.validator ≡ some public
      → ext.sign poa.validator
          (block_hash ext (record b { header = record (b.header) { state_root = h } }))
        ≡ some info
      → (b' : Block) × (finalize_block poa b h ≡ some b')
        × (b'.header.state_root ≡ h)
        × (b'.signs
            ≡ record {
              msg = block_hash ext (record b { header = record (b.header) { state_root = h } });
              signs = info;
            }
              ∷ [])
        × (b'.header.sign_root ≡ get_hash_from_signs ext b'.signs)
        × (verify poa b' ≡ accepted)
  unfolding finalize_block add_signs_to_block verify poa_verify is_poa_sign
  finalize_block-verify poa b h public info unsigned unproved key signed =
      let b₁ : Block = record b { header = record (b.header) { state_root = h } } in
      (
        add_signs_to_block (block_hash ext b₁) info b₁,
        rw (finalize_block, signed) refl,
        refl,
        rw unsigned refl,
        refl,
        ground (
          arith,
          unsigned,
          unproved,
          key,
          ext.verify-sign poa.validator public (block_hash ext b₁) info key signed,
        ),
      )
