-- ===== src/Examples/Signatures.antt =====
-- A block that the validator finalizes.
use ori.Base.{◌≡◌, refl, some, [], ◌∷◌}
use ori.Types.Block.{Block, default_header, default_block}
use ori.BlockHash.{block_hash, get_hash_from_signs}
use ori.Consensus.{Poa, accepted, finalize_block, verify, finalize_block-verify}
use ori.Examples.Sample.{sample, stamp}

abbrev authority : Poa
authority = record { validator = 9 }

finalize_block-verify_example :
    (b' : Block) × (finalize_block sample authority default_block 6 ≡ some b')
    × (b'.header.state_root ≡ 6)
    × (b'.signs
        ≡ record {
          msg =
              block_hash sample
                (record default_block { header = record default_header { state_root = 6 } });
          signs = stamp 9 (
              block_hash sample
                (record default_block { header = record default_header { state_root = 6 } }));
        }
          ∷ [])
    × (b'.header.sign_root ≡ get_hash_from_signs sample b'.signs)
    × (verify sample authority b' ≡ accepted)
finalize_block-verify_example =
    finalize_block-verify sample authority default_block 6 9
      (stamp 9 (
        block_hash sample
          (record default_block { header = record default_header { state_root = 6 } })))
      refl refl refl refl
