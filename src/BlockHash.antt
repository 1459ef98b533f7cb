-- ===== src/BlockHash.antt =====
-- The hashes of core/src/block.rs and the constructor that fills them in.
use ori.Base.{List}
use ori.Types.Hash.{Hash}
use ori.Types.Message.{Transaction}
use ori.Types.Block.{Header, VerificationItem, BlockProof, Block}
use ori.External.{External}
use ori.Crypto.{blake2b_256}

module _ (ext : External) where
  -- `Header::hash`
  unfoldable pub header_hash : Header → Hash
  header_hash h = blake2b_256 ext (ext.codecs.header.serialize h)

  -- `Block::hash`
  abbrev pub block_hash : Block → Hash
  block_hash b = header_hash b.header

  unfoldable pub get_hash_from_txs : List Transaction → Hash
  get_hash_from_txs txs = blake2b_256 ext (ext.codecs.txs.serialize txs)

  unfoldable pub get_hash_from_signs : List VerificationItem → Hash
  get_hash_from_signs signs = blake2b_256 ext (ext.codecs.signs.serialize signs)

  -- `Block::new`
  unfoldable pub new_block :
      Header → List Transaction → List VerificationItem → List BlockProof → Block
  new_block header txs signs proofs = record {
    header = record header {
      tx_root = get_hash_from_txs txs;
      sign_root = get_hash_from_signs signs;
    };
    signs = signs;
    txs = txs;
    proofs = proofs;
  }
