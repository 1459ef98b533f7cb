-- ===== src/Types/Block.antt =====
-- `Header`, `VerificationItem`, `BlockProof` and `Block` of core/src/block.rs.
use ori.Base.{ℕ, List, []}
use ori.Types.Hash.{Hash}
use ori.Types.Message.{SignatureInfo, Transaction}

-- `VRFProof`: two arrays of 32 bytes.
pub record VrfProof : Type 0 where
  pub low : Hash
  pub high : Hash

pub record Header : Type 0 where
  pub height : ℕ
  pub parent_hash : Hash
  pub slot : ℕ
  pub vrf_output : Hash
  pub vrf_proof : VrfProof
  pub tx_root : Hash
  pub sign_root : Hash
  pub state_root : Hash
  pub time : ℕ

-- `Header::default`
abbrev pub default_header : Header
default_header = record {
  height = 0;
  parent_hash = 0;
  slot = 0;
  vrf_output = 0;
  vrf_proof = record { low = 0; high = 0 };
  tx_root = 0;
  sign_root = 0;
  state_root = 0;
  time = 0;
}

pub record VerificationItem : Type 0 where
  pub msg : Hash
  pub signs : SignatureInfo

-- The two halves of a key and the tag of its kind; kind 0 (ed25519) uses the first half only.
pub record BlockProof : Type 0 where
  pub low : Hash
  pub high : Hash
  pub kind : ℕ

pub record Block : Type 0 where
  pub header : Header
  pub signs : List VerificationItem
  pub txs : List Transaction
  pub proofs : List BlockProof

-- `Block::default`
abbrev pub default_block : Block
default_block = record { header = default_header; signs = []; txs = []; proofs = [] }
