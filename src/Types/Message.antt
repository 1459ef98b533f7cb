-- ===== src/Types/Message.antt =====
-- `Transaction` with its messages (core/src/transaction.rs and core/src/staking.rs), and what is
-- hashed of it.
use ori.Base.{ℕ}
use ori.Types.Hash.{Bytes, Hash, Address}

-- `balance_msg::MsgTransfer`
pub record MsgTransfer : Type 0 where
  pub receiver : Address
  pub value : ℕ

pub record MsgValidatorCreate : Type 0 where
  pub pubkey : Bytes
  pub amount : ℕ

-- The three arrays of a signature: r, s and the public key of the signer.
pub record SignatureInfo : Type 0 where
  pub r : Hash
  pub s : Hash
  pub p : Hash

pub record Transaction : Type 0 where
  pub sender : Address
  pub nonce : ℕ
  pub gas_price : ℕ
  pub gas : ℕ
  pub call : Bytes
  pub payload : Bytes
  pub sign_data : SignatureInfo

-- `TxHashType`: what a transaction's hash covers. Neither the sender nor the signature is in it.
pub record TxHashType : Type 0 where
  pub chainid : ℕ
  pub nonce : ℕ
  pub gas_price : ℕ
  pub gas : ℕ
  pub call : Bytes
  pub payload : Bytes

abbrev pub chain_id : ℕ
chain_id = 1

-- `TxHashType::new`
unfoldable pub tx_hash_type : Transaction → TxHashType
tx_hash_type tx = record {
  chainid = chain_id;
  nonce = tx.nonce;
  gas_price = tx.gas_price;
  gas = tx.gas;
  call = tx.call;
  payload = tx.payload;
}
