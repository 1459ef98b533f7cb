-- ===== src/Signing.antt =====
-- The methods of `Transaction` in core/src/transaction.rs that hash and check signatures.
use ori.Base.{Bool}
use ori.Types.Hash.{Hash}
use ori.Types.Message.{Transaction, tx_hash_type}
use ori.External.{External}
use ori.Crypto.{blake2b_256}

-- `Transaction::hash`
unfoldable pub tx_hash : External → Transaction → Hash
tx_hash ext tx = blake2b_256 ext (ext.codecs.tx_hash.serialize (tx_hash_type tx))

-- `Transaction::verify_sign`: the key that checks the signature comes with the signature.
unfoldable pub verify_sign : External → Transaction → Bool
verify_sign ext tx = ext.verify tx.sign_data.p (tx_hash ext tx) tx.sign_data
