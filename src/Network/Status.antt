-- ===== src/Network/Status.antt =====
-- `PeerSyncInfo` and `status_message` of network/src/handler_processor.rs: what a node says of its
-- chain when it meets a peer.
use ori.Base.{ℕ, Option, some, ◌>>=◌}
use ori.Types.Hash.{Hash}
use ori.External.{External}
use ori.BlockHash.{block_hash}
use ori.Chain.{BlockChain, current_block}
use ori.Network.Message.{StatusMessage}

pub record PeerSyncInfo : Type 0 where
  pub genesis_hash : Hash
  pub finalized_root : Hash
  pub finalized_number : ℕ
  pub head_root : Hash
  pub network_id : ℕ

-- `From<StatusMessage>`
abbrev pub from_status : StatusMessage → PeerSyncInfo
from_status m = record {
  genesis_hash = m.genesis_hash;
  finalized_root = m.finalized_root;
  finalized_number = m.finalized_number;
  head_root = m.head_root;
  network_id = m.network_id;
}

module _ (ext : External) where
  -- `none` is the panic of a chain without a head.
  abbrev pub status_message : BlockChain ext → Option StatusMessage
  status_message c = do
    b ← current_block ext c
    some (record {
      genesis_hash = block_hash ext c.genesis;
      finalized_root = block_hash ext b;
      finalized_number = b.header.height;
      head_root = block_hash ext b;
      network_id = 31133;
    })

  abbrev pub from_chain : BlockChain ext → Option PeerSyncInfo
  from_chain c = do m ← status_message c; some (from_status m)
