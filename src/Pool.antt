-- ===== src/Pool.antt =====
-- `TxPoolManager` of pool/src/tx_pool.rs: the transactions that wait for a block. The hash maps are
-- dictionaries; the binary heap, whose order is reversed, is a list that is searched for its
-- cheapest entry, the first of several. The chain behind the lock is an argument.
pub mod Limit
pub mod Reset
use ori.Base.{
  ℕ, ◌+◌, ◌%◌, Bool, Option, none, some, true, false, List, [], ◌∷◌, ltb, leb, not, is_some, ◌==◌,
  if◌then◌else◌, ◌>>=◌, length,
}
use ori.Base.Dict.{Dict, lookup, insert, erase}
use ori.Types.Hash.{Hash, Address}
use ori.Types.Message.{Transaction}
use ori.Types.Block.{Block}
use ori.External.{External, Codec}
use ori.State.{from_existing}
use ori.Signing.{tx_hash}
use ori.Balance.{u64, load_account}
use ori.Chain.{BlockChain, current_block}

pub record PriorityRef : Type 0 where
  pub tx_hash : Hash
  pub price : ℕ

pub record TxPool : Type 0 where
  pub pending : Dict Transaction
  pub pool : Dict Transaction
  pub ordered_queue : List PriorityRef
  pub block_limit : ℕ
  pub queue_limit : ℕ

-- `TxPoolManager::new`, with `MAX_BLOCK_TX` and `MAX_QUEUE_TX`
abbrev pub new_pool : TxPool
new_pool = record {
  pending = [];
  pool = [];
  ordered_queue = [];
  block_limit = 500;
  queue_limit = 2048;
}

-- The reasons of `validate_tx`.
pub data TxError : Type 0 where
  not_sufficient_funds : TxError
  invalid_nonce : TxError

-- `BinaryHeap::pop` with the order of `PriorityRef`, from an entry on.
abbrev pub pick :
    PriorityRef → List PriorityRef → PriorityRef × List PriorityRef → PriorityRef × List PriorityRef
pick r qs (least, others) = if leb r.price least.price then (r, qs) else (least, r ∷ others)

abbrev pub pop_from : PriorityRef → List PriorityRef → PriorityRef × List PriorityRef
pop_from r [] = (r, [])
pop_from r (q ∷ qs) = pick r (q ∷ qs) (pop_from q qs)

abbrev pub pop : List PriorityRef → Option (PriorityRef × List PriorityRef)
pop [] = none
pop (q ∷ qs) = some (pop_from q qs)

-- The number of `all_transactions`.
abbrev pub size : TxPool → ℕ
size p = length p.pending + length p.pool

-- The end of `pop_back`, with the entry that the heap gave and the rest of the heap.
abbrev pub drop_entry : TxPool → PriorityRef → List PriorityRef → Option (TxPool × Option Hash)
drop_entry p last queue =
    if is_some (lookup (last.tx_hash) p.pool)
    then some (
      record p { ordered_queue = queue; pool = erase (last.tx_hash) p.pool },
      some (last.tx_hash),
    )
    else if is_some (lookup (last.tx_hash) p.pending)
    then some (
      record p { ordered_queue = queue; pending = erase (last.tx_hash) p.pending },
      some (last.tx_hash),
    )
    else none

abbrev pub drop_popped :
    TxPool → Option (PriorityRef × List PriorityRef) → Option (TxPool × Option Hash)
drop_popped p none = some (p, none)
drop_popped p (some (last, queue)) = drop_entry p last queue

-- `pop_back`; `none` is the panic on an entry whose transaction is in neither map.
pub pop_back : TxPool → Option (TxPool × Option Hash)
pop_back p = drop_popped p (pop p.ordered_queue)

pub remove_tx : Hash → TxPool → TxPool
remove_tx hash p =
    if is_some (lookup hash p.pending)
    then record p { pending = erase hash p.pending }
    else record p { pool = erase hash p.pool }

-- What `insert_tx` does first to a pool that is full.
make_room : TxPool → Option TxPool
make_room p = do
  (p₁, removed) ← pop_back p
  elim removed [ none ↦ some p₁ | some hash ↦ some (remove_tx hash p₁) ]

-- What `insert_tx` does in the end.
enqueue : Hash → Transaction → TxPool → TxPool
enqueue hash tx p =
    let queue = record { tx_hash = hash; price = tx.gas_price } ∷ p.ordered_queue in
    if ltb p.block_limit (length p.pending)
    then record p { pool = insert hash tx p.pool; ordered_queue = queue }
    else record p { pending = insert hash tx p.pending; ordered_queue = queue }

module _ (ext : External) (c : BlockChain ext) where
  -- `validate_tx` on the state of the head; the outer `none` is a panic.
  pub validate_tx : Transaction → Option (Option TxError)
  validate_tx tx = do
    current ← current_block ext c
    account ←
        load_account ext (from_existing ext.trie c.state_backend current.header.state_root)
          tx.sender
    msg ← ext.codecs.transfer.deserialize tx.payload
    (if ltb account.balance msg.value
        then some (some not_sufficient_funds)
        else if not ((account.nonce + 1) % u64 == tx.nonce)
        then some (some invalid_nonce)
        else some none)

  -- `add_tx`, with whether the transaction was taken
  pub add_tx : Transaction → TxPool → Option (TxPool × Bool)
  add_tx tx p = do
    verdict ← validate_tx tx
    elim verdict [
      | some e ↦ some (p, false)
      | none ↦ some (record p { pending = insert (tx_hash ext tx) tx p.pending }, true)
    ]

  pub insert_tx : Transaction → TxPool → Option TxPool
  unfolding make_room enqueue
  insert_tx tx p = do
    verdict ← validate_tx tx
    elim verdict [
      | some e ↦ some p
      | none ↦ do
        p₁ ← if ltb (p.block_limit + p.queue_limit) (size p) then make_room p else some p
        some (enqueue (tx_hash ext tx) tx p₁)
    ]

  -- The closure of `reset_pool` on each pending transaction.
  retain : Hash → Dict Transaction → Option (Dict Transaction)
  retain root [] = some []
  retain root ((hash, tx) ∷ rest) = do
    account ← load_account ext (from_existing ext.trie c.state_backend root) tx.sender
    kept ← retain root rest
    some (if ltb account.nonce tx.nonce then (hash, tx) ∷ kept else kept)

  unfoldable pub reset_pool : Block → TxPool → Option TxPool
  unfolding retain
  reset_pool b p = do
    kept ← retain b.header.state_root p.pending
    some (record p { pending = kept })

  pub get_nonce : Address → Option ℕ
  get_nonce addr = do
    current ← current_block ext c
    account ←
        load_account ext (from_existing ext.trie c.state_backend current.header.state_root) addr
    some account.nonce
