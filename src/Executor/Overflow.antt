-- ===== src/Executor/Overflow.antt =====
-- The sum of value and fee in `exc_transfer_tx` of executor/src/lib.rs.
use ori.Base.{◌+◌, ◌-◌, ◌%◌, ◌<◌, ◌≡◌, ◌≢◌, some, true, arith}
use ori.Types.Ledger.{Account}
use ori.Types.Message.{MsgTransfer, Transaction}
use ori.External.{External}
use ori.State.{StateDb}
use ori.Signing.{verify_sign}
use ori.Balance.{u64, u128, sub128, address_key, load_account}
use ori.Balance.Moves.{sub_balance-Updates, inc_nonce-Updates, transfer_moves}
use ori.Executor.{ok, transfer_fee, exc_transfer_tx}
use ori.Executor.Errors.{checked, charge_runs}

-- A transfer of 2 ^ 128 less the fee that decodes and is signed, with the sender's next nonce
-- below 2 ^ 64, from an account that holds less than the fee to an account with another storage
-- key that holds less than the fee, is accepted: the receiver is credited with the whole value,
-- and the sender's balance is what it was.
pub exc_transfer_tx_mints :
    (ext : External) (tx : Transaction) (s : StateDb ext.trie) (msg : MsgTransfer)
    (from to : Account)
    → ext.codecs.transfer.deserialize tx.payload ≡ some msg
    → verify_sign ext tx ≡ true
    → load_account ext s tx.sender ≡ some from
    → load_account ext s msg.receiver ≡ some to
    → address_key ext tx.sender ≢ address_key ext msg.receiver
    → tx.nonce ≡ from.nonce + 1
    → tx.nonce < u64
    → from.balance < transfer_fee
    → msg.value ≡ u128 - transfer_fee
    → to.balance < transfer_fee
    → (s' : StateDb ext.trie) × (exc_transfer_tx ext tx s ≡ ok tt s')
      × (load_account ext s' tx.sender ≡ some (record from { nonce = tx.nonce }))
      × (load_account ext s' msg.receiver
          ≡ some (record to { balance = to.balance + (u128 - transfer_fee) }))
exc_transfer_tx_mints ext tx s msg from to decodes signed ea eb ne next small poor huge room =
    let paid = sub_balance-Updates ext s tx.sender transfer_fee from ea in
    let from₁ : Account = record from { balance = sub128 from.balance transfer_fee } in
    let counted = inc_nonce-Updates ext paid.state tx.sender from₁ paid.own in
    let from₂ : Account = record from₁ { nonce = (from.nonce + 1) % u64 } in
    let (s', moved, rest) =
      transfer_moves ext counted.state tx.sender msg.receiver msg.value from₂ to counted.own
        (ground (arith, counted.others msg.receiver, paid.others msg.receiver)) ne (ground arith)
        (ground arith) (ground arith) in
    (
      s',
      ground (
        arith,
        checked ext tx s msg from decodes signed ea,
        charge_runs ext tx s tx.sender msg.receiver msg.value paid.returns counted.returns moved,
      ),
      ground (arith, rest tx.sender),
      ground (arith, rest msg.receiver),
    )
