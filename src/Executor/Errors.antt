-- ===== src/Executor/Errors.antt =====
-- When a transaction is accepted, what it does then, and what a refusal leaves.
use ori.Base.{
  ℕ, ◌+◌, ◌-◌, ◌%◌, ◌≤◌, ◌<◌, ◌≡◌, ◌≢◌, refl, subst, some, true, false, [], ◌∷◌, arith, ◌==◌, ltb,
  not, if◌then◌else◌, Bool-cases, Option-cases, inl, inr,
}
use ori.Types.Hash.{Hash, Address}
use ori.Types.Block.{Block}
use ori.Types.Ledger.{Account}
use ori.Types.Message.{MsgTransfer, Transaction}
use ori.External.{External}
use ori.State.{StateDb}
use ori.Signing.{verify_sign}
use ori.Balance.{
  u64, u128, add128, sub128, address_key, load_account, add_balance, commit_balance, sub_balance,
  inc_nonce, transfer,
}
use ori.Balance.Moves.{sub_balance-Updates, inc_nonce-Updates, transfer_moves}
use ori.Executor.{
  Exec, ok, err, panic, ExecError, invalid_signature, invalid_tx_nonce, balance_not_enough,
  transfer_fee, charge, exc_transfer_tx, exc_txs, exc_txs_in_block,
}

abbrev Leaves : (ext : External) → StateDb ext.trie → Exec ext (Unit {0}) → Type 0
Leaves ext s (ok _ s') = Unit
Leaves ext s (err _ s') = s' ≡ s
Leaves ext s panic = Unit

module _ (ext : External) (tx : Transaction) (s : StateDb ext.trie) where
  charge-Leaves : (a b : Address) (v : ℕ) → Leaves ext s (charge ext a b v s)
  unfolding charge
  charge-Leaves a b v = ground arith

  pub charge_runs :
      (a b : Address) (v : ℕ) {s₁ s₂ s₃ : StateDb ext.trie}
      → sub_balance ext a transfer_fee s ≡ some s₁
      → inc_nonce ext a s₁ ≡ some s₂
      → transfer ext a b v s₂ ≡ some s₃
      → charge ext a b v s ≡ ok tt s₃
  unfolding charge
  charge_runs a b v e₁ e₂ e₃ = rw (e₁, e₂, e₃)

  -- The checks in one equation.
  pub checked :
      (msg : MsgTransfer) (from : Account)
      → ext.codecs.transfer.deserialize tx.payload ≡ some msg
      → verify_sign ext tx ≡ true
      → load_account ext s tx.sender ≡ some from
      → exc_transfer_tx ext tx s ≡ (
          if not (tx.nonce == (from.nonce + 1) % u64)
          then err invalid_tx_nonce s
          else if ltb from.balance (add128 msg.value transfer_fee)
          then err balance_not_enough s
          else charge ext tx.sender msg.receiver msg.value s)
  unfolding exc_transfer_tx
  checked msg from decodes signed e = rw (exc_transfer_tx, decodes, signed, e)

  -- A block of one transaction
  pub exc_txs_in_block_one :
      (b : Block) (miner : Address) {s₁ s₂ s₃ : StateDb ext.trie} {root : Hash}
      → b.txs ≡ tx ∷ []
      → exc_transfer_tx ext tx s ≡ ok tt s₁
      → add_balance ext miner transfer_fee s₁ ≡ some s₂
      → commit_balance ext s₂ ≡ some (s₃, root)
      → exc_txs_in_block ext b miner s ≡ ok root s₃
  unfolding exc_txs_in_block exc_txs
  exc_txs_in_block_one b miner e e₁ e₂ e₃ = ground (arith, e, e₁, e₂, e₃)

  exc_transfer_tx_keeps : Leaves ext s (exc_transfer_tx ext tx s)
  unfolding exc_transfer_tx
  exc_transfer_tx_keeps = elim (Option-cases (ext.codecs.transfer.deserialize tx.payload)) [
    | inl e ↦ rw (e, Leaves) tt
    | inr (msg, e) ↦ elim (Bool-cases (verify_sign ext tx)) [
      | inr bad ↦ rw (e, bad, Leaves) refl
      | inl good ↦ elim (Option-cases (load_account ext s tx.sender)) [
        | inl none' ↦ rw (e, good, none', Leaves) tt
        | inr (from, found) ↦
            rw (checked msg from e good found)
              (ground (arith, charge-Leaves tx.sender msg.receiver msg.value))
      ]
    ]
  ]

  -- A transaction that is refused with an error, whichever it is, leaves the state as it was.
  pub exc_transfer_tx-Leaves :
      (e : ExecError) (s' : StateDb ext.trie) → exc_transfer_tx ext tx s ≡ err e s' → s' ≡ s
  exc_transfer_tx-Leaves e s' run = subst (Leaves ext s) run exc_transfer_tx_keeps

  -- The three refusals of a message that decodes, with the state left alone: a signature that does
  -- not check; else a nonce that is not the sender's next one; else a sender that does not hold value
  -- and fee, as long as their sum is below 2 ^ 128.
  pub exc_transfer_tx_refuses :
      (msg : MsgTransfer) (from : Account)
      → ext.codecs.transfer.deserialize tx.payload ≡ some msg
      → load_account ext s tx.sender ≡ some from
      → (verify_sign ext tx ≡ false → exc_transfer_tx ext tx s ≡ err invalid_signature s)
        × (verify_sign ext tx ≡ true
            → tx.nonce ≢ (from.nonce + 1) % u64
            → exc_transfer_tx ext tx s ≡ err invalid_tx_nonce s)
        × (verify_sign ext tx ≡ true
            → tx.nonce ≡ (from.nonce + 1) % u64
            → msg.value + transfer_fee < u128
            → from.balance < msg.value + transfer_fee
            → exc_transfer_tx ext tx s ≡ err balance_not_enough s)
  unfolding exc_transfer_tx
  exc_transfer_tx_refuses msg from decodes e = (
    λ bad. rw (exc_transfer_tx, decodes, bad),
    λ good n. ground (arith, checked msg from decodes good e),
    λ good n room short. ground (arith, checked msg from decodes good e),
  )

  -- A transaction that decodes and whose signature checks, between two accounts that decode and
  -- have different storage keys, is accepted if its nonce is the sender's plus one, below 2 ^
  -- 64, if the sender's balance, below 2 ^ 128, covers value and fee, and if the receiver has
  -- room for the value below 2 ^ 128. Every address then reads the account that its key had
  -- before, the sender's with value and fee off its balance and the new nonce, the receiver's
  -- with the value added.
  pub exc_transfer_tx_accepts :
      (msg : MsgTransfer) (from to : Account)
      → ext.codecs.transfer.deserialize tx.payload ≡ some msg
      → verify_sign ext tx ≡ true
      → load_account ext s tx.sender ≡ some from
      → load_account ext s msg.receiver ≡ some to
      → address_key ext tx.sender ≢ address_key ext msg.receiver
      → tx.nonce ≡ from.nonce + 1
      → tx.nonce < u64
      → from.balance < u128
      → msg.value + transfer_fee ≤ from.balance
      → to.balance + msg.value < u128
      → (s' : StateDb ext.trie) × (exc_transfer_tx ext tx s ≡ ok tt s')
        × ((c : Address)
            → load_account ext s' c ≡ (
                if address_key ext c == address_key ext msg.receiver
                then some (record to { balance = to.balance + msg.value })
                else if address_key ext c == address_key ext tx.sender
                then some (record from {
                  balance = from.balance - transfer_fee - msg.value;
                  nonce = tx.nonce;
                })
                else load_account ext s c))
  exc_transfer_tx_accepts msg from to decodes signed ea eb ne next small lt covers room =
      let paid = sub_balance-Updates ext s tx.sender transfer_fee from ea in
      let from₁ : Account = record from { balance = sub128 from.balance transfer_fee } in
      let counted = inc_nonce-Updates ext paid.state tx.sender from₁ paid.own in
      let from₂ : Account = record from₁ { nonce = (from.nonce + 1) % u64 } in
      let (s', moved, rest) =
        transfer_moves ext counted.state tx.sender msg.receiver msg.value from₂ to counted.own
          (ground (arith, counted.others msg.receiver, paid.others msg.receiver)) ne (ground arith)
          (ground arith) room in
      (
        s',
        ground (
          arith,
          checked msg from decodes signed ea,
          charge_runs tx.sender msg.receiver msg.value paid.returns counted.returns moved,
        ),
        λ c. ground (arith, rest c, counted.others c, paid.others c),
      )

-- Under the same conditions (a transfer that decodes and is signed, between two accounts that
-- decode and have different keys, with the next nonce below 2 ^ 64, funds for value and fee in
-- a balance below 2 ^ 128, and room at the receiver) the transaction is accepted once: executed
-- again on the state that it left, it is refused for its nonce and leaves that state.
pub exc_transfer_tx_replay :
    (ext : External) (tx : Transaction) (s : StateDb ext.trie) (msg : MsgTransfer)
    (from to : Account)
    → ext.codecs.transfer.deserialize tx.payload ≡ some msg
    → verify_sign ext tx ≡ true
    → load_account ext s tx.sender ≡ some from
    → load_account ext s msg.receiver ≡ some to
    → address_key ext tx.sender ≢ address_key ext msg.receiver
    → tx.nonce ≡ from.nonce + 1
    → tx.nonce < u64
    → from.balance < u128
    → msg.value + transfer_fee ≤ from.balance
    → to.balance + msg.value < u128
    → (s' : StateDb ext.trie) × (exc_transfer_tx ext tx s ≡ ok tt s')
      × (exc_transfer_tx ext tx s' ≡ err invalid_tx_nonce s')
exc_transfer_tx_replay ext tx s msg from to decodes signed ea eb ne next small lt covers room =
    let (s', done, rest) =
      exc_transfer_tx_accepts ext tx s msg from to decodes signed ea eb ne next small lt covers
        room in
    let from' : Account = record from {
      balance = from.balance - transfer_fee - msg.value;
      nonce = tx.nonce;
    } in
    (
      s',
      done,
      (exc_transfer_tx_refuses ext tx s' msg from' decodes (ground (arith, rest tx.sender))).1
          signed (omega arith),
    )
