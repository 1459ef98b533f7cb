-- ===== src/Executor/Unsigned.antt =====
-- A transaction whose signature does not check, in a block of executor/src/lib.rs.
use ori.Base.{
  ◌≡◌, ◌&&◌, Bool, true, false, List, [], ◌∷◌, arith, Bool-cases, Option-cases, inl, inr,
}
use ori.Types.Hash.{Address}
use ori.Types.Message.{Transaction}
use ori.Types.Block.{Block}
use ori.External.{External}
use ori.State.{StateDb}
use ori.Signing.{verify_sign}
use ori.Balance.{add_balance}
use ori.Executor.{
  Exec, ok, err, panic, ◌>>=◌, lift, transfer_fee, exc_transfer_tx, exc_txs, exc_txs_in_block,
}

abbrev pub all_signed : External → List Transaction → Bool
all_signed ext [] = true
all_signed ext (tx ∷ txs) = verify_sign ext tx && all_signed ext txs

-- A run that does not succeed
abbrev pub Fails : {ext : External} {A : Type 0} → Exec ext A → Type 0
Fails (ok _ _) = ⊥
Fails (err _ _) = Unit
Fails panic = Unit

module _ (ext : External) where
  Fails->>= :
      {A B : Type 0} (r : Exec ext A) (k : A → StateDb ext.trie → Exec ext B)
      → Fails r
      → Fails (r >>= k)
  Fails->>= (ok _ _) k e = absurd e
  Fails->>= (err _ _) k e = tt
  Fails->>= panic k e = tt

  then-Fails :
      {A B : Type 0} (r : Exec ext A) (k : A → StateDb ext.trie → Exec ext B)
      → ((a : A) (s : StateDb ext.trie) → Fails (k a s))
      → Fails (r >>= k)
  then-Fails (ok a s) k f = f a s
  then-Fails (err _ _) k f = tt
  then-Fails panic k f = tt

  exc_transfer_tx-Fails :
      (tx : Transaction) (s : StateDb ext.trie)
      → verify_sign ext tx ≡ false
      → Fails (exc_transfer_tx ext tx s)
  unfolding exc_transfer_tx
  exc_transfer_tx-Fails tx s bad =
      elim (Option-cases (ext.codecs.transfer.deserialize tx.payload)) [
        | inl e ↦ rw (e, Fails) tt
        | inr (msg, e) ↦ rw (e, bad, Fails) tt
      ]

  exc_txs-Fails :
      (miner : Address) (txs : List Transaction) (s : StateDb ext.trie)
      → all_signed ext txs ≡ false
      → Fails (exc_txs ext miner txs s)
  unfolding exc_txs
  exc_txs-Fails miner [] s bad = cc
  exc_txs-Fails miner (tx ∷ txs) s bad = elim (Bool-cases (verify_sign ext tx)) [
    | inr e ↦ Fails->>= (exc_transfer_tx ext tx s) _ (exc_transfer_tx-Fails tx s e)
    | inl e ↦ then-Fails (exc_transfer_tx ext tx s) _ (λ _ s₁.
        then-Fails (lift (add_balance ext miner transfer_fee s₁)) _
          (λ _ s₂. exc_txs-Fails miner txs s₂ (ground (arith, e, bad))))
  ]

  -- A block with a transaction whose signature does not check does not execute, wherever in the block
  -- it stands and whatever the others do.
  pub exc_txs_in_block-Fails :
      (b : Block) (miner : Address) (s : StateDb ext.trie)
      → all_signed ext b.txs ≡ false
      → Fails (exc_txs_in_block ext b miner s)
  unfolding exc_txs_in_block
  exc_txs_in_block-Fails b miner s bad =
      Fails->>= (exc_txs ext miner b.txs s) _ (exc_txs-Fails miner b.txs s bad)
