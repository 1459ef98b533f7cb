-- ===== src/Pool/Reset.antt =====
-- `TxPoolManager::reset_pool` of pool/src/tx_pool.rs.
use ori.Base.{
  ◌<◌, ◌≡◌, Option, none, some, [], ◌∷◌, arith, ltb, if◌then◌else◌, ◌>>=◌, Bool-cases, inl, inr,
  Option-cases,
}
use ori.Base.Dict.{Dict}
use ori.Types.Hash.{Hash}
use ori.Types.Ledger.{Account}
use ori.Types.Message.{Transaction}
use ori.Types.Block.{Block}
use ori.External.{External}
use ori.State.{from_existing}
use ori.Balance.{load_account}
use ori.Chain.{BlockChain}
use ori.Pool.{TxPool, retain, reset_pool}

module _ (ext : External) (c : BlockChain ext) (root : Hash) where
  -- Every transaction comes after the nonce of its sender in the state of the root.
  abbrev pub AllAhead : Dict Transaction → Type 0
  AllAhead [] = Unit
  AllAhead ((hash, tx) ∷ rest) =
      ((account : Account) × (load_account ext (from_existing ext.trie c.state_backend root)
            tx.sender
          ≡ some account)
        × (account.nonce < tx.nonce))
      × AllAhead rest

  -- A result, if there is one, is all ahead.
  abbrev KeepsAhead : Option (Dict Transaction) → Type 0
  KeepsAhead none = Unit
  KeepsAhead (some d) = AllAhead d

  retain-AllAhead : (d : Dict Transaction) → KeepsAhead (retain ext c root d)
  unfolding retain
  retain-AllAhead [] = tt
  retain-AllAhead ((hash, tx) ∷ rest) =
      elim (Option-cases
        (load_account ext (from_existing ext.trie c.state_backend root) tx.sender)) [
          | inl e ↦ rw (retain, e, KeepsAhead) tt
          | inr (account, e) ↦
              rw (retain, e) (go account e (retain ext c root rest) (retain-AllAhead rest))
        ]
    where
      go :
          (account : Account)
          → load_account ext (from_existing ext.trie c.state_backend root) tx.sender ≡ some account
          → (r : Option (Dict Transaction)) → KeepsAhead r
          → KeepsAhead
              (r >>= λ kept. some (if ltb account.nonce tx.nonce then (hash, tx) ∷ kept else kept))
      go account e none h = tt
      go account e (some kept) h = elim (Bool-cases (ltb account.nonce tx.nonce)) [
        | inl ahead ↦ rw (ahead, KeepsAhead, AllAhead) ((account, e, ground arith), h)
        | inr behind ↦ rw (behind, KeepsAhead) h
      ]

-- What `reset_pool` leaves, if it does not panic: every pending transaction has a nonce beyond the one
-- that its sender has in the state of the block.
abbrev pub Resets : (ext : External) → BlockChain ext → Block → Option TxPool → Type 0
Resets ext c b none = Unit
Resets ext c b (some p) = AllAhead ext c b.header.state_root p.pending

-- If `reset_pool` does not panic, every pending transaction that it leaves has a nonce beyond the one
-- that its sender has in the state of the block.
pub reset_pool-Resets :
    (ext : External) (c : BlockChain ext) (b : Block) (p : TxPool)
    → Resets ext c b (reset_pool ext c b p)
unfolding reset_pool
reset_pool-Resets ext c b p =
    go (retain ext c b.header.state_root p.pending)
      (retain-AllAhead ext c b.header.state_root p.pending)
  where
    go :
        (r : Option (Dict Transaction))
        → KeepsAhead ext c b.header.state_root r
        → Resets ext c b (r >>= λ kept. some (record p { pending = kept }))
    go none h = tt
    go (some kept) h = h
