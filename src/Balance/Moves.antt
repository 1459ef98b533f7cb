-- ===== src/Balance/Moves.antt =====
-- What the methods of `Balance` do to single accounts.
use ori.Base.{ℕ, ◌+◌, ◌-◌, ◌≤◌, ◌<◌, ◌≡◌, ◌≢◌, refl, ◌%◌, Option, some, arith, ◌==◌, if◌then◌else◌}
use ori.Types.Hash.{Hash, Address}
use ori.Types.Ledger.{Account}
use ori.External.{External}
use ori.State.{StateDb, get_storage}
use ori.Balance.{
  u128, add128, sub128, address_key, load_account, set_account, balance_of, add_balance,
  sub_balance, inc_nonce, u64, lock_balance, unlock_balance, transfer,
}
use ori.Balance.Funds.{load_account_of_key}
use ori.Balance.Accounts.{load_account-set_account, get_storage-set_account}

-- A call returned, one account now reads `acc`, and all others read as before.
pub record Updates (ext : External) (s : StateDb ext.trie) (a : Address) (acc : Account)
    (r : Option (StateDb ext.trie)) : Type 0 where
  pub state : StateDb ext.trie
  pub returns : r ≡ some state
  pub own : load_account ext state a ≡ some acc
  pub others :
      (c : Address)
      → address_key ext c ≢ address_key ext a
      → load_account ext state c ≡ load_account ext s c
  pub storage : (j : Hash) → j ≢ address_key ext a → get_storage state j ≡ get_storage s j

module _ (ext : External) (s : StateDb ext.trie) where
  updated : (a : Address) (acc : Account) → Updates ext s a acc (some (set_account ext a acc s))
  updated a acc = record {
    state = set_account ext a acc s;
    returns = refl;
    own = ground (arith, load_account-set_account ext s a a acc);
    others = λ c n. ground (arith, load_account-set_account ext s a c acc);
    storage = λ j n. get_storage-set_account ext s a acc j n;
  }

  pub sub_balance-Updates :
      (a : Address) (v : ℕ) (acc : Account)
      → load_account ext s a ≡ some acc
      → Updates ext s a (record acc { balance = sub128 acc.balance v }) (sub_balance ext a v s)
  unfolding sub_balance
  sub_balance-Updates a v acc e = rw e (updated a (record acc { balance = sub128 acc.balance v }))

  pub inc_nonce-Updates :
      (a : Address) (acc : Account)
      → load_account ext s a ≡ some acc
      → Updates ext s a (record acc { nonce = (acc.nonce + 1) % u64 }) (inc_nonce ext a s)
  unfolding inc_nonce
  inc_nonce-Updates a acc e = rw e (updated a (record acc { nonce = (acc.nonce + 1) % u64 }))

  pub lock_balance-Updates :
      (a : Address) (v : ℕ) (acc : Account)
      → load_account ext s a ≡ some acc
      → Updates ext s a
          (record acc {
            balance = sub128 acc.balance v;
            locked_balance = add128 acc.locked_balance v;
          })
          (lock_balance ext a v s)
  unfolding lock_balance
  lock_balance-Updates a v acc e = rw e (
      updated a (record acc {
        balance = sub128 acc.balance v;
        locked_balance = add128 acc.locked_balance v;
      }))

  -- Between two accounts that decode and have different storage keys, an amount that the sender
  -- holds, in a balance below 2 ^ 128, and that the receiver has room for moves: `transfer`
  -- returns, and every address then reads the account that its key had before, the sender's
  -- with the amount off its balance and the receiver's with the amount added.
  pub transfer_moves :
      (a b : Address) (amount : ℕ) (from to : Account)
      → load_account ext s a ≡ some from
      → load_account ext s b ≡ some to
      → address_key ext a ≢ address_key ext b
      → from.balance < u128
      → amount ≤ from.balance
      → to.balance + amount < u128
      → (s' : StateDb ext.trie) × (transfer ext a b amount s ≡ some s')
        × ((c : Address)
            → load_account ext s' c ≡ (
                if address_key ext c == address_key ext b
                then some (record to { balance = to.balance + amount })
                else if address_key ext c == address_key ext a
                then some (record from { balance = from.balance - amount })
                else load_account ext s c))
  unfolding transfer balance_of sub_balance add_balance
  transfer_moves a b amount from to ea eb ne lt le room =
      let paid : Account = record from { balance = sub128 from.balance amount } in
      let got : Account = record to { balance = add128 to.balance amount } in
      let s₁ = set_account ext a paid s in
      let at₁ = λ (c : Address). load_account-set_account ext s a c paid in
      let at₂ = λ (c : Address). load_account-set_account ext s₁ b c got in
      (set_account ext b got s₁, ground (arith, ea, eb, at₁ b), λ c. ground (arith, at₁ c, at₂ c))

  -- A transfer of more than the sender holds returns and changes nothing.
  pub transfer_short :
      (a b : Address) (amount : ℕ) (from : Account)
      → load_account ext s a ≡ some from
      → from.balance < amount
      → transfer ext a b amount s ≡ some s
  unfolding transfer balance_of
  transfer_short a b amount from e lt = ground arith

  -- For an account that decodes, with a balance below 2 ^ 128: locking an amount that it holds
  -- and that its reserve has room for returns and moves it from the balance to the reserve,
  -- with every account under another key as before; unlocking the same amount then returns too,
  -- and every account reads as at the start.
  pub lock_balance-unlock_balance :
      (a : Address) (value : ℕ) (acc : Account)
      → load_account ext s a ≡ some acc
      → acc.balance < u128
      → value ≤ acc.balance
      → acc.locked_balance + value < u128
      → (s₁ : StateDb ext.trie) × (s₂ : StateDb ext.trie) × (lock_balance ext a value s ≡ some s₁)
        × (unlock_balance ext a value s₁ ≡ some s₂)
        × ((c : Address)
            → load_account ext s₁ c ≡ (
                if address_key ext c == address_key ext a
                then some (record acc {
                  balance = acc.balance - value;
                  locked_balance = acc.locked_balance + value;
                })
                else load_account ext s c))
        × ((c : Address) → load_account ext s₂ c ≡ load_account ext s c)
  unfolding lock_balance unlock_balance
  lock_balance-unlock_balance a value acc e lt le room =
      let held : Account = record acc {
        balance = sub128 acc.balance value;
        locked_balance = add128 acc.locked_balance value;
      } in
      let s₁ = set_account ext a held s in
      let freed : Account = record held {
        balance = add128 held.balance value;
        locked_balance = sub128 held.locked_balance value;
      } in
      let at₁ = λ (c : Address). load_account-set_account ext s a c held in
      let at₂ = λ (c : Address). load_account-set_account ext s₁ a c freed in
      (
        s₁,
        set_account ext a freed s₁,
        ground (arith, e),
        ground (arith, at₁ a),
        λ c. ground (arith, at₁ c),
        λ c. ground (arith, at₁ c, at₂ c, load_account_of_key ext s c a),
      )

  -- Locking a value below 2 ^ 128 that is more than a decoding account holds is not refused:
  -- `lock_balance` returns, and the balance wraps round 2 ^ 128 and comes out larger than it
  -- was.
  pub lock_balance_overdraft :
      (a : Address) (value : ℕ) (acc : Account)
      → load_account ext s a ≡ some acc
      → acc.balance < value
      → value < u128
      → (s' : StateDb ext.trie) × (acc' : Account) × (lock_balance ext a value s ≡ some s')
        × (load_account ext s' a ≡ some acc')
        × (acc'.balance ≡ acc.balance + (u128 - value))
        × (acc.balance < acc'.balance)
  unfolding lock_balance
  lock_balance_overdraft a value acc e short lt =
      let held : Account = record acc {
        balance = sub128 acc.balance value;
        locked_balance = add128 acc.locked_balance value;
      } in
      let s₁ = set_account ext a held s in
      let at₁ = load_account-set_account ext s a a held in
      (s₁, held, ground (arith, e), ground (arith, at₁), ground arith, ground arith)
