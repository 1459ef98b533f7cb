-- ===== src/Staking/Activate.antt =====
-- `Staking::activate_deposit` of core/src/staking.rs and its loop.
use ori.Base.{ℕ, zero, suc, ◌≡◌, refl, sym, has, none, some, true, List, [], ◌∷◌, arith}
use ori.Types.Hash.{Hash, Address}
use ori.Types.Ledger.{Account, LockingBalance, Validator}
use ori.External.{External}
use ori.State.{StateDb}
use ori.Balance.{add128, load_account}
use ori.Staking.{out_of_fuel, key_index, map_key, activate_loop, activate_deposit, deposit}
use ori.Staking.Linked.{keys, find, IsList, KeysApart}
use ori.Staking.Replace.{replace, upsert}
use ori.Staking.Deposit.{get_find, deposited, deposit-IsList}

activate_loop_due :
    (fuel : ℕ) (d : LockingBalance) (queue : List LockingBalance) (effective : ℕ)
    → d.height ≡ 0
    → activate_loop fuel (d ∷ queue) 0 effective ≡ none
unfolding activate_loop
activate_loop_due zero d queue effective h = refl
activate_loop_due (suc fuel) d queue effective h =
    ground (arith, activate_loop_due fuel d queue (add128 effective d.amount) h)

module _ (ext : External) (apart : KeysApart ext) (s : StateDb ext.trie) (a : Address)
    (v : Validator) (vs : List Validator) (l : IsList ext s vs)
    (found : find ext (key_index ext a) vs ≡ some v) where
  -- For a validator whose first queued deposit is due, the loop goes on for ever: it runs out of
  -- every fuel.
  pub activate_deposit_hangs :
      (fuel : ℕ) (d : LockingBalance) (queue : List LockingBalance)
      → v.deposit_queue ≡ d ∷ queue
      → d.height ≡ 0
      → activate_deposit ext fuel a s ≡ out_of_fuel
  unfolding activate_deposit
  activate_deposit_hangs fuel d queue e h =
      rw (activate_deposit, get_find ext apart s a vs l found)
        (ground (arith, activate_loop_due fuel d queue v.effective_balance h))

module _ (ext : External) where
  map_key-find :
      (k : Hash) (v : Validator) (vs : List Validator) → find ext k vs ≡ some v → map_key ext v ≡ k
  map_key-find k v [] e = cc
  map_key-find k v (w ∷ ws) e = ground (arith, map_key-find k v ws)

  find-replace :
      (v : Validator) (vs : List Validator)
      → has (map_key ext v) (keys ext vs) ≡ true
      → find ext (map_key ext v) (replace ext v vs) ≡ some v
  find-replace v [] h = cc
  find-replace v (w ∷ ws) h = ground (arith, find-replace v ws)

  find-upsert :
      (v : Validator) (vs : List Validator) → find ext (map_key ext v) (upsert ext v vs) ≡ some v
  find-upsert v vs = ground (arith, find-replace v vs)

-- Where hashed storage keys do not collide: once a validator of the list, with an empty queue
-- and an account that decodes, has made a deposit, `activate_deposit` for it runs out of every
-- fuel.
pub deposit-activate_hangs :
    (ext : External) (apart : KeysApart ext) (s : StateDb ext.trie) (a : Address) (amount : ℕ)
    (acc : Account) (v : Validator) (vs : List Validator)
    → IsList ext s vs
    → load_account ext s a ≡ some acc
    → find ext (key_index ext a) vs ≡ some v
    → v.deposit_queue ≡ []
    → (s' : StateDb ext.trie) × (deposit ext a amount s ≡ some s')
      × ((fuel : ℕ) → activate_deposit ext fuel a s' ≡ out_of_fuel)
deposit-activate_hangs ext apart s a amount acc v vs l e found empty =
    let (s', run, l', own) = deposit-IsList ext apart s a amount acc v vs l e found in
    let v' = deposited amount v in
    let found' : find ext (key_index ext a) (upsert ext v' vs) ≡ some v' =
      rw (sym (map_key-find ext (key_index ext a) v vs found)) (find-upsert ext v' vs) in
    (
      s',
      run,
      λ fuel.
          activate_deposit_hangs ext apart s' a v' (upsert ext v' vs) l' found' fuel
            (record { amount = amount; height = 0 }) [] (rw empty) refl,
    )
