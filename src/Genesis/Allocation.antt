-- ===== src/Genesis/Allocation.antt =====
-- The state that the genesis block starts from.
use ori.Base.{◌+◌, ◌%◌, ◌<◌, ◌≡◌, refl, sym, subst, none, some, [], ◌∷◌, arith}
use ori.Types.Hash.{Hash, as_bytes, is_filled-as_bytes}
use ori.Types.Ledger.{Account}
use ori.External.{External}
use ori.State.{StateDb, from_existing, get_storage, set_storage}
use ori.State.Storage.{IsReady, set_storage-IsReady}
use ori.State.Commit.{commit-get_storage}
use ori.Balance.{u128, address_key, load_account, set_account, add_balance}
use ori.Balance.Accounts.{
  load_account-set_account, get_storage-set_account, set_account-IsReady, commit_balance_of,
  load_account_frame,
}
use ori.Balance.Funds.{load_account_same}
use ori.Staking.{head_key, map_key, insert, put_entry}
use ori.Staking.Linked.{IsList, KeysApart, IsList-frame, account_not_has}
use ori.Staking.Insert.{insert-IsList}
use ori.Genesis.{genesis_addr, genesis_validator, allocate, appoint, setup_allocation}

IsList-same :
    (ext : External) (apart : KeysApart ext) (s s' : StateDb ext.trie)
    → ((j : Hash) → get_storage s' j ≡ get_storage s j)
    → IsList ext s (genesis_validator ∷ [])
    → IsList ext s' (genesis_validator ∷ [])
IsList-same ext apart s s' same l =
    IsList-frame ext apart s s' 0 (genesis_validator ∷ []) (λ j n. same j) l

-- The first validator joins a state without any, and the state can still be committed.
first_validator :
    (ext : External) (apart : KeysApart ext) (s : StateDb ext.trie) (acc : Account)
    → IsReady s
    → IsList ext s []
    → load_account ext s genesis_addr ≡ some acc
    → (s' : StateDb ext.trie) × (insert ext genesis_validator s ≡ some s')
      × IsList ext s' (genesis_validator ∷ [])
      × IsReady s'
      × (load_account ext s' genesis_addr ≡ some acc)
unfolding insert put_entry
first_validator ext apart s acc ready l e =
    let (s', run, l', same) = insert-IsList ext apart s genesis_validator [] l refl in
    let k = map_key ext genesis_validator in
    let s₁ = put_entry ext k (record { pre = none; next = none; payload = genesis_validator }) s in
    let made : insert ext genesis_validator s ≡ some (set_storage head_key (as_bytes k) s₁) =
      rw (insert, l.head) refl in
    let kept : get_storage s' (address_key ext genesis_addr)
        ≡ get_storage s (address_key ext genesis_addr) =
      ground (
        arith,
        same (address_key ext genesis_addr),
        account_not_has ext apart genesis_addr (genesis_validator ∷ []),
        apart.account_head genesis_addr,
      ) in
    let at : s' ≡ set_storage head_key (as_bytes k) s₁ = cc (run, made) in
    (
      s',
      run,
      l',
      subst IsReady (sym at) (
          set_storage-IsReady s₁ head_key (as_bytes k) (is_filled-as_bytes k) (
            set_storage-IsReady s k _
              (ext.codecs.entry_filled
                (record { pre = none; next = none; payload = genesis_validator }))
              ready)),
      rw (load_account_frame ext s s' genesis_addr kept) e,
    )

-- On a state that can be committed, that holds no validators and whose genesis account has room for
-- the allocation, and where hashed keys do not collide, `setup_allocation` returns. The state that
-- the returned root names, loaded afresh, has the genesis validator as its only validator and the
-- allocation on top of the genesis account's balance.
setup_allocation-IsList :
    (ext : External) (apart : KeysApart ext) (s : StateDb ext.trie) (acc : Account)
    → IsReady s
    → IsList ext s []
    → load_account ext s genesis_addr ≡ some acc
    → acc.balance + 1000000000000000000 < u128
    → (s' : StateDb ext.trie) × (setup_allocation ext s ≡ some (s', s'.state_root))
      × IsList ext (from_existing ext.trie s'.db s'.state_root) (genesis_validator ∷ [])
      × (load_account ext (from_existing ext.trie s'.db s'.state_root) genesis_addr
          ≡ some (record acc { balance = acc.balance + 1000000000000000000 }))
unfolding setup_allocation allocate appoint add_balance
setup_allocation-IsList ext apart s acc ready l e room =
    let rich : Account = record acc { balance = (acc.balance + 1000000000000000000) % u128 } in
    let s₁ = set_account ext genesis_addr rich s in
    let paid : add_balance ext genesis_addr 1000000000000000000 s ≡ some s₁ =
      rw (add_balance, e) refl in
    let own : load_account ext s₁ genesis_addr ≡ some rich =
      ground (arith, load_account-set_account ext s genesis_addr genesis_addr rich) in
    let l₁ =
      IsList-frame ext apart s s₁ genesis_addr [] (get_storage-set_account ext s genesis_addr rich)
        l in
    let (s₂, run₂, stored₂, kept₂, ready₂) =
      commit-get_storage s₁ (set_account-IsReady ext s genesis_addr rich ready) in
    let l₂ = IsList-frame ext apart s₁ s₂ genesis_addr [] (λ j n. kept₂ j) l₁ in
    let own₂ : load_account ext s₂ genesis_addr ≡ some rich =
      rw (load_account_same ext s₁ s₂ kept₂ genesis_addr) own in
    let (s₃, run₃, l₃, ready₃, own₃) = first_validator ext apart s₂ rich ready₂ l₂ own₂ in
    let (s₄, run₄, stored₄, kept₄, ready₄) = commit-get_storage s₃ ready₃ in
    let loaded = from_existing ext.trie s₄.db s₄.state_root in
    (
      s₄,
      rw (setup_allocation, allocate, paid)
          (rw (commit_balance_of ext s₁ run₂) (rw (appoint, run₃, run₄) refl)),
      IsList-same ext apart s₃ loaded stored₄ l₃,
      ground (arith, load_account_same ext s₃ loaded stored₄ genesis_addr, own₃),
    )
