-- ===== src/Balance/Transfer.antt =====
-- The methods of `Balance` against the sum of the balances: `transfer` conserves it, and
-- `add_balance` and `sub_balance` move it by their argument.
use ori.Base.{
  ℕ, ◌+◌, ◌-◌, ◌%◌, ◌≤◌, ◌<◌, ◌≡◌, refl, Option, some, List, arith, leb, Bool-cases, inl, inr,
  Option-cases,
}
use ori.Types.Hash.{Address}
use ori.Types.Ledger.{Account}
use ori.External.{External}
use ori.State.{StateDb}
use ori.State.Storage.{IsReady}
use ori.Balance.Accounts.{set_account-IsReady}
use ori.Balance.{
  u128, u64, add128, sub128, load_account, set_account, balance_of, inc_nonce, add_balance,
  sub_balance, transfer,
}
use ori.Balance.Funds.{
  Apart, Among, AllLoad, funds, supply, AllLoad-mem, funds-le-supply, AllLoad-set_account,
  supply-set_account, funds_of_load,
}

-- A call returned, all accounts of the list still decode, and they hold `n` together.
pub record Settles (ext : External) (addrs : List Address) (n : ℕ) (r : Option (StateDb ext.trie))
    : Type 0 where
  pub state : StateDb ext.trie
  pub returns : r ≡ some state
  pub ready : IsReady state
  pub loads : AllLoad ext state addrs
  pub total : supply ext state addrs ≡ n

module _ (ext : External) (addrs : List Address) (apart : Apart ext addrs) (s : StateDb ext.trie)
    (ready : IsReady s) (loads : AllLoad ext s addrs) where
  pub found :
      (a : Address) → Among ext a addrs → (acc : Account) × (load_account ext s a ≡ some acc)
  found a m = elim (Option-cases (load_account ext s a)) [
    | inl e ↦ absurd (AllLoad-mem ext s a addrs m loads e)
    | inr x ↦ x
  ]

  -- Storing an account with another balance.
  settle :
      (a : Address)
      → Among ext a addrs
      → (acc acc' : Account) → load_account ext s a ≡ some acc
      → (n : ℕ) → n + acc.balance ≡ supply ext s addrs + acc'.balance
      → Settles ext addrs n (some (set_account ext a acc' s))
  settle a m acc acc' e n h = record {
    state = set_account ext a acc' s;
    returns = refl;
    ready = set_account-IsReady ext s a acc' ready;
    loads = AllLoad-set_account ext s a acc' addrs loads;
    total = ground (arith, supply-set_account ext s a acc' addrs apart m, funds_of_load ext s a e);
  }

  pub add_balance-Settles :
      (a : Address) (v : ℕ)
      → Among ext a addrs
      → supply ext s addrs + v < u128
      → Settles ext addrs (supply ext s addrs + v) (add_balance ext a v s)
  unfolding add_balance
  add_balance-Settles a v m lt =
      let (acc, e) = found a m in
      rw e (
        settle a m acc (record acc { balance = add128 acc.balance v }) e _
          (ground (arith, funds-le-supply ext s a addrs m, funds_of_load ext s a e)))

  pub sub_balance-Settles :
      (a : Address) (v : ℕ)
      → Among ext a addrs
      → supply ext s addrs < u128
      → v ≤ funds ext s a
      → Settles ext addrs (supply ext s addrs - v) (sub_balance ext a v s)
  unfolding sub_balance
  sub_balance-Settles a v m lt le =
      let (acc, e) = found a m in
      rw e (
        settle a m acc (record acc { balance = sub128 acc.balance v }) e _
          (ground (arith, funds-le-supply ext s a addrs m, funds_of_load ext s a e)))

  pub inc_nonce-Settles :
      (a : Address) → Among ext a addrs → Settles ext addrs (supply ext s addrs) (inc_nonce ext a s)
  unfolding inc_nonce
  inc_nonce-Settles a m =
      let (acc, e) = found a m in
      rw e (settle a m acc (record acc { nonce = (acc.nonce + 1) % u64 }) e _ refl)

-- On accounts that decode and have keys of their own, with money for less than 2 ^ 128 in all,
-- `transfer` returns for every amount, all accounts still decode, and the sum of the balances is
-- the same as before.
pub transfer-Settles :
    (ext : External) (addrs : List Address) (s : StateDb ext.trie) (a b : Address) (amount : ℕ)
    → Apart ext addrs
    → IsReady s
    → AllLoad ext s addrs
    → supply ext s addrs < u128
    → Among ext a addrs
    → Among ext b addrs
    → Settles ext addrs (supply ext s addrs) (transfer ext a b amount s)
unfolding transfer balance_of
transfer-Settles ext addrs s a b amount apart ready loads lt ma mb =
    let (acc, e) = found ext addrs apart s ready loads a ma in
    rw e (elim (Bool-cases (leb amount acc.balance)) [
      | inr short ↦
          rw short
            (record { state = s; returns = refl; ready = ready; loads = loads; total = refl })
      | inl enough ↦
          let sent =
            sub_balance-Settles ext addrs apart s ready loads a amount ma lt
              (ground (arith, funds_of_load ext s a e)) in
          let got =
            add_balance-Settles ext addrs apart sent.state sent.ready sent.loads b amount mb (
              ground
                (arith, sent.total, funds-le-supply ext s a addrs ma, funds_of_load ext s a e)) in
          rw (enough, sent.returns)
            (record {
              state = got.state;
              returns = got.returns;
              ready = got.ready;
              loads = got.loads;
              total = ground (
                arith,
                got.total,
                sent.total,
                funds-le-supply ext s a addrs ma,
                funds_of_load ext s a e,
              );
            })
    ])
