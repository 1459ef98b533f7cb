-- ===== src/Balance/Funds.antt =====
-- The money on a list of accounts, and what storing an account does to it.
use ori.Base.{
  ℕ, ◌+◌, ◌≤◌, ◌≡◌, ◌≢◌, refl, none, some, true, false, List, [], ◌∷◌, arith, ◌==◌, if◌then◌else◌,
  has, Distinct, Bool-cases, inl, inr, eq_of_==,
}
use ori.Types.Hash.{Address, Hash}
use ori.Types.Ledger.{Account}
use ori.External.{External}
use ori.State.{StateDb, get_storage}
use ori.Balance.{address_key, load_account, set_account}
use ori.Balance.Accounts.{load_account-set_account}

module _ (ext : External) where
  -- the storage keys of the accounts
  abbrev pub account_keys : List Address → List Hash
  account_keys [] = []
  account_keys (a ∷ rest) = address_key ext a ∷ account_keys rest

  -- Accounts with storage keys of their own.
  abbrev pub Apart : List Address → Type 0
  Apart addrs = Distinct (account_keys addrs)

  abbrev pub Among : Address → List Address → Type 0
  Among a addrs = has (address_key ext a) (account_keys addrs) ≡ true

  unfoldable pub funds : StateDb ext.trie → Address → ℕ
  funds s a = elim (load_account ext s a) [ some acc ↦ acc.balance | none ↦ 0 ]

  -- The sum of the balances.
  unfoldable pub supply : StateDb ext.trie → List Address → ℕ
  supply s [] = 0
  supply s (a ∷ rest) = funds s a + supply s rest

  -- What is stored for each of the accounts decodes.
  abbrev pub AllLoad : StateDb ext.trie → List Address → Type 0
  AllLoad s [] = Unit
  AllLoad s (a ∷ rest) = (load_account ext s a ≢ none) × AllLoad s rest

module _ (ext : External) (s : StateDb ext.trie) where
  -- An account is found by its key alone.
  pub load_account_of_key :
      (a b : Address)
      → address_key ext a ≡ address_key ext b
      → load_account ext s a ≡ load_account ext s b
  unfolding load_account
  load_account_of_key a b e = rw (e, load_account)

  pub funds_of_load :
      (a : Address) {acc : Account} → load_account ext s a ≡ some acc → funds ext s a ≡ acc.balance
  unfolding funds
  funds_of_load a e = rw (e, funds)

  funds_of_key :
      (a b : Address)
      → (address_key ext a == address_key ext b) ≡ true
      → funds ext s a ≡ funds ext s b
  unfolding funds
  funds_of_key a b e = ground (arith, load_account_of_key a b (eq_of_== _ _ e))

  pub AllLoad-mem :
      (a : Address) (addrs : List Address)
      → Among ext a addrs
      → AllLoad ext s addrs
      → load_account ext s a ≢ none
  AllLoad-mem a [] m h = cc
  AllLoad-mem a (b ∷ bs) m h = elim (Bool-cases (address_key ext a == address_key ext b)) [
    | inl e ↦ rw (load_account_of_key a b (eq_of_== _ _ e)) h.0
    | inr e ↦ AllLoad-mem a bs (ground arith) h.1
  ]

  pub funds-le-supply :
      (a : Address) (addrs : List Address) → Among ext a addrs → funds ext s a ≤ supply ext s addrs
  unfolding supply
  funds-le-supply a [] m = cc
  funds-le-supply a (b ∷ bs) m = elim (Bool-cases (address_key ext a == address_key ext b)) [
    | inl e ↦ omega (arith, funds_of_key a b e)
    | inr e ↦ omega (arith, funds-le-supply a bs (ground arith))
  ]

module _ (ext : External) (s : StateDb ext.trie) (a : Address) (acc : Account) where
  pub funds-set_account :
      (b : Address)
      → funds ext (set_account ext a acc s) b
        ≡ (if address_key ext b == address_key ext a then acc.balance else funds ext s b)
  unfolding funds
  funds-set_account b = ground (arith, load_account-set_account ext s a b acc)

  pub AllLoad-set_account :
      (addrs : List Address) → AllLoad ext s addrs → AllLoad ext (set_account ext a acc s) addrs
  AllLoad-set_account [] h = tt
  AllLoad-set_account (b ∷ bs) h =
      (ground (arith, load_account-set_account ext s a b acc, h.0), AllLoad-set_account bs h.1)

  supply-set_account_out :
      (addrs : List Address)
      → has (address_key ext a) (account_keys ext addrs) ≡ false
      → supply ext (set_account ext a acc s) addrs ≡ supply ext s addrs
  unfolding supply
  supply-set_account_out [] m = refl
  supply-set_account_out (b ∷ bs) m = ground (arith, funds-set_account b, supply-set_account_out bs)

  -- Storing an account changes the sum by the change of its own balance.
  pub supply-set_account :
      (addrs : List Address)
      → Apart ext addrs
      → Among ext a addrs
      → supply ext (set_account ext a acc s) addrs + funds ext s a
        ≡ supply ext s addrs + acc.balance
  unfolding supply
  supply-set_account [] d m = cc
  supply-set_account (b ∷ bs) d m = elim (Bool-cases (address_key ext a == address_key ext b)) [
    | inl e ↦
        let out = supply-set_account_out bs (rw (eq_of_== _ _ e) d.0) in
        ground (arith, funds-set_account b, out, funds_of_key ext s a b e)
    | inr e ↦ ground (arith, funds-set_account b, supply-set_account bs d.1)
  ]

-- Accounts are read from the storage alone.
module _ (ext : External) (s s' : StateDb ext.trie)
    (same : (j : Hash) → get_storage s' j ≡ get_storage s j) where
  pub load_account_same : (a : Address) → load_account ext s' a ≡ load_account ext s a
  unfolding load_account
  load_account_same a = rw (same (address_key ext a), load_account)

  pub supply_same : (addrs : List Address) → supply ext s' addrs ≡ supply ext s addrs
  unfolding supply funds
  supply_same [] = refl
  supply_same (a ∷ rest) = ground (arith, load_account_same a, supply_same rest)

  pub AllLoad-same : (addrs : List Address) → AllLoad ext s addrs → AllLoad ext s' addrs
  AllLoad-same [] h = tt
  AllLoad-same (a ∷ rest) h = (rw (load_account_same a) h.0, AllLoad-same rest h.1)
