-- ===== src/Balance/Accounts.antt =====
-- What `load_account` answers after `set_account` and after each method.
use ori.Base.{◌≡◌, ◌≢◌, some, arith, ◌==◌, if◌then◌else◌}
use ori.Types.Hash.{Hash, Address}
use ori.Types.Ledger.{Account}
use ori.External.{External}
use ori.State.{StateDb, get_storage, commit}
use ori.State.Storage.{IsReady, get_storage-set_storage, set_storage-IsReady}
use ori.Balance.{address_key, load_account, set_account, commit_balance}

module _ (ext : External) (s : StateDb ext.trie) where
  pub load_account-set_account :
      (a b : Address) (acc : Account)
      → load_account ext (set_account ext a acc s) b
        ≡ (if address_key ext b == address_key ext a then some acc else load_account ext s b)
  unfolding load_account set_account
  load_account-set_account a b acc = ground (
    arith,
    get_storage-set_storage s (address_key ext a) (address_key ext b)
        (ext.codecs.account.serialize acc),
    ext.codecs.account.deserialize-serialize acc,
  )

  pub set_account-IsReady :
      (a : Address) (acc : Account) → IsReady s → IsReady (set_account ext a acc s)
  unfolding set_account
  set_account-IsReady a acc h =
      set_storage-IsReady s (address_key ext a) (ext.codecs.account.serialize acc)
        (ext.codecs.account_filled acc) h

  pub commit_balance_of :
      {s' : StateDb ext.trie} → commit s ≡ some s' → commit_balance ext s ≡ some (s', s'.state_root)
  unfolding commit_balance
  commit_balance_of e = rw e

  pub get_storage-set_account :
      (a : Address) (acc : Account) (j : Hash)
      → j ≢ address_key ext a
      → get_storage (set_account ext a acc s) j ≡ get_storage s j
  unfolding set_account
  get_storage-set_account a acc j n =
      ground
        (arith, get_storage-set_storage s (address_key ext a) j (ext.codecs.account.serialize acc))

  -- Accounts are read from the storage under their own keys.
  pub load_account_frame :
      (s' : StateDb ext.trie) (a : Address)
      → get_storage s' (address_key ext a) ≡ get_storage s (address_key ext a)
      → load_account ext s' a ≡ load_account ext s a
  unfolding load_account
  load_account_frame s' a e = rw (load_account, e)
