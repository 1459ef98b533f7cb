-- ===== src/Executor/Supply.antt =====
-- The sum of money over the execution of a block of executor/src/lib.rs.
use ori.Base.{ℕ, ◌+◌, ◌<◌, ◌≡◌, some, List, [], ◌∷◌}
use ori.Types.Hash.{Hash, Address}
use ori.Types.Message.{MsgTransfer, Transaction}
use ori.Types.Block.{Block}
use ori.External.{External}
use ori.State.{StateDb, from_existing}
use ori.State.Storage.{IsReady}
use ori.Balance.{u128}
use ori.Balance.Funds.{Among, AllLoad, supply}
use ori.Executor.{Exec, ok, err, panic, transfer_fee}

-- The accounts decode and hold `n` together with the fees that are still to be paid out.
pub record Holds (ext : External) (addrs : List Address) (unpaid n : ℕ) (s : StateDb ext.trie)
    : Type 0 where
  pub ready : IsReady s
  pub loads : AllLoad ext s addrs
  pub total : supply ext s addrs + unpaid ≡ n

-- A run does not panic, and the money is there however it ends; `unpaid` is still to be paid out if
-- it ends well.
abbrev pub Conserves :
    (ext : External) → List Address → (unpaid n : ℕ) {A : Type 0} → Exec ext A → Type 0
Conserves ext addrs unpaid n (ok _ s) = Holds ext addrs unpaid n s
Conserves ext addrs unpaid n (err _ s) = Holds ext addrs 0 n s
Conserves ext addrs unpaid n panic = ⊥

-- The message decodes, it is about accounts of the list, and its value leaves room for the fee.
pub record IsPayable (ext : External) (addrs : List Address) (tx : Transaction) : Type 0 where
  pub msg : MsgTransfer
  pub decodes : ext.codecs.transfer.deserialize tx.payload ≡ some msg
  pub sender : Among ext tx.sender addrs
  pub receiver : Among ext msg.receiver addrs
  pub room : msg.value + transfer_fee < u128

abbrev pub AllPayable : External → List Address → List Transaction → Type 0
AllPayable ext addrs [] = Unit
AllPayable ext addrs (tx ∷ txs) = IsPayable ext addrs tx × AllPayable ext addrs txs

-- A block's result: on success the root that it returns names a state with the same money.
abbrev pub Reloads : (ext : External) → List Address → ℕ → Exec ext Hash → Type 0
Reloads ext addrs n (ok root s) =
    AllLoad ext (from_existing ext.trie s.db root) addrs
    × (supply ext (from_existing ext.trie s.db root) addrs ≡ n)
Reloads ext addrs n (err _ s) = AllLoad ext s addrs × (supply ext s addrs ≡ n)
Reloads ext addrs n panic = ⊥
