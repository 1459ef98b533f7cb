-- ===== src/Examples/Blocks.antt =====
-- Transactions and a block, executed on the funded accounts.
use ori.Base.{ℕ, ◌+◌, ◌-◌, ◌≡◌, ◌==◌, if◌then◌else◌, refl, true, some, [], ◌∷◌, arith}
use ori.Types.Hash.{Address, be_value}
use ori.Types.Ledger.{default_account}
use ori.Types.Message.{MsgTransfer, Transaction, tx_hash_type}
use ori.Types.Block.{Block, default_block}
use ori.Crypto.{blake2b_256}
use ori.State.{StateDb}
use ori.Signing.{tx_hash, verify_sign}
use ori.Balance.{u128, address_key, load_account}
use ori.Executor.{err, invalid_signature, invalid_tx_nonce, ok, transfer_fee, exc_transfer_tx}
use ori.Executor.Errors.{
  exc_transfer_tx_refuses, exc_transfer_tx-Leaves, exc_transfer_tx_accepts, exc_transfer_tx_replay,
}
use ori.Executor.Overflow.{exc_transfer_tx_mints}
use ori.Examples.Sample.{sample}
use ori.Examples.Accounts.{
  holding, other, funded, funded_1, funded_2, funded_3, key_1, key_2, key_3,
}

-- Signed with the first array.
abbrev signed : Transaction → Transaction
signed tx = record tx { sign_data = record { r = tx_hash sample tx; s = 0; p = 5 } }

-- A transfer from one account to another.
abbrev pay : Address → Address → ℕ → ℕ → Transaction
pay from to n amount = signed (record {
  sender = from;
  nonce = n;
  gas_price = 0;
  gas = 0;
  call = [];
  payload = sample.codecs.transfer.serialize (record { receiver = to; value = amount });
  sign_data = record { r = 0; s = 0; p = 0 };
})

abbrev pub pay_1000 : Transaction
pay_1000 = pay 1 2 1 1000

abbrev pub sent_1000 : MsgTransfer
sent_1000 = record { receiver = 2; value = 1000 }

pay_1000_signed : verify_sign sample pay_1000 ≡ true
unfolding verify_sign tx_hash tx_hash_type blake2b_256 be_value
pay_1000_signed = refl

-- Two transfers from the first account to the second.
abbrev two_payments : Block
two_payments = record default_block { txs = pay_1000 ∷ pay 1 2 2 500 ∷ [] }

-- The same payment, not signed: the executor refuses it.
abbrev not_signed : Transaction
not_signed = record pay_1000 { sign_data = record { r = 0; s = 0; p = 5 } }

not_signed_lem : exc_transfer_tx sample not_signed funded ≡ err invalid_signature funded
unfolding verify_sign tx_hash tx_hash_type blake2b_256 be_value
not_signed_lem =
    (exc_transfer_tx_refuses sample not_signed funded sent_1000 holding refl funded_1).0 refl

exc_transfer_tx-Leaves_example : funded ≡ funded
exc_transfer_tx-Leaves_example =
    exc_transfer_tx-Leaves sample not_signed funded invalid_signature funded not_signed_lem

exc_transfer_tx_accepts_example :
    (s' : StateDb sample.trie) × (exc_transfer_tx sample pay_1000 funded ≡ ok tt s')
    × ((c : Address)
        → load_account sample s' c ≡ (
            if address_key sample c == address_key sample 2
            then some (record other { balance = 300 + 1000 })
            else if address_key sample c == address_key sample 1
            then some (record holding { balance = 50000 - transfer_fee - 1000; nonce = 1 })
            else load_account sample funded c))
exc_transfer_tx_accepts_example =
    exc_transfer_tx_accepts sample pay_1000 funded sent_1000 holding other refl pay_1000_signed
      funded_1 funded_2 (λ e. omega (arith, key_1, key_2, e)) refl (omega arith) (omega arith)
      (omega arith) (omega arith)

exc_transfer_tx_replay_example :
    (s' : StateDb sample.trie) × (exc_transfer_tx sample pay_1000 funded ≡ ok tt s')
    × (exc_transfer_tx sample pay_1000 s' ≡ err invalid_tx_nonce s')
exc_transfer_tx_replay_example =
    exc_transfer_tx_replay sample pay_1000 funded sent_1000 holding other refl pay_1000_signed
      funded_1 funded_2 (λ e. omega (arith, key_1, key_2, e)) refl (omega arith) (omega arith)
      (omega arith) (omega arith)

-- Account 3 has nothing.
abbrev pay_huge : Transaction
pay_huge = pay 3 2 1 (u128 - transfer_fee)

pay_huge_signed : verify_sign sample pay_huge ≡ true
unfolding verify_sign tx_hash tx_hash_type blake2b_256 be_value
pay_huge_signed = refl

exc_transfer_tx_mints_example :
    (s' : StateDb sample.trie) × (exc_transfer_tx sample pay_huge funded ≡ ok tt s')
    × (load_account sample s' 3 ≡ some (record default_account { nonce = 1 }))
    × (load_account sample s' 2 ≡ some (record other { balance = 300 + (u128 - transfer_fee) }))
exc_transfer_tx_mints_example =
    exc_transfer_tx_mints sample pay_huge funded
      (record { receiver = 2; value = u128 - transfer_fee }) default_account other refl
      pay_huge_signed funded_3 funded_2 (λ e. omega (arith, key_3, key_2, e)) refl (omega arith)
      (omega arith) refl (omega arith)
