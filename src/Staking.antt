-- ===== src/Staking.antt =====
-- `Staking` of core/src/staking.rs: the validators as a doubly linked list inside the state, whose
-- links are storage keys. `none` is the panic of `unwrap` on a missing or malformed entry.
pub mod Linked
pub mod Insert
pub mod Unlink
pub mod Delete
pub mod Walk
pub mod Replace
pub mod Deposit
pub mod Activate
use ori.Base.{
  ℕ, zero, suc, ◌+◌, ◌%◌, Bool, Option, none, some, List, [], ◌∷◌, ◌++◌, ltb, if◌then◌else◌,
  is_some, get_elem?, take, ◌>>=◌,
}
use ori.Types.Hash.{Bytes, Hash, Address, be_bytes, as_bytes, as_slice, from_bytes}
use ori.Types.Ledger.{LockingBalance, Validator, ListEntry}
use ori.Types.Message.{MsgValidatorCreate}
use ori.External.{External, Codec}
use ori.Crypto.{blake2b_256}
use ori.State.{StateDb, get_storage, set_storage, remove_storage}
use ori.Balance.{add128, lock_balance}

-- `StatePrefix::Validator` as the key of the list's head
unfoldable pub head_key : Hash
head_key = from_bytes (be_bytes 8 2)

abbrev pub Entry : Type 0
Entry = ListEntry Validator

-- What a loop comes to within its fuel.
pub data Run (A : Type 0) : Type 0 where
  done : A → Run A
  panic : Run A
  out_of_fuel : Run A

-- A list that ends in a panic or runs out of fuel does so whatever came before.
abbrev pub push : {A : Type 0} → A → Run (List A) → Run (List A)
push a (done as') = done (a ∷ as')
push a panic = panic
push a out_of_fuel = out_of_fuel

abbrev finish : {A : Type 0} → Option A → Run A
finish none = panic
finish (some a) = done a

-- What follows a loop that ended.
abbrev pub finished {ℓ} : {A : Type 0} {B : Type ℓ} → Run A → (A → Option B) → Option B
finished (done a) f = f a
finished panic f = none
finished out_of_fuel f = none

-- The loop of `activate_deposit` in the epoch 0: the offset stays where it is.
activate_loop : ℕ → List LockingBalance → ℕ → ℕ → Option ℕ
activate_loop zero queue offset effective = none
activate_loop (suc fuel) queue offset effective = elim (get_elem? queue offset) [
  | none ↦ some effective
  | some item ↦
      let rest = activate_loop fuel queue offset (add128 effective item.amount) in
      if ltb 0 item.height then some effective else rest
]

module _ (ext : External) where
  -- `Validator::key_index`
  unfoldable pub key_index : Address → Hash
  unfolding blake2b_256 head_key
  key_index addr =
      blake2b_256 ext
        (as_bytes (from_bytes (as_slice addr)) ++ as_bytes (from_bytes (be_bytes 8 2)))

  -- `Validator::map_key`
  abbrev pub map_key : Validator → Hash
  map_key v = key_index v.address

  -- A stored entry, read and decoded; reading a key that holds nothing panics too.
  unfoldable pub get_entry : StateDb ext.trie → Hash → Option Entry
  get_entry s key = do encoded ← get_storage s key; ext.codecs.entry.deserialize encoded

  unfoldable pub put_entry : Hash → Entry → StateDb ext.trie → StateDb ext.trie
  put_entry key e s = set_storage key (ext.codecs.entry.serialize e) s

  unfoldable pub insert : Validator → StateDb ext.trie → Option (StateDb ext.trie)
  insert item s = elim (get_storage s head_key) [
    | none ↦
        let s₁ = put_entry (map_key item) (record { pre = none; next = none; payload = item }) s in
        some (set_storage head_key (as_bytes (map_key item)) s₁)
    | some head ↦
        let head_ref = from_bytes head in
        let s₁ =
          put_entry (map_key item) (record { pre = none; next = some head_ref; payload = item })
            s in
        do
          next ← get_entry s₁ head_ref
          let s₂ = put_entry (map_key next.payload) (record next { pre = some (map_key item) }) s₁
          some (set_storage head_key (as_bytes (map_key item)) s₂)
  ]

  pub set_item : Validator → StateDb ext.trie → Option (StateDb ext.trie)
  set_item item s = elim (get_storage s (map_key item)) [
    | none ↦ insert item s
    | some encoded ↦ do
      entry ← ext.codecs.entry.deserialize encoded
      some (put_entry (map_key item) (record entry { payload = item }) s)
  ]

  -- The part of `delete` before the entry: the predecessor, or the head.
  relink_pre : Entry → StateDb ext.trie → Option (StateDb ext.trie)
  relink_pre item s = elim item.pre [
    | some pre ↦ do
      pre_node ← get_entry s pre
      some (put_entry pre (record pre_node { next = item.next }) s)
    | none ↦ elim item.next [
      | some next ↦ some (set_storage head_key (as_bytes next) s)
      | none ↦ some (remove_storage head_key s)
    ]
  ]

  -- The part of `delete` behind the entry.
  relink_next : Entry → StateDb ext.trie → Option (StateDb ext.trie)
  relink_next item s = elim item.next [
    | some next ↦ do
      next_node ← get_entry s next
      some (put_entry next (record next_node { pre = item.pre }) s)
    | none ↦ some s
  ]

  pub delete : Address → StateDb ext.trie → Option (StateDb ext.trie)
  unfolding relink_pre relink_next
  delete addr s = elim (get_storage s (key_index addr)) [
    | none ↦ some s
    | some encoded ↦ do
      item ← ext.codecs.entry.deserialize encoded
      s₁ ← relink_pre item s
      s₂ ← relink_next item s₁
      some (remove_storage (key_index addr) s₂)
  ]

  -- The loop of `validator_set`, from a link on.
  walk : ℕ → StateDb ext.trie → Option Hash → Run (List Validator)
  walk zero s link = out_of_fuel
  walk (suc fuel) s none = done []
  walk (suc fuel) s (some key) = elim (get_entry s key) [
    | none ↦ panic
    | some item ↦ push item.payload (walk fuel s item.next)
  ]

  pub validator_set : ℕ → StateDb ext.trie → Run (List Validator)
  unfolding walk
  validator_set fuel s = elim (get_storage s head_key) [
    | none ↦ done []
    | some head_ref ↦ walk fuel s (some (from_bytes head_ref))
  ]

  pub get_validator : StateDb ext.trie → Address → Option (Option Validator)
  get_validator s addr = elim (get_storage s (key_index addr)) [
    | none ↦ some none
    | some encoded ↦ do obj ← ext.codecs.entry.deserialize encoded; some (some obj.payload)
  ]

  pub validate : Address → Bytes → ℕ → StateDb ext.trie → Option (StateDb ext.trie)
  validate addr pubkey amount s = do
    joined ← get_validator s addr
    if is_some joined then some s else (do
      s₁ ←
          insert
            (record {
              address = addr;
              pubkey = pubkey;
              balance = amount;
              effective_balance = amount;
              activate_height = 0;
              exit_height = 0;
              deposit_queue = [];
              unlocked_queue = [];
            })
            s
      lock_balance ext addr amount s₁)

  pub deposit : Address → ℕ → StateDb ext.trie → Option (StateDb ext.trie)
  deposit addr amount s = do
    found ← get_validator s addr
    elim found [
      | none ↦ some s
      | some validator ↦ do
        s₁ ←
            set_item
              (record validator {
                balance = add128 validator.balance amount;
                deposit_queue =
                    validator.deposit_queue ++ record { amount = amount; height = 0 } ∷ [];
              })
              s
        lock_balance ext addr amount s₁
    ]

  -- `activate_deposit`, from the epoch 0 and the offset 0 that it starts with; `none` is a loop that
  -- goes on. The queue is cut at the offset in the end.
  pub activate_deposit : ℕ → Address → StateDb ext.trie → Run (StateDb ext.trie)
  unfolding activate_loop
  activate_deposit fuel addr s = elim (get_validator s addr) [
    | none ↦ panic
    | some none ↦ done s
    | some (some validator) ↦
        elim (activate_loop fuel validator.deposit_queue 0 validator.effective_balance) [
          | none ↦ out_of_fuel
          | some effective ↦ finish (
              set_item
                (record validator {
                  effective_balance = effective;
                  deposit_queue = take 0 validator.deposit_queue;
                })
                s)
        ]
  ]

  pub exit : Address → StateDb ext.trie → Option (StateDb ext.trie)
  exit addr s = do
    found ← get_validator s addr
    elim found [
      | none ↦ some s
      | some validator ↦ set_item (record validator { exit_height = 0 }) s
    ]

  pub exec_validate : Address → Bytes → StateDb ext.trie → Option (StateDb ext.trie)
  exec_validate addr input s = elim (ext.codecs.validator_create.deserialize input) [
    | none ↦ some s
    | some msg ↦ validate addr msg.pubkey msg.amount s
  ]

  pub exec_deposit : Address → Bytes → StateDb ext.trie → Option (StateDb ext.trie)
  exec_deposit addr input s = elim (ext.codecs.amount.deserialize input) [
    | none ↦ some s
    | some msg ↦ deposit addr msg s
  ]

  pub exec_exit : Address → Bytes → StateDb ext.trie → Option (StateDb ext.trie)
  exec_exit addr input s = exit addr s
