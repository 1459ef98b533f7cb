-- ===== src/Generator/Committee.antt =====
-- `EpochPoS` of generator/src/apos.rs: the committee of an epoch, and who may propose in a slot. The
-- quotient that `BigRational` makes of a float is a parameter; `none` is a panic.
use ori.Base.{
  ℕ, ◌+◌, ◌-◌, ◌*◌, ◌/◌, ◌%◌, ◌^◌, Bool, true, false, not, ◌||◌, Option, none, some, List, [], ◌∷◌,
  ◌++◌, ◌==◌, ltb, leb, if◌then◌else◌, ◌>>=◌, length, drop, get_elem?,
}
use ori.Base.Dict.{Dict, lookup}
use ori.Types.Hash.{Bytes, Hash, be_bytes, be_value, as_bytes}
use ori.Types.Ledger.{Validator}
use ori.Types.Block.{VrfProof}
use ori.External.{External}
use ori.Crypto.{blake2b_256}
use ori.State.{from_existing}
use ori.Balance.{u64}
use ori.Staking.{finished, validator_set}
use ori.BlockHash.{block_hash}
use ori.Chain.Store.{get_block_by_number}
use ori.Chain.{BlockChain, current_block}
use ori.Vrf.{Curve, Value, convert_secret_key, compute_with_proof}
use ori.Generator.Epoch.{epoch_length, ValidatorStake, is_validator}

pub record EpochInfo : Type 0 where
  pub seed : ℕ
  pub rng_seed : Hash
  pub validators : List ValidatorStake

-- `EpochPoS`; the chain is the node's.
pub record EpochPos : Type 0 where
  pub epoch_infos : Dict EpochInfo
  pub eid : ℕ
  pub dev_mode : Bool

-- `EpochPoS::new`
abbrev pub new_epochs : Bool → EpochPos
new_epochs dev_mode = record { epoch_infos = []; eid = 0; dev_mode = dev_mode }

abbrev pub next_epoch : EpochPos → EpochPos
next_epoch e = record e { eid = (e.eid + 1) % u64 }

-- `copy_from_slice` into an array of 32 bytes, which panics at another length
abbrev pub copy_key : Bytes → Option Hash
copy_key bs = if length bs == 32 then some (be_value bs) else none

abbrev pub to_stake : Validator → Option ValidatorStake
to_stake v = do
  pk ← copy_key v.pubkey
  some (record { pubkey = pk; stake_amount = v.effective_balance; sid = 0; validator = true })

abbrev pub to_stakes : List Validator → Option (List ValidatorStake)
to_stakes [] = some []
to_stakes (v ∷ vs) = do s ← to_stake v; ss ← to_stakes vs; some (s ∷ ss)

-- What the development mode keeps: the first validator, if there is one.
abbrev pub first_only {ℓ} : {A : Type ℓ} → List A → List A
first_only [] = []
first_only (x ∷ xs) = x ∷ []

-- `cmp_random_threshold`: the first 16 bytes of a value below the threshold
abbrev pub cmp_random_threshold : Value → ℕ → Bool
cmp_random_threshold value threshold = ltb (value / 2 ^ 128) threshold

abbrev pub any_key : Hash → List ValidatorStake → Bool
any_key pk [] = false
any_key pk (v ∷ vs) = (v.pubkey == pk) || any_key pk vs

abbrev pub chosen : List ValidatorStake → List ValidatorStake
chosen [] = []
chosen (v ∷ vs) = if is_validator v then v ∷ chosen vs else chosen vs

module _ (ratio : ℕ → ℕ → ℕ × ℕ) where
  -- `calc_random_threshold`, capped at the largest u128
  abbrev pub calc_random_threshold : ℕ → ℕ → ℕ
  calc_random_threshold empty num =
      let (numer, denom) = ratio empty num in
      let t = 2 ^ 128 * numer / denom in if ltb t (2 ^ 128) then t else 2 ^ 128 - 1

  -- `calc_epoch_threshold`
  abbrev pub calc_epoch_threshold : EpochInfo → ℕ
  calc_epoch_threshold epoch = calc_random_threshold 200 (length epoch.validators)

module _ (ext : External) (c : BlockChain ext) (fuel : ℕ) where
  pub genesis_epoch : EpochPos → Option EpochInfo
  genesis_epoch e = do
    b ← current_block ext c
    finished (validator_set ext fuel (from_existing ext.trie c.state_backend b.header.state_root))
        (λ validators. do
          holders ← to_stakes (if e.dev_mode then first_only validators else validators)
          some (record { seed = 0; rng_seed = 0; validators = holders }))

  -- `compute_epoch_seed`, from the block zero whatever the epoch; the inner `none` is its `None`.
  pub compute_epoch_seed : ℕ → Option (Option Hash)
  compute_epoch_seed epoch = do
    block ← get_block_by_number ext c.db 0
    some (elim block [
      | none ↦ none
      | some b ↦ some (blake2b_256 ext (as_bytes (if epoch == 0 then 0 else block_hash ext b)))
    ])

  -- `get_epoch_info`, which is never `None`
  pub get_epoch_info : EpochPos → ℕ → Option EpochInfo
  unfolding genesis_epoch compute_epoch_seed
  get_epoch_info e eid = elim (lookup eid e.epoch_infos) [
    | some v ↦ some v
    | none ↦ do
      epoch ← genesis_epoch e
      elim (ltb 0 eid) [
        | false ↦ some epoch
        | true ↦ do
          found ← compute_epoch_seed eid
          seed ← found
          some (record epoch { rng_seed = seed })
      ]
  ]

  -- `get_proposer_index`; a remainder by zero is a panic.
  pub get_proposer_index : EpochInfo → ℕ → Hash → Option ℕ
  get_proposer_index stake slot_index seed =
      let slot_seed = blake2b_256 ext (as_bytes seed ++ be_bytes 8 slot_index) in
      if length stake.validators == 0
      then none
      else some (be_value (drop 24 (as_bytes slot_seed)) % length stake.validators)

  -- `get_slot_proposer`; the inner `none` is its `None`.
  pub get_slot_proposer : EpochPos → ℕ → ℕ → Option (Option ValidatorStake)
  unfolding get_epoch_info get_proposer_index
  get_slot_proposer e index eid = do
    epoch ← get_epoch_info e eid
    proposer ← get_proposer_index epoch (index % epoch_length) epoch.rng_seed
    some (
        if leb (length epoch.validators) proposer
        then none
        else get_elem? epoch.validators proposer)

  -- `get_epoch_staking`; the inner `none` is its `None`.
  pub get_epoch_staking : EpochPos → ℕ → Option (Option (List ValidatorStake))
  unfolding get_epoch_info
  get_epoch_staking e eid = do
    items ← get_epoch_info e eid
    some (if ltb 0 (length (chosen items.validators)) then some (chosen items.validators) else none)

  pub get_seed_by_epochid : EpochPos → ℕ → Option ℕ
  unfolding get_epoch_info
  get_seed_by_epochid e eid = do items ← get_epoch_info e eid; some items.seed

  -- Whether a key is one of the validators'; the public key is made when there is one to compare.
  has_own : Hash → List ValidatorStake → Option Bool
  has_own private_key [] = some false
  has_own private_key (v ∷ vs) = do own ← ext.to_pubkey private_key; some (any_key own (v ∷ vs))

  module _ (curve : Curve) (ratio : ℕ → ℕ → ℕ × ℕ) where
    -- `make_slot_proposer`, at a private key; the inner `none` is its `None`.
    unfoldable pub make_slot_proposer : EpochPos → ℕ → Hash → Option (Option (Value × VrfProof))
    unfolding get_epoch_info has_own
    make_slot_proposer e sid private_key = do
      epoch_data ← get_epoch_info e (sid / epoch_length)
      is_member ← has_own private_key epoch_data.validators
      let input : Bytes = as_bytes epoch_data.rng_seed ++ be_bytes 8 sid
      let made : Value × VrfProof =
          compute_with_proof curve (convert_secret_key curve private_key)
            (as_bytes (blake2b_256 ext input))
      some (
          if not is_member
          then none
          else if cmp_random_threshold (made.0) (calc_epoch_threshold ratio epoch_data)
          then some made
          else none)
