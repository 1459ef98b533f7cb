-- ===== src/Generator/Epoch.antt =====
-- `EpochId` of generator/src/epoch.rs and `ValidatorStake` of generator/src/types.rs.
use ori.Base.{ℕ, ◌+◌, ◌-◌, ◌*◌, ◌/◌, ◌%◌, ◌^◌, Bool, ◌||◌, ◌==◌, leb, if◌then◌else◌}
use ori.Types.Hash.{Hash}
use ori.Balance.{u64}

-- `EPOCH_LENGTH`
abbrev pub epoch_length : ℕ
epoch_length = 64

pub record ValidatorStake : Type 0 where
  pub pubkey : Hash
  pub stake_amount : ℕ
  pub sid : ℕ
  pub validator : Bool

abbrev pub is_validator : ValidatorStake → Bool
is_validator v = v.validator

abbrev pub epoch_from_height : ℕ → ℕ
epoch_from_height h = h / epoch_length

abbrev pub epoch_from_id : ℕ → ℕ
epoch_from_id sid = sid / epoch_length

-- A number that is zero or negative as an `i64` has the empty range.
pub get_height_from_eid : ℕ → ℕ × ℕ
get_height_from_eid eid =
    if (eid == 0) || leb (2 ^ 63) eid
    then (0, 0)
    else (((eid - 1) * epoch_length) % u64, (eid * epoch_length + u64 - 1) % u64)
