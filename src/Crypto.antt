-- ===== src/Crypto.antt =====
-- common/hash/src/lib.rs
use ori.Base.{◌<◌, ◌^◌, [], ◌∷◌, arith}
use ori.Types.Hash.{Bytes, Hash}
use ori.External.{External}

-- `BLANK_HASH`, as a number
abbrev pub blank_hash : Hash
blank_hash = 0x44f4c69744d5f8c55d642062949dcae49bc4e7ef43d388c5a12f42b5633d163e

-- `blake2b_256`
unfoldable pub blake2b_256 : External → Bytes → Hash
blake2b_256 ext [] = blank_hash
blake2b_256 ext (b ∷ bs) = ext.blake2b (b ∷ bs)

pub blake2b_256-lt : (ext : External) (bs : Bytes) → blake2b_256 ext bs < 2 ^ 256
unfolding blake2b_256
blake2b_256-lt ext [] = omega arith
blake2b_256-lt ext (b ∷ bs) = ext.blake2b-lt (b ∷ bs)
