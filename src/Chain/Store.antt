-- ===== src/Chain/Store.antt =====
-- `ChainDB` of chain/src/store.rs: headers, blocks and the index of heights under keys with a letter
-- in front. Reading what does not decode, or a hash that has not 32 bytes, is a panic, which is the
-- outer `none`; the inner `none` is a missing entry.
pub mod Reads
use ori.Base.{
  ℕ, zero, suc, ◌-◌, Bool, Option, none, some, List, [], ◌∷◌, ◌++◌, ◌==◌, ltb, if◌then◌else◌, ◌>>=◌,
  length,
}
use ori.Types.Hash.{Bytes, Hash, be_bytes, be_value, as_bytes}
use ori.Types.Block.{Header, Block}
use ori.External.{External, Codec}
use ori.BlockHash.{header_hash}

-- the letters h, H, b and n
abbrev pub header_key : Hash → Bytes
header_key hash = 104 ∷ as_bytes hash

abbrev pub head_key : Bytes
head_key = 72 ∷ 72 ∷ 69 ∷ 65 ∷ 68 ∷ []

abbrev pub block_key : Hash → Bytes
block_key hash = 98 ∷ as_bytes hash

abbrev pub header_hash_key : ℕ → Bytes
header_hash_key num = 110 ∷ be_bytes 8 num

abbrev pub read_hash : Option Bytes → Option (Option Hash)
read_hash none = some none
read_hash (some bs) = if length bs == 32 then some (some (be_value bs)) else none

module _ {A : Type 0} where
  abbrev pub decoded : Codec A → Option Bytes → Option (Option A)
  decoded codec none = some none
  decoded codec (some bs) = do a ← codec.deserialize bs; some (some a)

  -- A hash is looked up first, then what it names.
  abbrev pub follow : Option (Option Hash) → (Hash → Option (Option A)) → Option (Option A)
  follow none f = none
  follow (some none) f = some none
  follow (some (some h)) f = f h

module _ (ext : External) where
  pub write_header_hash : ℕ → Hash → ext.store.Db → ext.store.Db
  write_header_hash num hash d = ext.store.put d (header_hash_key num) (as_bytes hash)

  pub write_header : Header → ext.store.Db → ext.store.Db
  write_header h d =
      ext.store.put (write_header_hash h.height (header_hash ext h) d)
        (header_key (header_hash ext h)) (ext.codecs.header.serialize h)

  pub get_header : ext.store.Db → Hash → Option (Option Header)
  get_header d h = decoded ext.codecs.header (ext.store.get d (header_key h))

  pub delete_header : Hash → ext.store.Db → ext.store.Db
  delete_header h d = ext.store.remove d (header_key h)

  unfoldable pub get_header_hash : ext.store.Db → ℕ → Option (Option Hash)
  get_header_hash d num = read_hash (ext.store.get d (header_hash_key num))

  pub get_header_by_number : ext.store.Db → ℕ → Option (Option Header)
  get_header_by_number d num = follow (get_header_hash d num) (get_header d)

  pub head_hash : ext.store.Db → Option (Option Hash)
  head_hash d = read_hash (ext.store.get d head_key)

  pub write_head_hash : Hash → ext.store.Db → ext.store.Db
  write_head_hash hash d = ext.store.put d head_key (as_bytes hash)

  pub head_header : ext.store.Db → Option (Option Header)
  head_header d = follow (head_hash d) (get_header d)

  pub delete_header_height : ℕ → ext.store.Db → ext.store.Db
  delete_header_height num d = ext.store.remove d (header_hash_key num)

  unfoldable pub get_block : ext.store.Db → Hash → Option (Option Block)
  get_block d h = decoded ext.codecs.block (ext.store.get d (block_key h))

  pub head_block : ext.store.Db → Option (Option Block)
  head_block d = follow (head_hash d) (get_block d)

  pub get_block_by_number : ext.store.Db → ℕ → Option (Option Block)
  get_block_by_number d num = follow (get_header_hash d num) (get_block d)

  pub write_block : Block → ext.store.Db → ext.store.Db
  write_block b d =
      ext.store.put (write_header b.header d) (block_key (header_hash ext b.header))
        (ext.codecs.block.serialize b)

  -- The header goes too, the index of heights stays.
  pub delete_block : Hash → ext.store.Db → ext.store.Db
  delete_block h d = delete_header h (ext.store.remove d (block_key h))

  -- The loop of `setup_height`, from a height and the hash of the header there.
  pub setup_loop : ℕ → Hash → ext.store.Db → Option ext.store.Db
  setup_loop zero pre_hash d = some d
  setup_loop (suc pre) pre_hash d = do
    found ← get_header d pre_hash
    header ← found
    index ← get_header_hash d (suc pre)
    known ← index
    let hash = header_hash ext header
    let rest = setup_loop pre header.parent_hash (write_header_hash (suc pre) hash d)
    if known == hash then some d else rest

  pub setup_height : Header → ext.store.Db → Option ext.store.Db
  setup_height h d = setup_loop h.height (header_hash ext h) d
