-- ===== src/Chain/Store/Reads.antt =====
-- What the store of blocks answers after a block is written as the new head.
use ori.Base.{ℕ, ◌<◌, ◌^◌, ◌≡◌, refl, Option, some, arith, ◌==◌, if◌then◌else◌}
use ori.Types.Hash.{
  Bytes, Hash, as_bytes, length-be_bytes, be_value-be_bytes, same_bytes, same_bytes-be_bytes,
}
use ori.Types.Block.{Header, Block}
use ori.External.{External}
use ori.Crypto.{blake2b_256-lt}
use ori.Balance.{u64}
use ori.BlockHash.{header_hash, block_hash}
use ori.Chain.Store.{
  header_key, head_key, block_key, header_hash_key, read_hash, write_header_hash, write_header,
  get_header_hash, head_hash, write_head_hash, get_block, write_block, get_block_by_number,
  head_block, follow,
}

pub header_hash-lt : (ext : External) (h : Header) → header_hash ext h < 2 ^ 256
unfolding header_hash
header_hash-lt ext h = blake2b_256-lt ext _

read_hash-as_bytes : (h : Hash) → h < 2 ^ 256 → read_hash (some (as_bytes h)) ≡ some (some h)
unfolding as_bytes
read_hash-as_bytes h lt = rw (length-be_bytes 32 h, be_value-be_bytes 32 h lt) refl

same_bytes-as_bytes :
    (g h : Hash) → g < 2 ^ 256 → h < 2 ^ 256 → same_bytes (as_bytes g) (as_bytes h) ≡ (g == h)
unfolding as_bytes
same_bytes-as_bytes g h lg lh = same_bytes-be_bytes 32 g h lg lh

module _ (ext : External) (b : Block) (d : ext.store.Db) where
  -- The store after a block is written as the head.
  abbrev pub with_head : ext.store.Db
  with_head = write_head_hash ext (block_hash ext b) (write_block ext b d)

  get-with_head :
      (j : Bytes)
      → ext.store.get with_head j ≡ (
          if same_bytes j head_key
          then some (as_bytes (block_hash ext b))
          else if same_bytes j (block_key (block_hash ext b))
          then some (ext.codecs.block.serialize b)
          else if same_bytes j (header_key (block_hash ext b))
          then some (ext.codecs.header.serialize b.header)
          else if same_bytes j (header_hash_key b.header.height)
          then some (as_bytes (block_hash ext b))
          else ext.store.get d j)
  unfolding write_head_hash write_block write_header write_header_hash
  get-with_head j =
      rw
        (
          ext.store.get-put (write_block ext b d) head_key (as_bytes (block_hash ext b)) j,
          ext.store.get-put (write_header ext b.header d) (block_key (block_hash ext b))
              (ext.codecs.block.serialize b) j,
          ext.store.get-put (write_header_hash ext b.header.height (block_hash ext b) d)
              (header_key (block_hash ext b)) (ext.codecs.header.serialize b.header) j,
          ext.store.get-put d (header_hash_key b.header.height) (as_bytes (block_hash ext b)) j,
        )
        refl

  pub head_hash-with_head : head_hash ext with_head ≡ some (some (block_hash ext b))
  unfolding head_hash
  head_hash-with_head =
      rw (get-with_head head_key)
        (read_hash-as_bytes (block_hash ext b) (header_hash-lt ext b.header))

  pub get_block-with_head :
      (h : Hash)
      → h < 2 ^ 256
      → get_block ext with_head h
        ≡ (if h == block_hash ext b then some (some b) else get_block ext d h)
  unfolding get_block
  get_block-with_head h lt = ground (
    arith,
    get-with_head (block_key h),
    same_bytes-as_bytes h (block_hash ext b) lt (header_hash-lt ext b.header),
    ext.codecs.block.deserialize-serialize b,
  )

  pub get_header_hash-with_head :
      (n : ℕ)
      → n < u64
      → b.header.height < u64
      → get_header_hash ext with_head n
        ≡ (if n == b.header.height then some (some (block_hash ext b)) else get_header_hash ext d n)
  unfolding get_header_hash
  get_header_hash-with_head n lt small = ground (
    arith,
    get-with_head (header_hash_key n),
    same_bytes-be_bytes 8 n b.header.height lt small,
    read_hash-as_bytes (block_hash ext b) (header_hash-lt ext b.header),
  )

module _ (ext : External) (d : ext.store.Db) where
  pub get_block_by_number_of :
      (n : ℕ) {r : Option (Option Hash)}
      → get_header_hash ext d n ≡ r
      → get_block_by_number ext d n ≡ follow r (get_block ext d)
  unfolding get_block_by_number
  get_block_by_number_of n e = rw (get_block_by_number, e)

  pub head_block_of :
      {r : Option (Option Hash)}
      → head_hash ext d ≡ r
      → head_block ext d ≡ follow r (get_block ext d)
  unfolding head_block
  head_block_of e = rw (head_block, e)
