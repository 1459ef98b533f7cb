-- ===== src/External.antt =====
-- What the node takes from packages outside the repository, with the documented behaviour that it
-- relies on: bincode, blake2b-rs, trie-db, memory_db and ed25519.
use ori.Base.{
  ℕ, ◌<◌, ◌^◌, ◌≡◌, Bool, true, Option, none, some, List, [], ◌∷◌, ◌==◌, if◌then◌else◌, ◌&&◌, ltb,
  Distinct,
}
use ori.Base.Dict.{Dict, keys, lookup}
use ori.Base.Every.{Every}
use ori.Types.Hash.{Bytes, Hash, same_bytes, is_filled}
use ori.Types.Ledger.{Account, Validator, ListEntry}
use ori.Types.Message.{MsgTransfer, MsgValidatorCreate, SignatureInfo, Transaction, TxHashType}
use ori.Types.Block.{Header, VerificationItem, Block}

-- `bincode::serialize` and `bincode::deserialize` at one type; `none` is a decoding error.
pub record Codec (A : Type 0) : Type 0 where
  pub serialize : A → Bytes
  pub deserialize : Bytes → Option A
  pub deserialize-serialize : (a : A) → deserialize (serialize a) ≡ some a

-- `EMPTY_TRIE` of core/src/trie.rs
abbrev pub empty_node : Bytes
empty_node = 128 ∷ []

-- What a trie keeps of a value: nothing of the empty one.
abbrev pub kept_value : Bytes → Option Bytes
kept_value [] = none
kept_value (b ∷ bs) = some (b ∷ bs)

-- A Patricia trie over the database of nodes. A trie is named by its root; `open` says whether
-- `TrieDB::new` and `TrieDBMut::from_existing` find the root, and a trie that opens is complete.
-- `flush` is `ArchiveDB::commit`, which moves cached nodes to the disk. A key that is given the empty
-- value is removed.
pub record Trie : Type 1 where
  pub Db : Type 0
  pub is_open : Db → Hash → Bool
  pub get : Db → Hash → Hash → Option Bytes
  pub insert : Db → Hash → Hash → Bytes → Db × Hash
  pub remove : Db → Hash → Hash → Db × Hash
  pub flush : Db → Db
  pub get-insert :
      (d : Db) (r k : Hash) (v : Bytes) (j : Hash)
      → is_open d r ≡ true
      → let (d', r') = insert d r k v in get d' r' j ≡ (if j == k then kept_value v else get d r j)
  pub get-remove :
      (d : Db) (r k j : Hash)
      → is_open d r ≡ true
      → let (d', r') = remove d r k in get d' r' j ≡ (if j == k then none else get d r j)
  pub get-flush : (d : Db) (r j : Hash) → get (flush d) r j ≡ get d r j
  pub is_open-insert :
      (d : Db) (r k : Hash) (v : Bytes)
      → is_open d r ≡ true
      → let (d', r') = insert d r k v in is_open d' r' ≡ true
  pub is_open-remove :
      (d : Db) (r k : Hash)
      → is_open d r ≡ true
      → let (d', r') = remove d r k in is_open d' r' ≡ true
  pub is_open-flush : (d : Db) (r : Hash) → is_open (flush d) r ≡ is_open d r

-- A key-value store on the disk; writes that fail are left out.
pub record Store : Type 1 where
  pub Db : Type 0
  pub get : Db → Bytes → Option Bytes
  pub put : Db → Bytes → Bytes → Db
  pub remove : Db → Bytes → Db
  pub get-put :
      (d : Db) (k v j : Bytes) → get (put d k v) j ≡ (if same_bytes j k then some v else get d j)
  pub get-remove :
      (d : Db) (k j : Bytes) → get (remove d k) j ≡ (if same_bytes j k then none else get d j)

-- `memory_db::MemoryDB` with hashes for keys, which reads no prefix: nodes with a count of references,
-- an i32 that stands as its number in two's complement. The null node is always there; `drain` takes
-- out all others.
pub record NodeMemory : Type 1 where
  pub Db : Type 0
  pub new : Db
  pub null_node : Hash
  pub raw : Db → Hash → Option (Bytes × ℕ)
  pub drain : Db → Dict (Bytes × ℕ) × Db
  pub insert : Db → Bytes → Hash × Db
  pub emplace : Db → Hash → Bytes → Db
  pub remove : Db → Hash → Db
  pub raw-drain :
      (m : Db) (k : Hash)
      → raw m k ≡ (if k == null_node then some (empty_node, 1) else lookup k (drain m).0)
  pub raw-drained :
      (m : Db) (k : Hash)
      → raw (drain m).1 k ≡ (if k == null_node then some (empty_node, 1) else none)
  pub drain-Distinct : (m : Db) → Distinct (keys (drain m).0)
  pub drain-in_range : (m : Db) → Every (λ k v. ltb k (2 ^ 256) && ltb v.1 (2 ^ 32)) (drain m).0

-- The encodings that the node stores, sends or hashes.
pub record Codecs : Type 0 where
  pub account : Codec Account
  pub entry : Codec (ListEntry Validator)
  pub transfer : Codec MsgTransfer
  pub validator_create : Codec MsgValidatorCreate
  pub amount : Codec ℕ
  pub tx_hash : Codec TxHashType
  pub header : Codec Header
  pub block : Codec Block
  pub txs : Codec (List Transaction)
  pub signs : Codec (List VerificationItem)
  -- a struct with numbers has bytes
  pub account_filled : (a : Account) → is_filled (account.serialize a) ≡ true
  pub entry_filled : (e : ListEntry Validator) → is_filled (entry.serialize e) ≡ true

pub record External : Type 1 where
  pub trie : Trie
  pub store : Store
  pub codecs : Codecs
  -- blake2b with a result of 32 bytes, on input that is not empty
  pub blake2b : Bytes → Hash
  pub blake2b-lt : (bs : Bytes) → blake2b bs < 2 ^ 256
  -- `Pubkey::verify` at a key, a message and a signature
  pub verify : Hash → Hash → SignatureInfo → Bool
  -- `PrivKey::to_pubkey`, and `PrivKey::sign` at a key and a message
  pub to_pubkey : Hash → Option Hash
  pub sign : Hash → Hash → Option SignatureInfo
  pub verify-sign :
      (key public msg : Hash) (info : SignatureInfo)
      → to_pubkey key ≡ some public
      → sign key msg ≡ some info
      → verify public msg info ≡ true
