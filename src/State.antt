-- ===== src/State.antt =====
-- `StateDB` of core/src/state.rs: storage as a trie with the changes of the running block over it.
-- `HashMap<Hash, Option<Vec<u8>>>` is a dictionary, whose order of iteration is any order.
pub mod Storage
pub mod Commit
pub mod Archive
pub mod Caching
use ori.Base.{Bool, Option, none, some, List, [], ◌∷◌, if◌then◌else◌}
use ori.Base.Dict.{Dict, keys, lookup, insert}
use ori.Types.Hash.{Bytes, Hash}
use ori.External.{Trie}

pub record StateDb (t : Trie) : Type 0 where
  pub db : t.Db
  pub state_root : Hash
  -- a key with `none` is removed
  pub local_changes : Dict (Option Bytes)

module _ (t : Trie) where
  -- `StateDB::from_existing`
  unfoldable pub from_existing : t.Db → Hash → StateDb t
  from_existing d root = record { db = d; state_root = root; local_changes = [] }

  -- One round of the loop in `commit`.
  apply_change : Hash → Option Bytes → t.Db × Hash → t.Db × Hash
  apply_change key (some d) (db, root) = t.insert db root key d
  apply_change key none (db, root) = t.remove db root key

  apply_changes : Dict (Option Bytes) → t.Db × Hash → t.Db × Hash
  apply_changes [] at = at
  apply_changes ((key, change) ∷ rest) at = apply_changes rest (apply_change key change at)

module _ {t : Trie} where
  unfoldable pub set_storage : Hash → Bytes → StateDb t → StateDb t
  set_storage key value s = record s { local_changes = insert key (some value) s.local_changes }

  unfoldable pub remove_storage : Hash → StateDb t → StateDb t
  remove_storage key s = record s { local_changes = insert key none s.local_changes }

  unfoldable pub get_storage : StateDb t → Hash → Option Bytes
  get_storage s key = elim (lookup key s.local_changes) [
    | some change ↦ change
    | none ↦ if t.is_open s.db s.state_root then t.get s.db s.state_root key else none
  ]

  -- `StateDB::commit`; `none` is the panic on a root that the database does not have. The changes
  -- are kept after they have been written.
  unfoldable pub commit : StateDb t → Option (StateDb t)
  unfolding apply_changes apply_change
  commit s =
      if t.is_open s.db s.state_root
      then (let (d, root) = apply_changes t s.local_changes (s.db, s.state_root) in
          some (record s { db = t.flush d; state_root = root }))
      else none
