-- ===== src/State/Storage.antt =====
-- What `get_storage` answers after each change, and that the changes stay a map.
use ori.Base.{Bool, Option, ◌≡◌, refl, true, none, some, arith, ◌==◌, if◌then◌else◌, Distinct}
use ori.Base.Dict.{keys, lookup-insert, insert-Distinct}
use ori.Base.Every.{Every, Every-insert}
use ori.Types.Hash.{Bytes, Hash, is_filled}
use ori.External.{Trie}
use ori.State.{StateDb, set_storage, remove_storage, get_storage}

-- The changes hold each key once, as a `HashMap` does.
abbrev pub IsMap : {t : Trie} → StateDb t → Type 0
IsMap s = Distinct (keys s.local_changes)

-- A change is a removal or a value that is not empty.
abbrev pub is_storable : Hash → Option Bytes → Bool
is_storable k none = true
is_storable k (some v) = is_filled v

-- The state can be committed: its changes are a map without empty values and its root is known.
abbrev pub IsReady : {t : Trie} → StateDb t → Type 0
IsReady {t} s = IsMap s × (t.is_open s.db s.state_root ≡ true) × Every is_storable s.local_changes

module _ {t : Trie} (s : StateDb t) (k j : Hash) where
  pub get_storage-set_storage :
      (v : Bytes) → get_storage (set_storage k v s) j ≡ (if j == k then some v else get_storage s j)
  unfolding get_storage set_storage
  get_storage-set_storage v = ground (arith, lookup-insert j k (some v) s.local_changes)

  pub get_storage-remove_storage :
      get_storage (remove_storage k s) j ≡ (if j == k then none else get_storage s j)
  unfolding get_storage remove_storage
  get_storage-remove_storage = ground (arith, lookup-insert j k none s.local_changes)

module _ {t : Trie} (s : StateDb t) (k : Hash) where
  pub set_storage-IsReady :
      (v : Bytes) → is_filled v ≡ true → IsReady s → IsReady (set_storage k v s)
  unfolding set_storage
  set_storage-IsReady v filled h = (
    insert-Distinct k (some v) s.local_changes h.0,
    h.1,
    Every-insert is_storable k (some v) s.local_changes filled h.2,
  )

  pub remove_storage-IsReady : IsReady s → IsReady (remove_storage k s)
  unfolding remove_storage
  remove_storage-IsReady h = (
    insert-Distinct k none s.local_changes h.0,
    h.1,
    Every-insert is_storable k none s.local_changes refl h.2,
  )
