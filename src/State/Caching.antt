-- ===== src/State/Caching.antt =====
-- `CachingDB` of core/src/state.rs: the nodes of the tries on the disk with counts of their references,
-- and what the counts change by in memory. A count is a u32; `count as i32 + rc` is a sum in two's
-- complement. The outer `none` of a result is a panic.
pub mod Commit
use ori.Base.{
  ℕ, ◌≡◌, refl, sym, ap, subst, ◌∙◌, ◌+◌, ◌%◌, ◌<◌, ◌^◌, Bool, true, false, ◌&&◌, Option, none,
  some, List, [], ◌∷◌, ◌==◌, eq_of_==, ltb, leb, if◌then◌else◌, is_some, Distinct, has, arith,
  ◌>>=◌, Bool-cases, Option-cases, inl, inr,
}
use mathlib.Core.Option
use ori.Base.Dict.{Dict, keys, lookup, lookup-not_has}
use ori.Base.Every.{Every}
use ori.Types.Hash.{Bytes, Hash, as_bytes}
use ori.External.{Store, NodeMemory, Codec}
use ori.State.Archive.{is_positive, is_negative, InRange, put-get}

pub record Payload : Type 0 where
  pub count : ℕ
  pub value : Bytes

pub record CachingDb (s : Store) (m : NodeMemory) : Type 0 where
  pub backend : s.Db
  pub cached : m.Db

-- `count as i32 + rc > 0`
abbrev pub is_counted : ℕ → Payload → Bool
is_counted rc x = is_positive ((x.count + rc) % 2 ^ 32)

-- What stands on the disk, decoded
abbrev pub read_payload : Codec Payload → Option Bytes → Option (Option Payload)
read_payload c none = some none
read_payload c (some bs) = do x ← c.deserialize bs; some (some x)

-- The node of the disk, if it counts
abbrev pub counted : ℕ → Option Payload → Option Bytes
counted rc none = none
counted rc (some x) = if is_counted rc x then some x.value else none

abbrev pub counts : ℕ → Option Payload → Bool
counts rc none = false
counts rc (some x) = is_counted rc x

abbrev pub from_disk : ℕ → Option (Option Payload) → Option (Option Bytes)
from_disk rc on_disk = do x ← on_disk; some (counted rc x)

-- The node in memory, if it counts, else what counts on the disk.
abbrev pub find_node : Option (Bytes × ℕ) → Option (Option Payload) → Option (Option Bytes)
find_node none on_disk = from_disk 0 on_disk
find_node (some (d, rc)) on_disk = if is_positive rc then some (some d) else from_disk rc on_disk

abbrev pub has_node : Option (Bytes × ℕ) → Option (Option Payload) → Option Bool
has_node none on_disk = do x ← on_disk; some (counts 0 x)
has_node (some (_, rc)) on_disk =
    if is_positive rc then some true else (do x ← on_disk; some (counts rc x))

is_some-counted : (rc : ℕ) (x : Option Payload) → is_some (counted rc x) ≡ counts rc x
is_some-counted rc none = refl
is_some-counted rc (some x) = elim (Bool-cases (is_counted rc x)) [
  | inl e ↦ rw e refl
  | inr e ↦ rw e refl
]

disk_has :
    (rc : ℕ) (on_disk : Option (Option Payload))
    → (on_disk >>= λ x. some (counts rc x)) ≡ Option.map is_some (from_disk rc on_disk)
disk_has rc none = refl
disk_has rc (some x) = ap some (sym (is_some-counted rc x))

has_node-find_node :
    (node : Option (Bytes × ℕ)) (on_disk : Option (Option Payload))
    → has_node node on_disk ≡ Option.map is_some (find_node node on_disk)
has_node-find_node none on_disk = disk_has 0 on_disk
has_node-find_node (some (d, rc)) on_disk = elim (Bool-cases (is_positive rc)) [
  | inl e ↦ rw e refl
  | inr e ↦ rw e (disk_has rc on_disk)
]

module _ (c : Codec Payload) (s : Store) where
  unfoldable pub payload : Hash → s.Db → Option (Option Payload)
  payload key backend = read_payload c (s.get backend (as_bytes key))

  -- What `commit` writes for a node whose count changes; `none` is the panic on a negative count.
  abbrev pub write_counted : Hash → Bytes → ℕ → Option Payload → s.Db → Option s.Db
  write_counted key value rc (some x) backend =
      let total_rc = (x.count + rc) % 2 ^ 32 in
      if is_negative total_rc
      then none
      else some (
          s.put backend (as_bytes key) (c.serialize (record { count = total_rc; value = x.value })))
  write_counted key value rc none backend =
      if is_negative rc
      then none
      else some (s.put backend (as_bytes key) (c.serialize (record { count = rc; value = value })))

  pub write_node : Hash → Bytes → ℕ → s.Db → Option s.Db
  write_node key value rc backend =
      if rc == 0
      then some backend
      else (do x ← payload key backend; write_counted key value rc x backend)

  pub write_all : Dict (Bytes × ℕ) → s.Db → Option s.Db
  write_all [] backend = some backend
  write_all ((key, (value, rc)) ∷ nodes) backend = do
    backend' ← write_node key value rc backend
    write_all nodes backend'

module _ (c : Codec Payload) {s : Store} {m : NodeMemory} where
  pub new : s.Db → CachingDb s m
  new backend = record { backend = backend; cached = m.new }

  pub get : Hash → CachingDb s m → Option (Option Bytes)
  get key db = find_node (m.raw db.cached key) (payload c s key db.backend)

  pub contains : Hash → CachingDb s m → Option Bool
  contains key db = has_node (m.raw db.cached key) (payload c s key db.backend)

  pub insert : Bytes → CachingDb s m → Hash × CachingDb s m
  insert value db =
      let (key, cached) = m.insert db.cached value in (key, record db { cached = cached })

  pub emplace : Hash → Bytes → CachingDb s m → CachingDb s m
  emplace key value db = record db { cached = m.emplace db.cached key value }

  pub remove : Hash → CachingDb s m → CachingDb s m
  remove key db = record db { cached = m.remove db.cached key }

  pub commit : CachingDb s m → Option (CachingDb s m)
  commit db =
      let (nodes, cached) = m.drain db.cached in
      do
        backend ← write_all c s nodes db.backend
        some (record { backend = backend; cached = cached })

  -- Under every key and in every database, `contains`, which is written apart from `get`, says whether
  -- `get` finds a node, and panics when it does.
  pub contains-get :
      (key : Hash) (db : CachingDb s m) → contains key db ≡ Option.map is_some (get key db)
  unfolding contains get
  contains-get key db = has_node-find_node (m.raw db.cached key) (payload c s key db.backend)
