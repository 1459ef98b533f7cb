-- ===== src/Examples/Nodes.antt =====
-- The theorems on the databases of nodes, over a memory that is a dictionary and the store in memory.
use ori.Base.{
  ℕ, ◌≡◌, refl, ◌+◌, ◌%◌, ◌<◌, ◌^◌, ◌&&◌, not, Option, none, some, [], ◌∷◌, ◌==◌, ltb,
  if◌then◌else◌, Distinct, has, arith, length,
}
use ori.Base.Dict.{Dict, keys, lookup, insert}
use ori.Types.Hash.{Bytes, Hash, as_bytes}
use ori.Examples.Wire.{codec, iso_wire, nat_wire, list_wire, ◌&◌}
use ori.External.{NodeMemory, empty_node, Codec}
use ori.MemoryKv.{new_kv, memory_store, put, get, remove, get-put_remove}
use ori.State.Archive
use ori.State.Archive.{ArchiveDb, InRange}
use ori.State.Caching
use ori.State.Caching.{Payload, CachingDb}
use ori.State.Caching.Commit.{FitsAll}
use ori.State.Caching.Commit

-- The entries that a memory may hold: one for each hash.
abbrev clean : Dict (Bytes × ℕ) → Dict (Bytes × ℕ)
clean [] = []
clean ((k, v) ∷ d) =
    let rest = clean d in
    if ltb k (2 ^ 256) && ltb v.1 (2 ^ 32) && not (has k (keys rest)) then (k, v) ∷ rest else rest

clean-Distinct : (d : Dict (Bytes × ℕ)) → Distinct (keys (clean d))
clean-Distinct [] = tt
clean-Distinct ((k, v) ∷ d) = ground (arith, clean-Distinct d)

clean-InRange : (d : Dict (Bytes × ℕ)) → InRange (clean d)
clean-InRange [] = tt
clean-InRange ((k, v) ∷ d) = ground (arith, clean-InRange d)

abbrev change : Hash → Bytes → ℕ → Dict (Bytes × ℕ) → Dict (Bytes × ℕ)
change key value by d = elim (lookup key d) [
  | none ↦ (key, (value, by)) ∷ d
  | some v ↦ insert key (value, (v.1 + by) % 2 ^ 32) d
]

abbrev null_key : Hash
null_key = 99

abbrev shown : Dict (Bytes × ℕ) → Hash → Option (Bytes × ℕ)
shown d k = if k == null_key then some (empty_node, 1) else lookup k (clean d)

-- The hash of a node is its length.
abbrev memory : NodeMemory
memory = record {
  Db = Dict (Bytes × ℕ);
  new = [];
  null_node = null_key;
  raw = shown;
  drain = λ d. (clean d, []);
  insert = λ d value. (length value, change (length value) value 1 d);
  emplace = λ d key value. change key value 1 d;
  remove = λ d key. change key [] 4294967295 d;
  raw-drain = λ d k. refl;
  raw-drained = λ d k. refl;
  drain-Distinct = clean-Distinct;
  drain-in_range = clean-InRange;
}

abbrev archive : ArchiveDb memory_store memory
archive = record {
  backend = new_kv;
  cached = (5, ((1 ∷ []), 1)) ∷ (6, ((2 ∷ []), 4294967295)) ∷ [];
}

get-put_remove_example :
    (get (put new_kv (1 ∷ []) (7 ∷ [])) (1 ∷ []) ≡ some (7 ∷ []))
    × (get (remove new_kv (1 ∷ [])) (1 ∷ []) ≡ none)
get-put_remove_example = get-put_remove new_kv (1 ∷ []) (7 ∷ []) (1 ∷ [])

get-commit_example : Archive.get 5 (Archive.commit archive) ≡ Archive.get 5 archive
get-commit_example = Archive.get-commit 5 archive (omega arith)

abbrev payload_codec : Codec Payload
payload_codec = codec (
    iso_wire (λ x. (x.count, x.value)) (λ (n, v). record { count = n; value = v }) (λ x. refl)
      (nat_wire & list_wire nat_wire))

abbrev caching : CachingDb memory_store memory
caching = record { backend = new_kv; cached = (5, ((1 ∷ []), 1)) ∷ (6, ((2 ∷ []), 0)) ∷ [] }

caching-FitsAll : FitsAll payload_codec memory_store (memory.drain caching.cached).0 caching.backend
unfolding new_kv get Caching.payload as_bytes
caching-FitsAll = ((none, refl, refl), ((none, refl, refl), tt))

commit_keeps_nodes_example :
    (db' : CachingDb memory_store memory) × (Caching.commit payload_codec caching ≡ some db')
    × ((k : Hash)
        → k < 2 ^ 256
        → Caching.get payload_codec k db' ≡ Caching.get payload_codec k caching)
commit_keeps_nodes_example = Commit.commit_keeps_nodes payload_codec caching caching-FitsAll
