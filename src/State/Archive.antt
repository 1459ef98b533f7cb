-- ===== src/State/Archive.antt =====
-- `ArchiveDB` of core/src/state.rs: the nodes of the tries on the disk, with those that are new in
-- memory. The null node is in memory always. A database on the disk is passed on by its users.
use ori.Base.{
  ℕ, ◌≡◌, refl, ◌∙◌, ◌<◌, ◌^◌, Bool, true, ◌&&◌, Option, none, some, [], ◌∷◌, ◌==◌, ltb, ap,
  eq_of_==, leb, if◌then◌else◌, is_some, Distinct, arith, Bool-cases, inl, inr,
}
use ori.Base.Dict.{Dict, keys, lookup, lookup-not_has}
use ori.Base.Every.{Every}
use ori.Types.Hash.{Bytes, Hash, as_bytes, same_bytes-be_bytes}
use ori.External.{Store, NodeMemory}

-- `rc > 0` and `rc < 0`, of an i32 in two's complement
abbrev pub is_positive : ℕ → Bool
is_positive rc = ltb 0 rc && ltb rc (2 ^ 31)

abbrev pub is_negative : ℕ → Bool
is_negative rc = leb (2 ^ 31) rc

-- The node in memory, if it counts, else what is on the disk.
abbrev pub seen : Option (Bytes × ℕ) → Option Bytes → Option Bytes
seen none on_disk = on_disk
seen (some (d, rc)) on_disk = if is_positive rc then some d else on_disk

abbrev pub InRange : Dict (Bytes × ℕ) → Type 0
InRange nodes = Every (λ k v. ltb k (2 ^ 256) && ltb v.1 (2 ^ 32)) nodes

module _ (s : Store) where
  -- The loop of `commit` over the drained nodes
  pub write_all : Dict (Bytes × ℕ) → s.Db → s.Db
  write_all [] backend = backend
  write_all ((key, (value, rc)) ∷ nodes) backend =
      write_all nodes (if is_positive rc then s.put backend (as_bytes key) value else backend)

  pub put-get :
      (key k : Hash) (value : Bytes) (backend : s.Db)
      → ltb key (2 ^ 256) ≡ true
      → k < 2 ^ 256
      → s.get (s.put backend (as_bytes key) value) (as_bytes k)
        ≡ (if k == key then some value else s.get backend (as_bytes k))
  unfolding as_bytes
  put-get key k value backend small lt =
      let small' : key < 256 ^ 32 = ground (arith, small) in
      let lt' : k < 256 ^ 32 = omega (arith, lt) in
      s.get-put backend (as_bytes key) value (as_bytes k)
      ∙ rw (same_bytes-be_bytes 32 k key lt' small') refl

  -- What the disk shows after the loop: the nodes that count, over what was there.
  get-write_all :
      (nodes : Dict (Bytes × ℕ)) (backend : s.Db) (k : Hash)
      → Distinct (keys nodes)
      → InRange nodes
      → k < 2 ^ 256
      → s.get (write_all nodes backend) (as_bytes k)
        ≡ seen (lookup k nodes) (s.get backend (as_bytes k))
  unfolding write_all
  get-write_all [] backend k d r lt = refl
  get-write_all ((key, (value, rc)) ∷ nodes) backend k d r lt =
      get-write_all nodes (if is_positive rc then s.put backend (as_bytes key) value else backend) k
        d.1 r.1 lt
      ∙ elim (Bool-cases (k == key)) [
        | inl e ↦
            let gone : lookup k nodes ≡ none = lookup-not_has k nodes (rw (eq_of_== k key e) d.0) in
            rw (e, gone)
              (elim (Bool-cases (is_positive rc)) [
                | inl p ↦ rw p (put-get key k value backend small lt ∙ rw e refl)
                | inr p ↦ rw p refl
              ])
        | inr e ↦ rw e (elim (Bool-cases (is_positive rc)) [
          | inl p ↦
              rw p (ap (seen (lookup k nodes)) (put-get key k value backend small lt ∙ rw e refl))
          | inr p ↦ rw p refl
        ])
      ]
    where
      small : ltb key (2 ^ 256) ≡ true
      small = ground (arith, r.0)

pub record ArchiveDb (s : Store) (m : NodeMemory) : Type 0 where
  pub backend : s.Db
  pub cached : m.Db

module _ {s : Store} {m : NodeMemory} where
  pub new : s.Db → ArchiveDb s m
  new backend = record { backend = backend; cached = m.new }

  pub get : Hash → ArchiveDb s m → Option Bytes
  get key db = seen (m.raw db.cached key) (s.get db.backend (as_bytes key))

  pub contains : Hash → ArchiveDb s m → Bool
  contains key db = is_some (get key db)

  pub insert : Bytes → ArchiveDb s m → Hash × ArchiveDb s m
  insert value db =
      let (key, cached) = m.insert db.cached value in (key, record db { cached = cached })

  pub emplace : Hash → Bytes → ArchiveDb s m → ArchiveDb s m
  emplace key value db = record db { cached = m.emplace db.cached key value }

  pub remove : Hash → ArchiveDb s m → ArchiveDb s m
  remove key db = record db { cached = m.remove db.cached key }

  pub commit : ArchiveDb s m → ArchiveDb s m
  commit db =
      let (nodes, cached) = m.drain db.cached in
      record { backend = write_all s nodes db.backend; cached = cached }

  -- A commit changes no node that the database shows, and what is in memory only goes to the disk:
  -- under any key below 2 ^ 256 there is the same node before and after it.
  pub get-commit : (k : Hash) (db : ArchiveDb s m) → k < 2 ^ 256 → get k (commit db) ≡ get k db
  unfolding get commit
  get-commit k db lt =
      ap (seen (m.raw (m.drain db.cached).1 k)) (
        get-write_all s (m.drain db.cached).0 db.backend k (m.drain-Distinct db.cached)
          (m.drain-in_range db.cached) lt)
      ∙ rw (m.raw-drained db.cached k, m.raw-drain db.cached k)
          (elim (Bool-cases (k == m.null_node)) [ inl e ↦ rw e refl | inr e ↦ rw e refl ])
