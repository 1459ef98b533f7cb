-- ===== src/State/Caching/Commit.antt =====
-- A commit of `CachingDB` of core/src/state.rs.
use ori.Base.{
  ℕ, ◌≡◌, refl, ap, ◌∙◌, ◌+◌, ◌%◌, ◌<◌, ◌^◌, true, false, Option, none, some, [], ◌∷◌, ◌==◌,
  eq_of_==, ==_of_eq, ltb, if◌then◌else◌, Distinct, has, arith, ◌>>=◌, Bool-cases, inl, inr,
}
use ori.Base.Dict.{Dict, keys, lookup, lookup-not_has}
use ori.Types.Hash.{Bytes, Hash, as_bytes}
use ori.External.{Store, NodeMemory, Codec}
use ori.State.Archive.{is_positive, is_negative, InRange, put-get}
use ori.State.Caching.{
  Payload, CachingDb, is_counted, from_disk, find_node, payload, write_counted, write_node,
  write_all, get, commit,
}

module _ (c : Codec Payload) (s : Store) where
  -- What is written goes with what is on the disk: no count gets negative, and a node that is there has
  -- the same value and room for the references that are added.
  abbrev pub Fits : Bytes → ℕ → Option Payload → Type 0
  Fits value rc none = is_negative rc ≡ false
  Fits value rc (some x) =
      (is_negative ((x.count + rc) % 2 ^ 32) ≡ false)
      × (is_positive rc ≡ true → (x.value ≡ value) × (is_counted rc x ≡ true))

  abbrev pub FitsAll : Dict (Bytes × ℕ) → s.Db → Type 0
  FitsAll [] backend = Unit
  FitsAll ((key, (value, rc)) ∷ nodes) backend =
      ((x : Option Payload) × (payload c s key backend ≡ some x) × Fits value rc x)
      × FitsAll nodes backend

  put-payload :
      (key k : Hash) (x : Payload) (backend : s.Db)
      → ltb key (2 ^ 256) ≡ true
      → k < 2 ^ 256
      → payload c s k (s.put backend (as_bytes key) (c.serialize x))
        ≡ (if k == key then some (some x) else payload c s k backend)
  unfolding payload
  put-payload key k x backend small lt = elim (Bool-cases (k == key)) [
    | inl e ↦
        rw (put-get s key k (c.serialize x) backend small lt, e, c.deserialize-serialize x, ◌>>=◌)
          refl
    | inr e ↦ rw (put-get s key k (c.serialize x) backend small lt, e) refl
  ]

  -- A node is written: under its key the disk alone shows what disk and memory showed, and the rest of
  -- the disk is as it was.
  abbrev Wrote : Hash → Bytes → ℕ → s.Db → s.Db → Type 0
  Wrote key value rc backend backend' =
      (from_disk 0 (payload c s key backend')
        ≡ find_node (some (value, rc)) (payload c s key backend))
      × ((k : Hash)
          → k < 2 ^ 256
          → (k == key) ≡ false
          → payload c s k backend' ≡ payload c s k backend)

  put-Wrote :
      (key : Hash) (value : Bytes) (rc : ℕ) (x : Payload) (backend : s.Db)
      → ltb key (2 ^ 256) ≡ true
      → key < 2 ^ 256
      → from_disk 0 (some (some x)) ≡ find_node (some (value, rc)) (payload c s key backend)
      → Wrote key value rc backend (s.put backend (as_bytes key) (c.serialize x))
  put-Wrote key value rc x backend small lt e =
      let at : payload c s key (s.put backend (as_bytes key) (c.serialize x)) ≡ some (some x) =
        put-payload key key x backend small lt ∙ rw (==_of_eq key key refl) refl in
      (ap (from_disk 0) at ∙ e, λ k lt' ne. put-payload key k x backend small lt' ∙ rw ne refl)

  write_counted-Wrote :
      (key : Hash) (value : Bytes) (rc : ℕ) (x : Option Payload) (backend : s.Db)
      → ltb key (2 ^ 256) ≡ true
      → rc < 2 ^ 32
      → payload c s key backend ≡ some x
      → Fits value rc x
      → (backend' : s.Db) × (write_counted c s key value rc x backend ≡ some backend')
        × Wrote key value rc backend backend'
  write_counted-Wrote key value rc none backend small lt e f =
      let x : Payload = record { count = rc; value = value } in
      let same : (rc + 0) % 2 ^ 32 ≡ rc = omega (arith, lt) in
      let shown : from_disk 0 (some (some x))
          ≡ find_node (some (value, rc)) (payload c s key backend) =
        elim (Bool-cases (is_positive rc)) [
          | inl p ↦ rw (e, is_counted, same, p) refl
          | inr p ↦ rw (e, is_counted, same, p) refl
        ] in
      (
        s.put backend (as_bytes key) (c.serialize x),
        rw f refl,
        put-Wrote key value rc x backend small (ground (arith, small)) shown,
      )
  write_counted-Wrote key value rc (some x) backend small lt e f =
      let total = (x.count + rc) % 2 ^ 32 in
      let y : Payload = record { count = total; value = x.value } in
      let same : (total + 0) % 2 ^ 32 ≡ total = omega arith in
      let shown : from_disk 0 (some (some y))
          ≡ find_node (some (value, rc)) (payload c s key backend) =
        elim (Bool-cases (is_positive rc)) [
          | inl p ↦ rw (e, is_counted, same, p, (f.1 p).1, (f.1 p).0) refl
          | inr p ↦ rw (e, is_counted, same, p) refl
        ] in
      (
        s.put backend (as_bytes key) (c.serialize y),
        rw f.0 refl,
        put-Wrote key value rc y backend small (ground (arith, small)) shown,
      )

  write_node-Wrote :
      (key : Hash) (value : Bytes) (rc : ℕ) (x : Option Payload) (backend : s.Db)
      → ltb key (2 ^ 256) ≡ true
      → rc < 2 ^ 32
      → payload c s key backend ≡ some x
      → Fits value rc x
      → (backend' : s.Db) × (write_node c s key value rc backend ≡ some backend')
        × Wrote key value rc backend backend'
  unfolding write_node
  write_node-Wrote key value rc x backend small lt e f = elim (Bool-cases (rc == 0)) [
    | inl zero_rc ↦ (
      backend,
      rw (zero_rc, write_node) refl,
      (rw (eq_of_== rc 0 zero_rc) refl, λ k lt' ne. refl),
    )
    | inr other ↦
        let (backend', w, at) = write_counted-Wrote key value rc x backend small lt e f in
        (backend', rw (other, write_node, e, ◌>>=◌) w, at)
  ]

  -- The nodes that are still to be written fit, when one of them with another key has been.
  FitsAll-frame :
      (key : Hash) (nodes : Dict (Bytes × ℕ)) (backend backend' : s.Db)
      → has key (keys nodes) ≡ false
      → InRange nodes
      → ((k : Hash)
          → k < 2 ^ 256
          → (k == key) ≡ false
          → payload c s k backend' ≡ payload c s k backend)
      → FitsAll nodes backend
      → FitsAll nodes backend'
  FitsAll-frame key [] backend backend' fresh r o f = tt
  FitsAll-frame key ((k, (value, rc)) ∷ nodes) backend backend' fresh r o f = (
    (f.0.0, o k (ground (arith, r.0)) (ground (arith, fresh)) ∙ f.0.1, f.0.2),
    FitsAll-frame key nodes backend backend' (ground (arith, fresh)) r.1 o f.1,
  )

  pub write_all-shows :
      (nodes : Dict (Bytes × ℕ)) (backend : s.Db)
      → Distinct (keys nodes)
      → InRange nodes
      → FitsAll nodes backend
      → (backend' : s.Db) × (write_all c s nodes backend ≡ some backend')
        × ((k : Hash)
            → k < 2 ^ 256
            → from_disk 0 (payload c s k backend')
              ≡ find_node (lookup k nodes) (payload c s k backend))
  unfolding write_all
  write_all-shows [] backend d r f = (backend, refl, λ k lt. refl)
  write_all-shows ((key, (value, rc)) ∷ nodes) backend d r f =
      let (b₁, w, at) =
        write_node-Wrote key value rc f.0.0 backend (ground (arith, r.0)) (ground (arith, r.0))
          f.0.1 f.0.2 in
      let (b₂, ws, rest) =
        write_all-shows nodes b₁ d.1 r.1 (FitsAll-frame key nodes backend b₁ d.0 r.1 at.1 f.1) in
      (
        b₂,
        rw (w, ◌>>=◌) ws,
        λ k lt. rest k lt ∙ elim (Bool-cases (k == key)) [
          | inl e ↦
              let gone : lookup k nodes ≡ none =
                lookup-not_has k nodes (rw (eq_of_== k key e) d.0) in
              rw (gone, e, eq_of_== k key e) at.0
          | inr e ↦ rw (e, at.1 k lt e) refl
        ],
      )

module _ (c : Codec Payload) {s : Store} {m : NodeMemory} where
  -- A commit of nodes that fit what is on the disk does not panic, and changes no node that the
  -- database shows: under any key below 2 ^ 256, `get` gives after it what it gave before.
  pub commit_keeps_nodes :
      (db : CachingDb s m)
      → FitsAll c s (m.drain db.cached).0 db.backend
      → (db' : CachingDb s m) × (commit c db ≡ some db')
        × ((k : Hash) → k < 2 ^ 256 → get c k db' ≡ get c k db)
  unfolding commit get
  commit_keeps_nodes db f =
      let (backend', w, shows) =
        write_all-shows c s (m.drain db.cached).0 db.backend (m.drain-Distinct db.cached)
          (m.drain-in_range db.cached) f in
      let db' : CachingDb s m = record { backend = backend'; cached = (m.drain db.cached).1 } in
      (
        db',
        rw (w, ◌>>=◌) refl,
        λ k lt. elim (Bool-cases (k == m.null_node)) [
          | inl e ↦ rw (m.raw-drained db.cached k, m.raw-drain db.cached k, e) refl
          | inr e ↦ rw (m.raw-drained db.cached k, m.raw-drain db.cached k, e) (shows k lt)
        ],
      )
