-- ===== src/MemoryKv.antt =====
-- `MemoryKV` of common/store/src/lib.rs, a store in memory: what the databases of the node ask of a
-- store holds of it. A `HashMap` from bytes is a list of entries.
use ori.Base.{
  ◌≡◌, refl, ap, ◌∙◌, arith, true, false, Option, none, some, List, [], ◌∷◌, if◌then◌else◌,
  Bool-cases, inl, inr,
}
use ori.Types.Hash.{Bytes, same_bytes, eq_of_same_bytes}
use ori.External.{Store}

pub record MemoryKv : Type 0 where
  pub db : List (Bytes × Bytes)

find : Bytes → List (Bytes × Bytes) → Option Bytes
find key [] = none
find key ((k, v) ∷ d) = if same_bytes key k then some v else find key d

set : Bytes → Bytes → List (Bytes × Bytes) → List (Bytes × Bytes)
set key value [] = (key, value) ∷ []
set key value ((k, v) ∷ d) = if same_bytes key k then (key, value) ∷ d else (k, v) ∷ set key value d

unset : Bytes → List (Bytes × Bytes) → List (Bytes × Bytes)
unset key [] = []
unset key ((k, v) ∷ d) = if same_bytes key k then unset key d else (k, v) ∷ unset key d

unfoldable pub new_kv : MemoryKv
new_kv = record { db = [] }

unfoldable pub put : MemoryKv → Bytes → Bytes → MemoryKv
unfolding set
put m key value = record { db = set key value m.db }

unfoldable pub get : MemoryKv → Bytes → Option Bytes
unfolding find
get m key = find key m.db

unfoldable pub remove : MemoryKv → Bytes → MemoryKv
unfolding unset
remove m key = record { db = unset key m.db }

same_bytes-same : (j k i : Bytes) → same_bytes k i ≡ true → same_bytes j i ≡ same_bytes j k
same_bytes-same j k i e = rw (eq_of_same_bytes k i e) refl

find-set :
    (j key value : Bytes) (d : List (Bytes × Bytes))
    → find j (set key value d) ≡ (if same_bytes j key then some value else find j d)
unfolding find set
find-set j key value [] = refl
find-set j key value ((k, v) ∷ d) = elim (Bool-cases (same_bytes key k)) [
  | inl e ↦ elim (Bool-cases (same_bytes j key)) [
    | inl p ↦ rw (e, p) refl
    | inr p ↦ rw (e, same_bytes-same j key k e, p) refl
  ]
  | inr e ↦ elim (Bool-cases (same_bytes j key)) [
    | inl p ↦
        let q : same_bytes j k ≡ false = rw (eq_of_same_bytes j key p) e in
        rw (e, p, q) (find-set j key value d ∙ rw p refl)
    | inr p ↦
        rw (e, p)
          (ap (λ x. if same_bytes j k then some v else x) (find-set j key value d ∙ rw p refl))
  ]
]

find-unset :
    (j key : Bytes) (d : List (Bytes × Bytes))
    → find j (unset key d) ≡ (if same_bytes j key then none else find j d)
unfolding find unset
find-unset j key [] = ground arith
find-unset j key ((k, v) ∷ d) = elim (Bool-cases (same_bytes key k)) [
  | inl e ↦ elim (Bool-cases (same_bytes j key)) [
    | inl p ↦ rw (e, p) (find-unset j key d ∙ rw p refl)
    | inr p ↦ rw (e, same_bytes-same j key k e, p) (find-unset j key d ∙ rw p refl)
  ]
  | inr e ↦ elim (Bool-cases (same_bytes j key)) [
    | inl p ↦
        let q : same_bytes j k ≡ false = rw (eq_of_same_bytes j key p) e in
        rw (e, p, q) (find-unset j key d ∙ rw p refl)
    | inr p ↦
        rw (e, p) (ap (λ x. if same_bytes j k then some v else x) (find-unset j key d ∙ rw p refl))
  ]
]

-- The store in memory does what the databases rely on: what was put under a key is got under it, what
-- was removed is not, and under other keys all is as it was.
pub get-put_remove :
    (m : MemoryKv) (key value j : Bytes)
    → (get (put m key value) j ≡ (if same_bytes j key then some value else get m j))
      × (get (remove m key) j ≡ (if same_bytes j key then none else get m j))
unfolding get put remove
get-put_remove m key value j = (find-set j key value m.db, find-unset j key m.db)

abbrev pub memory_store : Store
memory_store = record {
  Db = MemoryKv;
  get = get;
  put = put;
  remove = remove;
  get-put = λ m key value j. (get-put_remove m key value j).0;
  get-remove = λ m key j. (get-put_remove m key [] j).1;
}
