-- ===== src/Examples/Versions.antt =====
-- A trie that keeps every version of its content: a root is the place of a version, and a content that
-- is there already keeps its place.
use ori.Base.{
  ℕ, zero, suc, ◌≡◌, refl, Bool, true, false, ◌&&◌, Option, none, some, List, [], ◌∷◌, ◌++◌, ◌==◌,
  if◌then◌else◌, length, arith, eq_of_==,
}
use ori.Base.Dict.{Dict, lookup, insert, lookup-insert}
use ori.Types.Hash.{Bytes, Hash, same_bytes, eq_of_same_bytes}
use ori.External.{Trie, External, kept_value}
use ori.Examples.Sample.{sample}

abbrev same_dict : Dict Bytes → Dict Bytes → Bool
same_dict [] [] = true
same_dict [] (_ ∷ _) = false
same_dict (_ ∷ _) [] = false
same_dict ((j, v) ∷ d) ((k, w) ∷ e) = (j == k) && same_bytes v w && same_dict d e

eq_of_same_dict : (d e : Dict Bytes) → same_dict d e ≡ true → d ≡ e
eq_of_same_dict [] [] h = refl
eq_of_same_dict [] (_ ∷ _) h = cc
eq_of_same_dict (_ ∷ _) [] h = cc
eq_of_same_dict ((j, v) ∷ d) ((k, w) ∷ e) h =
    let first : j ≡ k = eq_of_== j k (ground (arith, h)) in
    let second : v ≡ w = eq_of_same_bytes v w (ground (arith, h)) in
    let third : d ≡ e = eq_of_same_dict d e (ground (arith, h)) in rw (first, second, third) refl

abbrev pub nth : ℕ → List (Dict Bytes) → Dict Bytes
nth i [] = []
nth zero (m ∷ ms) = m
nth (suc i) (m ∷ ms) = nth i ms

abbrev pub is_place : ℕ → List (Dict Bytes) → Bool
is_place i [] = false
is_place zero (m ∷ ms) = true
is_place (suc i) (m ∷ ms) = is_place i ms

abbrev found_here : Bool → Option ℕ → Option ℕ
found_here true rest = some 0
found_here false none = none
found_here false (some i) = some (suc i)

abbrev index_of : Dict Bytes → List (Dict Bytes) → Option ℕ
index_of m [] = none
index_of m (x ∷ xs) = found_here (same_dict x m) (index_of m xs)

-- The place names the version.
abbrev Names : Dict Bytes → List (Dict Bytes) → Option ℕ → Type 0
Names m ms none = Unit
Names m ms (some i) = (nth i ms ≡ m) × (is_place i ms ≡ true)

found_here-Names :
    (m x : Dict Bytes) (xs : List (Dict Bytes)) (b : Bool) (r : Option ℕ)
    → (b ≡ true → x ≡ m)
    → Names m xs r
    → Names m (x ∷ xs) (found_here b r)
found_here-Names m x xs true r e h = (e refl, refl)
found_here-Names m x xs false none e h = tt
found_here-Names m x xs false (some i) e h = h

index_of-Names : (m : Dict Bytes) (ms : List (Dict Bytes)) → Names m ms (index_of m ms)
index_of-Names m [] = tt
index_of-Names m (x ∷ xs) =
    found_here-Names m x xs (same_dict x m) (index_of m xs) (eq_of_same_dict x m)
      (index_of-Names m xs)

abbrev placed : Dict Bytes → List (Dict Bytes) → Option ℕ → List (Dict Bytes) × ℕ
placed m ms (some i) = (ms, i)
placed m ms none = (ms ++ (m ∷ []), length ms)

nth-last : (m : Dict Bytes) (ms : List (Dict Bytes)) → nth (length ms) (ms ++ (m ∷ [])) ≡ m
nth-last m [] = refl
nth-last m (x ∷ xs) = nth-last m xs

is_place-last :
    (m : Dict Bytes) (ms : List (Dict Bytes)) → is_place (length ms) (ms ++ (m ∷ [])) ≡ true
is_place-last m [] = refl
is_place-last m (x ∷ xs) = is_place-last m xs

placed-Names :
    (m : Dict Bytes) (ms : List (Dict Bytes)) (r : Option ℕ)
    → Names m ms r
    → let (ms', i) = placed m ms r in Names m ms' (some i)
placed-Names m ms none h = (nth-last m ms, is_place-last m ms)
placed-Names m ms (some i) h = h

abbrev clear : Hash → Dict Bytes → Dict Bytes
clear k [] = []
clear k ((j, v) ∷ d) = if k == j then clear k d else (j, v) ∷ clear k d

lookup-clear :
    (j k : Hash) (d : Dict Bytes) → lookup j (clear k d) ≡ (if j == k then none else lookup j d)
lookup-clear j k [] = ground arith
lookup-clear j k ((i, v) ∷ d) = ground (arith, lookup-clear j k d)

abbrev put_value : Hash → Bytes → Dict Bytes → Dict Bytes
put_value k [] d = clear k d
put_value k (b ∷ bs) d = insert k (b ∷ bs) d

lookup-put_value :
    (j k : Hash) (v : Bytes) (d : Dict Bytes)
    → lookup j (put_value k v d) ≡ (if j == k then kept_value v else lookup j d)
lookup-put_value j k [] d = lookup-clear j k d
lookup-put_value j k (b ∷ bs) d = lookup-insert j k (b ∷ bs) d

abbrev pub store_version : Dict Bytes → List (Dict Bytes) → List (Dict Bytes) × ℕ
store_version m ms = placed m ms (index_of m ms)

store_version-Names :
    (m : Dict Bytes) (ms : List (Dict Bytes))
    → let (ms', i) = store_version m ms in Names m ms' (some i)
store_version-Names m ms = placed-Names m ms (index_of m ms) (index_of-Names m ms)

pub versions_get-insert :
    (d : List (Dict Bytes)) (r k : Hash) (v : Bytes) (j : Hash)
    → is_place r d ≡ true
    → let (d', r') = store_version (put_value k v (nth r d)) d in
      lookup j (nth r' d') ≡ (if j == k then kept_value v else lookup j (nth r d))
versions_get-insert d r k v j h =
    rw ((store_version-Names (put_value k v (nth r d)) d).0) (lookup-put_value j k v (nth r d))

pub versions_get-remove :
    (d : List (Dict Bytes)) (r k j : Hash)
    → is_place r d ≡ true
    → let (d', r') = store_version (clear k (nth r d)) d in
      lookup j (nth r' d') ≡ (if j == k then none else lookup j (nth r d))
versions_get-remove d r k j h =
    rw ((store_version-Names (clear k (nth r d)) d).0) (lookup-clear j k (nth r d))

pub versions_open :
    (m : Dict Bytes) (d : List (Dict Bytes))
    → let (d', r') = store_version m d in is_place r' d' ≡ true
versions_open m d = (store_version-Names m d).1

abbrev versions : Trie
versions = record {
  Db = List (Dict Bytes);
  is_open = λ d r. is_place r d;
  get = λ d r k. lookup k (nth r d);
  insert = λ d r k v. store_version (put_value k v (nth r d)) d;
  remove = λ d r k. store_version (clear k (nth r d)) d;
  flush = λ d. d;
  get-insert = versions_get-insert;
  get-remove = versions_get-remove;
  get-flush = λ d r j. refl;
  is_open-insert = λ d r k v h. versions_open (put_value k v (nth r d)) d;
  is_open-remove = λ d r k h. versions_open (clear k (nth r d)) d;
  is_open-flush = λ d r. refl;
}

-- The sample packages with this trie
abbrev pub versioned : External
versioned = record sample { trie = versions }
