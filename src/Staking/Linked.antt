-- ===== src/Staking/Linked.antt =====
-- The abstract view of the validator list: a state holds a sequence of validators.
use ori.Base.{
  ◌≡◌, ◌≢◌, refl, Option, none, some, true, false, List, [], ◌∷◌, arith, ◌==◌, >>=-eq-some,
  if◌then◌else◌, has, Distinct, Bool-cases, inl, inr, ◌⊎◌, eq_of_==,
}
use mathlib.Core.Option
use ori.Types.Hash.{Bytes, Hash, Address, as_bytes, from_bytes, from_bytes-as_bytes}
use ori.Types.Ledger.{Validator}
use ori.External.{External}
use ori.Crypto.{blake2b_256-lt}
use ori.State.{StateDb, get_storage, set_storage, remove_storage}
use ori.State.Storage.{get_storage-set_storage, get_storage-remove_storage}
use ori.Balance.{address_key}
use ori.Staking.{head_key, Entry, key_index, map_key, get_entry, put_entry}

module _ (ext : External) where
  abbrev pub keys : List Validator → List Hash
  keys [] = []
  keys (v ∷ vs) = map_key ext v ∷ keys vs

  -- the link to a sequence
  abbrev pub first : List Validator → Option Hash
  first [] = none
  first (v ∷ vs) = some (map_key ext v)

  abbrev pub find : Hash → List Validator → Option Validator
  find k [] = none
  find k (v ∷ vs) = if k == map_key ext v then some v else find k vs

  -- From an entry with the predecessor `pre` the links lead through the validators.
  abbrev pub Chain : StateDb ext.trie → Option Hash → List Validator → Type 0
  Chain s pre [] = Unit
  Chain s pre (v ∷ vs) =
      (get_entry ext s (map_key ext v) ≡ some (record { pre = pre; next = first vs; payload = v }))
      × Chain s (some (map_key ext v)) vs

  -- The state holds the validators in this order, each once, and an address that is none of theirs
  -- has no entry.
  pub record IsList (s : StateDb ext.trie) (vs : List Validator) : Type 0 where
    pub head : get_storage s head_key ≡ Option.map as_bytes (first vs)
    pub chain : Chain s none vs
    pub distinct : Distinct (head_key ∷ keys vs)
    pub absent :
        (a : Address)
        → has (key_index ext a) (keys vs) ≡ false
        → get_storage s (key_index ext a) ≡ none

  -- No two of the storage keys that are hashed from addresses in different ways collide.
  pub record KeysApart : Type 0 where
    pub head : (a : Address) → key_index ext a ≢ head_key
    pub account : (a b : Address) → address_key ext a ≢ key_index ext b
    pub account_head : (a : Address) → address_key ext a ≢ head_key

  pub from_bytes-key : (a : Address) → from_bytes (as_bytes (key_index ext a)) ≡ key_index ext a
  unfolding key_index
  from_bytes-key a = from_bytes-as_bytes _ (blake2b_256-lt ext _)

module _ (ext : External) (s : StateDb ext.trie) (k j : Hash) where
  pub get_entry-put_entry :
      (e : Entry)
      → get_entry ext (put_entry ext k e s) j ≡ (if j == k then some e else get_entry ext s j)
  unfolding get_entry put_entry
  get_entry-put_entry e = ground (
    arith,
    get_storage-set_storage s k j (ext.codecs.entry.serialize e),
    ext.codecs.entry.deserialize-serialize e,
  )

  pub get_storage-put_entry :
      (e : Entry) → j ≢ k → get_storage (put_entry ext k e s) j ≡ get_storage s j
  unfolding put_entry
  get_storage-put_entry e n =
      ground (arith, get_storage-set_storage s k j (ext.codecs.entry.serialize e))

  pub get_entry-set_storage :
      (v : Bytes) → j ≢ k → get_entry ext (set_storage k v s) j ≡ get_entry ext s j
  unfolding get_entry
  get_entry-set_storage v n = ground (arith, get_storage-set_storage s k j v)

  pub get_entry-remove_storage : j ≢ k → get_entry ext (remove_storage k s) j ≡ get_entry ext s j
  unfolding get_entry
  get_entry-remove_storage n = ground (arith, get_storage-remove_storage s k j)

pub get_entry_frame :
    (ext : External) (s s' : StateDb ext.trie) (k : Hash)
    → get_storage s' k ≡ get_storage s k
    → get_entry ext s' k ≡ get_entry ext s k
unfolding get_entry
get_entry_frame ext s s' k e = rw e

-- A chain survives a change that spares its entries.
pub frame :
    (ext : External) (s s' : StateDb ext.trie) (pre : Option Hash) (vs : List Validator)
    → Chain ext s pre vs
    → ((k : Hash) → has k (keys ext vs) ≡ true → get_entry ext s' k ≡ get_entry ext s k)
    → Chain ext s' pre vs
frame ext s s' pre [] c same = tt
frame ext s s' pre (v ∷ vs) c same = (
  rw (same (map_key ext v) (ground arith)) c.0,
  frame ext s s' (some (map_key ext v)) vs c.1 (λ k m. same k (ground arith)),
)

module _ (ext : External) (s : StateDb ext.trie) where
  pub get_entry_parts :
      (k : Hash) {e : Entry}
      → get_entry ext s k ≡ some e
      → (b : Bytes) × (get_storage s k ≡ some b) × (ext.codecs.entry.deserialize b ≡ some e)
  unfolding get_entry
  get_entry_parts k h = >>=-eq-some (get_storage s k) _ h

  pub get_entry_of_none : (k : Hash) → get_storage s k ≡ none → get_entry ext s k ≡ none
  unfolding get_entry
  get_entry_of_none k e = rw e

  -- A key of the list has an entry, so a key with nothing stored is none of the list.
  pub not_has_of_none :
      (k : Hash) (pre : Option Hash) (vs : List Validator)
      → Chain ext s pre vs
      → get_storage s k ≡ none
      → has k (keys ext vs) ≡ false
  not_has_of_none k pre [] c e = refl
  not_has_of_none k pre (v ∷ vs) c e = elim (Bool-cases (k == map_key ext v)) [
    | inl same ↦ cc (c.0, get_entry_of_none k e, eq_of_== k (map_key ext v) same)
    | inr other ↦ ground (arith, not_has_of_none k (some (map_key ext v)) vs c.1 e)
  ]

  pub find-not_has :
      (k : Hash) (vs : List Validator) → has k (keys ext vs) ≡ false → find ext k vs ≡ none
  find-not_has k [] h = refl
  find-not_has k (v ∷ vs) h = ground (arith, find-not_has k vs)

  pub not_has_of_find :
      (k : Hash) (vs : List Validator) → find ext k vs ≡ none → has k (keys ext vs) ≡ false
  not_has_of_find k [] h = refl
  not_has_of_find k (v ∷ vs) h = ground (arith, not_has_of_find k vs)

-- Nothing is written but under these keys.
abbrev pub Spares : (ext : External) → StateDb ext.trie → StateDb ext.trie → List Hash → Type 0
Spares ext s s' ks = (j : Hash) → (has j ks ≡ true) ⊎ (get_storage s' j ≡ get_storage s j)

-- The key of an account is none of the list's.
pub account_not_has :
    (ext : External) (apart : KeysApart ext) (a : Address) (vs : List Validator)
    → has (address_key ext a) (keys ext vs) ≡ false
account_not_has ext apart a [] = refl
account_not_has ext apart a (v ∷ vs) =
    ground (arith, apart.account a v.address, account_not_has ext apart a vs)

-- What is stored for an account does not concern the list.
pub IsList-frame :
    (ext : External) (apart : KeysApart ext) (s s' : StateDb ext.trie) (a : Address)
    (vs : List Validator)
    → ((j : Hash) → j ≢ address_key ext a → get_storage s' j ≡ get_storage s j)
    → IsList ext s vs
    → IsList ext s' vs
IsList-frame ext apart s s' a vs same l = record {
  head = ground (arith, same head_key, apart.account_head a, l.head);
  chain =
      frame ext s s' none vs l.chain (λ k m.
        get_entry_frame ext s s' k (same k (ground (arith, account_not_has ext apart a vs))));
  distinct = l.distinct;
  absent = λ b out. ground (arith, same (key_index ext b), apart.account a b, l.absent b);
}
