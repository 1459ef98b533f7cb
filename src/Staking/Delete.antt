-- ===== src/Staking/Delete.antt =====
-- `Staking::delete` takes a validator out, wherever in the list it stands.
use ori.Base.{
  ℕ, ◌≡◌, ◌≢◌, ◌⊎◌, refl, Option, none, some, true, false, List, [], ◌∷◌, arith, ◌==◌,
  if◌then◌else◌, has, Bool-cases, inl, inr, eq_of_==,
}
use mathlib.Core.Option
use ori.Types.Hash.{Hash, Address, as_bytes}
use ori.Types.Ledger.{Validator}
use ori.External.{External}
use ori.State.{StateDb, get_storage, set_storage, remove_storage}
use ori.State.Storage.{get_storage-set_storage, get_storage-remove_storage}
use ori.Staking.{
  head_key, Entry, key_index, map_key, get_entry, put_entry, relink_pre, relink_next, delete,
}
use ori.Staking.Linked.{
  keys, first, IsList, KeysApart, get_entry-put_entry, get_storage-put_entry, get_entry-set_storage,
  get_entry-remove_storage, get_entry_of_none, get_entry_parts,
}
use ori.Staking.Unlink.{
  leads, relink, erase, pre_of, next_of, has-erase, erase-Distinct, has-erase_ne, unlink-Chain,
  entry_of_has,
}

-- What one half of the relinking leaves: entries changed by `change`, the head, and no new entry.
record Relinked (ext : External) (s : StateDb ext.trie) (change : Hash → Entry → Entry)
    (s' : StateDb ext.trie) : Type 0 where
  entries :
      (j : Hash) (e : Entry)
      → j ≢ head_key
      → get_entry ext s j ≡ some e
      → get_entry ext s' j ≡ some (change j e)
  absent : (j : Hash) → j ≢ head_key → get_storage s j ≡ none → get_storage s' j ≡ none

abbrev set_next : Option Hash → Option Hash → Hash → Entry → Entry
set_next p n j e = record e { next = if leads p j then n else e.next }

abbrev set_pre : Option Hash → Option Hash → Hash → Entry → Entry
set_pre p n j e = record e { pre = if leads n j then p else e.pre }

-- An entry that a link leads to, if it leads anywhere, can be read.
abbrev Leads : (ext : External) → StateDb ext.trie → Option Hash → Type 0
Leads ext s none = Unit
Leads ext s (some j) = (j ≢ head_key) × ((e : Entry) × (get_entry ext s j ≡ some e))

module _ (ext : External) (s : StateDb ext.trie) where
  put-Relinked :
      (k : Hash) (change : Hash → Entry → Entry) (e : Entry)
      → get_entry ext s k ≡ some e
      → ((j : Hash) (f : Entry) → j ≢ k → change j f ≡ f)
      → Relinked ext s change (put_entry ext k (change k e) s)
  put-Relinked k change e at same = record {
    entries = λ j f n ej. elim (Bool-cases (j == k)) [
      | inl here ↦ ground (arith, get_entry-put_entry ext s k j (change k e))
      | inr other ↦ ground (arith, get_entry-put_entry ext s k j (change k e), same j f)
    ];
    absent = λ j n unset. elim (Bool-cases (j == k)) [
      | inl here ↦ cc (at, get_entry_of_none ext s j unset, eq_of_== j k here)
      | inr other ↦ ground (arith, get_storage-put_entry ext s k j (change k e))
    ];
  }

  -- The head that `relink_pre` leaves.
  abbrev head_of : Option Hash → Option Hash → Option (List ℕ)
  head_of none n = Option.map as_bytes n
  head_of (some j) n = get_storage s head_key

  relink_pre_lem :
      (p n : Option Hash) (v : Validator)
      → Leads ext s p
      → (s₁ : StateDb ext.trie) × (relink_pre ext (record { pre = p; next = n; payload = v }) s
          ≡ some s₁)
        × Relinked ext s (set_next p n) s₁
        × (get_storage s₁ head_key ≡ head_of p n)
  unfolding relink_pre
  relink_pre_lem none none v l = (
    remove_storage head_key s,
    refl,
    record {
      entries = λ j e ne ej. ground (arith, get_entry-remove_storage ext s head_key j ne);
      absent = λ j ne unset. ground (arith, get_storage-remove_storage s head_key j);
    },
    ground (arith, get_storage-remove_storage s head_key head_key),
  )
  relink_pre_lem none (some i) v l = (
    set_storage head_key (as_bytes i) s,
    refl,
    record {
      entries = λ j e ne ej. ground (arith, get_entry-set_storage ext s head_key j (as_bytes i) ne);
      absent = λ j ne unset. ground (arith, get_storage-set_storage s head_key j (as_bytes i));
    },
    ground (arith, get_storage-set_storage s head_key head_key (as_bytes i)),
  )
  relink_pre_lem (some k) n v (ne, (e, at)) = (
    put_entry ext k (set_next (some k) n k e) s,
    rw (relink_pre, at) (ground arith),
    put-Relinked k (set_next (some k) n) e at (λ j f other. ground arith),
    ground (arith, get_storage-put_entry ext s k head_key (set_next (some k) n k e)),
  )

  relink_next_lem :
      (p n : Option Hash) (v : Validator)
      → Leads ext s n
      → (s₁ : StateDb ext.trie) × (relink_next ext (record { pre = p; next = n; payload = v }) s
          ≡ some s₁)
        × Relinked ext s (set_pre p n) s₁
        × (get_storage s₁ head_key ≡ get_storage s head_key)
  unfolding relink_next
  relink_next_lem p none v l =
      (s, refl, record { entries = λ j e ne ej. ej; absent = λ j ne unset. unset }, refl)
  relink_next_lem p (some k) v (ne, (e, at)) = (
    put_entry ext k (set_pre p (some k) k e) s,
    rw (relink_next, at) (ground arith),
    put-Relinked k (set_pre p (some k)) e at (λ j f other. ground arith),
    ground (arith, get_storage-put_entry ext s k head_key (set_pre p (some k) k e)),
  )

module _ (ext : External) (s : StateDb ext.trie) where
  has-next_of :
      (k j : Hash) (vs : List Validator) → next_of ext k vs ≡ some j → has j (keys ext vs) ≡ true
  has-next_of k j [] e = cc
  has-next_of k j (v ∷ []) e = ground arith
  has-next_of k j (v ∷ w ∷ ws) e = ground (arith, has-next_of k j (w ∷ ws))

  has-pre_of :
      (k j : Hash) (pre : Option Hash) (vs : List Validator)
      → pre_of ext k pre vs ≡ some j
      → (pre ≡ some j) ⊎ (has j (keys ext vs) ≡ true)
  has-pre_of k j pre [] e = cc
  has-pre_of k j pre (v ∷ vs) e = ground (arith, has-pre_of k j (some (map_key ext v)) vs)

  pre_of-some :
      (k j : Hash) (vs : List Validator)
      → has k (keys ext vs) ≡ true
      → pre_of ext k (some j) vs ≢ none
  pre_of-some k j [] m = cc
  pre_of-some k j (v ∷ vs) m = ground (arith, pre_of-some k (map_key ext v) vs)

  head_of-erase :
      (k : Hash) (vs : List Validator)
      → get_storage s head_key ≡ Option.map as_bytes (first ext vs)
      → has k (keys ext vs) ≡ true
      → head_of ext s (pre_of ext k none vs) (next_of ext k vs)
        ≡ Option.map as_bytes (first ext (erase ext k vs))
  head_of-erase k [] e m = cc
  head_of-erase k (v ∷ vs) e m = elim (Bool-cases (k == map_key ext v)) [
    | inl here ↦ rw (here, head_of) refl
    | inr other ↦ ground (arith, pre_of-some k (map_key ext v) vs)
  ]

  has-Leads :
      (vs : List Validator) (link : Option Hash)
      → IsList ext s vs
      → ((j : Hash) → link ≡ some j → has j (keys ext vs) ≡ true)
      → Leads ext s link
  has-Leads vs none l h = tt
  has-Leads vs (some j) l h =
      let (v, e) = entry_of_has ext s j none vs l.chain (h j refl) in
      (ground (arith, h j refl, l.distinct), (_, e))

-- Relinking the predecessor keeps the successor's entry readable.
Leads-Relinked :
    (ext : External) (s s₁ : StateDb ext.trie) (p n link : Option Hash)
    → Relinked ext s (set_next p n) s₁
    → Leads ext s link
    → Leads ext s₁ link
Leads-Relinked ext s s₁ p n none r l = tt
Leads-Relinked ext s s₁ p n (some j) r (ne, (e, at)) = (ne, (_, r.entries j e ne at))

erase-not_has :
    (ext : External) (k : Hash) (vs : List Validator)
    → has k (keys ext vs) ≡ false
    → erase ext k vs ≡ vs
erase-not_has ext k [] h = refl
erase-not_has ext k (v ∷ vs) h = ground (arith, erase-not_has ext k vs)

-- Where hashed storage keys do not collide: on a list `delete` returns, and the state then
-- holds the same validators without the one that has the address's key, in the same order;
-- without one it holds the same list.
pub delete-IsList :
    (ext : External) (apart : KeysApart ext) (s : StateDb ext.trie) (a : Address)
    (vs : List Validator)
    → IsList ext s vs
    → (s' : StateDb ext.trie) × (delete ext a s ≡ some s')
      × IsList ext s' (erase ext (key_index ext a) vs)
unfolding delete
delete-IsList ext apart s a vs l = elim (Bool-cases (has (key_index ext a) (keys ext vs))) [
  | inr out ↦ (s, rw (delete, l.absent a out), rw (erase-not_has ext (key_index ext a) vs out) l)
  | inl mem ↦
      let k = key_index ext a in
      let (v, e) = entry_of_has ext s k none vs l.chain mem in
      let p = pre_of ext k none vs in
      let n = next_of ext k vs in
      let lp = has-Leads ext s vs p l (λ j ej. ground (arith, has-pre_of ext s k j none vs)) in
      let (s₁, run₁, rel₁, head₁) = relink_pre_lem ext s p n v lp in
      let ln =
        Leads-Relinked ext s s₁ p n n rel₁
          (has-Leads ext s vs n l (λ j. has-next_of ext s k j vs)) in
      let (s₂, run₂, rel₂, head₂) = relink_next_lem ext s₁ p n v ln in
      let at : (j : Hash) (f : Entry)
          → j ≢ k
          → j ≢ head_key
          → get_entry ext s j ≡ some f
          → get_entry ext (remove_storage k s₂) j ≡ some (relink p n j f) =
        λ j f ne nh ej.
          rw (get_entry-remove_storage ext s₂ k j ne)
            (rel₂.entries j (set_next p n j f) nh (rel₁.entries j f nh ej)) in
      let (b, stored, decoded) = get_entry_parts ext s k e in
      (
        remove_storage k s₂,
        rw (delete, stored, decoded, run₁) (rw run₂),
        record {
          head = ground (
            arith,
            get_storage-remove_storage s₂ k head_key,
            apart.head a,
            head₂,
            head₁,
            head_of-erase ext s k vs l.head mem,
          );
          chain =
              unlink-Chain ext s (remove_storage k s₂) k p n at none vs l.chain l.distinct.1 mem
                l.distinct.0 (λ j i. refl) refl refl;
          distinct =
              (has-erase ext head_key k vs l.distinct.0, erase-Distinct ext k vs l.distinct.1);
          absent = λ b out. ground (
            arith,
            get_storage-remove_storage s₂ k (key_index ext b),
            has-erase_ne ext (key_index ext b) k vs out,
            l.absent b,
            apart.head b,
            rel₁.absent (key_index ext b),
            rel₂.absent (key_index ext b),
          );
        },
      )
]
