-- ===== src/Staking/Replace.antt =====
-- `Staking::set_item` overwrites a validator in its place, or inserts it.
use ori.Base.{
  ◌≡◌, refl, sym, subst, Option, none, some, List, [], ◌∷◌, arith, ◌==◌, if◌then◌else◌, has,
  Distinct, Bool-cases, inl, inr, eq_of_==,
}
use ori.Types.Hash.{Hash}
use ori.Types.Ledger.{Validator}
use ori.External.{External}
use ori.State.{StateDb}
use ori.Staking.{head_key, Entry, key_index, map_key, get_entry, put_entry, set_item}
use ori.Staking.Linked.{
  keys, first, Chain, IsList, KeysApart, get_entry-put_entry, get_storage-put_entry, frame,
  get_entry_parts, Spares,
}
use ori.Staking.Unlink.{pre_of, next_of, entry_of_has}
use ori.Staking.Insert.{insert-IsList}

module _ (ext : External) where
  abbrev pub replace : Validator → List Validator → List Validator
  replace v [] = []
  replace v (w ∷ ws) = if map_key ext v == map_key ext w then v ∷ ws else w ∷ replace v ws

  -- What `set_item` does to the sequence.
  abbrev pub upsert : Validator → List Validator → List Validator
  upsert v vs = if has (map_key ext v) (keys ext vs) then replace v vs else v ∷ vs

  pub keys-replace : (v : Validator) (vs : List Validator) → keys ext (replace v vs) ≡ keys ext vs
  keys-replace v [] = refl
  keys-replace v (w ∷ ws) = ground (arith, keys-replace v ws)

  first-replace : (v : Validator) (vs : List Validator) → first ext (replace v vs) ≡ first ext vs
  first-replace v [] = refl
  first-replace v (w ∷ ws) = ground arith

module _ (ext : External) (s : StateDb ext.trie) (v : Validator) (e : Entry)
    (at : get_entry ext s (map_key ext v) ≡ some e) where
  replace-Chain :
      (pre : Option Hash) (vs : List Validator)
      → Chain ext s pre vs
      → Distinct (keys ext vs)
      → Chain ext
          (put_entry ext (map_key ext v) (record e { payload = v }) s)
          pre
          (replace ext v vs)
  replace-Chain pre [] c d = tt
  replace-Chain pre (w ∷ ws) c d = elim (Bool-cases (map_key ext v == map_key ext w)) [
    | inl here ↦ rw here (
      ground (
        arith,
        at,
        c.0,
        get_entry-put_entry ext s (map_key ext v) (map_key ext v) (record e { payload = v }),
      ),
      frame ext s _ (some (map_key ext v)) ws
          (subst (λ x. Chain ext s (some x) ws) (sym (eq_of_== _ _ here)) c.1)
          (λ j m. ground (
            arith,
            get_entry-put_entry ext s (map_key ext v) j (record e { payload = v }),
            eq_of_== (map_key ext v) (map_key ext w) here,
            d.0,
          )),
    )
    | inr other ↦ rw other (
      ground (
        arith,
        c.0,
        first-replace ext v ws,
        get_entry-put_entry ext s (map_key ext v) (map_key ext w) (record e { payload = v }),
      ),
      replace-Chain (some (map_key ext w)) ws c.1 d.1,
    )
  ]

-- Where hashed storage keys do not collide: on a list `set_item` returns, the validator with
-- the same key is replaced where it stands, and without one the new one comes in front. Nothing
-- but the head and entries of the list is written.
pub set_item-IsList :
    (ext : External) (apart : KeysApart ext) (s : StateDb ext.trie) (v : Validator)
    (vs : List Validator)
    → IsList ext s vs
    → (s' : StateDb ext.trie) × (set_item ext v s ≡ some s')
      × IsList ext s' (upsert ext v vs)
      × Spares ext s s' (head_key ∷ keys ext (v ∷ vs))
unfolding set_item
set_item-IsList ext apart s v vs l = elim (Bool-cases (has (map_key ext v) (keys ext vs))) [
  | inr new ↦
      let (s', run, l', same) = insert-IsList ext apart s v vs l new in
      (s', rw (set_item, l.absent v.address new) run, rw new l', same)
  | inl mem ↦
      let k = map_key ext v in
      let (w, e) = entry_of_has ext s k none vs l.chain mem in
      let (b, stored, decoded) = get_entry_parts ext s k e in
      let f : Entry = record { pre = pre_of ext k none vs; next = next_of ext k vs; payload = v } in
      (
        put_entry ext k f s,
        rw (set_item, stored, decoded),
        rw mem (record {
          head = ground (
            arith,
            get_storage-put_entry ext s k head_key f,
            apart.head v.address,
            first-replace ext v vs,
            l.head,
          );
          chain = replace-Chain ext s v _ e none vs l.chain l.distinct.1;
          distinct = rw (keys-replace ext v vs) l.distinct;
          absent = λ a out. ground (
            arith,
            rw (keys-replace ext v vs) at out,
            get_storage-put_entry ext s k (key_index ext a) f,
            l.absent a,
          );
        }),
        λ j. elim (Bool-cases (has j (head_key ∷ keys ext (v ∷ vs)))) [
          | inl own ↦ inl own
          | inr out ↦ inr (ground (arith, get_storage-put_entry ext s k j f))
        ],
      )
]
