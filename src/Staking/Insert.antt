-- ===== src/Staking/Insert.antt =====
-- `Staking::insert` puts a validator in front.
use ori.Base.{◌≡◌, ◌≢◌, none, some, false, List, [], ◌∷◌, arith, has, Bool-cases, inl, inr}
use ori.Types.Hash.{Hash, as_bytes}
use ori.Types.Ledger.{Validator}
use ori.External.{External}
use ori.State.{StateDb, set_storage}
use ori.State.Storage.{get_storage-set_storage}
use ori.Staking.{head_key, Entry, key_index, map_key, get_entry, put_entry, insert}
use ori.Staking.Linked.{
  keys, first, IsList, KeysApart, from_bytes-key, get_entry-put_entry, get_storage-put_entry,
  get_entry-set_storage, frame, Spares,
}

-- Where hashed storage keys do not collide: onto a list that does not have the validator's key,
-- `insert` returns and adds it in front; it writes nothing but the head and the entries of the
-- list.
pub insert-IsList :
    (ext : External) (apart : KeysApart ext) (s : StateDb ext.trie) (v : Validator)
    (vs : List Validator)
    → IsList ext s vs
    → has (map_key ext v) (keys ext vs) ≡ false
    → (s' : StateDb ext.trie) × (insert ext v s ≡ some s')
      × IsList ext s' (v ∷ vs)
      × Spares ext s s' (head_key ∷ keys ext (v ∷ vs))
unfolding insert
insert-IsList ext apart s v [] l new =
    let k = map_key ext v in
    let e : Entry = record { pre = none; next = none; payload = v } in
    let s₁ = put_entry ext k e s in
    (
      set_storage head_key (as_bytes k) s₁,
      rw (insert, l.head),
      record {
        head = ground (arith, get_storage-set_storage s₁ head_key head_key (as_bytes k));
        chain = (
          ground (
            arith,
            get_entry-set_storage ext s₁ head_key k (as_bytes k) (apart.head v.address),
            get_entry-put_entry ext s k k e,
          ),
          tt,
        );
        distinct = ground (arith, apart.head v.address);
        absent = λ a out. ground (
          arith,
          get_storage-set_storage s₁ head_key (key_index ext a) (as_bytes k),
          apart.head a,
          get_storage-put_entry ext s k (key_index ext a) e,
          l.absent a,
        );
      },
      λ i. elim (Bool-cases (has i (head_key ∷ keys ext (v ∷ [])))) [
        | inl own ↦ inl own
        | inr out ↦ inr (
            ground (
              arith,
              get_storage-set_storage s₁ head_key i (as_bytes k),
              get_storage-put_entry ext s k i e,
            ))
      ],
    )
insert-IsList ext apart s v (w ∷ ws) l new =
    let k = map_key ext v in
    let j = map_key ext w in
    let e : Entry = record { pre = none; next = some j; payload = v } in
    let s₁ = put_entry ext k e s in
    let f : Entry = record { pre = some k; next = first ext ws; payload = w } in
    let old : get_entry ext s₁ j ≡ some (record { pre = none; next = first ext ws; payload = w }) =
      ground (arith, l.chain.0, get_entry-put_entry ext s k j e) in
    let s₂ = put_entry ext j f s₁ in
    let at =
      λ (i : Hash) (n : i ≢ head_key). get_entry-set_storage ext s₂ head_key i (as_bytes k) n in
    (
      set_storage head_key (as_bytes k) s₂,
      rw (insert, l.head, from_bytes-key ext w.address) (rw old),
      record {
        head = ground (arith, get_storage-set_storage s₂ head_key head_key (as_bytes k));
        chain = (
          ground (
            arith,
            at k (apart.head v.address),
            get_entry-put_entry ext s₁ j k f,
            get_entry-put_entry ext s k k e,
          ),
          (
            ground (arith, at j (apart.head w.address), get_entry-put_entry ext s₁ j j f),
            frame ext s (set_storage head_key (as_bytes k) s₂) (some j) ws l.chain.1 (λ i m.
                ground (
                  arith,
                  get_entry-put_entry ext s₁ j i f,
                  get_entry-put_entry ext s k i e,
                  at i,
                  l.distinct,
                )),
          ),
        );
        distinct = ground (arith, apart.head v.address, l.distinct);
        absent = λ a out. ground (
          arith,
          get_storage-set_storage s₂ head_key (key_index ext a) (as_bytes k),
          apart.head a,
          get_storage-put_entry ext s₁ j (key_index ext a) f,
          get_storage-put_entry ext s k (key_index ext a) e,
          l.absent a,
        );
      },
      λ i. elim (Bool-cases (has i (head_key ∷ keys ext (v ∷ w ∷ ws)))) [
        | inl own ↦ inl own
        | inr out ↦ inr (
            ground (
              arith,
              get_storage-set_storage s₂ head_key i (as_bytes k),
              get_storage-put_entry ext s₁ j i f,
              get_storage-put_entry ext s k i e,
            ))
      ],
    )
