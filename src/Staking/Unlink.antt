-- ===== src/Staking/Unlink.antt =====
-- Taking one element out of a chain: what its two neighbours have to become.
use ori.Base.{
  ◌≡◌, ◌≢◌, refl, Option, none, some, true, false, Bool, List, [], ◌∷◌, arith, ◌==◌, if◌then◌else◌,
  has, ◌⊎◌, Distinct, Bool-cases, inl, inr, eq_of_==,
}
use ori.Types.Hash.{Hash}
use ori.Types.Ledger.{Validator}
use ori.External.{External}
use ori.State.{StateDb}
use ori.Staking.{head_key, Entry, map_key, get_entry}
use ori.Staking.Linked.{keys, first, Chain}

-- The link leads to this key.
abbrev pub leads : Option Hash → Hash → Bool
leads none k = false
leads (some j) k = k == j

-- The entry under a key once the element between `p` and `n` is gone.
abbrev pub relink : Option Hash → Option Hash → Hash → Entry → Entry
relink p n k e = record e {
  pre = if leads n k then p else e.pre;
  next = if leads p k then n else e.next;
}

module _ (ext : External) where
  -- The list without the validator that has the key.
  abbrev pub erase : Hash → List Validator → List Validator
  erase k [] = []
  erase k (v ∷ vs) = if k == map_key ext v then vs else v ∷ erase k vs

  -- The links of that validator's entry.
  abbrev pub pre_of : Hash → Option Hash → List Validator → Option Hash
  pre_of k pre [] = none
  pre_of k pre (v ∷ vs) = if k == map_key ext v then pre else pre_of k (some (map_key ext v)) vs

  abbrev pub next_of : Hash → List Validator → Option Hash
  next_of k [] = none
  next_of k (v ∷ vs) = if k == map_key ext v then first ext vs else next_of k vs

  pub has-erase :
      (j k : Hash) (vs : List Validator)
      → has j (keys ext vs) ≡ false
      → has j (keys ext (erase k vs)) ≡ false
  has-erase j k [] h = refl
  has-erase j k (v ∷ vs) h = ground (arith, has-erase j k vs)

  pub erase-Distinct :
      (k : Hash) (vs : List Validator) → Distinct (keys ext vs) → Distinct (keys ext (erase k vs))
  erase-Distinct k [] h = tt
  erase-Distinct k (v ∷ vs) h =
      ground (arith, erase-Distinct k vs h.1, has-erase (map_key ext v) k vs)

  -- A key of the list that is not the one of the entry taken out stays in the list.
  pub has-erase_ne :
      (j k : Hash) (vs : List Validator)
      → has j (keys ext (erase k vs)) ≡ false
      → j ≢ k
      → has j (keys ext vs) ≡ false
  has-erase_ne j k [] h n = refl
  has-erase_ne j k (v ∷ vs) h n = ground (arith, has-erase_ne j k vs)

  -- The links of an entry are links to other elements of the list, or the outer link.
  leads-next_of :
      (j k : Hash) (vs : List Validator)
      → has j (keys ext vs) ≡ false
      → leads (next_of k vs) j ≡ false
  leads-next_of j k [] h = refl
  leads-next_of j k (v ∷ []) h = ground arith
  leads-next_of j k (v ∷ w ∷ ws) h = ground (arith, leads-next_of j k (w ∷ ws))

  leads-pre_of :
      (j k : Hash) (pre : Option Hash) (vs : List Validator)
      → has j (keys ext vs) ≡ false
      → leads pre j ≡ false
      → leads (pre_of k pre vs) j ≡ false
  leads-pre_of j k pre [] h n = refl
  leads-pre_of j k pre (v ∷ vs) h n = ground (arith, leads-pre_of j k (some (map_key ext v)) vs)

module _ (ext : External) (s s' : StateDb ext.trie) (k : Hash) (p n : Option Hash)
    (relinked : (j : Hash) (e : Entry)
      → j ≢ k
      → j ≢ head_key
      → get_entry ext s j ≡ some e
      → get_entry ext s' j ≡ some (relink p n j e)) where
  -- Behind the neighbour of the element nothing changes.
  spared :
      (pre : Option Hash) (vs : List Validator)
      → Chain ext s pre vs
      → Distinct (keys ext vs)
      → has k (keys ext vs) ≡ false
      → has head_key (keys ext vs) ≡ false
      → ((j : Hash) → has j (keys ext vs) ≡ true → (leads p j ≡ false) × (leads n j ≡ false))
      → Chain ext s' pre vs
  spared pre [] c d out hd far = tt
  spared pre (v ∷ vs) c d out hd far =
      let at = far (map_key ext v) (ground arith) in
      (
        ground (arith, relinked (map_key ext v) _ (ground arith) (ground arith) c.0),
        spared (some (map_key ext v)) vs c.1 d.1 (ground arith) (ground arith)
            (λ j m. far j (ground arith)),
      )

  pub unlink-Chain :
      (pre : Option Hash) (vs : List Validator)
      → Chain ext s pre vs
      → Distinct (keys ext vs)
      → has k (keys ext vs) ≡ true
      → has head_key (keys ext vs) ≡ false
      → ((j : Hash) → has j (keys ext vs) ≡ true → leads pre j ≡ false)
      → p ≡ pre_of ext k pre vs
      → n ≡ next_of ext k vs
      → Chain ext s' pre (erase ext k vs)
  unlink-Chain pre [] c d m hd far ep en = tt
  unlink-Chain pre (v ∷ []) c d m hd far ep en = ground arith
  unlink-Chain pre (v ∷ w ∷ ws) c d m hd far ep en = elim (Bool-cases (k == map_key ext v)) [
    | inl here ↦
        let rest =
          spared (some (map_key ext w)) ws c.1.1 d.1.1 (ground arith) (ground arith)
            (λ j i. (ground (arith, far j), ground arith)) in
        rw here (
          ground (
            arith,
            relinked (map_key ext w) _ (ground arith) (ground arith) c.1.0,
            far (map_key ext w),
          ),
          rest,
        )
    | inr other ↦
        let rest =
          unlink-Chain (some (map_key ext v)) (w ∷ ws) c.1 d.1 (ground arith) (ground arith)
            (λ j i. ground arith) (ground arith) (ground arith) in
        let own = relinked (map_key ext v) _ (ground arith) (ground arith) c.0 in
        rw other (front (Bool-cases (k == map_key ext w)) other own, rest)
  ]
    where
      front :
          ((k == map_key ext w) ≡ true) ⊎ ((k == map_key ext w) ≡ false)
          → (k == map_key ext v) ≡ false
          → get_entry ext s' (map_key ext v)
            ≡ some (
                relink p n
                  (map_key ext v)
                  (record { pre = pre; next = some (map_key ext w); payload = v }))
          → get_entry ext s' (map_key ext v)
            ≡ some (record { pre = pre; next = first ext (erase ext k (w ∷ ws)); payload = v })
      front (inl next) other own = ground (arith, leads-next_of ext (map_key ext v) k (w ∷ ws))
      front (inr later) other own = ground (
        arith,
        leads-next_of ext (map_key ext v) k (w ∷ ws),
        leads-pre_of ext (map_key ext v) k (some (map_key ext w)) ws,
      )

module _ (ext : External) (s : StateDb ext.trie) where
  -- The entry that a chain has under one of its keys.
  pub entry_of_has :
      (k : Hash) (pre : Option Hash) (vs : List Validator)
      → Chain ext s pre vs
      → has k (keys ext vs) ≡ true
      → (v : Validator) × (get_entry ext s k
          ≡ some (record { pre = pre_of ext k pre vs; next = next_of ext k vs; payload = v }))
  entry_of_has k pre [] c m = cc
  entry_of_has k pre (v ∷ vs) c m = elim (Bool-cases (k == map_key ext v)) [
    | inl here ↦ (v, ground (arith, eq_of_== k (map_key ext v) here))
    | inr other ↦ rw other (entry_of_has k (some (map_key ext v)) vs c.1 (rw other at m))
  ]
