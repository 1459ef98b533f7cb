-- ===== src/Staking/Walk.antt =====
-- Reading the validator list: `validator_set` and `get_validator`.
use ori.Base.{
  ℕ, zero, suc, ◌<◌, ◌≡◌, refl, Option, none, some, List, [], ◌∷◌, arith, ◌==◌, length, Bool-cases,
  inl, inr, eq_of_==, Option-cases,
}
use ori.Types.Hash.{Hash, Address}
use ori.Types.Ledger.{Validator}
use ori.External.{External}
use ori.State.{StateDb}
use ori.Staking.{done, key_index, map_key, get_entry, walk, validator_set, get_validator}
use ori.Staking.Linked.{first, find, Chain, IsList, from_bytes-key, not_has_of_find}

module _ (ext : External) (s : StateDb ext.trie) where
  walk-Chain :
      (fuel : ℕ) (pre : Option Hash) (vs : List Validator)
      → Chain ext s pre vs
      → length vs < fuel
      → walk ext fuel s (first ext vs) ≡ done vs
  unfolding walk
  walk-Chain zero pre vs c lt = absurd (omega arith)
  walk-Chain (suc fuel) pre [] c lt = refl
  walk-Chain (suc fuel) pre (v ∷ vs) c lt =
      rw (walk, c.0) (rw (walk-Chain fuel (some (map_key ext v)) vs c.1 (omega arith)))

  -- On a state that holds a list, with fuel for one round more than there are validators,
  -- `validator_set` ends without a panic and gives exactly the validators, in their order.
  pub validator_set-IsList :
      (fuel : ℕ) (vs : List Validator)
      → IsList ext s vs
      → length vs < fuel
      → validator_set ext fuel s ≡ done vs
  unfolding validator_set
  validator_set-IsList fuel [] l lt = rw (validator_set, l.head)
  validator_set-IsList fuel (v ∷ vs) l lt =
      rw (validator_set, l.head, from_bytes-key ext v.address)
        (walk-Chain fuel none (v ∷ vs) l.chain lt)

  pub get_entry-find :
      (k : Hash) (pre : Option Hash) (vs : List Validator) {v : Validator}
      → Chain ext s pre vs
      → find ext k vs ≡ some v
      → (p : Option Hash) × (n : Option Hash) × (get_entry ext s k
          ≡ some (record { pre = p; next = n; payload = v }))
  get_entry-find k pre [] c e = cc
  get_entry-find k pre (w ∷ ws) {v} c e = elim (Bool-cases (k == map_key ext w)) [
    | inl same ↦ (pre, first ext ws, ground (arith, eq_of_== k (map_key ext w) same))
    | inr other ↦ get_entry-find k (some (map_key ext w)) ws c.1 (rw other at e)
  ]

  -- On a state that holds a list, `get_validator` does not panic, and it answers with the
  -- validator of the list that has the address's key, if there is one.
  pub get_validator-IsList :
      (a : Address) (vs : List Validator)
      → IsList ext s vs
      → get_validator ext s a ≡ some (find ext (key_index ext a) vs)
  unfolding get_validator get_entry
  get_validator-IsList a vs l = elim (Option-cases (find ext (key_index ext a) vs)) [
    | inl out ↦ rw (get_validator, l.absent a (not_has_of_find ext s (key_index ext a) vs out), out)
    | inr (v, found) ↦
        let (p, n, e) = get_entry-find (key_index ext a) none vs l.chain found in ground arith
  ]
