-- ===== src/State/Commit.antt =====
-- `StateDB::commit` of core/src/state.rs and what the state shows afterwards.
use ori.Base.{
  ◌≡◌, refl, ◌∙◌, Option, none, some, true, [], ◌∷◌, arith, ◌==◌, if◌then◌else◌, Distinct,
}
use ori.Base.Dict.{Dict, keys, lookup, lookup-not_has}
use ori.Base.Every.{Every}
use ori.Types.Hash.{Bytes, Hash, is_filled}
use ori.External.{Trie, kept_value}
use ori.State.{StateDb, from_existing, get_storage, apply_change, apply_changes, commit}
use ori.State.Storage.{is_storable, IsReady}

module _ (t : Trie) where
  apply_change_open :
      (k : Hash) (c : Option Bytes) (at : t.Db × Hash)
      → t.is_open at.0 at.1 ≡ true
      → let (d, r) = apply_change t k c at in t.is_open d r ≡ true
  unfolding apply_change
  apply_change_open k none at h = t.is_open-remove at.0 at.1 k h
  apply_change_open k (some v) at h = t.is_open-insert at.0 at.1 k v h

  -- A value that is not empty is kept.
  kept_value-some : (v : Bytes) → is_filled v ≡ true → kept_value v ≡ some v
  kept_value-some [] e = cc
  kept_value-some (b ∷ bs) e = refl

  apply_change_get :
      (k : Hash) (c : Option Bytes) (at : t.Db × Hash) (j : Hash)
      → is_storable k c ≡ true
      → t.is_open at.0 at.1 ≡ true
      → let (d, r) = apply_change t k c at in
        t.get d r j ≡ (if j == k then c else t.get at.0 at.1 j)
  unfolding apply_change
  apply_change_get k none at j u h = t.get-remove at.0 at.1 k j h
  apply_change_get k (some v) at j u h =
      t.get-insert at.0 at.1 k v j h ∙ rw (kept_value-some v u) refl

  apply_changes_open :
      (cs : Dict (Option Bytes)) (at : t.Db × Hash)
      → t.is_open at.0 at.1 ≡ true
      → let (d, r) = apply_changes t cs at in t.is_open d r ≡ true
  unfolding apply_changes
  apply_changes_open [] at h = h
  apply_changes_open ((k, c) ∷ cs) at h =
      apply_changes_open cs (apply_change t k c at) (apply_change_open k c at h)

  -- What a walk over the changes leaves under a key.
  abbrev changed : Dict (Option Bytes) → t.Db × Hash → Hash → Option Bytes
  changed cs at j = elim (lookup j cs) [ some c ↦ c | none ↦ t.get at.0 at.1 j ]

  apply_changes_get :
      (cs : Dict (Option Bytes)) (at : t.Db × Hash) (j : Hash)
      → t.is_open at.0 at.1 ≡ true
      → Distinct (keys cs)
      → Every is_storable cs
      → let (d, r) = apply_changes t cs at in t.get d r j ≡ changed cs at j
  unfolding apply_changes
  apply_changes_get [] at j h m u = refl
  apply_changes_get ((k, c) ∷ cs) at j h m u =
      apply_changes_get cs (apply_change t k c at) j (apply_change_open k c at h) m.1 u.1
      ∙ ground (arith, apply_change_get k c at j u.0 h, lookup-not_has k cs m.0)

-- A state whose changes hold each key once, with no empty value, and whose root the database knows commits. The state
-- that the new root names, loaded afresh, holds under every key what `get_storage` showed
-- before, and so does the state object itself, which keeps its changes and can be committed
-- again.
pub commit-get_storage :
    {t : Trie} (s : StateDb t)
    → IsReady s
    → (s' : StateDb t) × (commit s ≡ some s')
      × ((j : Hash) → get_storage (from_existing t s'.db s'.state_root) j ≡ get_storage s j)
      × ((j : Hash) → get_storage s' j ≡ get_storage s j)
      × IsReady s'
unfolding commit get_storage from_existing
commit-get_storage {t} s (m, h, u) =
    let (d, r) = apply_changes t s.local_changes (s.db, s.state_root) in
    let opened = apply_changes_open t s.local_changes (s.db, s.state_root) h in
    let stored = λ (j : Hash). apply_changes_get t s.local_changes (s.db, s.state_root) j h m u in
    (
      record s { db = t.flush d; state_root = r },
      rw h,
      λ j. ground (arith, t.is_open-flush d r, t.get-flush d r j, opened, stored j, h),
      λ j. ground (arith, t.is_open-flush d r, t.get-flush d r j, opened, stored j, h),
      (m, ground (arith, t.is_open-flush d r, opened), u),
    )
