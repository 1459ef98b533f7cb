-- ===== src/Chain/Heights.antt =====
-- The blocks of a chain by their heights, as `ChainDB::get_block_by_number` of chain/src/store.rs finds them.
use ori.Base.{
  ℕ, ◌+◌, ◌<◌, ◌≤◌, ◌≡◌, refl, sym, Option, none, some, List, [], ◌∷◌, arith, ◌==◌, leb,
  if◌then◌else◌, Bool-cases, inl, inr, eq_of_==,
}
use ori.Types.Block.{Block}
use ori.External.{External}
use ori.Balance.{u64}
use ori.Chain.Store.{get_block_by_number}
use ori.Chain.Store.Reads.{get_block_by_number_of}
use ori.Chain.{BlockChain}
use ori.Chain.Growth.{IsChain, Stored, Linked, Below, Linked-Below}

abbrev pub block_at : ℕ → List Block → Option Block
block_at h [] = none
block_at h (b ∷ bs) = if b.header.height == h then some b else block_at h bs

block_at-Below :
    (ext : External) (h n : ℕ) (bs : List Block) → Below ext n bs → n ≤ h → block_at h bs ≡ none
block_at-Below ext h n [] below le = refl
block_at-Below ext h n (b ∷ bs) below le =
    ground (arith, below.0, block_at-Below ext h n bs below.1 le)

pub block_at_height :
    (h : ℕ) (bs : List Block) (b : Block) → block_at h bs ≡ some b → b.header.height ≡ h
block_at_height h [] b e = cc
block_at_height h (x ∷ xs) b e = elim (Bool-cases (x.header.height == h)) [
  | inl same ↦ ground (arith, e, same)
  | inr other ↦ block_at_height h xs b (ground (arith, e, other))
]

module _ (ext : External) where
  found_at :
      (d : ext.store.Db) (h : ℕ) (b : Block) (bs : List Block)
      → Stored ext d (b ∷ bs)
      → Linked ext b bs
      → h ≤ b.header.height
      → get_block_by_number ext d h ≡ some (block_at h (b ∷ bs))
  found_at d h b [] s l le =
      let here : b.header.height ≡ h = omega (arith, l, le) in
      rw (sym here, get_block_by_number_of ext d b.header.height s.1, s.0) (ground arith)
  found_at d h b (p ∷ ps) s l le = elim (Bool-cases (b.header.height == h)) [
    | inl e ↦
        rw (e, sym (eq_of_== _ _ e), get_block_by_number_of ext d b.header.height s.1, s.0) refl
    | inr e ↦ rw e (found_at d h p ps s.2 l.3 (ground (arith, l.1)))
  ]

  pub block_at_above :
      (c : BlockChain ext) (top : Block) (rest : List Block) (h : ℕ)
      → IsChain ext c top rest
      → top.header.height < h
      → block_at h (top ∷ rest) ≡ none
  block_at_above c top rest h l above =
      block_at-Below ext h (top.header.height + 1) (top ∷ rest)
        (Linked-Below ext (top.header.height + 1) top rest l.linked (omega arith)) (omega arith)

  -- A lookup by height gives the chain's block of that height, and nothing above the head.
  pub get_block_by_number-IsChain :
      (c : BlockChain ext) (top : Block) (rest : List Block) (h : ℕ)
      → IsChain ext c top rest
      → h < u64
      → get_block_by_number ext c.db h ≡ some (block_at h (top ∷ rest))
  get_block_by_number-IsChain c top rest h l small = elim (Bool-cases (leb h top.header.height)) [
    | inl le ↦ found_at c.db h top rest l.stored l.linked (ground arith)
    | inr gt ↦
        rw
          (
            block_at_above c top rest h l (ground arith),
            get_block_by_number_of ext c.db h (l.free h small (ground arith)),
          )
          refl
  ]
