-- ===== src/Pool/Limit.antt =====
-- The number of transactions in the pool of pool/src/tx_pool.rs, and `pop_back`.
use mathlib.Core.List.{Perm}
use mathlib.Core.List.Perm
use ori.Base.{
  ℕ, ◌+◌, ◌≤◌, ◌≡◌, ◌≢◌, refl, sym, subst, Option, none, some, true, List, [], ◌∷◌, arith, ltb, leb,
  is_some, if◌then◌else◌, ◌>>=◌, length, Option-cases, Bool-cases, inl, inr,
}
use ori.Base.Dict.{Dict, lookup, insert, erase}
use ori.Types.Hash.{Hash}
use ori.Types.Message.{Transaction}
use ori.External.{External}
use ori.Chain.{BlockChain}
use ori.Signing.{tx_hash}
use ori.Pool.{
  PriorityRef, TxPool, TxError, pop_from, pop, size, drop_entry, drop_popped, pick, pop_back,
  remove_tx, make_room, enqueue, validate_tx, insert_tx,
}

module _ {V : Type 0} where
  length-insert : (k : Hash) (v : V) (d : Dict V) → length (insert k v d) ≤ length d + 1
  length-insert k v [] = omega arith
  length-insert k v ((j, w) ∷ d) = ground (arith, length-insert k v d)

  length-erase : (k : Hash) (d : Dict V) → length (erase k d) ≤ length d
  length-erase k [] = omega arith
  length-erase k ((j, w) ∷ d) = ground (arith, length-erase k d)

  length-erase_has :
      (k : Hash) (d : Dict V) → is_some (lookup k d) ≡ true → length (erase k d) + 1 ≡ length d
  length-erase_has k [] h = cc
  length-erase_has k ((j, w) ∷ d) h = ground (arith, length-erase_has k d)

-- Every entry of the list costs at least as much.
abbrev pub AllDearer : ℕ → List PriorityRef → Type 0
AllDearer price [] = Unit
AllDearer price (q ∷ qs) = (price ≤ q.price) × AllDearer price qs

AllDearer-le : (m n : ℕ) (qs : List PriorityRef) → m ≤ n → AllDearer n qs → AllDearer m qs
AllDearer-le m n [] le h = tt
AllDearer-le m n (q ∷ qs) le h = (omega (arith, h.0), AllDearer-le m n qs le h.1)

-- The first is the cheapest of all, and the second holds the others.
Cheapest : List PriorityRef → PriorityRef × List PriorityRef → Type 0
Cheapest qs (least, others) = AllDearer least.price qs × Perm (least ∷ others) qs

pick-Cheapest :
    (r : PriorityRef) (qs : List PriorityRef) (found : PriorityRef × List PriorityRef)
    → Cheapest qs found
    → Cheapest (r ∷ qs) (pick r qs found)
unfolding Cheapest
pick-Cheapest r qs (least, others) (all, same) = elim (Bool-cases (leb r.price least.price)) [
  | inl e ↦
      let own : Cheapest (r ∷ qs) (r, qs) = (
        (omega arith, AllDearer-le r.price least.price qs (ground arith) all),
        Perm.refl (r ∷ qs),
      ) in
      let at : (r, qs) ≡ pick r qs (least, others) = rw e refl in subst (Cheapest (r ∷ qs)) at own
  | inr e ↦
      let old : Cheapest (r ∷ qs) (least, r ∷ others) =
        ((ground arith, all), Perm.trans (Perm.swap r least others) (Perm.cons r same)) in
      let at : (least, r ∷ others) ≡ pick r qs (least, others) = rw e refl in
      subst (Cheapest (r ∷ qs)) at old
]

pop_from-Cheapest : (r : PriorityRef) (qs : List PriorityRef) → Cheapest (r ∷ qs) (pop_from r qs)
unfolding Cheapest
pop_from-Cheapest r [] = ((omega arith, tt), Perm.refl (r ∷ []))
pop_from-Cheapest r (q ∷ qs) = pick-Cheapest r (q ∷ qs) (pop_from q qs) (pop_from-Cheapest q qs)

-- The entry is one of the queue, no entry of the queue costs less, and `others` are all the others.
pub record IsLeast (queue : List PriorityRef) (q : PriorityRef) (others : List PriorityRef)
    : Type 0 where
  pub all_dearer : AllDearer q.price queue
  pub same_entries : Perm (q ∷ others) queue

-- What `pop_back` comes to: nothing on an empty queue; else the cheapest entry leaves the queue and
-- its transaction the pool, unless it is in neither map, which is a panic.
pub data Pops (p : TxPool) : Option (TxPool × Option Hash) → Type 0 where
  idle : p.ordered_queue ≡ [] → Pops p (some (p, none))
  stale :
      (q : PriorityRef) (others : List PriorityRef)
      → IsLeast p.ordered_queue q others
      → lookup (q.tx_hash) p.pool ≡ none
      → lookup (q.tx_hash) p.pending ≡ none
      → Pops p none
  popped :
      (q : PriorityRef) (p' : TxPool)
      → IsLeast p.ordered_queue q p'.ordered_queue
      → size p' + 1 ≡ size p
      → Pops p (some (p', some (q.tx_hash)))

drop_entry-Pops :
    (p : TxPool) (least : PriorityRef) (others : List PriorityRef)
    → IsLeast p.ordered_queue least others
    → Pops p (drop_entry p least others)
drop_entry-Pops p least others up = elim (Option-cases (lookup (least.tx_hash) p.pool)) [
  | inr (tx, at) ↦
      rw (drop_entry, at)
        (popped least _ up
          (omega (arith, length-erase_has (least.tx_hash) p.pool (ground (arith, at)))))
  | inl out ↦ elim (Option-cases (lookup (least.tx_hash) p.pending)) [
    | inr (tx, at) ↦
        rw (drop_entry, out, at)
          (popped least _ up
            (omega (arith, length-erase_has (least.tx_hash) p.pending (ground (arith, at)))))
    | inl out' ↦ rw (drop_entry, out, out') (stale least others up out out')
  ]
]

-- `pop_back` does nothing on an empty queue. Else an entry of the queue that costs no more than any
-- other leaves it, with all others kept, and one transaction leaves the pool with it; if neither map
-- has the entry's transaction, the call panics.
pub pop_back-Pops : (p : TxPool) → Pops p (pop_back p)
unfolding pop_back Cheapest
pop_back-Pops p = go p.ordered_queue refl
  where
    go : (qs : List PriorityRef) → p.ordered_queue ≡ qs → Pops p (drop_popped p (pop qs))
    go [] e = idle e
    go (q ∷ qs) e =
        let (all, same) = pop_from-Cheapest q qs in
        drop_entry-Pops p ((pop_from q qs).0) ((pop_from q qs).1) (record {
          all_dearer = subst (AllDearer ((pop_from q qs).0.price)) (sym e) all;
          same_entries = subst (Perm ((pop_from q qs).0 ∷ (pop_from q qs).1)) (sym e) same;
        })

-- A result, if there is one, has at most so many transactions.
abbrev pub Fits : ℕ → Option TxPool → Type 0
Fits n none = Unit
Fits n (some p) = size p ≤ n

size-remove_tx : (h : Hash) (p : TxPool) → size (remove_tx h p) ≤ size p
unfolding remove_tx
size-remove_tx h p = ground (arith, length-erase h p.pending, length-erase h p.pool)

size-enqueue : (h : Hash) (tx : Transaction) (p : TxPool) → size (enqueue h tx p) ≤ size p + 1
unfolding enqueue
size-enqueue h tx p = ground (arith, length-insert h tx p.pending, length-insert h tx p.pool)

-- With an entry in the queue, room is made.
make_room-Fits : (p : TxPool) (n : ℕ) → p.ordered_queue ≢ [] → size p ≤ n + 1 → Fits n (make_room p)
unfolding make_room
make_room-Fits p n busy le = go (pop_back p) (pop_back-Pops p)
  where
    go :
        (r : Option (TxPool × Option Hash))
        → Pops p r
        → Fits n (
            r >>= λ (p₁, removed). elim removed [
              | none ↦ some p₁
              | some hash ↦ some (remove_tx hash p₁)
            ])
    go _ (idle e) = absurd (busy e)
    go _ (stale q others all out out') = tt
    go _ (popped q p' all shrunk) = omega (arith, size-remove_tx (q.tx_hash) p')

module _ (ext : External) (c : BlockChain ext) (tx : Transaction) (p : TxPool) where
  -- In a pool with an entry in its queue and at most one transaction over the sum of the limits,
  -- `insert_tx`, if it does not panic, leaves at most one transaction over it.
  pub insert_tx-Fits :
      p.ordered_queue ≢ []
      → size p ≤ p.block_limit + p.queue_limit + 1
      → Fits (p.block_limit + p.queue_limit + 1) (insert_tx ext c tx p)
  unfolding insert_tx
  insert_tx-Fits busy le = verdicts (validate_tx ext c tx)
    where
      last :
          (r : Option TxPool)
          → Fits (p.block_limit + p.queue_limit) r
          → Fits
              (p.block_limit + p.queue_limit + 1)
              (r >>= λ p₁. some (enqueue (tx_hash ext tx) tx p₁))
      last none h = tt
      last (some p₁) h = omega (arith, size-enqueue (tx_hash ext tx) tx p₁)

      room :
          Fits
            (p.block_limit + p.queue_limit)
            (if ltb (p.block_limit + p.queue_limit) (size p) then make_room p else some p)
      room = elim (Bool-cases (ltb (p.block_limit + p.queue_limit) (size p))) [
        | inl e ↦ rw (e, Fits) (make_room-Fits p (p.block_limit + p.queue_limit) busy le)
        | inr e ↦ rw (e, Fits) (ground arith)
      ]

      verdicts :
          (v : Option (Option TxError))
          → Fits (p.block_limit + p.queue_limit + 1) (
              v >>= λ verdict. elim verdict [
                | some e ↦ some p
                | none ↦
                    (if ltb (p.block_limit + p.queue_limit) (size p) then make_room p else some p)
                    >>= λ p₁. some (enqueue (tx_hash ext tx) tx p₁)
              ])
      verdicts none = tt
      verdicts (some (some e)) = le
      verdicts (some none) = last _ room
