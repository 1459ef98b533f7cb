-- ===== src/Examples/Pools.antt =====
-- A pool with three transactions, of which the second is the cheapest, and room for none.
use ori.Base.{[], ◌∷◌}
use ori.Pool.{TxPool, pop_back}
use ori.Pool.Limit.{Pops, pop_back-Pops}
use ori.Examples.Chains.{unsigned}

abbrev waiting : TxPool
waiting = record {
  pending = (7, unsigned) ∷ (8, unsigned) ∷ [];
  pool = (9, unsigned) ∷ [];
  ordered_queue =
      record { tx_hash = 7; price = 3 }
      ∷ record { tx_hash = 8; price = 2 }
      ∷ record { tx_hash = 9; price = 5 }
      ∷ [];
  block_limit = 0;
  queue_limit = 0;
}

pop_back-Pops_example : Pops waiting (pop_back waiting)
pop_back-Pops_example = pop_back-Pops waiting
