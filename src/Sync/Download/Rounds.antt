-- ===== src/Sync/Download/Rounds.antt =====
-- The loop of `SyncingChain::request_batches` of network/src/sync/range_sync/chain.rs, round by round.
use ori.Base.{
  ℕ, zero, suc, ◌+◌, ◌≤◌, ◌≡◌, refl, ◌∙◌, false, true, Bool, none, some, List, arith, ltb,
  Bool-cases, Option-cases, inl, inr,
}
use ori.Types.Block.{Block}
use ori.Network.Message.{PeerId}
use ori.Network.Context.{SyncNetworkContext}
use ori.Sync.Batch.{Batch}
use ori.Sync.Download.{
  SyncingChain, Sync, go_on, is_syncing, send_batch, get_next_batch, get_next_peer,
  send_range_request, request_loop, request_batches,
}
use ori.Sync.Download.Plan.{IsPlanned, start_of, batch_of, is_full, get_next_batch_of}

-- A chain after a round that planned a batch, without the batch.
abbrev pub advanced : SyncingChain → SyncingChain
advanced c = record c { shuffles = c.shuffles + 1; to_be_downloaded_id = c.to_be_downloaded_id + 1 }

pub advanced-IsPlanned :
    (c : SyncingChain)
    → IsPlanned c
    → start_of c c.to_be_downloaded_id ≤ c.target_head_slot
    → IsPlanned (advanced c)
advanced-IsPlanned c l le = record {
  first = omega (arith, l.first);
  low = omega (arith, l.first, le, l.target);
  target = l.target;
  ahead = omega (arith, l.ahead);
}

-- A batch that is sent changes the requests that wait at most.
pub send_batch-IsPlanned :
    (b : Batch) (c : SyncingChain) (n : SyncNetworkContext)
    → IsPlanned c
    → let c' = (send_batch b (c, n)).0 in
      IsPlanned c'
      × (c'.to_be_downloaded_id ≡ c.to_be_downloaded_id)
      × (c'.start_number ≡ c.start_number)
      × (c'.target_head_slot ≡ c.target_head_slot)
unfolding send_batch
send_batch-IsPlanned b c n l = elim (Bool-cases n.network_send.is_open) [
  | inl open' ↦
      rw (send_batch, open')
        (
          record { first = l.first; low = l.low; target = l.target; ahead = l.ahead },
          refl,
          refl,
          refl,
        )
  | inr shut ↦ rw (send_batch, shut) (l, refl, refl, refl)
]

module _ (shuffle : ℕ → List PeerId → List PeerId) (batch_hash : List Block → ℕ) where
  abbrev pub round : Sync → Sync × Bool
  round = send_range_request shuffle batch_hash

  -- A round sends the next batch to an idle peer, or sends nothing and ends the loop.
  pub data Round (c : SyncingChain) (n : SyncNetworkContext) : Type 0 where
    idle : round (c, n) ≡ ((record c { shuffles = c.shuffles + 1 }, n), false) → Round c n
    sends :
        (peer : PeerId)
        → get_next_peer shuffle batch_hash c ≡ some peer
        → is_full c ≡ false
        → start_of c c.to_be_downloaded_id ≤ c.target_head_slot
        → round (c, n) ≡ (send_batch (batch_of c peer c.to_be_downloaded_id) (advanced c, n), true)
        → Round c n

  pub send_range_request-Round :
      (c : SyncingChain) (n : SyncNetworkContext) → IsPlanned c → Round c n
  unfolding send_range_request
  send_range_request-Round c n l =
      let c₁ = record c { shuffles = c.shuffles + 1 } in
      let l₁ : IsPlanned c₁ = record {
        first = l.first;
        low = l.low;
        target = l.target;
        ahead = l.ahead;
      } in
      elim (Option-cases (get_next_peer shuffle batch_hash c)) [
        | inl e ↦ idle (rw (send_range_request, e) refl)
        | inr (peer, e) ↦
            let next = get_next_batch_of c₁ l₁ peer in
            elim (Bool-cases (is_full c)) [
              | inl full ↦
                  let gone : get_next_batch peer c₁ ≡ (c₁, none) = next ∙ (rw full refl) in
                  idle (rw (send_range_request, e, gone) refl)
              | inr room ↦
                  elim (Bool-cases (ltb c.target_head_slot (start_of c c.to_be_downloaded_id))) [
                    | inl past ↦
                        let gone : get_next_batch peer c₁ ≡ (c₁, none) =
                          next ∙ (rw (room, past) refl) in
                        idle (rw (send_range_request, e, gone) refl)
                    | inr due ↦
                        let made : get_next_batch peer c₁
                            ≡ (advanced c, some (batch_of c peer c.to_be_downloaded_id)) =
                          next ∙ (rw (room, due) refl) in
                        sends peer e room (ground (arith, due))
                          (rw (send_range_request, e, made) refl)
                  ]
            ]
      ]

  loop_keeps :
      {P : Sync → Type 0}
      → ((s : Sync) → P s → P (round s).0)
      → (fuel : ℕ) (s : Sync) → P s
      → P (request_loop shuffle batch_hash fuel s)
  unfolding request_loop
  loop_keeps step zero s h = h
  loop_keeps {P} step (suc fuel) s h = go (round s) (step s h) (loop_keeps step fuel)
    where
      go :
          (r : Sync × Bool)
          → P r.0
          → ((t : Sync) → P t → P (request_loop shuffle batch_hash fuel t))
          → P (go_on r (request_loop shuffle batch_hash fuel))
      go (t, true) g next = next t g
      go (t, false) g next = g

  -- What each round keeps, the loop keeps.
  pub request_batches_keeps :
      {P : Sync → Type 0}
      → ((s : Sync) → P s → P (round s).0)
      → (s : Sync) → P s
      → P (request_batches shuffle batch_hash s)
  unfolding request_batches
  request_batches_keeps {P} step (c, n) h = elim (Bool-cases (is_syncing c.state)) [
    | inl on ↦ rw (request_batches, on) (loop_keeps {P = P} step (c.target_head_slot + 2) (c, n) h)
    | inr off ↦ rw (request_batches, off) h
  ]

  -- The loop ran to a round that sends nothing.
  pub data Rounds : Sync → Sync → Type 0 where
    ends : {s s' : Sync} → round s ≡ (s', false) → Rounds s s'
    more : {s s₁ s' : Sync} → round s ≡ (s₁, true) → Rounds s₁ s' → Rounds s s'

  loop-Rounds :
      (fuel : ℕ) (c : SyncingChain) (n : SyncNetworkContext)
      → IsPlanned c
      → c.target_head_slot + 2 ≤ fuel + start_of c c.to_be_downloaded_id
      → 1 ≤ fuel
      → Rounds (c, n) (request_loop shuffle batch_hash fuel (c, n))
  unfolding request_loop
  loop-Rounds zero c n l enough some_fuel = absurd (omega (arith, some_fuel))
  loop-Rounds (suc fuel) c n l enough some_fuel = elim (send_range_request-Round c n l) [
    | idle e ↦ rw (request_loop, e) (ends e)
    | sends peer next room le e ↦
        let b = batch_of c peer c.to_be_downloaded_id in
        let (c', n') = send_batch b (advanced c, n) in
        let (l', id, start, target) =
          send_batch-IsPlanned b (advanced c) n (advanced-IsPlanned c l le) in
        rw (request_loop, e)
          (more e (
            loop-Rounds fuel c' n' l' (omega (arith, enough, id, start, target, l.first))
              (omega (arith, enough, le))))
  ]

  -- While a chain syncs, for numbers below 2 ^ 62 and a chain whose next batch comes after the batches
  -- that wait, the loop of requests ends by itself: it goes from round to round, each of which sends a
  -- batch, to one that sends nothing. The fuel, two more than the target, is enough for it.
  pub request_batches-Rounds :
      (c : SyncingChain) (n : SyncNetworkContext)
      → IsPlanned c
      → is_syncing c.state ≡ true
      → Rounds (c, n) (request_batches shuffle batch_hash (c, n))
  unfolding request_batches
  request_batches-Rounds c n l on =
      rw (request_batches, on)
        (loop-Rounds (c.target_head_slot + 2) c n l (omega (arith, l.first)) (omega arith))
