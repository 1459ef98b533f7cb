-- ===== src/Generator/Clock.antt =====
-- `SlotTick` of generator/src/epoch.rs, the clock of the slots. Times are milliseconds: `instant` on the
-- clock of the timers, `wall` since the epoch of the system's clock. A delay is its deadline, and is
-- ready from then on.
use ori.Base.{
  false, ℕ, zero, suc, ◌≡◌, refl, ◌+◌, ◌-◌, ◌*◌, ◌/◌, ◌%◌, ◌^◌, ◌<◌, ◌≤◌, Option, none, some, List,
  [], ◌∷◌, ltb, if◌then◌else◌, ◌==◌, ◌>>=◌, length, arith,
}
use ori.Balance.{u64}

abbrev pub slot_duration_seconds : ℕ
slot_duration_seconds = 6

pub record SlotTick : Type 0 where
  pub slot_duration : ℕ
  pub delay : ℕ
  pub genesis_duration : ℕ

unfoldable pub new_tick : ℕ → ℕ → ℕ → ℕ → SlotTick
new_tick duration genesis instant wall = record {
  slot_duration = duration;
  delay = if ltb wall genesis then instant + (genesis - wall) else instant;
  genesis_duration = genesis;
}

-- `poll`: the slot, when the delay is ready. The difference of two u128 wraps; `none` is the panic of
-- the division by a duration of 0.
unfoldable pub poll : ℕ → ℕ → SlotTick → Option (SlotTick × Option ℕ)
poll instant wall t =
    if ltb instant t.delay
    then some (t, none)
    else if t.slot_duration == 0
    then none
    else some (
      record t { delay = t.delay + t.slot_duration * 1000 },
      some ((((wall + 2 ^ 128 - t.genesis_duration) % 2 ^ 128) / (t.slot_duration * 1000)) % u64),
    )

-- What polls at some instants give, on a system's clock that is `shift` ahead of the timers'.
abbrev pub add_slot : Option ℕ → List ℕ → List ℕ
add_slot none slots = slots
add_slot (some slot) slots = slot ∷ slots

unfoldable pub ticks : ℕ → List ℕ → SlotTick → Option (List ℕ)
ticks shift [] t = some []
ticks shift (instant ∷ instants) t = do
  (t', slot) ← poll instant (instant + shift) t
  slots ← ticks shift instants t'
  some (add_slot slot slots)

-- Each poll comes when the delay is ready, and before the next one would be.
abbrev pub OnTime : ℕ → List ℕ → Type 0
OnTime deadline [] = Unit
OnTime deadline (instant ∷ instants) =
    (deadline ≤ instant) × (instant < deadline + 6000) × OnTime (deadline + 6000) instants

abbrev pub count_from : ℕ → ℕ → List ℕ
count_from first zero = []
count_from first (suc n) = first ∷ count_from (suc first) n

poll_on_time :
    (instant shift n : ℕ) (t : SlotTick)
    → t.slot_duration ≡ 6
    → t.delay + shift ≡ t.genesis_duration + n * 6000
    → n < u64
    → t.delay ≤ instant
    → instant < t.delay + 6000
    → poll instant (instant + shift) t ≡ some (record t { delay = t.delay + 6000 }, some n)
unfolding poll
poll_on_time instant shift n t d aligned small early late =
    let ready : ltb instant t.delay ≡ false = ground (arith, early) in
    let slot : (((instant + shift + 2 ^ 128 - t.genesis_duration) % 2 ^ 128) / 6000) % u64 ≡ n =
      omega (arith, aligned, small, early, late) in
    rw (ready, d, slot) refl

ticks-count_from :
    (shift n : ℕ) (instants : List ℕ) (t : SlotTick)
    → t.slot_duration ≡ 6
    → t.delay + shift ≡ t.genesis_duration + n * 6000
    → n + length instants < u64
    → OnTime t.delay instants
    → ticks shift instants t ≡ some (count_from n (length instants))
unfolding ticks
ticks-count_from shift n [] t d aligned small on = refl
ticks-count_from shift n (instant ∷ instants) t d aligned small on =
    let at = poll_on_time instant shift n t d aligned (omega (arith, small)) on.0 on.1 in
    let rest : ticks shift instants (record t { delay = t.delay + 6000 })
        ≡ some (count_from (suc n) (length instants)) =
      ticks-count_from shift (suc n) instants (record t { delay = t.delay + 6000 }) d
        (omega (arith, aligned)) (omega (arith, small)) on.2 in
    rw (ticks, at, ◌>>=◌, rest, ◌>>=◌) refl

-- A clock of slots of 6 seconds that is started at the genesis or before it, and polled in time for
-- each slot: no poll panics, and the polls give all slots in turn from 0 on, as far as a u64 counts.
pub ticks-new_tick :
    (genesis start shift : ℕ) (instants : List ℕ)
    → start + shift ≤ genesis
    → length instants < u64
    → OnTime (new_tick slot_duration_seconds genesis start (start + shift)).delay instants
    → ticks shift instants (new_tick slot_duration_seconds genesis start (start + shift))
      ≡ some (count_from 0 (length instants))
unfolding new_tick
ticks-new_tick genesis start shift instants before small on =
    ticks-count_from shift 0 instants (new_tick slot_duration_seconds genesis start (start + shift))
      refl (ground (arith, before)) (omega (arith, small)) on

-- On a clock whose slots are not empty, a poll that comes a whole slot late or later: the next one, at
-- the same moment, is ready at once and gives the same slot again.
pub poll_late :
    (instant wall : ℕ) (t : SlotTick)
    → 0 < t.slot_duration
    → t.delay + t.slot_duration * 1000 ≤ instant
    → (slot : ℕ) × (t' : SlotTick) × (t'' : SlotTick) × (poll instant wall t ≡ some (t', some slot))
      × (poll instant wall t' ≡ some (t'', some slot))
unfolding poll
poll_late instant wall t busy late =
    let ready : ltb instant t.delay ≡ false = ground (arith, late) in
    let again : ltb instant (t.delay + t.slot_duration * 1000) ≡ false = ground (arith, late) in
    let nonzero : (t.slot_duration == 0) ≡ false = ground (arith, busy) in
    let t' : SlotTick = record t { delay = t.delay + t.slot_duration * 1000 } in
    (
      (((wall + 2 ^ 128 - t.genesis_duration) % 2 ^ 128) / (t.slot_duration * 1000)) % u64,
      t',
      record t' { delay = t'.delay + t'.slot_duration * 1000 },
      rw (ready, nonzero) refl,
      rw (again, nonzero) refl,
    )
