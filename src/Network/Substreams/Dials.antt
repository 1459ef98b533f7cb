-- ===== src/Network/Substreams/Dials.antt =====
-- The outbound streams that a handler of network/src/p2p/handler.rs opens.
use ori.Base.{
  ℕ, suc, ◌≡◌, refl, ◌+◌, ◌-◌, ◌≤◌, ◌<◌, ◌%◌, ◌==◌, ◌&&◌, subst, ◌∙◌, ◌^◌, false, Option, none,
  some, List, [], ◌∷◌, ◌++◌, if◌then◌else◌, ltb, arith, ◌>>=◌, Bool-cases, Option-cases, inl, inr,
  length,
}
use ori.Base.Dict.{lookup}
use ori.Balance.{u64}
use ori.Network.Message.{
  P2PRequest, goodbye, status, blocks_by_range, blocks_by_root, P2PEvent, request, response, error,
}
use ori.Network.Request
use ori.Network.Substreams.{
  Transport, UpgradeError, P2PHandler, PollResult, report, open_substream, not_ready, poll_failed,
  io_error_retries, until, yes_keep,
}
use ori.Network.Substreams.Outbound.{dial}
use ori.Network.Substreams.Poll.{poll, dial_stage}
use ori.Network.Substreams.Calls.{
  accept, inject_fully_negotiated_inbound, await_response, inject_fully_negotiated_outbound,
  respond, inject_response, inject_event, send_request, inject_dial_upgrade_error, is_io_error,
  Call, negotiated_inbound, negotiated_outbound, injects, dial_fails, polls, put_off, results, step,
  run, run_cons,
}
use ori.Network.Substreams.Invariant.{Inv, Good, Ends, Ends-some, Ends->>>, is_opening}
use ori.Network.Substreams.Invariant.Expiry.{Shrinking}
use ori.Network.Substreams.Invariant.Polling.{Kept, before_dial, before_dial-Good}
use ori.Network.Substreams.Invariant.Calls.{step-Kept, inject_event-Kept}
use ori.Network.Substreams.Inbound.{is_empty}

-- The streams that the results of polls open
abbrev pub opened : List PollResult → ℕ
opened [] = 0
opened (open_substream _ _ ∷ rs) = suc (opened rs)
opened (report _ ∷ rs) = opened rs
opened (not_ready ∷ rs) = opened rs
opened (poll_failed ∷ rs) = opened rs

-- The calls that say that an outbound stream is negotiated
abbrev pub negotiated : {t : Transport} → List (ℕ × Call t) → ℕ
negotiated [] = 0
negotiated ((_, negotiated_outbound _ _) ∷ cs) = suc (negotiated cs)
negotiated ((_, negotiated_inbound _ _) ∷ cs) = negotiated cs
negotiated ((_, injects _) ∷ cs) = negotiated cs
negotiated ((_, dial_fails _ _) ∷ cs) = negotiated cs
negotiated ((_, polls) ∷ cs) = negotiated cs

opened-results :
    (r : Option PollResult) (rs : List PollResult)
    → opened (results r ++ rs) ≡ opened (results r) + opened rs
opened-results none rs = omega arith
opened-results (some (report e)) rs = omega arith
opened-results (some (open_substream id req)) rs = omega arith
opened-results (some not_ready) rs = omega arith
opened-results (some poll_failed) rs = omega arith

negotiated_cons :
    {t : Transport} (now : ℕ) (c : Call t) (cs : List (ℕ × Call t))
    → negotiated ((now, c) ∷ cs) ≡ negotiated ((now, c) ∷ []) + negotiated cs
negotiated_cons now (negotiated_inbound _ _) cs = omega arith
negotiated_cons now (negotiated_outbound _ _) cs = omega arith
negotiated_cons now (injects _) cs = omega arith
negotiated_cons now (dial_fails _ _) cs = omega arith
negotiated_cons now polls cs = omega arith

-- A part of a run opens at most as many streams as it takes from the free ones and `n`.
pub record SpentOf (most most' dials' opens free free' n : ℕ) : Type 0 where
  pub same_most : most' ≡ most
  pub dials_u32 : dials' < 2 ^ 32
  pub spent : opens + free' ≤ free + n

module _ (t : Transport) where
  -- The streams that may still be opened
  abbrev pub free : P2PHandler t → ℕ
  free h = h.max_dial_negotiated - h.dial_negotiated

  abbrev pub Spent : ℕ → P2PHandler t → P2PHandler t → Option PollResult → Type 0
  Spent n h h' r =
      SpentOf h.max_dial_negotiated h'.max_dial_negotiated h'.dial_negotiated (opened (results r))
        (free h) (free h') n

  dial-Spent :
      (es : List P2PEvent) (h : P2PHandler t)
      → h.max_dial_negotiated < 2 ^ 32
      → h.dial_negotiated < 2 ^ 32
      → Spent 0 h (dial es h).0 (some (dial es h).1)
  unfolding dial
  dial-Spent [] h small u32 = record {
    same_most = refl;
    dials_u32 = omega (arith, u32);
    spent = omega arith;
  }
  dial-Spent (request id req ∷ es) h small u32 =
      elim (Bool-cases (ltb h.dial_negotiated h.max_dial_negotiated)) [
        | inl e ↦ rw e (record {
          same_most = refl;
          dials_u32 = omega (arith, u32);
          spent = ground (arith, small, e);
        })
        | inr e ↦
            rw e (record { same_most = refl; dials_u32 = omega (arith, u32); spent = omega arith })
      ]
  dial-Spent (response id r ∷ es) h small u32 =
      elim (Bool-cases (ltb h.dial_negotiated h.max_dial_negotiated)) [
        | inl e ↦ rw e (record {
          same_most = refl;
          dials_u32 = omega (arith, u32);
          spent = ground (arith, small, e);
        })
        | inr e ↦
            rw e (record { same_most = refl; dials_u32 = omega (arith, u32); spent = omega arith })
      ]
  dial-Spent (error id r ∷ es) h small u32 =
      elim (Bool-cases (ltb h.dial_negotiated h.max_dial_negotiated)) [
        | inl e ↦ rw e (record {
          same_most = refl;
          dials_u32 = omega (arith, u32);
          spent = ground (arith, small, e);
        })
        | inr e ↦
            rw e (record { same_most = refl; dials_u32 = omega (arith, u32); spent = omega arith })
      ]

  opens_none-Spent :
      (h h' : P2PHandler t) (r : Option PollResult)
      → is_opening r ≡ false
      → h'.max_dial_negotiated ≡ h.max_dial_negotiated
      → h'.dial_negotiated ≡ h.dial_negotiated
      → h.dial_negotiated < 2 ^ 32
      → Spent 0 h h' r
  opens_none-Spent h h' none o most dials u32 = record {
    same_most = most;
    dials_u32 = omega (arith, dials, u32);
    spent = omega (arith, most, dials);
  }
  opens_none-Spent h h' (some (open_substream id req)) o most dials u32 = cc
  opens_none-Spent h h' (some (report e)) o most dials u32 = record {
    same_most = most;
    dials_u32 = omega (arith, dials, u32);
    spent = omega (arith, most, dials);
  }
  opens_none-Spent h h' (some not_ready) o most dials u32 = record {
    same_most = most;
    dials_u32 = omega (arith, dials, u32);
    spent = omega (arith, most, dials);
  }
  opens_none-Spent h h' (some poll_failed) o most dials u32 = record {
    same_most = most;
    dials_u32 = omega (arith, dials, u32);
    spent = omega (arith, most, dials);
  }

  poll-Spent :
      (now : ℕ) (h : P2PHandler t)
      → Shrinking t
      → Inv h
      → h.max_dial_negotiated < 2 ^ 32
      → h.dial_negotiated < 2 ^ 32
      → Ends (Spent 0 h) (poll now h)
  unfolding poll
  poll-Spent now h shrinks v small u32 =
      Ends->>> (Good h) (Spent 0 h) (before_dial t now h) dial_stage
        (before_dial-Good t now h shrinks v)
        (λ h' r g. opens_none-Spent h h' r g.opens_none g.steady.same_most g.steady.same_dials u32)
        (λ h' g.
          let d =
            dial-Spent h'.dial_queue h' (omega (arith, small, g.steady.same_most))
              (omega (arith, u32, g.steady.same_dials)) in
          record {
            same_most = d.same_most ∙ g.steady.same_most;
            dials_u32 = d.dials_u32;
            spent = omega (arith, d.spent, g.steady.same_most, g.steady.same_dials);
          })

  -- A call that is answered without a panic leaves the slots alone.
  abbrev pub Idles : P2PHandler t → Option (P2PHandler t) → Type 0
  Idles h none = Unit
  Idles h (some h') =
      (h'.max_dial_negotiated ≡ h.max_dial_negotiated) × (h'.dial_negotiated ≡ h.dial_negotiated)

  accept-Idles :
      (req : P2PRequest) (substream : t.In) (h : P2PHandler t)
      → Idles h (some (accept req substream h))
  unfolding accept
  accept-Idles (goodbye reason) substream h = (refl, refl)
  accept-Idles (status m) substream h = (refl, refl)
  accept-Idles (blocks_by_range r) substream h = (refl, refl)
  accept-Idles (blocks_by_root r) substream h = (refl, refl)

  await_response-Idles :
      (e : P2PEvent) (substream : t.Out) (h : P2PHandler t)
      → Idles h (some (await_response e substream h))
  unfolding await_response
  await_response-Idles (request id req) substream h =
      elim (Bool-cases (Request.expect_response req)) [
        | inl e ↦ rw e (refl, refl)
        | inr e ↦ rw e (refl, refl)
      ]
  await_response-Idles (response _ _) substream h = (refl, refl)
  await_response-Idles (error _ _) substream h = (refl, refl)

  inject_event-Idles : (e : P2PEvent) (h : P2PHandler t) → Idles h (inject_event e h)
  unfolding inject_event inject_response send_request
  inject_event-Idles (request id req) h = (refl, refl)
  inject_event-Idles (response id resp) h = elim (Option-cases (lookup id h.inbound_substreams)) [
    | inl e ↦ rw (e, inject_response) (refl, refl)
    | inr (entry, e) ↦
        elim (Option-cases (respond resp entry.0 (lookup id h.queued_outbound_items))) [
          | inl c ↦ rw (e, inject_response, c, ◌>>=◌) tt
          | inr (s, c) ↦ rw (e, inject_response, c, ◌>>=◌) (refl, refl)
        ]
  ]
  inject_event-Idles (error _ _) h = (refl, refl)

  dial_fails-Idles :
      (e : P2PEvent) (err : UpgradeError) (h : P2PHandler t)
      → Idles h (some (inject_dial_upgrade_error e err h))
  unfolding inject_dial_upgrade_error send_request
  dial_fails-Idles e err h = elim (Bool-cases (is_io_error err)) [
    | inl io ↦
        elim (Bool-cases (ltb ((h.outbound_io_error_retries + 1) % 2 ^ 8) io_error_retries)) [
          | inl few ↦ rw (io, few) (refl, refl)
          | inr many ↦ rw (io, many) (refl, refl)
        ]
    | inr other ↦ rw other (refl, refl)
  ]

  step-Spent :
      (now : ℕ) (c : Call t) (h : P2PHandler t)
      → Shrinking t
      → Inv h
      → h.max_dial_negotiated < 2 ^ 32
      → h.dial_negotiated < 2 ^ 32
      → Ends (Spent (negotiated ((now, c) ∷ [])) h) (step now c h)
  unfolding step inject_fully_negotiated_inbound inject_fully_negotiated_outbound
  step-Spent now (negotiated_inbound req substream) h shrinks v small u32 =
      let h₀ = record h { keep_alive = put_off now h.inactive_timeout h.keep_alive } in
      let i = accept-Idles req substream h₀ in
      opens_none-Spent h (accept req substream h₀) none refl i.0 i.1 u32
  step-Spent now (negotiated_outbound substream e) h shrinks v small u32 =
      let left = (h.dial_negotiated + 2 ^ 32 - 1) % 2 ^ 32 in
      let i = await_response-Idles e substream (record h {
        dial_negotiated = left;
        keep_alive =
            if left == 0 && is_empty h.dial_queue && is_empty h.outbound_substreams
            then until (now + h.inactive_timeout)
            else yes_keep;
      }) in
      record {
        same_most = i.0;
        dials_u32 = omega (arith, i.1);
        spent = omega (arith, i.0, i.1, small, u32);
      }
  step-Spent now (injects e) h shrinks v small u32 =
      let (h', eq, k) = inject_event-Kept t e h v in
      let i : Idles h (some h') = subst (Idles h) eq (inject_event-Idles e h) in
      rw (eq, ◌>>=◌) (opens_none-Spent h h' none refl i.0 i.1 u32)
  step-Spent now (dial_fails e err) h shrinks v small u32 =
      let i = dial_fails-Idles e err h in
      opens_none-Spent h (inject_dial_upgrade_error e err h) none refl i.0 i.1 u32
  step-Spent now polls h shrinks v small u32 = poll-Spent now h shrinks v small u32

  -- A run of any calls, from a handler with the invariant whose counters are in the range of their
  -- type, opens at most as many outbound streams as there are free slots, and one more for each stream
  -- that is negotiated: a dial that fails gives no slot back.
  pub run-opened :
      (cs : List (ℕ × Call t)) (h : P2PHandler t)
      → Shrinking t
      → Inv h
      → h.max_dial_negotiated < 2 ^ 32
      → h.dial_negotiated < 2 ^ 32
      → h.current_inbound_substream_id + length cs < u64
      → (h' : P2PHandler t) × (rs : List PollResult) × (run cs h ≡ some (h', rs))
        × (opened rs + free h' ≤ free h + negotiated cs)
  unfolding run
  run-opened [] h shrinks v small u32 room = (h, [], refl, omega arith)
  run-opened ((now, c) ∷ cs) h shrinks v small u32 room =
      let step_room : h.current_inbound_substream_id + 1 < u64 = omega (arith, room) in
      let (h', r, e, k) =
        Ends-some (λ h' r. Kept t h h') (step now c h) (step-Kept t now c h shrinks v step_room) in
      let s : Spent (negotiated ((now, c) ∷ [])) h h' r =
        subst (Ends (Spent (negotiated ((now, c) ∷ [])) h)) e
          (step-Spent now c h shrinks v small u32) in
      let (h'', rs, e', o) =
        run-opened cs h' shrinks k.inv (omega (arith, small, s.same_most)) s.dials_u32
          (omega (arith, room, k.next_most)) in
      (
        h'',
        results r ++ rs,
        run_cons now c cs h h' h'' r rs e e',
        omega (arith, o, s.spent, opened-results r rs, negotiated_cons now c cs),
      )
