-- ===== src/Relay/Starts/Ending.antt =====
-- packages/cre/relay/relay.ts: how a pass of `runStarts` ends.
use beam_sdk_public.Common.{
  ℕ, zero, suc, ◌+◌, ◌≤◌, ◌<◌, ◌≡◌, refl, sym, subst, true, Option, none, some, List, [], ◌∷◌, leb,
  if_rule, leb→le, arith, some_inj,
}
use beam_sdk_public.Relay.Starts.{
  Workflow, TransferRequestLog, StudioOutcome, accepted, refused, unavailable, StartEffect, saved,
  StartsIo, StartsSettings, workflow_for, sort, Round, settle_answer, start_request, deliver_all,
  Starts, last_block, after_range, run_from, cursor, run_starts,
}
use beam_sdk_public.Relay.Starts.Passes.{is_answer}

last_block-le : (s : StartsSettings) (next finalized : ℕ) → last_block s next finalized ≤ finalized
unfolding last_block
last_block-le s next finalized = ground arith

last_block-ge :
    (s : StartsSettings) (next finalized : ℕ)
    → 0 < s.log_range_blocks
    → next ≤ finalized
    → next ≤ last_block s next finalized
unfolding last_block
last_block-ge s next finalized p h = ground arith

abbrev Ends : StartsSettings → ℕ → Option Starts → Type 0
Ends s finalized o = (result : Starts) × (o ≡ some result)

module _ (io : StartsIo) (s : StartsSettings) where
  run_from_total :
      (finalized fuel next : ℕ) (h : List StartEffect) (n : ℕ)
      → 0 < s.log_range_blocks
      → 0 < fuel
      → finalized + 2 ≤ next + fuel
      → Ends s finalized (run_from io s finalized fuel next h n)
  unfolding run_from
  run_from_total finalized zero next h n p z f = absurd (omega arith)
  run_from_total finalized (suc fuel) next h n p z f =
      let to = last_block s next finalized in
      if_rule (Ends s finalized) (leb next finalized) _ _
        (λ more.
          let near = leb→le _ _ more in
          let far = last_block-ge s next finalized p near in
          after_stop to _ _ _ fuel
            (λ g m. run_from_total finalized fuel (suc to) g m p (omega arith) (omega arith)))
        (λ over. (_, refl))
    where
      after_stop :
          (to : ℕ) (o : Option ℕ) (h' : List StartEffect) (n' : ℕ) (fuel' : ℕ)
          → ((g : List StartEffect) (m : ℕ)
              → Ends s finalized (run_from io s finalized fuel' (suc to) g m))
          → Ends s finalized (after_range (suc to) o h' n' (run_from io s finalized fuel' (suc to)))
      after_stop to (some b) h' n' fuel' ih = (_, refl)
      after_stop to none h' n' fuel' ih = ih (saved (suc to) ∷ h') n'

  -- A pass over a chain with a range of at least one block ends.
  pub run_starts_total :
      (finalized : ℕ) (h : List StartEffect)
      → 0 < s.log_range_blocks
      → (result : Starts) × (run_starts io s finalized h ≡ some result)
  unfolding run_starts
  run_starts_total finalized h p =
      run_from_total finalized (finalized + 2) (cursor s.start_block h) h 0 p (omega arith)
        (omega arith)

  module _
      (up : (h : List StartEffect) (r : TransferRequestLog) (w : Workflow)
        → is_answer (io.deliver h r w) ≡ true) where
    abbrev GoesOn : Round → Type 0
    GoesOn round = round.stopped_at ≡ none

    settle_answer-GoesOn :
        (r : TransferRequestLog) (w : Workflow) (o : StudioOutcome) (h : List StartEffect) (n : ℕ)
        (continue : List StartEffect → ℕ → Round)
        → is_answer o ≡ true
        → ((g : List StartEffect) (m : ℕ) → GoesOn (continue g m))
        → GoesOn (settle_answer r w o h n continue)
    settle_answer-GoesOn r w (accepted id) h n continue e ih = ih _ _
    settle_answer-GoesOn r w (refused status reason) h n continue e ih = ih _ _
    settle_answer-GoesOn r w (unavailable status) h n continue e ih = cc

    start_request-GoesOn :
        (r : TransferRequestLog) (o : Option Workflow) (h : List StartEffect) (n : ℕ)
        (continue : List StartEffect → ℕ → Round)
        → ((g : List StartEffect) (m : ℕ) → GoesOn (continue g m))
        → GoesOn (start_request io r o h n continue)
    start_request-GoesOn r none h n continue ih = ih h n
    start_request-GoesOn r (some w) h n continue ih =
        settle_answer-GoesOn r w (io.deliver h r w) h n continue (up h r w) ih

    deliver_all-GoesOn :
        (rs : List TransferRequestLog) (h : List StartEffect) (n : ℕ)
        → GoesOn (deliver_all io s.routes rs h n)
    unfolding deliver_all
    deliver_all-GoesOn [] h n = refl
    deliver_all-GoesOn (r ∷ rs) h n =
        start_request-GoesOn r (workflow_for s.routes r.kind) h n (deliver_all io s.routes rs)
          (deliver_all-GoesOn rs)

    CaughtUp : ℕ → Option Starts → Type 0
    CaughtUp finalized o =
        (result : Starts) → o ≡ some result → finalized < cursor s.start_block result.history

    run_from-CaughtUp :
        (finalized fuel next : ℕ) (h : List StartEffect) (n : ℕ)
        → cursor s.start_block h ≡ next
        → CaughtUp finalized (run_from io s finalized fuel next h n)
    unfolding run_from CaughtUp
    run_from-CaughtUp finalized zero next h n c = λ result e. cc
    run_from-CaughtUp finalized (suc fuel) next h n c =
        let to = last_block s next finalized in
        let round = deliver_all io s.routes (sort (io.transfer_requests next to)) h n in
        if_rule (CaughtUp finalized) (leb next finalized) _ _
          (λ more.
            subst
              (λ (o : Option ℕ). CaughtUp finalized (
                after_range (suc to) o round.history round.delivered_count
                  (run_from io s finalized fuel (suc to))))
              (sym (deliver_all-GoesOn _ h n))
              (run_from-CaughtUp finalized fuel (suc to) (saved (suc to) ∷ round.history)
                round.delivered_count (unfold cursor in refl)))
          (λ over result e.
            let past : finalized < next = ground arith in
            subst (λ (x : Starts). finalized < cursor s.start_block x.history) (some_inj e)
              (rw c past))

    run_starts-CaughtUp :
        (finalized : ℕ) (h : List StartEffect) → CaughtUp finalized (run_starts io s finalized h)
    unfolding run_starts
    run_starts-CaughtUp finalized h =
        run_from-CaughtUp finalized (finalized + 2) (cursor s.start_block h) h 0 refl

    -- While Studio answers every delivery and a range has at least one block, a pass ends, with the cursor past
    -- the last finalized block.
    pub run_starts_caught_up :
        (finalized : ℕ) (h : List StartEffect)
        → 0 < s.log_range_blocks
        → (result : Starts) × (run_starts io s finalized h ≡ some result)
          × (finalized < cursor s.start_block result.history)
    unfolding CaughtUp
    run_starts_caught_up finalized h p =
        let (result, e) = run_starts_total finalized h p in
        (result, e, run_starts-CaughtUp finalized h result e)
