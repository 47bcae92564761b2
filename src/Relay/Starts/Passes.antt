-- ===== src/Relay/Starts/Passes.antt =====
-- packages/cre/relay/relay.ts: passes of `runStarts` over a chain, with stops at any point.
use beam_sdk_public.Common.{
  ℕ, zero, suc, ◌+◌, ◌≤◌, ◌<◌, ◌≡◌, refl, sym, subst, ◌⊎◌, inl, inr, Bool, true, false, Option,
  none, some, List, [], ◌∷◌, ◌++◌, ltb, leb, if_rule, Bool-cases, ltb→lt, All, All-Has, Has, arith,
  some_inj,
}
use beam_sdk_public.Relay.Starts.{
  Workflow, TransferRequestLog, StudioOutcome, accepted, refused, unavailable, StartEffect,
  delivered, saved, StartsIo, StartsSettings, workflow_for, sort, Round, settle_answer,
  start_request, deliver_all, Starts, last_block, after_range, run_from, cursor, run_starts,
}
use beam_sdk_public.Relay.Starts.Sorting.{IsAfter, IsSorted, sort-Has, sort-All, sort-IsSorted}

abbrev pub is_answer : StudioOutcome → Bool
is_answer (accepted id) = true
is_answer (refused status reason) = true
is_answer (unavailable status) = false

-- Studio accepted or refused the request.
abbrev pub WasAnswered : TransferRequestLog → List StartEffect → Type 0
WasAnswered r [] = ⊥
WasAnswered r (delivered q w o ∷ h) = ((r ≡ q) × (is_answer o ≡ true)) ⊎ WasAnswered r h
WasAnswered r (saved n ∷ h) = WasAnswered r h

pub record IsLogSource (io : StartsIo) (chain : List TransferRequestLog) : Type 0 where
  pub covers :
      (a b : ℕ) (r : TransferRequestLog)
      → Has r chain
      → a ≤ r.block_number
      → r.block_number ≤ b
      → Has r (io.transfer_requests a b)
  pub within :
      (a b : ℕ) → All (λ (r : TransferRequestLog). r.block_number ≤ b) (io.transfer_requests a b)

module _ (io : StartsIo) (s : StartsSettings) where
  -- What passes can have written when the relay stops at any point, between passes or within one.
  pub data Reach : List StartEffect → Type 0 where
    fresh : Reach []
    pass :
        (finalized : ℕ) (h lost kept u : List StartEffect) (result : Starts)
        → Reach h
        → run_starts io s finalized h ≡ some result
        → result.history ≡ lost ++ u
        → u ≡ kept ++ h
        → Reach u

  -- The deployment starts no transfer for it, or Studio answered it.
  abbrev pub IsSettled : TransferRequestLog → List StartEffect → Type 0
  IsSettled r h = (workflow_for s.routes r.kind ≡ none) ⊎ WasAnswered r h

  module _ (chain : List TransferRequestLog) where
    abbrev pub Below : ℕ → List StartEffect → Type 0
    Below n h =
        (r : TransferRequestLog)
        → Has r chain
        → s.start_block ≤ r.block_number
        → r.block_number < n
        → IsSettled r h

    abbrev IsSafe : List StartEffect → Type 0
    IsSafe h = Below (cursor s.start_block h) h

    abbrev AlwaysSafe : List StartEffect → Type 0
    AlwaysSafe [] = IsSafe []
    AlwaysSafe (e ∷ h) = IsSafe (e ∷ h) × AlwaysSafe h

    -- What is not settled yet, of the blocks up to `to`, is still to come.
    abbrev Left : ℕ → List TransferRequestLog → List StartEffect → Type 0
    Left to rs h =
        (r : TransferRequestLog)
        → Has r chain
        → s.start_block ≤ r.block_number
        → r.block_number ≤ to
        → IsSettled r h ⊎ Has r rs

    abbrev RoundOk : ℕ → Round → Type 0
    RoundOk to round =
        AlwaysSafe round.history × (round.stopped_at ≡ none → Below (suc to) round.history)

    AlwaysSafe-head : (h : List StartEffect) → AlwaysSafe h → IsSafe h
    AlwaysSafe-head [] v = v
    AlwaysSafe-head (e ∷ h) v = v.0

    AlwaysSafe-tail : (lost u : List StartEffect) → AlwaysSafe (lost ++ u) → AlwaysSafe u
    AlwaysSafe-tail [] u v = v
    AlwaysSafe-tail (e ∷ lost) u v = AlwaysSafe-tail lost u v.1

    later :
        (r q : TransferRequestLog) (w : Workflow) (o : StudioOutcome) (h : List StartEffect)
        → IsSettled r h
        → IsSettled r (delivered q w o ∷ h)
    later r q w o h (inl e) = inl e
    later r q w o h (inr m) = inr (inr m)

    AlwaysSafe-delivered :
        (q : TransferRequestLog) (w : Workflow) (o : StudioOutcome) (h : List StartEffect)
        → AlwaysSafe h
        → AlwaysSafe (delivered q w o ∷ h)
    unfolding cursor
    AlwaysSafe-delivered q w o h v = (λ r c a b. later r q w o h (AlwaysSafe-head h v r c a b), v)

    module _ (to : ℕ) (q : TransferRequestLog) (rs : List TransferRequestLog)
        (h : List StartEffect) where
      drop_settled : IsSettled q h → Left to (q ∷ rs) h → Left to rs h
      drop_settled e l r c a b = elim (l r c a b) [
        | inl d ↦ inl d
        | inr m ↦ elim m [ inl p ↦ inl (subst (λ x. IsSettled x h) (sym p) e) | inr m' ↦ inr m' ]
      ]

      answered :
          (w : Workflow) (o : StudioOutcome)
          → is_answer o ≡ true
          → Left to (q ∷ rs) h
          → Left to rs (delivered q w o ∷ h)
      answered w o e l r c a b = elim (l r c a b) [
        | inl d ↦ inl (later r q w o h d)
        | inr m ↦ elim m [ inl p ↦ inl (inr (inl (p, e))) | inr m' ↦ inr m' ]
      ]

      stopped :
          (w : Workflow) (o : StudioOutcome)
          → IsSorted (q ∷ rs)
          → q.block_number ≤ to
          → Left to (q ∷ rs) h
          → Below q.block_number (delivered q w o ∷ h)
      stopped w o v u l r c a b = elim (l r c a (omega arith)) [
        | inl d ↦ later r q w o h d
        | inr m ↦
            let after = All-Has (IsAfter q.block_number) (q ∷ rs) r (omega arith, v.0) m in
            absurd (omega (arith, after))
      ]

    -- A request at the head of what is left, if the loop is right from there.
    module _ (to : ℕ) (q : TransferRequestLog) (rs : List TransferRequestLog)
        (continue : List StartEffect → ℕ → Round)
        (next : (h : List StartEffect) (n : ℕ)
          → Left to rs h
          → AlwaysSafe h
          → RoundOk to (continue h n)) where
      settle_answer-RoundOk :
          (w : Workflow) (o : StudioOutcome) (h : List StartEffect) (n : ℕ)
          → IsSorted (q ∷ rs)
          → q.block_number ≤ to
          → Left to (q ∷ rs) h
          → AlwaysSafe h
          → RoundOk to (settle_answer q w o h n continue)
      settle_answer-RoundOk w (accepted id) h n v u l a =
          next (delivered q w (accepted id) ∷ h) (suc n) (answered to q rs h w (accepted id) refl l)
            (AlwaysSafe-delivered q w (accepted id) h a)
      settle_answer-RoundOk w (refused status reason) h n v u l a =
          next (delivered q w (refused status reason) ∷ h) n
            (answered to q rs h w (refused status reason) refl l)
            (AlwaysSafe-delivered q w (refused status reason) h a)
      settle_answer-RoundOk w (unavailable status) h n v u l a = (
        (
          unfold cursor in stopped to q rs h w (unavailable status) v u l,
          AlwaysSafe-delivered q w (unavailable status) h a,
        ),
        λ e. cc,
      )

      start_request-RoundOk :
          (o : Option Workflow) (h : List StartEffect) (n : ℕ)
          → workflow_for s.routes q.kind ≡ o
          → IsSorted (q ∷ rs)
          → q.block_number ≤ to
          → Left to (q ∷ rs) h
          → AlwaysSafe h
          → RoundOk to (start_request io q o h n continue)
      start_request-RoundOk none h n e v u l a = next h n (drop_settled to q rs h (inl e) l) a
      start_request-RoundOk (some w) h n e v u l a =
          settle_answer-RoundOk w (io.deliver h q w) h n v u l a

    deliver_all-RoundOk :
        (to : ℕ) (rs : List TransferRequestLog) (h : List StartEffect) (n : ℕ)
        → IsSorted rs
        → All (λ (r : TransferRequestLog). r.block_number ≤ to) rs
        → Left to rs h
        → AlwaysSafe h
        → RoundOk to (deliver_all io s.routes rs h n)
    unfolding deliver_all
    deliver_all-RoundOk to [] h n v u l a =
        (a, λ e r c x y. elim (l r c x (omega arith)) [ inl d ↦ d | inr m ↦ absurd m ])
    deliver_all-RoundOk to (q ∷ rs) h n v u l a =
        start_request-RoundOk to q rs (deliver_all io s.routes rs)
          (λ h' n' l' a'. deliver_all-RoundOk to rs h' n' v.1 u.1 l' a')
          (workflow_for s.routes q.kind) h n refl v u.0 l a

    module _ (source : IsLogSource io chain) where
      range-Left :
          (next to : ℕ) (h : List StartEffect)
          → Below next h
          → Left to (sort (io.transfer_requests next to)) h
      range-Left next to h b r c x y = elim (Bool-cases (ltb r.block_number next)) [
        | inl old ↦ inl (b r c x (ltb→lt _ _ old))
        | inr new ↦ inr (sort-Has r _ (source.covers next to r c (ground arith) y))
      ]

      after_range-AlwaysSafe :
          (fuel finalized to : ℕ) (o : Option ℕ) (h : List StartEffect) (n : ℕ) (result : Starts)
          → ((g : List StartEffect)
              → AlwaysSafe g
              → Below (suc to) g
              → run_from io s finalized fuel (suc to) g n ≡ some result
              → AlwaysSafe result.history)
          → AlwaysSafe h
          → (o ≡ none → Below (suc to) h)
          → after_range (suc to) o h n (run_from io s finalized fuel (suc to)) ≡ some result
          → AlwaysSafe result.history
      after_range-AlwaysSafe fuel finalized to (some block) h n result ih a b e =
          subst (λ (x : Starts). AlwaysSafe x.history) (some_inj e) a
      after_range-AlwaysSafe fuel finalized to none h n result ih a b e =
          ih (saved (suc to) ∷ h) (unfold cursor in (b refl, a)) (b refl) e

      run_from-AlwaysSafe :
          (finalized fuel next : ℕ) (h : List StartEffect) (n : ℕ) (result : Starts)
          → AlwaysSafe h
          → Below next h
          → run_from io s finalized fuel next h n ≡ some result
          → AlwaysSafe result.history
      unfolding run_from
      run_from-AlwaysSafe finalized zero next h n result a b = λ e. cc
      run_from-AlwaysSafe finalized (suc fuel) next h n result a b =
          let to = last_block s next finalized in
          let logs = sort (io.transfer_requests next to) in
          let (ra, rb) =
            deliver_all-RoundOk to logs h n (sort-IsSorted _) (sort-All _ _ (source.within next to))
              (range-Left next to h b) a in
          if_rule (λ (o : Option Starts). o ≡ some result → AlwaysSafe result.history)
            (leb next finalized) _ _
            (λ more.
              after_range-AlwaysSafe fuel finalized to _ _ _ result
                (λ g ga gb. run_from-AlwaysSafe finalized fuel (suc to) g _ result ga gb) ra rb)
            (λ over e. subst (λ (x : Starts). AlwaysSafe x.history) (some_inj e) a)

      Reach-AlwaysSafe : (h : List StartEffect) → Reach h → AlwaysSafe h
      unfolding run_starts
      Reach-AlwaysSafe [] fresh = unfold cursor in (λ r c x y. absurd (omega arith))
      Reach-AlwaysSafe u (pass finalized h lost kept _ result before run cut extends) =
          let a = Reach-AlwaysSafe h before in
          AlwaysSafe-tail lost u (
            subst AlwaysSafe cut (
              run_from-AlwaysSafe finalized (finalized + 2) (cursor s.start_block h) h 0 result a
                (AlwaysSafe-head h a) run))

      -- Wherever the relay stops, in whatever passes, every request in a block below the saved cursor, from
      -- the start block on, was answered by Studio, which accepted or refused it, or is of a kind that the
      -- deployment does not start: none is lost.
      pub Reach-Below : (h : List StartEffect) → Reach h → Below (cursor s.start_block h) h
      Reach-Below h r = AlwaysSafe-head h (Reach-AlwaysSafe h r)
