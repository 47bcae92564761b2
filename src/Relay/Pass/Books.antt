-- ===== src/Relay/Pass/Books.antt =====
-- packages/cre/relay/relay.ts: sequences of passes of `runOnce`.
use beam_sdk_public.Common.{
  ◌<◌, ◌≡◌, refl, subst, Option, none, some, some_inj, List, if_rule, Text,
}
use beam_sdk_public.Receipts.TransferId.{Hashing}
use beam_sdk_public.Receipts.Report.{Abi}
use beam_sdk_public.Relay.Starts.{Starts}
use beam_sdk_public.Relay.Starts.Ending.{run_starts_total}
use beam_sdk_public.Relay.Closing.{Closes}
use beam_sdk_public.Relay.Closing.Accounting.{Inv, close_unanswerable-Inv}
use beam_sdk_public.Relay.Gathering.{RelaySettings}
use beam_sdk_public.Relay.Planning.{Ran, ran, threw}
use beam_sdk_public.Relay.Allowlist.{Allowlisting}
use beam_sdk_public.Relay.Recording.{Receipts}
use beam_sdk_public.Relay.Recording.Owned.{LeavesBooks, run_receipts-Inv}
use beam_sdk_public.Relay.Pass.{
  PassIo, RelayState, Passed, run_starts_if, customers_of, close_if, after_receipts, after_starts,
  run_once, create_relay_state,
}

module _ (hashing : Hashing) (w : Abi) (s : RelaySettings) where
  -- The states that passes lead to, in each of which Beam, Studio, the chain and the website answer anew.
  pub data Running : RelayState → Type 0 where
    created : Running create_relay_state
    passes :
        (state : RelayState) (io : PassIo) (result : Passed)
        → Running state
        → run_once hashing w io s state ≡ some result
        → Running result.state

  abbrev pub KeepsBooks : RelayState → Type 0
  KeepsBooks state = Inv w state.uncommitted_closes state.charge_calls

  close_if-Inv :
      (io : PassIo) (r : Receipts) (uncommitted : List (Text × Text))
      → Inv w uncommitted r.history
      → let c = close_if io s r uncommitted in Inv w c.uncommitted c.history
  close_if-Inv io r uncommitted v =
      if_rule (λ (c : Closes). Inv w c.uncommitted c.history) _ _ _
        (λ e. close_unanswerable-Inv w io.receipts.charges r.unanswerable uncommitted r.history v)
        (λ e. v)

  after_receipts-KeepsBooks :
      (io : PassIo) (started : Starts) (a : Allowlisting) (uncommitted : List (Text × Text))
      (r : Ran Receipts)
      → LeavesBooks w uncommitted r
      → KeepsBooks (after_receipts io s started a uncommitted r).state
  after_receipts-KeepsBooks io started a uncommitted (threw h) v = v
  after_receipts-KeepsBooks io started a uncommitted (ran r) v = close_if-Inv io r uncommitted v

  after_starts-KeepsBooks :
      (io : PassIo) (state : RelayState) (o : Option Starts) (result : Passed)
      → KeepsBooks state
      → after_starts hashing w io s state o ≡ some result
      → KeepsBooks result.state
  after_starts-KeepsBooks io state none result v e = cc
  after_starts-KeepsBooks io state (some started) result v e =
      subst (λ (p : Passed). KeepsBooks p.state) (some_inj e)
        (after_receipts-KeepsBooks io started _ state.uncommitted_closes _ (
          run_receipts-Inv hashing w io.receipts io.finished_transfers s io.now io.open_requests
            io.transfer_cursors (customers_of io s) state.uncommitted_closes state.charge_calls v))

  -- In every state that passes lead to from the relay's creation, a pass that throws included, whatever is
  -- answered: each commit of a charge is of a receipt that was in a report mined before, or of a request that
  -- was cancelled before; the charge of each request that was cancelled, and of each receipt of a customer in a
  -- report, was held by the website before; no report has more than 14 entries; and each cancelled request is in
  -- the map of those to commit, which has no other, or had a commit that the website answered.
  pub Running-KeepsBooks : (state : RelayState) → Running state → KeepsBooks state
  unfolding run_once
  Running-KeepsBooks state created = record { backed = tt; owed = tt; accounted = λ k c. absurd c }
  Running-KeepsBooks last (passes state io result before run) =
      after_starts-KeepsBooks io state _ result (Running-KeepsBooks state before) run

  -- A pass over a chain that is read in ranges of at least one block ends.
  pub run_once_total :
      (io : PassIo) (state : RelayState)
      → 0 < s.log_range_blocks
      → (result : Passed) × (run_once hashing w io s state ≡ some result)
  unfolding run_once
  run_once_total io state p = goes _ starts
    where
      starts :
          (started : Starts) × (run_starts_if io.starts s io.finalized_block state.start_calls
            ≡ some started)
      starts =
          if_rule (λ (o : Option Starts). (started : Starts) × (o ≡ some started)) s.starts _ _
            (λ e. run_starts_total io.starts _ io.finalized_block state.start_calls p)
            (λ e. (_, refl))

      goes :
          (o : Option Starts)
          → ((started : Starts) × (o ≡ some started))
          → (result : Passed) × (after_starts hashing w io s state o ≡ some result)
      goes none (started, e) = cc
      goes (some started) v = (_, refl)
