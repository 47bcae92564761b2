-- ===== src/Relay/Starts.antt =====
-- packages/cre/relay/relay.ts: `runStarts`, with the outcomes of packages/cre/workflows/start-transfer/studio.ts.
-- A pass takes and extends the relay's history, newest first: each delivery with Studio's answer, and
-- each save of the cursor. Studio's answers may depend on the history. A block number is whole.
pub mod Sorting
pub mod Passes
pub mod Ending
use beam_sdk_public.Common.{
  ℕ, zero, suc, ◌+◌, ◌-◌, Bool, true, false, ◌&&◌, ◌||◌, Option, none, some, List, [], ◌∷◌,
  if◌then◌else◌, ltb, leb, ◌==◌, Text, ◌≡◌,
}
use beam_sdk_public.Receipts.Report.{standard_transfer, room_delivery_transfer, job_transfer}
use beam_sdk_public.Receipts.Subjects.{DeploymentRoutes}

pub data Workflow : Type 0 where
  transfer_workflow room_workflow : Workflow

pub record TransferRequestLog : Type 0 where
  pub request_id : Text
  pub requester : Text
  pub kind : ℕ
  pub input : Text
  pub block_number : ℕ
  pub log_index : ℕ
  pub transaction_hash : Text

pub data StudioOutcome : Type 0 where
  accepted : Option Text → StudioOutcome
  refused : ℕ → Option Text → StudioOutcome
  unavailable : ℕ → StudioOutcome

pub data StartEffect : Type 0 where
  delivered : TransferRequestLog → Workflow → StudioOutcome → StartEffect
  saved : ℕ → StartEffect

pub record StartsIo : Type 0 where
  -- The logs from a block to a block, both included.
  pub transfer_requests : ℕ → ℕ → List TransferRequestLog
  pub deliver : List StartEffect → TransferRequestLog → Workflow → StudioOutcome

pub record StartsSettings : Type 0 where
  pub start_block : ℕ
  pub log_range_blocks : ℕ
  pub routes : DeploymentRoutes

abbrev is_set {ℓ} : {A : Type ℓ} → Option A → Bool
is_set none = false
is_set (some a) = true

unfoldable pub workflow_for : DeploymentRoutes → ℕ → Option Workflow
workflow_for routes kind =
    if kind == standard_transfer
    then some transfer_workflow
    else if ((kind == room_delivery_transfer) && is_set routes.room_delivery)
        || ((kind == job_transfer) && (is_set routes.room_delivery && is_set routes.job_output))
    then some room_workflow
    else none

-- By block, and within a block by index.
abbrev pub is_before : TransferRequestLog → TransferRequestLog → Bool
is_before a b =
    ltb a.block_number b.block_number
    || ((a.block_number == b.block_number) && leb a.log_index b.log_index)

unfoldable pub insert : TransferRequestLog → List TransferRequestLog → List TransferRequestLog
insert r [] = r ∷ []
insert r (q ∷ qs) = let rest = insert r qs in if is_before r q then r ∷ q ∷ qs else q ∷ rest

-- `.sort(…)`, which is stable.
unfoldable pub sort : List TransferRequestLog → List TransferRequestLog
sort [] = []
sort (r ∷ rs) = insert r (sort rs)

-- What the loop over the logs of a range comes to; it may stop at a block.
pub record Round : Type 0 where
  pub history : List StartEffect
  pub delivered_count : ℕ
  pub stopped_at : Option ℕ

-- What Studio's answer to a request leads to, with the loop that goes on from there.
abbrev pub settle_answer :
    TransferRequestLog
    → Workflow
    → StudioOutcome
    → List StartEffect
    → ℕ
    → (List StartEffect → ℕ → Round)
    → Round
settle_answer r w (accepted id) h n continue = continue (delivered r w (accepted id) ∷ h) (suc n)
settle_answer r w (refused status reason) h n continue =
    continue (delivered r w (refused status reason) ∷ h) n
settle_answer r w (unavailable status) h n continue = record {
  history = saved r.block_number ∷ delivered r w (unavailable status) ∷ h;
  delivered_count = n;
  stopped_at = some r.block_number;
}

abbrev pub start_request :
    StartsIo
    → TransferRequestLog
    → Option Workflow
    → List StartEffect
    → ℕ
    → (List StartEffect → ℕ → Round)
    → Round
start_request io r none h n continue = continue h n
start_request io r (some w) h n continue = settle_answer r w (io.deliver h r w) h n continue

-- The loop over the sorted logs of a range.
unfoldable pub deliver_all :
    StartsIo → DeploymentRoutes → List TransferRequestLog → List StartEffect → ℕ → Round
deliver_all io routes [] h n = record { history = h; delivered_count = n; stopped_at = none }
deliver_all io routes (r ∷ rs) h n =
    start_request io r (workflow_for routes r.kind) h n (deliver_all io routes rs)

pub record Starts : Type 0 where
  pub history : List StartEffect
  pub delivered_count : ℕ

unfoldable pub last_block : StartsSettings → ℕ → ℕ → ℕ
last_block s next finalized =
    if ltb (next + s.log_range_blocks - 1) finalized
    then next + s.log_range_blocks - 1
    else finalized

-- After a range: return at an unavailable request, or save the cursor and go on.
abbrev pub after_range :
    ℕ → Option ℕ → List StartEffect → ℕ → (List StartEffect → ℕ → Option Starts) → Option Starts
after_range next (some block) h n continue = some (record { history = h; delivered_count = n })
after_range next none h n continue = continue (saved next ∷ h) n

-- `while (next <= finalized)`, one unit of fuel for each range and one for the end.
unfoldable pub run_from :
    StartsIo → StartsSettings → ℕ → ℕ → ℕ → List StartEffect → ℕ → Option Starts
run_from io s finalized zero next h n = none
run_from io s finalized (suc fuel) next h n =
    let to_block = last_block s next finalized in
    let round = deliver_all io s.routes (sort (io.transfer_requests next to_block)) h n in
    let rest =
      after_range (suc to_block) round.stopped_at round.history round.delivered_count
        (run_from io s finalized fuel (suc to_block)) in
    if leb next finalized then rest else some (record { history = h; delivered_count = n })

-- The cursor file: what was saved last, or the start block.
unfoldable pub cursor : ℕ → List StartEffect → ℕ
cursor start [] = start
cursor start (saved n ∷ h) = n
cursor start (delivered r w o ∷ h) = cursor start h

unfoldable pub run_starts : StartsIo → StartsSettings → ℕ → List StartEffect → Option Starts
run_starts io s finalized h = run_from io s finalized (finalized + 2) (cursor s.start_block h) h 0
