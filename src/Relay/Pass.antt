-- ===== src/Relay/Pass.antt =====
-- packages/cre/relay/relay.ts: `runOnce`, with what the relay reads in a pass and what it keeps.
pub mod Books
use beam_sdk_public.Common.{
  ℕ, zero, Bool, true, false, Option, none, some, List, [], ◌∷◌, if◌then◌else◌, Text,
}
use beam_sdk_public.Receipts.TransferId.{Hashing}
use beam_sdk_public.Receipts.Report.{Abi}
use beam_sdk_public.Receipts.Subjects.{OpenRequest}
use beam_sdk_public.Relay.Starts.{StartEffect, StartsIo, StartsSettings, Starts, run_starts}
use beam_sdk_public.Relay.Customers.{Customer}
use beam_sdk_public.Relay.Charges.{Effect}
use beam_sdk_public.Relay.Closing.{Closes, close_unanswerable}
use beam_sdk_public.Relay.Gathering.{RelaySettings, ListTransfers}
use beam_sdk_public.Relay.Planning.{RelayIo, Ran, ran, threw}
use beam_sdk_public.Relay.Recording.{Receipts, run_receipts}
use beam_sdk_public.Relay.Allowlist.{AllowlistCall, AllowlistIo, Allowlisting, sync_allowlist}

-- What a pass reads once, and the calls that it makes.
pub record PassIo : Type 0 where
  pub now : ℕ
  pub finalized_block : ℕ
  pub customers : List Customer
  pub open_requests : List OpenRequest
  pub transfer_cursors : List (Text × ℕ)
  pub finished_transfers : ListTransfers
  pub starts : StartsIo
  pub allowlist : AllowlistIo
  pub receipts : RelayIo

-- `RelayState`, and the calls made since it was created.
pub record RelayState : Type 0 where
  pub uncommitted_closes : List (Text × Text)
  pub start_calls : List StartEffect
  pub allowlist_calls : List AllowlistCall
  pub charge_calls : List Effect

pub record PassResult : Type 0 where
  pub started : ℕ
  pub allowlisted : ℕ
  pub recorded : ℕ
  pub closed : ℕ

-- The state after a pass, and its result unless it throws.
pub record Passed : Type 0 where
  pub state : RelayState
  pub result : Option PassResult

abbrev pub starts_settings : RelaySettings → StartsSettings
starts_settings s = record {
  start_block = s.start_block;
  log_range_blocks = s.log_range_blocks;
  routes = s.routes;
}

abbrev is_customers_mode : Option ℕ → Bool
is_customers_mode none = false
is_customers_mode (some max) = true

abbrev pub run_starts_if : StartsIo → RelaySettings → ℕ → List StartEffect → Option Starts
run_starts_if io s finalized h =
    if s.starts
    then run_starts io (starts_settings s) finalized h
    else some (record { history = h; delivered_count = 0 })

abbrev pub customers_of : PassIo → RelaySettings → List Customer
customers_of io s = if is_customers_mode s.customers then io.customers else []

abbrev pub sync_if : PassIo → RelaySettings → List AllowlistCall → Allowlisting
sync_if io s calls =
    if is_customers_mode s.customers
    then sync_allowlist io.allowlist io.customers calls
    else record { calls = calls; changed = 0 }

abbrev pub close_if : PassIo → RelaySettings → Receipts → List (Text × Text) → Closes
close_if io s r uncommitted =
    if is_customers_mode s.customers
    then close_unanswerable io.receipts.charges r.unanswerable uncommitted r.history
    else record { uncommitted = uncommitted; history = r.history; closed = 0 }

abbrev pub after_receipts :
    PassIo → RelaySettings → Starts → Allowlisting → List (Text × Text) → Ran Receipts → Passed
after_receipts io s started allowlisted uncommitted (threw h) = record {
  state = record {
    uncommitted_closes = uncommitted;
    start_calls = started.history;
    allowlist_calls = allowlisted.calls;
    charge_calls = h;
  };
  result = none;
}
after_receipts io s started allowlisted uncommitted (ran r) =
    let closes = close_if io s r uncommitted in
    record {
      state = record {
        uncommitted_closes = closes.uncommitted;
        start_calls = started.history;
        allowlist_calls = allowlisted.calls;
        charge_calls = closes.history;
      };
      result = some (record {
        started = started.delivered_count;
        allowlisted = allowlisted.changed;
        recorded = r.recorded;
        closed = closes.closed;
      });
    }

abbrev pub after_starts :
    Hashing → Abi → PassIo → RelaySettings → RelayState → Option Starts → Option Passed
after_starts hashing w io s state none = none
after_starts hashing w io s state (some started) = some (
    after_receipts io s started (sync_if io s state.allowlist_calls) state.uncommitted_closes (
      run_receipts hashing w io.receipts io.finished_transfers s io.now io.open_requests
        io.transfer_cursors (customers_of io s) state.charge_calls))

-- `none` where the fuel of the starts does not suffice.
unfoldable pub run_once : Hashing → Abi → PassIo → RelaySettings → RelayState → Option Passed
run_once hashing w io s state =
    after_starts hashing w io s state
      (run_starts_if io.starts s io.finalized_block state.start_calls)

-- `createRelayState`, before any call.
abbrev pub create_relay_state : RelayState
create_relay_state = record {
  uncommitted_closes = [];
  start_calls = [];
  allowlist_calls = [];
  charge_calls = [];
}
