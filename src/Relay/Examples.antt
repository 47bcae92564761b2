-- ===== src/Relay/Examples.antt =====
-- Runs of packages/cre/relay, and the theorems at concrete inputs.
use beam_sdk_public.Common.{
  ℕ, ◌≤◌, Text, drop, ap, if_rule, Has, inl, inr, ◌<◌, ◌≡◌, refl, arith, true, false, Option, none,
  some, List, [], ◌∷◌, ◌++◌, codes, All, text_eq, get_at, set_at, includes, if◌then◌else◌, leb,
  ◌&&◌,
}
use beam_sdk_public.Common.{join_by, split_on}
use beam_sdk_public.Relay.Starts.{run_from, deliver_all, sort, last_block, insert, workflow_for}
use beam_sdk_public.Relay.Recording.{
  run_receipts, commit_batch, move_cursors, write_batch, write_batches,
}
use beam_sdk_public.Relay.Gathering.{
  gather_requests, asker_of, customers_by, add_pending, gather_listings, sort_listed,
}
use beam_sdk_public.Relay.Planning.{plan_all, plan_item, plan_subject, reader_of, unseen}
use beam_sdk_public.Receipts.Entries.{closure_entry}
use beam_sdk_public.Relay.Charges.{Planned}
use beam_sdk_public.Relay.Customers.{beam}
use beam_sdk_public.Relay.Recording.{Writing}
use beam_sdk_public.Relay.Recording.Complete.{Counts, write_batches-Counts}
use beam_sdk_public.Receipts.Report.{encode_report}
use beam_sdk_public.Receipts.Subjects.{stringified, subject_for_open_request, subject_key}
use beam_sdk_public.Receipts.TransferId.{is_uuid, normalize_transfer_id, transfer_id_to_bytes16}
use beam_sdk_public.Relay.Allowlist.{sync_customers, sync_requester, sync_requesters}
use beam_sdk_public.Relay.Closing.{close_all, close_one, close_unanswerable, retry_commits}
use beam_sdk_public.Relay.Customers.{
  created_during_periods, initial_transfer_cursor, lists_transfers,
}
use beam_sdk_public.Receipts.TransferId.{
  Hashing, to_lower, every, is_hex, bytes16_to_transfer_id, uuid_of,
}
use beam_sdk_public.Receipts.Report.{Abi, RequestClosureEntry, receipt_levels}
use beam_sdk_public.Receipts.Subjects.{OpenRequest, PublicationLookup}
use beam_sdk_public.Receipts.Entries.{
  Observation, TransferObservation, saw_transfer, report_entry_for,
}
use beam_sdk_public.Relay.Starts.{
  TransferRequestLog, StartsIo, accepted, Starts, cursor, run_starts, delivered, saved,
  transfer_workflow,
}
use beam_sdk_public.Relay.Starts.Passes.{IsSettled, IsLogSource, fresh, pass, Reach-Below}
use beam_sdk_public.Relay.Starts.Ending.{run_starts_caught_up}
use beam_sdk_public.Relay.Customers.{
  Listed, next_transfer_cursor, Customer, approved, revoked, never, allowed, ListedTransfer,
  ChargeOutcome, held, charged, unavailable, ChargeSubject, closing,
}
use beam_sdk_public.Relay.Charges.{ChargesIo, charge_subject_of}
use beam_sdk_public.Relay.Gathering.{RelaySettings}
use beam_sdk_public.Relay.Allowlist.{AllowlistIo, sets, reports, sync_allowlist}
use beam_sdk_public.Relay.Allowlist.Calls.{Sound, sync_allowlist-Sound}
use beam_sdk_public.Relay.Pass.{
  starts_settings, PassIo, PassResult, Passed, create_relay_state, run_once,
}
use beam_sdk_public.Relay.Pass.Books.{
  created, passes, KeepsBooks, Running-KeepsBooks, run_once_total,
}

abbrev hashing : Hashing
hashing = record { sha256 = λ b. b; utf8 = λ t. t }

abbrev keys_of : List RequestClosureEntry → Text
keys_of [] = []
keys_of (c ∷ cs) = drop 2 c.key ++ keys_of cs

abbrev abi : Abi
abi = record {
  keccak_of_strings = λ a b c. a ++ b ++ c;
  keccak_of_key = λ n k. n ∷ k;
  encode = λ v. codes "0x" ++ keys_of v.closures;
  decode = λ t. none;
}

abbrev settings : RelaySettings
settings = record {
  start_block = 5;
  log_range_blocks = 3;
  client_id = codes "me";
  levels = receipt_levels false;
  routes = record { room_delivery = none; job_output = none };
  starts = true;
  relay_account = codes "0x99";
  customers = some 10;
}

abbrev seen : TransferObservation
seen = record {
  status = 1;
  total_bytes = 4;
  bytes_transferred = 4;
  completed_at_ms = 50;
  plan_fingerprint = codes "0x";
  coordinate_checksum = codes "0x";
}

abbrev listed : ListedTransfer
listed = record {
  id = codes "00112233-4455-6677-8899-aabbccddeeff";
  created_at = 20;
  completed_at = 50;
  observation = saw_transfer seen;
}

abbrev buyer : Customer
buyer = record {
  organization_id = codes "org";
  reader = record { api_key = codes "k"; organization_id = codes "org" };
  periods = record { started_at = 10; ended_at = none } ∷ [];
  requesters =
      record { id = codes "a"; address = codes "0xaa"; status = approved; allowlist = never }
      ∷ record { id = codes "b"; address = codes "0xbb"; status = revoked; allowlist = allowed }
      ∷ [];
}

-- A request from the address that was revoked.
abbrev asked : OpenRequest
asked = record {
  key = codes "0x01";
  kind = 2;
  transfer_kind = 0;
  requester = codes "0xbb";
  opened_at = 7;
  request_id = codes "0x00";
  transfer_id = codes "0x00112233445566778899aabbccddeeff";
  room = [];
  channel = [];
  publication = [];
}

-- The website does not answer the commit for a closed request.
abbrev commit_by : ChargeSubject → ChargeOutcome
commit_by (closing k) = unavailable 503
commit_by _ = charged

abbrev charges : ChargesIo
charges = record {
  reserve_charge = λ h x organization via. held;
  commit_charge = λ h x. commit_by x;
  cancel_request = λ h k. some (codes "0xcc");
  write_report = λ h report. some (codes "0xdd", []);
}

abbrev log : TransferRequestLog
log = record {
  request_id = codes "0x00";
  requester = codes "0xaa";
  kind = 1;
  input = [];
  block_number = 6;
  log_index = 0;
  transaction_hash = codes "0xee";
}

abbrev starts : StartsIo
starts = record {
  transfer_requests = λ a b. if leb a 6 && leb 6 b then log ∷ [] else [];
  deliver = λ h r w. accepted none;
}

abbrev allowlist : AllowlistIo
allowlist = record {
  set_requester = λ h address allow. some (codes "0xff");
  report_allowlist = λ h id allow hash. true;
}

abbrev io : PassIo
io = record {
  now = 100;
  finalized_block = 9;
  customers = buyer ∷ [];
  open_requests = asked ∷ [];
  transfer_cursors = [];
  finished_transfers = λ reader cursor. some (listed ∷ []);
  starts = starts;
  allowlist = allowlist;
  receipts = record {
    charges = charges;
    find_publication = λ h r reader. PublicationLookup.absent;
    observe = λ h x reader. Observation.absent;
  };
}

first : (result : Passed) × (run_once hashing abi io settings create_relay_state ≡ some result)
first = run_once_total hashing abi settings io create_relay_state (omega arith)

-- The result of a pass, and 0 in all where there is none.
abbrev result_of : Option Passed → Option PassResult
result_of none = none
result_of (some p) = p.result

counts :
    result_of (run_once hashing abi io settings create_relay_state)
    ≡ some (record { started = 1; allowlisted = 2; recorded = 1; closed = 1 })
unfolding run_once run_starts run_from cursor deliver_all sort last_block insert workflow_for
    run_receipts gather_requests asker_of text_eq to_lower get_at customers_by set_at plan_all
    includes report_entry_for encode_report stringified subject_for_open_request subject_key
    bytes16_to_transfer_id every is_hex is_uuid normalize_transfer_id transfer_id_to_bytes16 uuid_of
    join_by split_on sync_allowlist sync_customers sync_requester sync_requesters charge_subject_of
    close_all close_one close_unanswerable retry_commits created_during_periods
    initial_transfer_cursor lists_transfers next_transfer_cursor add_pending gather_listings
    sort_listed plan_item plan_subject reader_of unseen commit_batch move_cursors write_batch
    write_batches
counts = refl

run_once_total_example :
    (result : Passed) × (run_once hashing abi io settings create_relay_state ≡ some result)
run_once_total_example = run_once_total hashing abi settings io create_relay_state (omega arith)

Running-KeepsBooks_example : KeepsBooks hashing abi settings first.0.state
Running-KeepsBooks_example =
    Running-KeepsBooks hashing abi settings first.0.state
      (passes create_relay_state io first.0 created first.1)

sync_allowlist-Sound_example :
    Sound
      (buyer ∷ [])
      []
      (reports (codes "b") false (codes "0xff") true
        ∷ sets (codes "0xbb") false (some (codes "0xff"))
        ∷ reports (codes "a") true (codes "0xff") true
        ∷ sets (codes "0xaa") true (some (codes "0xff"))
        ∷ [])
      2
unfolding sync_allowlist sync_customers sync_requesters sync_requester
sync_allowlist-Sound_example = sync_allowlist-Sound allowlist (buyer ∷ []) []

abbrev done : Listed
done = record { completed_at = 40; done = true }

abbrev waits : Listed
waits = record { completed_at = 50; done = false }

abbrev after_log : Starts
after_log = record {
  history = saved 10 ∷ saved 8 ∷ delivered log transfer_workflow (accepted none) ∷ [];
  delivered_count = 1;
}

started : run_starts starts (starts_settings settings) 9 [] ≡ some after_log
unfolding run_starts run_from cursor deliver_all sort last_block insert workflow_for
started = refl

run_starts_caught_up_example :
    (result : Starts) × (run_starts starts (starts_settings settings) 9 [] ≡ some result)
    × (9 < cursor 5 result.history)
run_starts_caught_up_example =
    run_starts_caught_up starts (starts_settings settings) (λ h r w. refl) 9 [] (omega arith)

source : IsLogSource starts (log ∷ [])
source = record { covers = λ a b r m p q. in_range a b r m p q; within = λ a b. kept_within a b }
  where
    in_range :
        (a b : ℕ) (r : TransferRequestLog)
        → Has r (log ∷ [])
        → a ≤ r.block_number
        → r.block_number ≤ b
        → Has r (starts.transfer_requests a b)
    in_range a b r (inl e) p q =
        if_rule (λ (l : List TransferRequestLog). Has r l) (leb a 6 && leb 6 b) _ _ (λ h. inl e)
          (λ h.
            let at : r.block_number ≡ 6 = ap (λ (x : TransferRequestLog). x.block_number) e in
            absurd (ground (arith, at, p, q)))
    in_range a b r (inr m) p q = absurd m

    kept_within :
        (a b : ℕ)
        → All (λ (r : TransferRequestLog). r.block_number ≤ b) (starts.transfer_requests a b)
    kept_within a b =
        if_rule (All (λ (r : TransferRequestLog). r.block_number ≤ b)) (leb a 6 && leb 6 b) _ _
          (λ h. (ground arith, tt)) (λ h. tt)

Reach-Below_example : IsSettled starts (starts_settings settings) log after_log.history
unfolding cursor
Reach-Below_example =
    Reach-Below starts (starts_settings settings) (log ∷ []) source after_log.history
      (pass 9 [] [] after_log.history after_log.history after_log fresh started refl refl) log
      (inl refl) (omega arith) (omega arith)

abbrev closes_request : Planned
closes_request = record {
  entry = closure_entry (record { key = codes "0x05"; reason = 1; transfer_id = codes "0x00" });
  owner = beam;
  key = codes "room:";
}

abbrev nothing_yet : Writing
nothing_yet = record { recorded = 0; settled = []; history = [] }

write_batches-Counts_example :
    Counts abi charges 2
      (write_batches abi charges 2 (closes_request ∷ closes_request ∷ []) nothing_yet)
unfolding encode_report charge_subject_of
write_batches-Counts_example =
    write_batches-Counts abi charges (λ h report e. cc) 2 (closes_request ∷ closes_request ∷ [])
      nothing_yet ((λ e. cc), ((λ e. cc), tt)) ((λ e. cc), tt) (omega arith)
