-- ===== src/Relay/Charges.antt =====
-- packages/cre/relay/relay.ts: what the relay has the website charge and the chain record. A history of
-- these calls, newest first, has each call with its answer; the answers may depend on the history.
pub mod Backed
use beam_sdk_public.Common.{ℕ, Option, none, some, List, Text}
use beam_sdk_public.Receipts.TransferId.{bytes16_to_transfer_id}
use beam_sdk_public.Receipts.Report.{Abi, room_receipt_key}
use beam_sdk_public.Receipts.Entries.{
  ReportEntry, standard_entry, room_entry, closure_entry, job_entry, Added, adds, nothing, throws,
}
use beam_sdk_public.Relay.Customers.{
  Owner, Via, ChargeSubject, transfer_receipt, room_receipt, ChargeOutcome,
}

-- `chargeSubjectOf`: the receipt that an entry records. Closures and job results are never charged.
abbrev pub transfer_subject : Option Text → Added ChargeSubject
transfer_subject none = throws
transfer_subject (some id) = adds (transfer_receipt id)

unfoldable pub charge_subject_of : Abi → ReportEntry → Added ChargeSubject
charge_subject_of w (standard_entry e) = transfer_subject (bytes16_to_transfer_id e.transfer_id)
charge_subject_of w (room_entry e) =
    adds (room_receipt (room_receipt_key w e.room e.channel e.publication))
charge_subject_of w (closure_entry e) = nothing
charge_subject_of w (job_entry e) = nothing

-- An entry of a report, whose it is, and the key of its subject.
pub record Planned : Type 0 where
  pub entry : ReportEntry
  pub owner : Owner
  pub key : Text

abbrev pub max_entries_per_report : ℕ
max_entries_per_report = 14

pub data Effect : Type 0 where
  reserves : ChargeSubject → ChargeOutcome → Effect
  commits : ChargeSubject → ChargeOutcome → Effect
  -- The hash, or nothing if the call failed.
  cancels : Text → Option Text → Effect
  -- The entries of one report, and the hash with the keys that were recorded.
  writes : List Planned → Option (Text × List Text) → Effect

pub record ChargesIo : Type 0 where
  pub reserve_charge : List Effect → ChargeSubject → Text → Via → ChargeOutcome
  pub commit_charge : List Effect → ChargeSubject → ChargeOutcome
  pub cancel_request : List Effect → Text → Option Text
  pub write_report : List Effect → Text → Option (Text × List Text)
