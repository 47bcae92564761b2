-- ===== src/Receipts/Report.antt =====
-- packages/cre/workflows/transfer-receipts/receipts.ts: kinds, statuses, levels, the entries of a report,
-- and its encoding. The ABI encoding and keccak256 are parameters. Hex strings are texts.
use mathlib.Core.Bool.{Bool}
use beam_sdk_public.Common.{
  ℕ, ◌+◌, ◌-◌, ◌*◌, ◌/◌, Option, none, some, List, if◌then◌else◌, ltb, ◌==◌, Text, length,
}

-- `RequestKind`.
abbrev pub transfer_request : ℕ
transfer_request = 1

abbrev pub receipt_request : ℕ
receipt_request = 2

abbrev pub room_receipt_request : ℕ
room_receipt_request = 3

-- `TransferKind`.
abbrev pub standard_transfer : ℕ
standard_transfer = 1

abbrev pub room_delivery_transfer : ℕ
room_delivery_transfer = 2

abbrev pub job_transfer : ℕ
job_transfer = 3

-- `Level`: bits that no two levels share, so that `|` of distinct ones is their sum.
abbrev pub beam_reported : ℕ
beam_reported = 1

abbrev pub target_signed : ℕ
target_signed = 2

abbrev pub don_attested : ℕ
don_attested = 4

pub record ReceiptLevels : Type 0 where
  pub standard : ℕ
  pub room : ℕ
  pub room_signed : ℕ

unfoldable pub receipt_levels : Bool → ReceiptLevels
receipt_levels attested =
    let attestation = if attested then don_attested else 0 in
    record {
      standard = beam_reported + attestation;
      room = beam_reported + attestation;
      room_signed = beam_reported + target_signed + attestation;
    }

abbrev pub bucket_only_publication : ℕ
bucket_only_publication = 1

abbrev pub report_version : ℕ
report_version = 2

abbrev pub max_report_bytes : ℕ
max_report_bytes = 50 * 1024

pub record StandardReceiptEntry : Type 0 where
  pub transfer_id : Text
  pub request_id : Text
  pub status : ℕ
  pub total_bytes : ℕ
  pub bytes_transferred : ℕ
  pub completed_at_ms : ℕ
  pub plan_fingerprint : Text
  pub coordinate_checksum : Text
  pub level : ℕ

pub record RoomReceiptEntry : Type 0 where
  pub room : Text
  pub channel : Text
  pub publication : Text
  pub request_id : Text
  pub status : ℕ
  pub file_size_bytes : ℕ
  pub manifest_sha256 : Text
  pub target_count : ℕ
  pub evidence_sha256 : Text
  pub assignments_sha256 : Text
  pub evidence_version : ℕ
  pub level : ℕ

pub record RequestClosureEntry : Type 0 where
  pub key : Text
  pub reason : ℕ
  pub transfer_id : Text

pub record JobResultEntry : Type 0 where
  pub request_id : Text
  pub input_room_key : Text
  pub output_room_key : Text
  pub compute_member : Text

-- The values of `reportParameters`.
pub record ReportValues : Type 0 where
  pub version : ℕ
  pub standard : List StandardReceiptEntry
  pub rooms : List RoomReceiptEntry
  pub closures : List RequestClosureEntry
  pub jobs : List JobResultEntry

pub record DecodedReport : Type 0 where
  pub standard : List StandardReceiptEntry
  pub rooms : List RoomReceiptEntry
  pub closures : List RequestClosureEntry
  pub jobs : List JobResultEntry

pub record Abi : Type 0 where
  -- `keccak256` of the ABI encoding of three strings, and of a number and a hash.
  pub keccak_of_strings : Text → Text → Text → Text
  pub keccak_of_key : ℕ → Text → Text
  -- `encodeAbiParameters` and `decodeAbiParameters` with `reportParameters`; the latter may throw.
  pub encode : ReportValues → Text
  pub decode : Text → Option ReportValues

unfoldable pub room_receipt_key : Abi → Text → Text → Text → Text
room_receipt_key w room channel publication = w.keccak_of_strings room channel publication

unfoldable pub room_request_key : Abi → Text → Text
room_request_key w room_key = w.keccak_of_key room_receipt_request room_key

-- `encodeReport`, and `none` where it throws. The text begins with 0x, so that it has an even length.
unfoldable pub encode_report :
    Abi
    → List StandardReceiptEntry
    → List RoomReceiptEntry
    → List RequestClosureEntry
    → List JobResultEntry
    → Option Text
encode_report w standard rooms closures jobs =
    let report = w.encode (record {
      version = report_version;
      standard = standard;
      rooms = rooms;
      closures = closures;
      jobs = jobs;
    }) in
    let size = (length report - 2) / 2 in if ltb max_report_bytes size then none else some report

abbrev pub decoded : Option ReportValues → Option DecodedReport
decoded none = none
decoded (some v) =
    if v.version == report_version
    then some
        (record { standard = v.standard; rooms = v.rooms; closures = v.closures; jobs = v.jobs })
    else none

unfoldable pub decode_report : Abi → Text → Option DecodedReport
decode_report w report = decoded (w.decode report)
