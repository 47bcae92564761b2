-- ===== src/Receipts/Entries.antt =====
-- packages/cre/workflows/transfer-receipts/subjects.ts: what an observation adds to a report, with the type
-- `Observation` of beam.ts. A decimal string of an observation is the number that it spells.
pub mod Answers
use beam_sdk_public.Common.{
  ℕ, ◌+◌, Bool, true, false, Option, none, some, List, [], ◌∷◌, ◌++◌, if◌then◌else◌, Text, codes,
}
use beam_sdk_public.Receipts.TransferId.{transfer_id_to_bytes16}
use beam_sdk_public.Receipts.Report.{
  Abi, ReceiptLevels, StandardReceiptEntry, RoomReceiptEntry, RequestClosureEntry, JobResultEntry,
  bucket_only_publication, room_receipt_key, room_request_key,
}
use beam_sdk_public.Receipts.Subjects.{
  RoomSubject, RoomRequestSubject, JobSubject, Subject, transfer, room, room_request, job,
}

pub record TransferObservation : Type 0 where
  pub status : ℕ
  pub total_bytes : ℕ
  pub bytes_transferred : ℕ
  pub completed_at_ms : ℕ
  pub plan_fingerprint : Text
  pub coordinate_checksum : Text

pub record RoomObservation : Type 0 where
  pub status : ℕ
  pub file_size_bytes : ℕ
  pub manifest_sha256 : Text
  pub target_count : ℕ
  pub is_target_signed : Bool
  pub evidence_sha256 : Text
  pub assignments_sha256 : Text
  pub evidence_version : ℕ

pub data Observation : Type 0 where
  unavailable absent pending : Observation
  error : ℕ → Observation
  invalid : Text → Observation
  not_room : Text → Observation
  saw_transfer : TransferObservation → Observation
  saw_room : RoomObservation → Observation

abbrev zeros_of : List ℕ → Text → Text
zeros_of [] t = t
zeros_of (n ∷ ns) t = codes "0000000000000000" ++ zeros_of ns t

abbrev pub zero_bytes16 : Text
zero_bytes16 = codes "0x" ++ zeros_of (1 ∷ 1 ∷ []) []

abbrev pub zero_bytes32 : Text
zero_bytes32 = codes "0x" ++ zeros_of (1 ∷ 1 ∷ 1 ∷ 1 ∷ []) []

pub data ReportEntry : Type 0 where
  standard_entry : StandardReceiptEntry → ReportEntry
  room_entry : RoomReceiptEntry → ReportEntry
  closure_entry : RequestClosureEntry → ReportEntry
  job_entry : JobResultEntry → ReportEntry

-- What a call adds to a report, or that it adds nothing (null), or that it throws.
pub data Added {ℓ} (A : Type ℓ) : Type ℓ where
  adds : A → Added A
  nothing : Added A
  throws : Added A

abbrev pub or_zero : Option Text → Text
or_zero none = zero_bytes32
or_zero (some id) = id

abbrev pub standard_entry_for :
    Text → TransferObservation → ReceiptLevels → Text → StandardReceiptEntry
standard_entry_for request_id seen levels id = record {
  transfer_id = id;
  request_id = request_id;
  status = seen.status;
  total_bytes = seen.total_bytes;
  bytes_transferred = seen.bytes_transferred;
  completed_at_ms = seen.completed_at_ms;
  plan_fingerprint = seen.plan_fingerprint;
  coordinate_checksum = seen.coordinate_checksum;
  level = levels.standard;
}

abbrev pub added_standard :
    Option Text → TransferObservation → ReceiptLevels → Option Text → Added ReportEntry
added_standard request_id seen levels none = throws
added_standard request_id seen levels (some id) =
    adds (standard_entry (standard_entry_for (or_zero request_id) seen levels id))

abbrev pub room_entry_for : RoomSubject → RoomObservation → ReceiptLevels → RoomReceiptEntry
room_entry_for s seen levels = record {
  room = s.room;
  channel = s.channel;
  publication = s.publication;
  request_id = or_zero s.request_id;
  status = seen.status;
  file_size_bytes = seen.file_size_bytes;
  manifest_sha256 = seen.manifest_sha256;
  target_count = seen.target_count;
  evidence_sha256 = seen.evidence_sha256;
  assignments_sha256 = seen.assignments_sha256;
  evidence_version = seen.evidence_version;
  level = if seen.is_target_signed then levels.room_signed else levels.room;
}

-- `observation.transferId ? transferIdToBytes16(observation.transferId) : ZERO_BYTES16`.
abbrev pub closed_transfer : Text → Option Text
closed_transfer [] = some zero_bytes16
closed_transfer (c ∷ id) = transfer_id_to_bytes16 (c ∷ id)

abbrev pub added_closure : Abi → RoomSubject → Option Text → Added ReportEntry
added_closure w s none = throws
added_closure w s (some id) = adds (
    closure_entry (record {
      key = room_request_key w (room_receipt_key w s.room s.channel s.publication);
      reason = bucket_only_publication;
      transfer_id = id;
    }))

unfoldable pub report_entry_for : Abi → Subject → Observation → ReceiptLevels → Added ReportEntry
report_entry_for w (transfer id r) (saw_transfer seen) levels =
    added_standard r seen levels (transfer_id_to_bytes16 id)
report_entry_for w (room s) (saw_room seen) levels =
    adds (room_entry (room_entry_for s seen levels))
report_entry_for w (room s) (not_room id) levels = added_closure w s (closed_transfer id)
report_entry_for w _ _ levels = nothing

-- An entry of kind 'room'.
abbrev pub as_room : Added ReportEntry → Added RoomReceiptEntry
as_room (adds (room_entry a)) = adds a
as_room throws = throws
as_room _ = nothing

-- Null if one of the entries is not of kind 'room', and the entries with the job's result otherwise.
abbrev pub linked :
    Abi
    → JobSubject
    → RoomSubject
    → RoomSubject
    → Added RoomReceiptEntry
    → Added RoomReceiptEntry
    → Added (List ReportEntry)
linked w s input output throws _ = throws
linked w s input output nothing throws = throws
linked w s input output nothing _ = nothing
linked w s input output (adds a) throws = throws
linked w s input output (adds a) nothing = nothing
linked w s input output (adds a) (adds b) = adds (
    room_entry a
    ∷ room_entry b
    ∷ job_entry (record {
      request_id = s.request_id;
      input_room_key = room_receipt_key w input.room input.channel input.publication;
      output_room_key = room_receipt_key w output.room output.channel output.publication;
      compute_member = s.compute_member_id;
    })
    ∷ [])

abbrev pub published : Text → Text → Text → RoomSubject
published r c p = record { room = r; channel = c; publication = p; request_id = none }

-- The publications and the observations are those of the input and of the output.
unfoldable pub job_entries_for :
    Abi
    → JobSubject
    → Text × Text
    → Observation × Observation
    → ReceiptLevels
    → Added (List ReportEntry)
job_entries_for w s publications seen levels =
    let input = published s.room s.input_channel publications.0 in
    let output = published s.room s.output_channel publications.1 in
    linked w s input output (as_room (report_entry_for w (room input) seen.0 levels))
      (as_room (report_entry_for w (room output) seen.1 levels))
