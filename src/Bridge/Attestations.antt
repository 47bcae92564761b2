-- ===== src/Bridge/Attestations.antt =====
-- packages/cre/workflows/transfer-receipts/attestations.ts: what a bridge asks for, and what a report says of it.
pub mod Answering
use beam_sdk_public.Common.{
  ℕ, Bool, true, false, ◌&&◌, Option, none, some, List, [], ◌∷◌, if◌then◌else◌, Text, codes,
  text_eq, map, drop, ◌++◌,
}
use beam_sdk_public.Receipts.TransferId.{to_lower, normalize_transfer_id, transfer_id_to_bytes16}
use beam_sdk_public.Receipts.Report.{
  Abi, StandardReceiptEntry, RoomReceiptEntry, RequestClosureEntry, DecodedReport, room_receipt_key,
  room_request_key,
}
use beam_sdk_public.Receipts.Subjects.{Subject, transfer, room, LookedUp, subject, transfer_with}
use beam_sdk_public.Receipts.Entries.{Added, adds, nothing, throws}

pub data Attestation : Type 0 where
  attest_transfer : Text → Attestation
  -- The Room, the channel and the publication.
  attest_room_publication : Text → Text → Text → Attestation

pub record AttestationRequest : Type 0 where
  pub attest : List Attestation
  pub publish_onchain : Bool

abbrev pub max_attestations : ℕ
max_attestations = 7

unfoldable pub attestation_subject : Attestation → LookedUp
attestation_subject (attest_transfer id) = transfer_with (normalize_transfer_id id) none
attestation_subject (attest_room_publication r c p) =
    subject (room (record { room = r; channel = c; publication = p; request_id = none }))

pub record ReportSubmission : Type 0 where
  pub report : Text
  pub context : Text
  pub signatures : List Text

-- `bytesToHex` begins with 0x.
unfoldable pub report_submission :
    (List ℕ → Text) → List ℕ → List ℕ → List (List ℕ) → ReportSubmission
report_submission bytes_to_hex raw context signatures = record {
  report = drop 2 (bytes_to_hex raw);
  context = drop 2 (bytes_to_hex context);
  signatures = map (λ s. drop 2 (bytes_to_hex s)) signatures;
}

pub data AttestationAnswer : Type 0 where
  standard : StandardReceiptEntry → AttestationAnswer
  of_room : RoomReceiptEntry → AttestationAnswer
  closure : RequestClosureEntry → AttestationAnswer

-- `Array.prototype.find`.
abbrev pub find : {A : Type 0} → (A → Bool) → List A → Option A
find p [] = none
find p (x ∷ xs) = let rest = find p xs in if p x then some x else rest

abbrev pub is_of_transfer : Text → StandardReceiptEntry → Bool
is_of_transfer id e = text_eq (to_lower e.transfer_id) id

abbrev pub is_of_publication : Text → Text → Text → RoomReceiptEntry → Bool
is_of_publication r c p e = text_eq e.room r && (text_eq e.channel c && text_eq e.publication p)

abbrev pub is_of_key : Text → RequestClosureEntry → Bool
is_of_key key e = text_eq (to_lower e.key) key

abbrev pub standard_answer : Option StandardReceiptEntry → Added AttestationAnswer
standard_answer none = nothing
standard_answer (some e) = adds (standard e)

abbrev pub closure_answer : Option RequestClosureEntry → Added AttestationAnswer
closure_answer none = nothing
closure_answer (some e) = adds (closure e)

abbrev pub room_answer : Option RoomReceiptEntry → Added AttestationAnswer → Added AttestationAnswer
room_answer none otherwise = otherwise
room_answer (some e) otherwise = adds (of_room e)

abbrev pub answer_for_id : Option Text → List StandardReceiptEntry → Added AttestationAnswer
answer_for_id none es = throws
answer_for_id (some id) es = standard_answer (find (is_of_transfer id) es)

unfoldable pub answer_for : Abi → Attestation → DecodedReport → Added AttestationAnswer
answer_for w (attest_transfer id) r = answer_for_id (transfer_id_to_bytes16 id) r.standard
answer_for w (attest_room_publication in_room channel publication) r =
    room_answer (find (is_of_publication in_room channel publication) r.rooms) (
      closure_answer (
        find (is_of_key (room_request_key w (room_receipt_key w in_room channel publication)))
          r.closures))
