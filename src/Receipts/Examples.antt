-- ===== src/Receipts/Examples.antt =====
-- Runs of packages/cre/workflows/transfer-receipts, and the theorems at concrete inputs.
use beam_sdk_public.Common.{
  trim, ◌≡◌, refl, true, false, none, some, List, [], ◌∷◌, ◌++◌, Text, codes, text_eq, get_at,
  set_at, join_by,
}
use beam_sdk_public.Receipts.TransferId.{
  Hashing, is_uuid, transfer_id_to_bytes16, to_lower, is_hex, every, normalize_request_id, uuid_of,
  bytes16_to_transfer_id, transfer_id_for_idempotency_key,
}
use beam_sdk_public.Receipts.TransferId.Spelling.{transfer_id_to_bytes16-bytes16_to_transfer_id}
use beam_sdk_public.Receipts.Report.{Abi, RequestClosureEntry, receipt_levels}
use beam_sdk_public.Receipts.Subjects.{
  Subject, transfer, job, DeploymentRoutes, OpenRequest, JobSubject, subject, subject_key,
  stringified, keep_one, collect, unique_subjects, subject_for_open_request,
}
use beam_sdk_public.Receipts.Entries.{RoomObservation, saw_room, ReportEntry, adds, job_entries_for}
use beam_sdk_public.Receipts.Entries.Answers.{IsAnswer, job_entries_for_lem, job_entries_for_total}

abbrev request_id : Text
request_id = codes "0xAB00000000000000000000000000000000000000000000000000000000000001"

abbrev hashing : Hashing
hashing = record { sha256 = λ b. b; utf8 = λ t. t }

normalizes :
    normalize_request_id request_id
    ≡ some (codes "0xab00000000000000000000000000000000000000000000000000000000000001")
unfolding normalize_request_id to_lower every is_hex
normalizes = refl

spelled :
    bytes16_to_transfer_id (codes "0x00112233445566778899aabbccddEEFF")
    ≡ some (codes "00112233-4455-6677-8899-aabbccddeeff")
unfolding bytes16_to_transfer_id to_lower every is_hex uuid_of join_by
spelled = refl

transfer_id_to_bytes16-bytes16_to_transfer_id_example :
    (is_uuid (codes "00112233-4455-6677-8899-aabbccddeeff") ≡ true)
    × (transfer_id_to_bytes16 (codes "00112233-4455-6677-8899-aabbccddeeff")
        ≡ some (to_lower (codes "0x00112233445566778899aabbccddEEFF")))
transfer_id_to_bytes16-bytes16_to_transfer_id_example =
    transfer_id_to_bytes16-bytes16_to_transfer_id (codes "0x00112233445566778899aabbccddEEFF")
      (codes "00112233-4455-6677-8899-aabbccddeeff") spelled

hashed :
    transfer_id_for_idempotency_key hashing (codes "me") (codes " k ")
    ≡ some (codes "6265616d-2d74-5261-ae73-6665723a6d65")
unfolding transfer_id_for_idempotency_key trim uuid_of join_by
hashed = refl

escapes :
    stringified (codes "a") (34 ∷ 1 ∷ []) []
    ≡ codes "["
      ++ (34 ∷ 97 ∷ 34 ∷ 44 ∷ 34 ∷ 92 ∷ 34 ∷ 92 ∷ codes "u0001" ++ 34 ∷ 44 ∷ 34 ∷ 34 ∷ codes "]")
unfolding stringified
escapes = refl

abbrev routes : DeploymentRoutes
routes = record {
  room_delivery =
      some (record { room = codes "r"; channel = codes "in"; publisher_member_id = codes "m" });
  job_output = some (record { channel = codes "out"; compute_member_id = codes "c" });
}

abbrev job_request : OpenRequest
job_request = record {
  key = codes "0x01";
  kind = 1;
  transfer_kind = 3;
  requester = codes "0x02";
  opened_at = 7;
  request_id = request_id;
  transfer_id = codes "0x00";
  room = [];
  channel = [];
  publication = [];
}

abbrev job_of_request : JobSubject
job_of_request = record {
  room = codes "r";
  input_channel = codes "in";
  source_member_id = codes "m";
  output_channel = codes "out";
  compute_member_id = codes "c";
  request_id = request_id;
}

asks_job :
    subject_for_open_request hashing (codes "me") routes job_request ≡ subject (job job_of_request)
unfolding subject_for_open_request
asks_job = refl

abbrev given : List Subject
given =
    transfer (codes "a") none
    ∷ transfer (codes "b") none
    ∷ transfer (codes "a") (some request_id)
    ∷ []

abbrev IsTransfer : Subject → Type 0
IsTransfer (transfer id r) = Unit
IsTransfer _ = ⊥

keeps_two :
    unique_subjects given ≡ transfer (codes "a") (some request_id) ∷ transfer (codes "b") none ∷ []
unfolding unique_subjects collect keep_one subject_key get_at set_at text_eq
keeps_two = refl

abbrev closure : RequestClosureEntry
closure = record { key = codes "0x05"; reason = 1; transfer_id = codes "0x00" }

abbrev abi : Abi
abi = record {
  keccak_of_strings = λ a b c. a ++ b ++ c;
  keccak_of_key = λ n k. n ∷ k;
  encode = λ v. codes "0x0102";
  decode = λ t.
      some (record { version = 2; standard = []; rooms = []; closures = closure ∷ []; jobs = [] });
}

abbrev seen : RoomObservation
seen = record {
  status = 1;
  file_size_bytes = 9;
  manifest_sha256 = codes "0x";
  target_count = 1;
  is_target_signed = true;
  evidence_sha256 = codes "0x";
  assignments_sha256 = codes "0x";
  evidence_version = 1;
}

abbrev made : RoomObservation
made = record seen { file_size_bytes = 12; is_target_signed = false }

job_answer :
    (es : List ReportEntry) × (job_entries_for abi job_of_request
        (codes "p", codes "q")
        (saw_room seen, saw_room made)
        (receipt_levels true)
      ≡ adds es)
    × IsAnswer abi job_of_request (codes "p", codes "q") (seen, made) (receipt_levels true) es
job_answer =
    job_entries_for_total abi job_of_request (codes "p", codes "q") seen made (receipt_levels true)

job_entries_for_lem_example :
    (x : RoomObservation) × (y : RoomObservation) × (saw_room seen ≡ saw_room x)
    × (saw_room made ≡ saw_room y)
    × IsAnswer abi job_of_request (codes "p", codes "q") (x, y) (receipt_levels true) job_answer.0
job_entries_for_lem_example =
    job_entries_for_lem abi job_of_request (codes "p", codes "q") (saw_room seen, saw_room made)
      (receipt_levels true) job_answer.0 job_answer.1
