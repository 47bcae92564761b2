-- ===== src/Bridge/Requests.antt =====
-- packages/cre/bridge/bridge.ts: the requests that a bridge keeps, and its replies. A block is a number.
use beam_sdk_public.Common.{
  ℕ, ◌+◌, ◌/◌, ◌%◌, Bool, true, false, Option, none, some, List, [], ◌∷◌, ◌++◌, if◌then◌else◌, ◌==◌,
  Text, codes, decimal, ltb, leb, ◌||◌, ◌*◌,
}
use beam_sdk_public.Receipts.TransferId.{bytes16_to_transfer_id, is_zero_bytes}
use beam_sdk_public.Receipts.Entries.{Added, adds, throws}
use beam_sdk_public.Receipts.Report.{StandardReceiptEntry}
use beam_sdk_public.Bridge.Attestations.{
  Attestation, attest_transfer, attest_room_publication, AttestationAnswer, standard, of_room,
  closure, ReportSubmission,
}

pub data ReplyType : Type 0 where
  cre_reply chain_reply : ReplyType

pub record TransferView : Type 0 where
  pub transfer_id : Text
  pub status : Text
  pub total_bytes : Text
  pub bytes_transferred : Text
  pub completed_at_ms : Text
  pub plan_fingerprint : Text
  pub coordinate_checksum : Text
  pub level : ℕ
  pub level_names : List Text

pub record PublicationView : Type 0 where
  pub room : Text
  pub channel : Text
  pub publication : Text
  pub status : Text
  pub file_size_bytes : Text
  pub manifest_sha256 : Text
  pub target_count : ℕ
  pub evidence_sha256 : Text
  pub assignments_sha256 : Text
  pub evidence_version : ℕ
  pub level : ℕ
  pub level_names : List Text

pub data AnswerView : Type 0 where
  transfer_view : TransferView → AnswerView
  publication_view : PublicationView → AnswerView
  bucket_only : Option Text → AnswerView

pub record Signatures : Type 0 where
  pub is_verified : Bool
  pub f : Option ℕ
  pub signers : List Text

pub record WorkflowView : Type 0 where
  pub id : Text
  pub owner : Text
  pub name : Text
  pub execution_id : Text
  pub don_id : ℕ
  pub timestamp : ℕ

pub record Attested : Type 0 where
  pub request : Attestation
  pub answer : AnswerView
  pub signatures : Signatures
  pub workflow : WorkflowView
  pub report : ReportSubmission

-- The outcome 'not_attested' or 'not_recorded', by the type.
pub record Unanswered : Type 0 where
  pub type : ReplyType
  pub request : Attestation
  pub reason : Text
  pub message : Text

-- The record of a contract, with the chain's part of the reply.
pub record Recorded : Type 0 where
  pub request : Attestation
  pub answer : AnswerView
  pub chain_id : ℕ
  pub contract : Text
  pub don_attested : Bool
  pub transaction : Option Text
  pub block : Option ℕ

pub data BridgeReply : Type 0 where
  attested : Attested → BridgeReply
  not_answered : Unanswered → BridgeReply
  recorded : Recorded → BridgeReply

pub record BridgeRequest : Type 0 where
  pub id : Text
  pub room : Text
  pub channel : Text
  pub publisher : Text
  pub received_at : ℕ
  pub attestation : Attestation
  pub publish_onchain : Bool
  pub attempts : ℕ
  pub forwarded_at : Option ℕ
  pub requested_block : Option ℕ
  pub reply : Option BridgeReply
  pub answered_at : Option ℕ

pub record BridgeState : Type 0 where
  pub requests : List (Text × BridgeRequest)
  pub reports : List Text

abbrev pub empty_state : BridgeState
empty_state = record { requests = []; reports = [] }

unfoldable pub describe : Attestation → Text
describe (attest_transfer id) = codes "transfer " ++ id
describe (attest_room_publication room channel publication) =
    codes "publication " ++ room ++ codes "/" ++ channel ++ codes "/" ++ publication

-- `STATUS_NAMES`, and the number of a status without a name.
unfoldable pub status_name : ℕ → Text
status_name n =
    if n == 1
    then codes "completed"
    else if n == 2
    then codes "failed"
    else if n == 3
    then codes "cancelled"
    else if n == 4
    then codes "partial"
    else decimal n

abbrev bit_name : ℕ → ℕ → Text → List Text → List Text
bit_name level bit name rest = if (level / bit) % 2 == 1 then name ∷ rest else rest

unfoldable pub level_names : ℕ → List Text
level_names level =
    bit_name level 1 (codes "beam_reported")
      (bit_name level 2 (codes "target_signed") (bit_name level 4 (codes "don_attested") []))

abbrev view_of_transfer : StandardReceiptEntry → Option Text → Added AnswerView
view_of_transfer e none = throws
view_of_transfer e (some id) = adds (
    transfer_view (record {
      transfer_id = id;
      status = status_name e.status;
      total_bytes = decimal e.total_bytes;
      bytes_transferred = decimal e.bytes_transferred;
      completed_at_ms = decimal e.completed_at_ms;
      plan_fingerprint = e.plan_fingerprint;
      coordinate_checksum = e.coordinate_checksum;
      level = e.level;
      level_names = level_names e.level;
    }))

abbrev view_of_closure : Option Text → Added AnswerView
view_of_closure none = throws
view_of_closure (some id) = adds (bucket_only (some id))

unfoldable pub answer_view : AttestationAnswer → Added AnswerView
answer_view (standard e) = view_of_transfer e (bytes16_to_transfer_id e.transfer_id)
answer_view (of_room e) = adds (
    publication_view (record {
      room = e.room;
      channel = e.channel;
      publication = e.publication;
      status = status_name e.status;
      file_size_bytes = decimal e.file_size_bytes;
      manifest_sha256 = e.manifest_sha256;
      target_count = e.target_count;
      evidence_sha256 = e.evidence_sha256;
      assignments_sha256 = e.assignments_sha256;
      evidence_version = e.evidence_version;
      level = e.level;
      level_names = level_names e.level;
    }))
answer_view (closure e) =
    if is_zero_bytes e.transfer_id
    then adds (bucket_only none)
    else view_of_closure (bytes16_to_transfer_id e.transfer_id)

-- `unanswered`, without the outcome, which the type decides.
unfoldable pub unanswered_reply : ReplyType → BridgeRequest → Text → Text → BridgeReply
unanswered_reply type r reason message =
    not_answered
      (record { type = type; request = r.attestation; reason = reason; message = message })

abbrev pub has_no : Option BridgeReply → Bool
has_no none = true
has_no (some x) = false

abbrev pub is_unanswered : BridgeRequest → Bool
is_unanswered r = has_no r.reply

abbrev pub answer : ℕ → BridgeReply → BridgeRequest → BridgeRequest
answer now x r = record r { reply = some x; answered_at = some now }

-- Of the requests that pass a test: a change, whether there is one, and those that do not.
abbrev pub update_where :
    (BridgeRequest → Bool)
    → (BridgeRequest → BridgeRequest)
    → List (Text × BridgeRequest)
    → List (Text × BridgeRequest)
update_where p f [] = []
update_where p f ((k, r) ∷ m) = (k, if p r then f r else r) ∷ update_where p f m

abbrev pub some_where : (BridgeRequest → Bool) → List (Text × BridgeRequest) → Bool
some_where p [] = false
some_where p ((k, r) ∷ m) = p r || some_where p m

abbrev pub delete_where :
    (BridgeRequest → Bool) → List (Text × BridgeRequest) → List (Text × BridgeRequest)
delete_where p [] = []
delete_where p ((k, r) ∷ m) = let rest = delete_where p m in if p r then rest else (k, r) ∷ rest

abbrev pub retention_seconds : ℕ
retention_seconds = 25 * 3600

-- `now - pending.receivedAt > RETENTION_SECONDS`, without the subtraction.
abbrev pub is_expired : ℕ → BridgeRequest → Bool
is_expired now r = ltb (r.received_at + retention_seconds) now

unfoldable pub drop_expired : ℕ → List (Text × BridgeRequest) → List (Text × BridgeRequest)
drop_expired now m = delete_where (is_expired now) m

-- `Object.values`, of those without a reply.
abbrev pending_of : List (Text × BridgeRequest) → List BridgeRequest
pending_of [] = []
pending_of ((k, r) ∷ m) = let rest = pending_of m in if is_unanswered r then r ∷ rest else rest

abbrev insert_request : BridgeRequest → List BridgeRequest → List BridgeRequest
insert_request r [] = r ∷ []
insert_request r (q ∷ qs) =
    let rest = insert_request r qs in
    if leb r.received_at q.received_at then r ∷ q ∷ qs else q ∷ rest

-- `.sort(…)` by when they were received, which is stable.
abbrev sort_requests : List BridgeRequest → List BridgeRequest
sort_requests [] = []
sort_requests (r ∷ rs) = insert_request r (sort_requests rs)

unfoldable pub unanswered : List (Text × BridgeRequest) → List BridgeRequest
unanswered m = sort_requests (pending_of m)
