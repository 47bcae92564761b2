-- ===== src/Bridge/Results.antt =====
-- packages/cre/bridge/bridge.ts: `handleResult`, and what `handleDelivery` does with the state. `handleResult` waits
-- for the signers and their signatures, and others go on in the meantime: it is given the reports that the bridge
-- had when the request came in, and the bridge as it is when it has waited.
pub mod Taking
use beam_sdk_public.Common.{
  ℕ, zero, suc, ◌+◌, ◌-◌, ◌*◌, ◌/◌, ◌%◌, Bool, true, false, ◌&&◌, ◌||◌, not, Option, none, some,
  List, [], ◌∷◌, ◌++◌, if◌then◌else◌, ltb, leb, ◌==◌, Text, codes, text_eq, includes, take, drop,
  length, get_at, set_at,
}
use beam_sdk_public.Server.Json.{Json, Items, nil, cons, obj, get, as_string, as_array}
use beam_sdk_public.Receipts.TransferId.{to_lower, every, is_hex}
use beam_sdk_public.Receipts.Report.{Abi, DecodedReport, decode_report}
use beam_sdk_public.Receipts.Entries.{Added, adds, nothing, throws}
use beam_sdk_public.Bridge.Attestations.{
  Attestation, AttestationAnswer, ReportSubmission, report_submission, answer_for,
}
use beam_sdk_public.Bridge.Signatures.{SignedReport, Curve, SignerSet, verify_report_signatures}
use beam_sdk_public.Bridge.Requests.{
  cre_reply, AnswerView, Signatures, WorkflowView, Attested, BridgeReply, attested, BridgeRequest,
  BridgeState, answer_view, unanswered_reply, is_unanswered, answer,
}
use beam_sdk_public.Bridge.Pumps.{CreAnswers, Bridge, save}
use beam_sdk_public.Bridge.Reports.{ReportHeader, parse_header, report_body, parse_submission}

-- What a bridge has beside its state: the DON's signers, of which nothing is given where the bridge does not
-- verify, and `none` where reading them throws; and the length of a reply as JSON.
pub record ResultIo : Type 0 where
  pub curve : Curve
  pub abi : Abi
  pub digest_of : List ℕ → Text
  pub bytes_to_hex : List ℕ → Text
  pub signers : ℕ → Bool → Option (Option SignerSet)
  pub json_length : Attested → ℕ

pub data ResultResponse : Type 0 where
  invalid_report duplicate unexpected_workflow signers_unavailable invalid_signatures :
      ResultResponse
  accepted : ℕ → ResultResponse
  threw : ResultResponse

abbrev pub max_reply_bytes : ℕ
max_reply_bytes = 64 * 1024

abbrev pub max_remembered_reports : ℕ
max_remembered_reports = 1000

-- The signer set, if there is one, and the signers that were accepted.
pub data Verified : Type 0 where
  verified : Option SignerSet → List Text → Verified
  refused : ResultResponse → Verified

abbrev pub accepted_by : SignerSet → Option (List Text) → Verified
accepted_by set none = refused invalid_signatures
accepted_by set (some found) = verified (some set) found

abbrev pub verified_again : Curve → SignedReport → Option (Option SignerSet) → Verified
verified_again c r none = refused signers_unavailable
verified_again c r (some none) = verified none []
verified_again c r (some (some set)) = accepted_by set (verify_report_signatures c r set)

abbrev pub verified_by :
    Curve → SignedReport → SignerSet → Option (Option SignerSet) → Option (List Text) → Verified
verified_by c r set again none = verified_again c r again
verified_by c r set again (some found) = verified (some set) found

-- If the signatures do not verify, the signers are read once more.
abbrev pub verify :
    Curve → SignedReport → Option (Option SignerSet) → Option (Option SignerSet) → Verified
verify c r none again = refused signers_unavailable
verify c r (some none) again = verified none []
verify c r (some (some set)) again = verified_by c r set again (verify_report_signatures c r set)

abbrev is_set {ℓ} : {A : Type ℓ} → Option A → Bool
is_set none = false
is_set (some a) = true

abbrev f_of : Option SignerSet → Option ℕ
f_of none = none
f_of (some set) = some set.f

abbrev pub workflow_view : ReportHeader → WorkflowView
workflow_view h = record {
  id = h.workflow_id;
  owner = codes "0x" ++ h.workflow_owner;
  name = h.workflow_name;
  execution_id = h.execution_id;
  don_id = h.don_id;
  timestamp = h.timestamp;
}

abbrev pub attested_reply :
    ReportHeader
    → Option SignerSet
    → List Text
    → ReportSubmission
    → BridgeRequest
    → AnswerView
    → Attested
attested_reply h signers found submission r view = record {
  request = r.attestation;
  answer = view;
  signatures = record { is_verified = is_set signers; f = f_of signers; signers = found };
  workflow = workflow_view h;
  report = submission;
}

-- The reply, without the report where that does not fit.
abbrev pub fitting : ResultIo → BridgeRequest → Attested → BridgeReply
fitting io r x =
    if ltb max_reply_bytes (io.json_length x)
    then unanswered_reply cre_reply r (codes "reply_too_large")
        (codes "The signed report does not fit in a Room reply.")
    else attested x

-- The requests, how many were answered, and whether it threw.
pub record Answering : Type 0 where
  pub requests : List (Text × BridgeRequest)
  pub answered : ℕ
  pub threw : Bool

abbrev pub answered_view :
    ResultIo
    → ℕ
    → Text
    → BridgeRequest
    → (AnswerView → Attested)
    → Added AnswerView
    → List (Text × BridgeRequest)
    → Answering
    → Answering
answered_view io now key r reply throws m rest = record {
  requests = (key, r) ∷ m;
  answered = 0;
  threw = true;
}
answered_view io now key r reply nothing m rest = record rest {
  requests = (key, r) ∷ rest.requests;
}
answered_view io now key r reply (adds view) m rest = record rest {
  requests = (key, answer now (fitting io r (reply view)) r) ∷ rest.requests;
  answered = suc rest.answered;
}

abbrev pub viewed : Added AttestationAnswer → Added AnswerView
viewed throws = throws
viewed nothing = nothing
viewed (adds x) = answer_view x

-- The loop over the requests; one that has a reply is passed over.
unfoldable pub answer_each :
    ResultIo
    → ℕ
    → (BridgeRequest → AnswerView → Attested)
    → DecodedReport
    → List (Text × BridgeRequest)
    → Answering
answer_each io now reply decoded [] = record { requests = []; answered = 0; threw = false }
answer_each io now reply decoded ((key, r) ∷ m) =
    let rest = answer_each io now reply decoded m in
    let asked = viewed (answer_for io.abi r.attestation decoded) in
    let next = answered_view io now key r (reply r) asked m rest in
    if is_unanswered r then next else (record rest { requests = (key, r) ∷ rest.requests })

-- `.slice(-MAX_REMEMBERED_REPORTS)`.
abbrev pub last_reports : List Text → List Text
last_reports reports = drop (length reports - max_remembered_reports) reports

abbrev pub store : Text → Answering → Bridge → Bridge × ResultResponse
store digest a b =
    if a.threw then (record b { state = (record b.state { requests = a.requests }) }, threw) else (
      save (record b {
        state = record {
          requests = a.requests;
          reports = last_reports (b.state.reports ++ digest ∷ []);
        };
      }),
      accepted a.answered,
    )

abbrev pub take_verified :
    ResultIo
    → ℕ
    → SignedReport
    → ReportHeader
    → DecodedReport
    → Verified
    → Bridge
    → Bridge × ResultResponse
take_verified io now r h decoded (refused response) b = (b, response)
take_verified io now r h decoded (verified signers found) b =
    let submission = report_submission io.bytes_to_hex r.raw_report r.context r.signatures in
    store (io.digest_of r.raw_report)
      (answer_each io now (attested_reply h signers found submission) decoded b.state.requests) b

abbrev pub take_decoded :
    ResultIo
    → CreAnswers
    → ℕ
    → SignedReport
    → Option ReportHeader
    → Option DecodedReport
    → Bridge
    → Bridge × ResultResponse
take_decoded io a now r (some h) (some decoded) b =
    if not (text_eq h.workflow_id a.workflow_id)
      || not (text_eq (codes "0x" ++ h.workflow_owner) a.workflow_owner)
    then (b, unexpected_workflow)
    else take_verified io now r h decoded
        (verify io.curve r (io.signers h.don_id false) (io.signers h.don_id true)) b
take_decoded io a now r _ _ b = (b, invalid_report)

abbrev pub take_signed :
    ResultIo → CreAnswers → ℕ → Option SignedReport → List Text → Bridge → Bridge × ResultResponse
take_signed io a now none seen b = (b, invalid_report)
take_signed io a now (some r) seen b =
    if includes seen (io.digest_of r.raw_report)
    then (b, duplicate)
    else take_decoded io a now r (parse_header r.raw_report)
        (decode_report io.abi (report_body r.raw_report)) b

abbrev pub parsed : Option Json → Option SignedReport
parsed none = none
parsed (some value) = parse_submission value

-- Of a bridge whose answers come from a DON; `none` is a body that is not JSON, and `seen` are the reports that the
-- bridge has when it came in. Where nothing is waited for, the bridge is left as it is.
unfoldable pub handle_result :
    ResultIo → CreAnswers → ℕ → Option Json → List Text → Bridge → Bridge × ResultResponse
handle_result io a now body seen b = take_signed io a now (parsed body) seen b

-- What `handleDelivery` does with a message that asks for an attestation; a second one with its id adds nothing.
abbrev pub keep_or_add : Option BridgeRequest → BridgeRequest → Bridge → Bridge
keep_or_add (some r) new b = b
keep_or_add none new b =
    save (record b { state = (record b.state { requests = set_at new.id new b.state.requests }) })

unfoldable pub receive : Text → Text → Text → Text → Attestation → Bool → ℕ → Bridge → Bridge
receive id room channel publisher attestation publish now b =
    keep_or_add (get_at id b.state.requests)
      (record {
        id = id;
        room = room;
        channel = channel;
        publisher = publisher;
        received_at = now;
        attestation = attestation;
        publish_onchain = publish;
        attempts = 0;
        forwarded_at = none;
        requested_block = none;
        reply = none;
        answered_at = none;
      })
      b
