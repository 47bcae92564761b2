-- ===== src/Bridge/Examples.antt =====
-- Runs of packages/cre/bridge, and the theorems at concrete inputs.
use beam_sdk_public.Common.{
  ℕ, zero, suc, ◌≡◌, refl, false, some, none, List, [], ◌∷◌, ◌++◌, codes, All, length, Text,
  text_eq, starts_with, trim, includes, get_at, set_at, split_on,
}
use beam_sdk_public.Server.Json.{
  Json, str, arr, num, obj, cons, nil, field, end, get, as_string, as_number, as_array,
}
use beam_sdk_public.Receipts.TransferId.{
  to_lower, every, is_hex, is_uuid, normalize_transfer_id, transfer_id_to_bytes16,
  bytes16_to_transfer_id, uuid_of,
}
use beam_sdk_public.Receipts.Report.{Abi, StandardReceiptEntry, DecodedReport, decode_report}
use beam_sdk_public.Receipts.Entries.{adds}
use beam_sdk_public.Bridge.Attestations.{Attestation, attest_transfer, standard, answer_for}
use beam_sdk_public.Bridge.Signatures.{
  SignedReport, Curve, SignerSet, report_digest, verify_report_signatures, accept_all, signer_of,
  normalized_at,
}
use beam_sdk_public.Bridge.Signatures.Quorum.{IsDistinct, IsSigner, verify_report_signatures_lem}
use beam_sdk_public.Bridge.Requests.{empty_state, answer_view, describe, drop_expired, unanswered}
use beam_sdk_public.Bridge.Pumps.{CreAnswers, Bridge, Forwarding, pump_cre}
use beam_sdk_public.Bridge.Pumps.Keeping.{Goes}
use beam_sdk_public.Bridge.Pumps.Lagging
use beam_sdk_public.Bridge.Reports.{parse_submission, parse_header, report_body, hex}
use beam_sdk_public.Bridge.Results.{ResultIo, accepted, handle_result, receive, answer_each}
use beam_sdk_public.Bridge.Results.Taking.{Takes, handle_result-Takes}
use beam_sdk_public.Bridge.Webhook.{
  WebhookPlatform, verify_webhook_signature, some_secret, given_signatures, is_timestamp,
  timestamp_number, parse_envelope, parse_room_request, has_only, is_publication_id,
}
use beam_sdk_public.Bridge.Delivery.{
  BridgeConfig, HookRequest, PollResponse, handle_delivery, handle_poll,
}
use beam_sdk_public.Bridge.Delivery
use beam_sdk_public.Bridge.Contract.{
  ContractAnswers, looks_up, requests, ChainIo, pump_each, pump_contract,
}
use beam_sdk_public.Bridge.Contract.Once.{OpensOnce, pump_contract-Goes}
use beam_sdk_public.Bridge.Delivery.Accepting.{
  Delivers, handle_delivery_lem, Polls, handle_poll_lem,
}

abbrev repeated : ℕ → ℕ → List ℕ
repeated zero x = []
repeated (suc n) x = x ∷ repeated n x

abbrev curve : Curve
curve = record { keccak256 = λ bytes. bytes; recover_address = λ digest s. some (codes "0xAA") }

abbrev signers : SignerSet
signers = record { f = 0; signers = codes "0xaa" ∷ [] }

abbrev signed : SignedReport
signed = record {
  raw_report = 1 ∷ [];
  context = 2 ∷ [];
  signatures = (3 ∷ []) ∷ repeated 65 0 ∷ [];
}

verifies : verify_report_signatures curve signed signers ≡ some (codes "0xaa" ∷ [])
unfolding verify_report_signatures accept_all signer_of normalized_at report_digest to_lower
    includes text_eq
verifies = refl

verify_report_signatures_lem_example :
    (length (codes "0xaa" ∷ []) ≡ 1)
    × IsDistinct (codes "0xaa" ∷ [])
    × All
        (IsSigner curve 1
          (report_digest curve (1 ∷ []) (2 ∷ []))
          (codes "0xaa" ∷ [])
          signed.signatures)
        (codes "0xaa" ∷ [])
verify_report_signatures_lem_example =
    verify_report_signatures_lem curve signed signers (codes "0xaa" ∷ []) verifies

abbrev entry : StandardReceiptEntry
entry = record {
  transfer_id = codes "0x00112233445566778899AABBCCDDEEFF";
  request_id = codes "0x";
  status = 1;
  total_bytes = 4;
  bytes_transferred = 4;
  completed_at_ms = 50;
  plan_fingerprint = codes "0x";
  coordinate_checksum = codes "0x";
  level = 5;
}

abbrev report : DecodedReport
report = record { standard = entry ∷ []; rooms = []; closures = []; jobs = [] }

abbrev abi : Abi
abi = record {
  keccak_of_strings = λ a b c. a ++ b ++ c;
  keccak_of_key = λ n k. n ∷ k;
  encode = λ v. codes "0x0102";
  decode = λ t.
      some (record { version = 2; standard = entry ∷ []; rooms = []; closures = []; jobs = [] });
}

abbrev asked : Attestation
asked = attest_transfer (codes "00112233-4455-6677-8899-aabbccddeeff")

answers : answer_for abi asked report ≡ adds (standard entry)
unfolding answer_for transfer_id_to_bytes16 normalize_transfer_id to_lower is_uuid every is_hex
    split_on text_eq
answers = refl

abbrev answering : CreAnswers
answering = record {
  workflow_id = repeated 64 48;
  workflow_owner = codes "0x" ++ repeated 40 48;
  pace_seconds = 30;
  retry_seconds = 60;
  max_attempts = 3;
}

abbrev io : ResultIo
io = record {
  curve = curve;
  abi = abi;
  digest_of = λ bytes. codes "d";
  bytes_to_hex = λ bytes. codes "0x";
  signers = λ don again. some (some signers);
  json_length = λ x. 900;
}

abbrev body : Json
body = obj (
    field (codes "report") (str (repeated 220 48)) (
      field (codes "context") (str [])
        (field (codes "signatures") (arr (cons (str (repeated 130 48)) nil)) end)))

abbrev empty : Bridge
empty = record { state = empty_state; saved = empty_state; next_run_at = 0; forwarded = [] }

abbrev requested : Bridge
requested = receive (codes "p") (codes "r") (codes "c") (codes "m") asked false 100 empty

takes_one : (handle_result io answering 200 (some body) [] requested).1 ≡ accepted 1
unfolding handle_result receive parse_submission parse_header report_body decode_report answer_each
    answer_for answer_view verify_report_signatures accept_all signer_of normalized_at report_digest
    to_lower includes text_eq get as_string as_array hex every is_hex get_at set_at
    transfer_id_to_bytes16 normalize_transfer_id is_uuid split_on bytes16_to_transfer_id uuid_of
takes_one = refl

handle_result-Takes_example :
    Takes io 200 answering
      (some body)
      []
      requested
      (handle_result io answering 200 (some body) [] requested).0
handle_result-Takes_example =
    handle_result-Takes io 200 answering (some body) [] requested 1 takes_one

-- A pump starts; the report comes in and is accepted while it waits; and then the workflow answers.
abbrev waiting : Bridge
waiting = (pump_cre answering 150 requested).0

abbrev first_batch : Forwarding
first_batch = record {
  batch = record { attest = (describe asked, asked) ∷ []; ids = codes "p" ∷ [] };
  at = 150;
}

abbrev while_waiting : Bridge
while_waiting = (handle_result io answering 200 (some body) [] waiting).0

abbrev id : Text
id = codes "btr_pub_" ++ repeated 26 97

abbrev platform : WebhookPlatform
platform = record {
  hmac_sha256 = λ secret bytes. repeated 32 0;
  parse_text = λ t. some (
      obj (
        field (codes "op") (str (codes "attest_room_publication"))
          (field (codes "channel") (str (codes "c")) (field (codes "publication") (str id) end))));
  parse_bytes = λ bytes. some (
      obj (
        field (codes "type") (str (codes "message")) (
          field (codes "room_id") (str (codes "r")) (
            field (codes "channel_id") (str (codes "c")) (
              field (codes "publication_id") (str id) (
                field (codes "publisher_member_id") (str (codes "m")) (
                  field (codes "webhook_member_id") (str (codes "h")) (
                    field (codes "hop") (num 0)
                      (field (codes "text") (str (codes "{}")) end)))))))));
}

abbrev config : BridgeConfig
config = record {
  platform = platform;
  policy = record { rooms = (codes "r", codes "c" ∷ []) ∷ []; allow_transfer_attestations = false };
  webhook_secrets = codes "s" ∷ [];
}

abbrev hook : HookRequest
hook = record {
  timestamp = some (codes "100");
  signature = some (codes "v0=1, v1=" ++ repeated 64 48);
  content_type = some (codes "application/json");
  publication = some id;
  room = some (codes "r");
  body = [];
}

delivers : (handle_delivery config hook 400 empty).1 ≡ Delivery.accepted id
unfolding handle_delivery verify_webhook_signature some_secret given_signatures is_timestamp
    timestamp_number parse_envelope parse_room_request has_only is_publication_id starts_with
    split_on trim includes text_eq get as_string as_number every is_hex get_at
delivers = refl

handle_delivery_lem_example : Delivers config hook 400 empty (handle_delivery config hook 400 empty)
handle_delivery_lem_example = handle_delivery_lem config hook 400 empty

abbrev replying : Bridge
replying = (handle_result io answering 200 (some body) [] requested).0

-- A copy of the report that came in before the first was stored is accepted too.
taken_twice : length (handle_result io answering 210 (some body) [] replying).0.state.reports ≡ 2
unfolding handle_result receive parse_submission parse_header report_body decode_report answer_each
    answer_for answer_view verify_report_signatures accept_all signer_of normalized_at report_digest
    to_lower includes text_eq get as_string as_array hex every is_hex get_at set_at
    transfer_id_to_bytes16 normalize_transfer_id is_uuid split_on bytes16_to_transfer_id uuid_of
taken_twice = refl

abbrev asking : HookRequest
asking = record hook { publication = some (codes "p") }

polls_reply : (handle_poll config (codes "q") asking 100 requested) ≡ PollResponse.not_found
unfolding handle_poll receive verify_webhook_signature some_secret given_signatures is_timestamp
    timestamp_number starts_with split_on trim includes text_eq every is_hex get_at set_at
polls_reply = refl

handle_poll_lem_example :
    Polls config asking 100 replying
      (codes "p")
      (handle_poll config (codes "p") asking 100 replying)
handle_poll_lem_example = handle_poll_lem config asking 100 replying (codes "p")

abbrev contract_io : ChainIo
contract_io = record {
  chain_id = 1;
  contract = codes "0xcc";
  don_attested = false;
  lookup = λ calls a block. some none;
  request = λ calls a. some (record { transaction = codes "0xdd"; block = 7 });
}

abbrev within : ContractAnswers
within = record { answer_within_seconds = 60; poll_seconds = 5 }

opens_one :
    (pump_contract within contract_io 200 requested).1
    ≡ requests asked (some (record { transaction = codes "0xdd"; block = 7 }))
      ∷ looks_up asked none
      ∷ []
unfolding pump_contract pump_each drop_expired unanswered receive get_at set_at text_eq describe
opens_one = refl

pump_contract-Goes_example :
    Goes requested (pump_contract within contract_io 200 requested).0
    × OpensOnce (pump_contract within contract_io 200 requested).1
unfolding receive get_at
pump_contract-Goes_example =
    pump_contract-Goes within contract_io 200 requested (record { stored = refl; small = tt })
