-- ===== src/Bridge/Webhook.antt =====
-- packages/cre/bridge/webhook.ts: the signatures of a Room host, its envelopes, and what a message asks for. Bytes
-- are numbers. A function that returns null returns `none`.
pub mod Allowing
use beam_sdk_public.Common.{
  ℕ, ◌+◌, ◌-◌, ◌*◌, Bool, true, false, ◌&&◌, ◌||◌, not, Option, none, some, List, [], ◌∷◌, ◌++◌,
  map, if◌then◌else◌, ltb, leb, ◌==◌, Text, codes, text_eq, includes, starts_with, split_on, trim,
  keep, drop, length, get_at,
}
use beam_sdk_public.Server.Json.{
  Json, null, bool, obj, Fields, end, field, get, as_string, as_number,
}
use beam_sdk_public.Receipts.TransferId.{every, is_hex_of, normalize_transfer_id}
use beam_sdk_public.Bridge.Attestations.{Attestation, attest_transfer, attest_room_publication}
use beam_sdk_public.Bridge.Reports.{bytes_of}

-- `createHmac('sha256', secret)` over some bytes, and `JSON.parse` of a text and of decoded bytes, where `none`
-- is that it throws.
pub record WebhookPlatform : Type 0 where
  pub hmac_sha256 : Text → List ℕ → List ℕ
  pub parse_text : Text → Option Json
  pub parse_bytes : List ℕ → Option Json

abbrev pub signature_tolerance_seconds : ℕ
signature_tolerance_seconds = 300

abbrev is_digit : ℕ → Bool
is_digit c = leb 48 c && leb c 57

-- `/^[0-9]{1,12}$/`.
unfoldable pub is_timestamp : Text → Bool
is_timestamp t = ltb 0 (length t) && (leb (length t) 12 && every is_digit t)

abbrev number_from : ℕ → Text → ℕ
number_from n [] = n
number_from n (c ∷ s) = number_from (n * 10 + (c - 48)) s

-- `Number(timestamp)`.
unfoldable pub timestamp_number : Text → ℕ
timestamp_number t = number_from 0 t

-- `Math.abs(now - at) > SIGNATURE_TOLERANCE_SECONDS`, without the subtraction.
abbrev pub is_stale : ℕ → ℕ → Bool
is_stale now at =
    ltb (at + signature_tolerance_seconds) now || ltb (now + signature_tolerance_seconds) at

-- The signatures of a header.
unfoldable pub given_signatures : Text → List (List ℕ)
given_signatures header = map bytes_of (
    keep (is_hex_of 64)
      (map (drop 3) (keep (λ s. starts_with s (codes "v1=")) (map trim (split_on 44 header)))))

abbrev pub expected_signature : WebhookPlatform → Text → Text → List ℕ → List ℕ
expected_signature w timestamp secret body =
    w.hmac_sha256 secret (codes "v1:" ++ timestamp ++ codes ":" ++ body)

unfoldable pub some_secret : WebhookPlatform → Text → List ℕ → List (List ℕ) → List Text → Bool
some_secret w timestamp body given [] = false
some_secret w timestamp body given (secret ∷ secrets) =
    includes given (expected_signature w timestamp secret body)
    || some_secret w timestamp body given secrets

-- The headers are `none` where they are missing; an empty one counts as missing.
unfoldable pub verify_webhook_signature :
    WebhookPlatform → List Text → Option Text → Option Text → List ℕ → ℕ → Bool
verify_webhook_signature w secrets (some timestamp) (some header) body now =
    if not (is_timestamp timestamp) || (length header == 0)
    then false
    else if is_stale now (timestamp_number timestamp)
    then false
    else some_secret w timestamp body (given_signatures header) secrets
verify_webhook_signature w secrets _ _ body now = false

pub record Envelope : Type 0 where
  pub type : Text
  pub room_id : Text
  pub channel_id : Text
  pub publication_id : Text
  pub publisher_member_id : Text
  pub webhook_member_id : Text
  pub hop : ℕ
  pub text : Option Text

infixl 5 ◌>>=◌
abbrev ◌>>=◌ {ℓ κ} : {A : Type ℓ} {B : Type κ} → Option A → (A → Option B) → Option B
none >>= f = none
some a >>= f = f a

abbrev envelope_of : Json → Option Envelope
envelope_of (obj fs) = do
  some (record {
    type = (← as_string (get (codes "type") fs));
    room_id = (← as_string (get (codes "room_id") fs));
    channel_id = (← as_string (get (codes "channel_id") fs));
    publication_id = (← as_string (get (codes "publication_id") fs));
    publisher_member_id = (← as_string (get (codes "publisher_member_id") fs));
    webhook_member_id = (← as_string (get (codes "webhook_member_id") fs));
    hop = (← as_number (get (codes "hop") fs));
    text = as_string (get (codes "text") fs);
  })
envelope_of _ = none

unfoldable pub parse_envelope : WebhookPlatform → List ℕ → Option Envelope
parse_envelope w body = w.parse_bytes body >>= envelope_of

-- The channels of each Room.
pub record AttestationPolicy : Type 0 where
  pub rooms : List (Text × List Text)
  pub allow_transfer_attestations : Bool

-- A refusal has its reason; its message is left out.
pub data RoomRequest : Type 0 where
  ignore : RoomRequest
  refuse : Text → RoomRequest
  attest : Attestation → Bool → RoomRequest

abbrev is_base32 : ℕ → Bool
is_base32 c = (leb 97 c && leb c 122) || (leb 50 c && leb c 55)

-- `PUBLICATION_ID`.
unfoldable pub is_publication_id : Text → Bool
is_publication_id id =
    starts_with id (codes "btr_pub_") && ((length id == 34) && every is_base32 (drop 8 id))

unfoldable pub has_only : List Text → Fields → Bool
has_only names end = true
has_only names (field k v fs) = includes names k && has_only names fs

-- `body.publish_onchain ?? false`, where that is a Boolean.
abbrev publish_flag : Option Json → Option Bool
publish_flag none = some false
publish_flag (some null) = some false
publish_flag (some (bool b)) = some b
publish_flag (some x) = none

abbrev pub channels_of : Option (List Text) → List Text
channels_of none = []
channels_of (some cs) = cs

abbrev pub ask_publication :
    AttestationPolicy → Text → Bool → Option Text → Option Text → RoomRequest
ask_publication p room publish (some channel) (some publication) =
    if not (is_publication_id publication)
    then refuse (codes "invalid_request")
    else if not (includes (channels_of (get_at room p.rooms)) channel)
    then refuse (codes "channel_not_attestable")
    else attest (attest_room_publication room channel publication) publish
ask_publication p room publish _ _ = refuse (codes "invalid_request")

abbrev text_or_empty : Option Text → Text
text_or_empty none = []
text_or_empty (some t) = t

abbrev pub ask_normal : Bool → Option Text → RoomRequest
ask_normal publish none = refuse (codes "invalid_request")
ask_normal publish (some id) = attest (attest_transfer id) publish

abbrev pub ask_transfer : AttestationPolicy → Bool → Fields → RoomRequest
ask_transfer p publish fs =
    if not (has_only (codes "op" ∷ codes "transfer_id" ∷ codes "publish_onchain" ∷ []) fs)
    then refuse (codes "invalid_request")
    else if not p.allow_transfer_attestations
    then refuse (codes "transfer_attestations_disabled")
    else ask_normal publish
        (normalize_transfer_id (text_or_empty (as_string (get (codes "transfer_id") fs))))

-- The cases of `op`.
abbrev pub ask_op : AttestationPolicy → Text → Fields → Text → Bool → RoomRequest
ask_op p room fs op publish =
    if text_eq op (codes "attest_room_publication")
    then if not (
        has_only (codes "op" ∷ codes "channel" ∷ codes "publication" ∷ codes "publish_onchain" ∷ [])
          fs)
      then refuse (codes "invalid_request")
      else ask_publication p room publish (as_string (get (codes "channel") fs))
          (as_string (get (codes "publication") fs))
    else if text_eq op (codes "attest_transfer")
    then ask_transfer p publish fs
    else if text_eq op (codes "submit_result_for_attestation")
    then refuse (codes "not_attestable")
    else refuse (codes "not_an_attestation")

abbrev pub ask_flag : AttestationPolicy → Text → Fields → Option Text → Option Bool → RoomRequest
ask_flag p room fs none flag = ignore
ask_flag p room fs (some op) none = refuse (codes "invalid_request")
ask_flag p room fs (some op) (some publish) = ask_op p room fs op publish

abbrev pub ask_json : AttestationPolicy → Text → Option Json → RoomRequest
ask_json p room (some (obj fs)) =
    ask_flag p room fs (as_string (get (codes "op") fs))
      (publish_flag (get (codes "publish_onchain") fs))
ask_json p room (some null) = ignore
ask_json p room _ = ignore

abbrev pub ask_text : WebhookPlatform → AttestationPolicy → Text → Option Text → RoomRequest
ask_text w p room none = ignore
ask_text w p room (some text) = ask_json p room (w.parse_text text)

unfoldable pub parse_room_request : WebhookPlatform → Envelope → AttestationPolicy → RoomRequest
parse_room_request w e p =
    if text_eq e.type (codes "message") then ask_text w p e.room_id e.text else ignore
