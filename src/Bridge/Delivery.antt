-- ===== src/Bridge/Delivery.antt =====
-- packages/cre/bridge/bridge.ts: `handleDelivery` and `handlePoll`. One reading of the clock stands for those of a call.
pub mod Accepting
use beam_sdk_public.Common.{
  ℕ, Bool, true, false, ◌&&◌, ◌||◌, not, Option, none, some, List, [], if◌then◌else◌, Text, codes,
  text_eq, starts_with, get_at,
}
use beam_sdk_public.Bridge.Requests.{BridgeReply, BridgeRequest}
use beam_sdk_public.Bridge.Pumps.{Bridge}
use beam_sdk_public.Bridge.Results.{receive}
use beam_sdk_public.Bridge.Webhook.{
  WebhookPlatform, verify_webhook_signature, Envelope, parse_envelope, AttestationPolicy,
  RoomRequest, ignore, refuse, attest, parse_room_request,
}

pub record BridgeConfig : Type 0 where
  pub platform : WebhookPlatform
  pub policy : AttestationPolicy
  pub webhook_secrets : List Text

-- The headers that the bridge reads, and the body, which it does not read of a poll.
pub record HookRequest : Type 0 where
  pub timestamp : Option Text
  pub signature : Option Text
  pub content_type : Option Text
  pub publication : Option Text
  pub room : Option Text
  pub body : List ℕ

-- The statuses 401, 204, 200 with the reason of a refusal, and 202 with the id to poll for.
pub data DeliveryResponse : Type 0 where
  unauthorized no_content : DeliveryResponse
  refused accepted : Text → DeliveryResponse

-- The statuses 401, 404, 202 and 200.
pub data PollResponse : Type 0 where
  unauthorized not_found pending : PollResponse
  replied : BridgeReply → PollResponse

abbrev pub signed : BridgeConfig → HookRequest → List ℕ → ℕ → Bool
signed c r body now =
    verify_webhook_signature c.platform c.webhook_secrets r.timestamp r.signature body now

abbrev pub text_or_empty : Option Text → Text
text_or_empty none = []
text_or_empty (some t) = t

abbrev pub take_request : Envelope → RoomRequest → ℕ → Bridge → Bridge × DeliveryResponse
take_request e ignore now b = (b, no_content)
take_request e (refuse reason) now b = (b, refused reason)
take_request e (attest a publish) now b = (
  receive e.publication_id e.room_id e.channel_id e.publisher_member_id a publish now b,
  accepted e.publication_id,
)

abbrev pub take_envelope : BridgeConfig → Option Envelope → ℕ → Bridge → Bridge × DeliveryResponse
take_envelope c none now b = (b, no_content)
take_envelope c (some e) now b = take_request e (parse_room_request c.platform e c.policy) now b

unfoldable pub handle_delivery : BridgeConfig → HookRequest → ℕ → Bridge → Bridge × DeliveryResponse
handle_delivery c r now b =
    if not (signed c r r.body now)
    then (b, unauthorized)
    else if not (starts_with (text_or_empty r.content_type) (codes "application/json"))
    then (b, no_content)
    else take_envelope c (parse_envelope c.platform r.body) now b

-- `header === value`.
abbrev pub is_header : Option Text → Text → Bool
is_header none t = false
is_header (some h) t = text_eq h t

abbrev pub reply_of : Option BridgeReply → PollResponse
reply_of none = pending
reply_of (some x) = replied x

abbrev pub poll_found : HookRequest → Option BridgeRequest → PollResponse
poll_found r none = not_found
poll_found r (some q) =
    if not (is_header r.publication q.id) || not (is_header r.room q.room)
    then not_found
    else reply_of q.reply

unfoldable pub handle_poll : BridgeConfig → Text → HookRequest → ℕ → Bridge → PollResponse
handle_poll c id r now b =
    if not (signed c r [] now) then unauthorized else poll_found r (get_at id b.state.requests)
