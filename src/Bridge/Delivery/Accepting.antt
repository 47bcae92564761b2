-- ===== src/Bridge/Delivery/Accepting.antt =====
-- packages/cre/bridge/bridge.ts: what a delivery and a poll lead to.
use beam_sdk_public.Common.{
  ℕ, ◌≡◌, refl, ap, Bool, true, false, ◌||◌, not, Option, none, some, List, [], if_rule, Text,
  codes, text_eq→eq, starts_with, get_at, get_at-set_at, IsIn,
}
use beam_sdk_public.Bridge.Attestations.{Attestation}
use beam_sdk_public.Bridge.Requests.{BridgeReply, BridgeRequest}
use beam_sdk_public.Bridge.Pumps.{Bridge}
use beam_sdk_public.Bridge.Results.{keep_or_add, receive}
use beam_sdk_public.Bridge.Webhook.{
  Envelope, parse_envelope, RoomRequest, ignore, refuse, attest, parse_room_request,
}
use beam_sdk_public.Bridge.Webhook.Allowing.{
  Signs, verify_webhook_signature-Signs, Allows, IsAllowed, parse_room_request-IsAllowed,
}
use beam_sdk_public.Bridge.Delivery.{
  BridgeConfig, HookRequest, DeliveryResponse, unauthorized, no_content, refused, accepted,
  PollResponse, not_found, pending, replied, signed, take_request, take_envelope, handle_delivery,
  text_or_empty, is_header, reply_of, poll_found, handle_poll,
}

keep_or_add-IsIn :
    (o : Option BridgeRequest) (new : BridgeRequest) (b : Bridge)
    → get_at new.id b.state.requests ≡ o
    → IsIn new.id (keep_or_add o new b).state.requests
keep_or_add-IsIn none new b e = (new, get_at-set_at new.id new b.state.requests)
keep_or_add-IsIn (some q) new b e = (q, e)

not-false : (x : Bool) → not x ≡ true → x ≡ false
not-false true e = cc e
not-false false e = refl

not-true : (x : Bool) → not x ≡ false → x ≡ true
not-true true e = refl
not-true false e = cc e

module _ (c : BridgeConfig) (r : HookRequest) (now : ℕ) (b : Bridge) where
  abbrev IsSigned : List ℕ → Type 0
  IsSigned body = Signs c.platform c.webhook_secrets r.timestamp r.signature body now

  -- A delivery that is taken: it is signed, its message asks for what the policy allows its Room, and the bridge
  -- is the one that has received that; it has a request under the id.
  pub record Accepted (id : Text) (next : Bridge) : Type 0 where
    pub signs : IsSigned r.body
    pub envelope : Envelope
    pub parsed : parse_envelope c.platform r.body ≡ some envelope
    pub named : envelope.publication_id ≡ id
    pub asked : Attestation
    pub publish : Bool
    pub asks : parse_room_request c.platform envelope c.policy ≡ attest asked publish
    pub allowed : Allows c.policy envelope.room_id asked
    pub received :
        next
        ≡ receive envelope.publication_id envelope.room_id envelope.channel_id
            envelope.publisher_member_id asked publish now b
    pub held : IsIn id next.state.requests

  abbrev pub Delivers : Bridge × DeliveryResponse → Type 0
  Delivers (next, unauthorized) = (next ≡ b) × (signed c r r.body now ≡ false)
  Delivers (next, no_content) = next ≡ b
  Delivers (next, refused reason) = next ≡ b
  Delivers (next, accepted id) = Accepted id next

  take_request-Delivers :
      (e : Envelope) (x : RoomRequest)
      → IsSigned r.body
      → parse_envelope c.platform r.body ≡ some e
      → parse_room_request c.platform e c.policy ≡ x
      → IsAllowed c.policy e.room_id x
      → Delivers (take_request e x now b)
  unfolding receive
  take_request-Delivers e ignore v f g h = refl
  take_request-Delivers e (refuse reason) v f g h = refl
  take_request-Delivers e (attest a publish) v f g h = record {
    signs = v;
    envelope = e;
    parsed = f;
    named = refl;
    asked = a;
    publish = publish;
    asks = g;
    allowed = h;
    received = refl;
    held = keep_or_add-IsIn (get_at e.publication_id b.state.requests) _ b refl;
  }

  take_envelope-Delivers :
      (o : Option Envelope)
      → IsSigned r.body
      → parse_envelope c.platform r.body ≡ o
      → Delivers (take_envelope c o now b)
  take_envelope-Delivers none v f = refl
  take_envelope-Delivers (some e) v f =
      take_request-Delivers e (parse_room_request c.platform e c.policy) v f refl
        (parse_room_request-IsAllowed c.platform e c.policy)

  -- A delivery changes the bridge only if it is accepted: then one of its signatures is that of a secret of the
  -- bridge over its time and its body, its time is within the tolerance, and its message asks for an attestation
  -- that the policy allows its Room, which is a publication of that Room itself in a channel that the policy
  -- names for it, or a transfer where transfers are allowed; the bridge has received that request and has one
  -- under the id that it tells the host to poll for. It answers 401 only if the signature is not accepted.
  pub handle_delivery_lem : Delivers (handle_delivery c r now b)
  unfolding handle_delivery
  handle_delivery_lem =
      if_rule Delivers (not (signed c r r.body now)) _ _
        (λ q. (refl, not-false (signed c r r.body now) q))
        (λ q.
          if_rule Delivers
            (not (starts_with (text_or_empty r.content_type) (codes "application/json")))
            (b, no_content) _ (λ f. refl)
            (λ f.
              take_envelope-Delivers (parse_envelope c.platform r.body)
                (verify_webhook_signature-Signs c.platform c.webhook_secrets r.timestamp r.signature
                  r.body now (not-true (signed c r r.body now) q))
                refl))

  is_header-eq : (h : Option Text) (t : Text) → is_header h t ≡ true → h ≡ some t
  is_header-eq none t e = cc e
  is_header-eq (some x) t e = ap some (text_eq→eq x t e)

  -- A reply that is given to a poll: the poll is signed, and the reply is that of the request with the id, whose
  -- publication and Room the poll names.
  pub record Replies (id : Text) (x : BridgeReply) : Type 0 where
    pub signs : IsSigned []
    pub request : BridgeRequest
    pub found : get_at id b.state.requests ≡ some request
    pub reply : request.reply ≡ some x
    pub publication : r.publication ≡ some request.id
    pub room : r.room ≡ some request.room

  abbrev pub Polls : Text → PollResponse → Type 0
  Polls id (replied x) = Replies id x
  Polls id pending = (q : BridgeRequest) × (get_at id b.state.requests ≡ some q) × (q.reply ≡ none)
  Polls id not_found = IsSigned []
  Polls id unauthorized = signed c r [] now ≡ false

  reply_of-Polls :
      (id : Text) (q : BridgeRequest) (o : Option BridgeReply)
      → IsSigned []
      → get_at id b.state.requests ≡ some q
      → q.reply ≡ o
      → is_header r.publication q.id ≡ true
      → is_header r.room q.room ≡ true
      → Polls id (reply_of o)
  reply_of-Polls id q none v e f g h = (q, e, f)
  reply_of-Polls id q (some x) v e f g h = record {
    signs = v;
    request = q;
    found = e;
    reply = f;
    publication = is_header-eq r.publication q.id g;
    room = is_header-eq r.room q.room h;
  }

  poll_found-Polls :
      (id : Text) (o : Option BridgeRequest)
      → IsSigned []
      → get_at id b.state.requests ≡ o
      → Polls id (poll_found r o)
  poll_found-Polls id none v e = v
  poll_found-Polls id (some q) v e =
      if_rule (Polls id) (not (is_header r.publication q.id) || not (is_header r.room q.room)) _ _
        (λ f. v)
        (λ f.
          reply_of-Polls id q q.reply v e refl
            (first (is_header r.publication q.id) (is_header r.room q.room) f)
            (second (is_header r.publication q.id) (is_header r.room q.room) f))
    where
      first : (x y : Bool) → (not x || not y) ≡ false → x ≡ true
      first true y g = refl
      first false y g = cc g

      second : (x y : Bool) → (not x || not y) ≡ false → y ≡ true
      second true true g = refl
      second true false g = cc g
      second false y g = cc g

  -- A poll is given a reply only if it is signed and names the publication and the Room of the request with its
  -- id, and then it is the reply of that request; it is told to wait only while that request has no reply.
  pub handle_poll_lem : (id : Text) → Polls id (handle_poll c id r now b)
  unfolding handle_poll
  handle_poll_lem id =
      if_rule (Polls id) (not (signed c r [] now)) _ _ (λ q. not-false (signed c r [] now) q)
        (λ q.
          poll_found-Polls id (get_at id b.state.requests)
            (verify_webhook_signature-Signs c.platform c.webhook_secrets r.timestamp r.signature []
              now (not-true (signed c r [] now) q))
            refl)
