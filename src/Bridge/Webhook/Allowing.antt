-- ===== src/Bridge/Webhook/Allowing.antt =====
-- packages/cre/bridge/webhook.ts: what an accepted signature shows, and what a policy allows.
use beam_sdk_public.Common.{
  ℕ, ◌≡◌, refl, subst, Bool, true, false, ◌||◌, not, Bool-cases, Option, none, some, some_inj, inl,
  inr, List, [], ◌∷◌, if_rule, ◌==◌, Text, codes, text_eq, includes, length, Has, get_at,
}
use beam_sdk_public.Server.Json.{Json, null, bool, num, str, arr, obj, Fields}
use beam_sdk_public.Receipts.TransferId.{is_uuid, to_lower, normalize_transfer_id}
use beam_sdk_public.Bridge.Attestations.{Attestation, attest_transfer, attest_room_publication}
use beam_sdk_public.Bridge.Webhook.{
  WebhookPlatform, is_timestamp, timestamp_number, is_stale, given_signatures, expected_signature,
  some_secret, verify_webhook_signature, Envelope, AttestationPolicy, RoomRequest, ignore, refuse,
  attest, is_publication_id, has_only, channels_of, ask_publication, ask_normal, ask_transfer,
  ask_op, ask_flag, ask_json, ask_text, parse_room_request,
}

-- One of the signatures of a header is that of one of the secrets over the time and the body, and the time is
-- within the tolerance.
pub record Signs (w : WebhookPlatform) (secrets : List Text) (at header : Option Text)
    (body : List ℕ) (now : ℕ) : Type 0 where
  pub timestamp : Text
  pub signature : Text
  pub secret : Text
  pub has_timestamp : at ≡ some timestamp
  pub has_signature : header ≡ some signature
  pub in_time : is_stale now (timestamp_number timestamp) ≡ false
  pub is_secret : Has secret secrets
  pub is_given :
      includes (given_signatures signature) (expected_signature w timestamp secret body) ≡ true

module _ (w : WebhookPlatform) (t : Text) (body : List ℕ) (given : List (List ℕ)) where
  some_secret-Has :
      (secrets : List Text)
      → some_secret w t body given secrets ≡ true
      → (s : Text) × Has s secrets × (includes given (expected_signature w t s body) ≡ true)
  unfolding some_secret
  some_secret-Has [] e = cc e
  some_secret-Has (s ∷ ss) e = elim (Bool-cases (includes given (expected_signature w t s body))) [
    | inl q ↦ (s, inl refl, q)
    | inr q ↦ (let (x, h, f) = some_secret-Has ss (second q e) in (x, inr h, f))
  ]
    where
      second :
          includes given (expected_signature w t s body) ≡ false
          → (includes given (expected_signature w t s body) || some_secret w t body given ss) ≡ true
          → some_secret w t body given ss ≡ true
      second q = rw q (λ h. h)

pub verify_webhook_signature-Signs :
    (w : WebhookPlatform) (secrets : List Text) (at header : Option Text) (body : List ℕ) (now : ℕ)
    → verify_webhook_signature w secrets at header body now ≡ true
    → Signs w secrets at header body now
unfolding verify_webhook_signature
verify_webhook_signature-Signs w secrets none header body now e = cc e
verify_webhook_signature-Signs w secrets (some t) none body now e = cc e
verify_webhook_signature-Signs w secrets (some t) (some h) body now e =
    let P : Bool → Type 0 = λ b. b ≡ true → Signs w secrets (some t) (some h) body now in
    if_rule P (not (is_timestamp t) || (length h == 0)) _ _ (λ q f. cc f)
      (λ q.
        if_rule P (is_stale now (timestamp_number t)) _ _ (λ late f. cc f)
          (λ fresh f.
            (let (s, has, is) = some_secret-Has w t body (given_signatures h) secrets f in
              record {
                timestamp = t;
                signature = h;
                secret = s;
                has_timestamp = refl;
                has_signature = refl;
                in_time = fresh;
                is_secret = has;
                is_given = is;
              })))
      e

module _ (p : AttestationPolicy) (room : Text) where
  -- A publication of the Room itself, in a channel of it that the policy names; or a transfer, if it allows them.
  abbrev pub Allows : Attestation → Type 0
  Allows (attest_transfer id) = (p.allow_transfer_attestations ≡ true) × (is_uuid id ≡ true)
  Allows (attest_room_publication r channel publication) =
      (r ≡ room)
      × (includes (channels_of (get_at room p.rooms)) channel ≡ true)
      × (is_publication_id publication ≡ true)

  abbrev pub IsAllowed : RoomRequest → Type 0
  IsAllowed ignore = Unit
  IsAllowed (refuse reason) = Unit
  IsAllowed (attest a publish) = Allows a

  not-true : (b : Bool) → not b ≡ false → b ≡ true
  not-true true e = refl
  not-true false e = cc e

  ask_publication-IsAllowed :
      (publish : Bool) (c q : Option Text) → IsAllowed (ask_publication p room publish c q)
  ask_publication-IsAllowed publish none q = tt
  ask_publication-IsAllowed publish (some c) none = tt
  ask_publication-IsAllowed publish (some c) (some q) =
      if_rule IsAllowed (not (is_publication_id q)) _ _ (λ e. tt)
        (λ e.
          if_rule IsAllowed (not (includes (channels_of (get_at room p.rooms)) c)) _ _ (λ f. tt)
            (λ f. (refl, not-true _ f, not-true _ e)))

  normalize_transfer_id-uuid : (t id : Text) → normalize_transfer_id t ≡ some id → is_uuid id ≡ true
  unfolding normalize_transfer_id
  normalize_transfer_id-uuid t id =
      if_rule (λ (o : Option Text). o ≡ some id → is_uuid id ≡ true) (is_uuid (to_lower t)) _ _
        (λ e f. subst (λ x. is_uuid x ≡ true) (some_inj f) e) (λ e f. cc f)

  ask_normal-IsAllowed :
      (publish : Bool) (o : Option Text)
      → p.allow_transfer_attestations ≡ true
      → ((id : Text) → o ≡ some id → is_uuid id ≡ true)
      → IsAllowed (ask_normal publish o)
  ask_normal-IsAllowed publish none e f = tt
  ask_normal-IsAllowed publish (some id) e f = (e, f id refl)

  ask_transfer-IsAllowed : (publish : Bool) (fs : Fields) → IsAllowed (ask_transfer p publish fs)
  ask_transfer-IsAllowed publish fs =
      if_rule IsAllowed
        (not (has_only (codes "op" ∷ codes "transfer_id" ∷ codes "publish_onchain" ∷ []) fs)) _ _
        (λ e. tt)
        (λ e.
          if_rule IsAllowed (not p.allow_transfer_attestations) _ _ (λ f. tt)
            (λ f.
              ask_normal-IsAllowed publish _ (not-true _ f)
                (λ id. normalize_transfer_id-uuid _ id)))

  ask_op-IsAllowed :
      (fs : Fields) (op : Text) (publish : Bool) → IsAllowed (ask_op p room fs op publish)
  ask_op-IsAllowed fs op publish =
      if_rule IsAllowed (text_eq op (codes "attest_room_publication")) _ _
        (λ e.
          if_rule IsAllowed
            (not (
              has_only
                (codes "op" ∷ codes "channel" ∷ codes "publication" ∷ codes "publish_onchain" ∷ [])
                fs))
            _ _ (λ f. tt) (λ f. ask_publication-IsAllowed publish _ _))
        (λ e.
          if_rule IsAllowed (text_eq op (codes "attest_transfer")) _ _
            (λ f. ask_transfer-IsAllowed publish fs)
            (λ f.
              if_rule IsAllowed (text_eq op (codes "submit_result_for_attestation")) _ _ (λ g. tt)
                (λ g. tt)))

  ask_flag-IsAllowed :
      (fs : Fields) (op : Option Text) (flag : Option Bool) → IsAllowed (ask_flag p room fs op flag)
  ask_flag-IsAllowed fs none flag = tt
  ask_flag-IsAllowed fs (some op) none = tt
  ask_flag-IsAllowed fs (some op) (some publish) = ask_op-IsAllowed fs op publish

  ask_json-IsAllowed : (o : Option Json) → IsAllowed (ask_json p room o)
  ask_json-IsAllowed none = tt
  ask_json-IsAllowed (some null) = tt
  ask_json-IsAllowed (some (bool b)) = tt
  ask_json-IsAllowed (some (num n)) = tt
  ask_json-IsAllowed (some (str t)) = tt
  ask_json-IsAllowed (some (arr xs)) = tt
  ask_json-IsAllowed (some (obj fs)) = ask_flag-IsAllowed fs _ _

pub parse_room_request-IsAllowed :
    (w : WebhookPlatform) (e : Envelope) (p : AttestationPolicy)
    → IsAllowed p e.room_id (parse_room_request w e p)
unfolding parse_room_request
parse_room_request-IsAllowed w e p =
    if_rule (IsAllowed p e.room_id) (text_eq e.type (codes "message")) _ _ (λ q. in_text e.text)
      (λ q. tt)
  where
    in_text : (o : Option Text) → IsAllowed p e.room_id (ask_text w p e.room_id o)
    in_text none = tt
    in_text (some t) = ask_json-IsAllowed p e.room_id (w.parse_text t)
