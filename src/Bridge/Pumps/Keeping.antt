-- ===== src/Bridge/Pumps/Keeping.antt =====
-- packages/cre/bridge/bridge.ts: requests before and after an operation, and the batches that `pumpCre` makes.
use beam_sdk_public.Common.{
  ℕ, ◌+◌, ◌≡◌, ◌≤◌, refl, ap, ◌∙◌, Bool, true, false, ◌&&◌, ◌||◌, not, some, List, [], ◌∷◌,
  if◌then◌else◌, if_rule, Bool-cases, inl, inr, ltb, ◌==◌, Text, All, text_eq, get_at, set_at,
  length, arith,
}
use beam_sdk_public.Bridge.Attestations.{Attestation, AttestationRequest, max_attestations}
use beam_sdk_public.Bridge.Requests.{
  BridgeReply, BridgeRequest, describe, update_where, some_where, delete_where, is_expired,
  retention_seconds,
}
use beam_sdk_public.Bridge.Pumps.{
  Bridge, Batch, has_key, same_flag, add_to_batch, batch_of, values_of,
}

-- A reply that was given stays, and when the request was received.
abbrev pub Kept : BridgeRequest → BridgeRequest → Type 0
Kept r q =
    (r.received_at ≡ q.received_at) × ((x : BridgeReply) → r.reply ≡ some x → q.reply ≡ some x)

-- Each request of the first list stays, in the same order and with the reply that it had, if it had one, or is
-- dropped when it is past retention; others are at the end.
pub data Keeps : List (Text × BridgeRequest) → List (Text × BridgeRequest) → Type 0 where
  none_left : (n : List (Text × BridgeRequest)) → Keeps [] n
  stays :
      (k : Text) (r q : BridgeRequest) (m n : List (Text × BridgeRequest))
      → Kept r q
      → Keeps m n
      → Keeps ((k, r) ∷ m) ((k, q) ∷ n)
  dropped :
      (now : ℕ) (k : Text) (r : BridgeRequest) (m n : List (Text × BridgeRequest))
      → is_expired now r ≡ true
      → Keeps m n
      → Keeps ((k, r) ∷ m) n

pub Keeps-refl : (m : List (Text × BridgeRequest)) → Keeps m m
Keeps-refl [] = none_left []
Keeps-refl ((k, r) ∷ m) = stays k r r m m (refl, λ x e. e) (Keeps-refl m)

pub Keeps-trans : (a b c : List (Text × BridgeRequest)) → Keeps a b → Keeps b c → Keeps a c
Keeps-trans _ _ c (none_left n) w = none_left c
Keeps-trans _ _ _ (dropped now k r m n old v) w = dropped now k r m _ old (Keeps-trans m n _ v w)
Keeps-trans _ _ _ (stays k r q m n f v) (stays _ _ p _ o g w) =
    stays k r p m o (f.0 ∙ g.0, λ x e. g.1 x (f.1 x e)) (Keeps-trans m n o v w)
Keeps-trans _ _ _ (stays k r q m n f v) (dropped now _ _ _ o old w) =
    dropped now k r m o (ap (λ t. ltb (t + retention_seconds) now) f.0 ∙ old)
      (Keeps-trans m n o v w)

pub update_where-Keeps :
    (p : BridgeRequest → Bool) (f : BridgeRequest → BridgeRequest) (m : List (Text × BridgeRequest))
    → ((r : BridgeRequest) → p r ≡ true → Kept r (f r))
    → Keeps m (update_where p f m)
update_where-Keeps p f [] g = none_left []
update_where-Keeps p f ((k, r) ∷ m) g =
    stays k r _ m _ (if_rule (Kept r) (p r) (f r) r (λ e. g r e) (λ e. (refl, λ x h. h)))
      (update_where-Keeps p f m g)

pub delete_where-Keeps :
    (now : ℕ) (m : List (Text × BridgeRequest)) → Keeps m (delete_where (is_expired now) m)
delete_where-Keeps now [] = none_left []
delete_where-Keeps now ((k, r) ∷ m) =
    if_rule (Keeps ((k, r) ∷ m)) (is_expired now r) _ _
      (λ e. dropped now k r m _ e (delete_where-Keeps now m))
      (λ e. stays k r r m _ (refl, λ x h. h) (delete_where-Keeps now m))

pub or_head : (a b : Bool) → (a || b) ≡ false → a ≡ false
or_head true b e = cc
or_head false b e = refl

pub or_tail : (a b : Bool) → (a || b) ≡ false → b ≡ false
or_tail true b e = cc
or_tail false b e = e

pub and_head : (a b : Bool) → (a && b) ≡ true → a ≡ true
and_head true b e = refl
and_head false b e = cc

pub update_where_none :
    (p : BridgeRequest → Bool) (f : BridgeRequest → BridgeRequest) (m : List (Text × BridgeRequest))
    → some_where p m ≡ false
    → update_where p f m ≡ m
update_where_none p f [] e = refl
update_where_none p f ((k, r) ∷ m) e = elim (Bool-cases (p r)) [
  | inl q ↦ cc (or_head (p r) (some_where p m) e)
  | inr q ↦ rw (q, update_where_none p f m (or_tail (p r) (some_where p m) e)) refl
]

pub delete_where_none :
    (p : BridgeRequest → Bool) (m : List (Text × BridgeRequest))
    → some_where p m ≡ false
    → delete_where p m ≡ m
delete_where_none p [] e = refl
delete_where_none p ((k, r) ∷ m) e = elim (Bool-cases (p r)) [
  | inl q ↦ cc (or_head (p r) (some_where p m) e)
  | inr q ↦ rw (q, delete_where_none p m (or_tail (p r) (some_where p m) e)) refl
]

length-set_at :
    (k : Text) (a : Attestation) (m : List (Text × Attestation))
    → (length (set_at k a m) ≤ length m + 1)
      × (has_key (get_at k m) ≡ true → length (set_at k a m) ≡ length m)
unfolding set_at get_at
length-set_at k a [] = (omega arith, λ e. cc)
length-set_at k a ((j, b) ∷ m) =
    let (less, same) = length-set_at k a m in
    elim (Bool-cases (text_eq j k)) [
      | inl q ↦ (rw q (omega arith), λ e. rw q refl)
      | inr q ↦
          (rw q (omega (arith, less)), λ e. rw q (let s = same (rw_has q e) in omega (arith, s)))
    ]
  where
    rw_has :
        text_eq j k ≡ false
        → has_key (if text_eq j k then some b else get_at k m) ≡ true
        → has_key (get_at k m) ≡ true
    rw_has q = rw q (λ e. e)

abbrev IsSmall : Batch → Type 0
IsSmall b = length b.attest ≤ max_attestations

add_to_batch-IsSmall :
    (publish : Bool) (r : BridgeRequest) (b : Batch)
    → IsSmall b
    → IsSmall (add_to_batch publish r b)
add_to_batch-IsSmall publish r b v =
    let key = describe r.attestation in
    let (less, same) = length-set_at key r.attestation b.attest in
    if_rule IsSmall (not (same_flag r.publish_onchain publish)) _ _ (λ e. v)
      (λ e.
        if_rule IsSmall
          (not (has_key (get_at key b.attest)) && (length b.attest == max_attestations)) _ _
          (λ f. v)
          (λ f. elim (Bool-cases (has_key (get_at key b.attest))) [
            | inl old ↦ (let n = same old in omega (arith, n, v))
            | inr new ↦ (let full = not_full new f in ground (arith, less, v, full))
          ]))
  where
    not_full :
        has_key (get_at (describe r.attestation) b.attest) ≡ false
        → (not (has_key (get_at (describe r.attestation) b.attest))
            && (length b.attest == max_attestations))
          ≡ false
        → (length b.attest == max_attestations) ≡ false
    not_full q = rw q (λ e. e)

pub batch_of-IsSmall :
    (publish : Bool) (rs : List BridgeRequest) (b : Batch)
    → IsSmall b
    → IsSmall (batch_of publish rs b)
unfolding batch_of
batch_of-IsSmall publish [] b v = v
batch_of-IsSmall publish (r ∷ rs) b v =
    batch_of-IsSmall publish rs _ (add_to_batch-IsSmall publish r b v)

pub length-values_of : (m : List (Text × Attestation)) → length (values_of m) ≡ length m
length-values_of [] = refl
length-values_of ((k, a) ∷ m) = omega (arith, length-values_of m)

-- What is on disk is the state, and no batch has more attestations than an execution takes.
pub record BridgeInv (b : Bridge) : Type 0 where
  pub stored : b.saved ≡ b.state
  pub small : All (λ (q : AttestationRequest). length q.attest ≤ max_attestations) b.forwarded

-- From one state of a bridge to another, with the replies that were given.
pub record Goes (b c : Bridge) : Type 0 where
  pub inv : BridgeInv c
  pub keeps : Keeps b.state.requests c.state.requests
