-- ===== src/Bridge/Pumps/Lagging.antt =====
-- packages/cre/bridge/bridge.ts: how what a bridge has on disk stays behind its state while `pumpCre` waits.
use beam_sdk_public.Common.{
  ◌≡◌, ◌≤◌, refl, sym, ap, ◌∙◌, subst, ℕ, ◌+◌, Bool, true, false, ◌&&◌, List, [], ◌∷◌, if_rule, ltb,
  leb, Text, All, length, arith,
}
use beam_sdk_public.Bridge.Attestations.{AttestationRequest, max_attestations}
use beam_sdk_public.Bridge.Requests.{
  BridgeRequest, is_unanswered, has_no, update_where, delete_where, is_expired, retention_seconds,
  drop_expired,
}
use beam_sdk_public.Bridge.Pumps.{
  CreAnswers, Bridge, waited, gives_up, give_up, Batch, batch_of, is_in_batch, forwarded_again,
  Forwarding, forward_due, pump_cre, forward_returned,
}
use beam_sdk_public.Bridge.Pumps.Keeping.{
  Kept, Keeps, none_left, Keeps-refl, Keeps-trans, and_head, batch_of-IsSmall, length-values_of,
}
use beam_sdk_public.Bridge.Pumps.Keeping

-- The same request, with the reply that it had if it had one.
abbrev pub IsLater : BridgeRequest → BridgeRequest → Type 0
IsLater r q =
    (r.id ≡ q.id)
    × (r.room ≡ q.room)
    × (r.channel ≡ q.channel)
    × (r.attestation ≡ q.attestation)
    × Kept r q

-- The second list has the requests of the first, in their order, but those that were dropped past retention,
-- and no others.
pub data Lags : List (Text × BridgeRequest) → List (Text × BridgeRequest) → Type 0 where
  end : Lags [] []
  stays :
      (k : Text) (r q : BridgeRequest) (m n : List (Text × BridgeRequest))
      → IsLater r q
      → Lags m n
      → Lags ((k, r) ∷ m) ((k, q) ∷ n)
  dropped :
      (now : ℕ) (k : Text) (r : BridgeRequest) (m n : List (Text × BridgeRequest))
      → is_expired now r ≡ true
      → Lags m n
      → Lags ((k, r) ∷ m) n

same_request : (r : BridgeRequest) → IsLater r r
same_request r = (refl, refl, refl, refl, (refl, λ x e. e))

pub Lags-refl : (m : List (Text × BridgeRequest)) → Lags m m
Lags-refl [] = end
Lags-refl ((k, r) ∷ m) = stays k r r m m (same_request r) (Lags-refl m)

IsLater-trans : (r q p : BridgeRequest) → IsLater r q → IsLater q p → IsLater r p
IsLater-trans r q p (a, b, c, d, (e, f)) (a', b', c', d', (e', f')) =
    (a ∙ a', b ∙ b', c ∙ c', d ∙ d', (e ∙ e', λ x h. f' x (f x h)))

pub Lags-trans : (a b c : List (Text × BridgeRequest)) → Lags a b → Lags b c → Lags a c
Lags-trans _ _ c end w = w
Lags-trans _ _ _ (dropped now k r m n old v) w = dropped now k r m _ old (Lags-trans m n _ v w)
Lags-trans _ _ _ (stays k r q m n f v) (stays _ _ p _ o g w) =
    stays k r p m o (IsLater-trans r q p f g) (Lags-trans m n o v w)
Lags-trans _ _ _ (stays k r q m n (a, b, c, d, (e, f)) v) (dropped now _ _ _ o old w) =
    dropped now k r m o (ap (λ t. ltb (t + retention_seconds) now) e ∙ old) (Lags-trans m n o v w)

pub Lags-Keeps : (m n : List (Text × BridgeRequest)) → Lags m n → Keeps m n
Lags-Keeps _ _ end = none_left []
Lags-Keeps _ _ (dropped now k r m n old v) = Keeping.dropped now k r m n old (Lags-Keeps m n v)
Lags-Keeps _ _ (stays k r q m n (a, b, c, d, (e, f)) v) =
    Keeping.stays k r q m n (e, f) (Lags-Keeps m n v)

pub update_where-Lags :
    (p : BridgeRequest → Bool) (f : BridgeRequest → BridgeRequest) (m : List (Text × BridgeRequest))
    → ((r : BridgeRequest) → p r ≡ true → IsLater r (f r))
    → Lags m (update_where p f m)
update_where-Lags p f [] g = end
update_where-Lags p f ((k, r) ∷ m) g =
    stays k r _ m _ (if_rule (IsLater r) (p r) (f r) r (λ e. g r e) (λ e. same_request r))
      (update_where-Lags p f m g)

delete_where-Lags :
    (now : ℕ) (m : List (Text × BridgeRequest)) → Lags m (delete_where (is_expired now) m)
delete_where-Lags now [] = end
delete_where-Lags now ((k, r) ∷ m) =
    if_rule (Lags ((k, r) ∷ m)) (is_expired now r) _ _
      (λ e. dropped now k r m _ e (delete_where-Lags now m))
      (λ e. stays k r r m _ (same_request r) (delete_where-Lags now m))

abbrev pub AllSmall : Bridge → Type 0
AllSmall b = All (λ (q : AttestationRequest). length q.attest ≤ max_attestations) b.forwarded

-- The requests on disk are those of the state, maybe behind, and no batch has more attestations than an
-- execution takes.
pub record CreInv (b : Bridge) : Type 0 where
  pub lags : Lags b.saved.requests b.state.requests
  pub small : AllSmall b

-- From one moment of a bridge to another: the requests of its state, and those on disk, with their replies.
pub record CreGoes (b c : Bridge) : Type 0 where
  pub inv : CreInv c
  pub keeps : Keeps b.state.requests c.state.requests
  pub disk : Keeps b.saved.requests c.saved.requests

pub CreGoes-refl : (b : Bridge) → CreInv b → CreGoes b b
CreGoes-refl b v = record {
  inv = v;
  keeps = Keeps-refl b.state.requests;
  disk = Keeps-refl b.saved.requests;
}

pub CreGoes-trans : (b c d : Bridge) → CreGoes b c → CreGoes c d → CreGoes b d
CreGoes-trans b c d v w = record {
  inv = w.inv;
  keeps = Keeps-trans _ _ _ v.keeps w.keeps;
  disk = Keeps-trans _ _ _ v.disk w.disk;
}

pub saved-CreGoes :
    (b c : Bridge)
    → CreInv b
    → Keeps b.state.requests c.state.requests
    → c.saved ≡ c.state
    → AllSmall c
    → CreGoes b c
saved-CreGoes b c v k e small = record {
  inv = record {
    lags = subst (λ s. Lags s.requests c.state.requests) (sym e) (Lags-refl c.state.requests);
    small = small;
  };
  keeps = k;
  disk =
      subst (λ s. Keeps b.saved.requests s.requests) (sym e)
        (Keeps-trans _ _ _ (Lags-Keeps _ _ v.lags) k);
}

pub unsaved-CreGoes :
    (b c : Bridge)
    → CreInv b
    → Lags b.state.requests c.state.requests
    → c.saved ≡ b.saved
    → AllSmall c
    → CreGoes b c
unsaved-CreGoes b c v k e small = record {
  inv = record {
    lags = subst (λ s. Lags s.requests c.state.requests) (sym e) (Lags-trans _ _ _ v.lags k);
    small = small;
  };
  keeps = Lags-Keeps _ _ k;
  disk = subst (λ s. Keeps b.saved.requests s.requests) (sym e) (Keeps-refl b.saved.requests);
}

module _ (a : CreAnswers) (now : ℕ) where
  forward_due-CreGoes :
      (changed : Bool) (rs : List BridgeRequest) (b next : Bridge)
      → CreInv b
      → Lags b.state.requests next.state.requests
      → next.saved ≡ b.saved
      → AllSmall next
      → CreGoes b (forward_due a now changed rs next).0
  forward_due-CreGoes true [] b next v k e s = saved-CreGoes b _ v (Lags-Keeps _ _ k) refl s
  forward_due-CreGoes false [] b next v k e s = unsaved-CreGoes b _ v k e s
  forward_due-CreGoes changed (r ∷ rs) b next v k e s =
      let none_yet : Batch = record { attest = []; ids = [] } in
      let few = batch_of-IsSmall r.publish_onchain (r ∷ rs) none_yet (omega arith) in
      let n = length-values_of (batch_of r.publish_onchain (r ∷ rs) none_yet).attest in
      unsaved-CreGoes b _ v k e (omega (arith, n, few), s)

  gives_up-IsLater : (r : BridgeRequest) → gives_up a now r ≡ true → IsLater r (give_up now r)
  gives_up-IsLater r e = (
    refl,
    refl,
    refl,
    refl,
    (
      refl,
      λ x h. cc (
        and_head (is_unanswered r) (leb a.max_attempts r.attempts && waited a now r.forwarded_at) e,
        ap has_no h,
      ),
    ),
  )

  pub pump_cre-CreGoes : (b : Bridge) → CreInv b → CreGoes b (pump_cre a now b).0
  unfolding pump_cre drop_expired
  pump_cre-CreGoes b v =
      let old = b.state.requests in
      let kept = delete_where (is_expired now) old in
      forward_due-CreGoes _ _ b _ v
        (Lags-trans old kept _ (delete_where-Lags now old)
          (update_where-Lags (gives_up a now) (give_up now) kept gives_up-IsLater))
        refl v.small

pub forward_returned-CreGoes :
    (f : Forwarding) (b : Bridge) → CreInv b → CreGoes b (forward_returned f b)
unfolding forward_returned
forward_returned-CreGoes f b v =
    saved-CreGoes b _ v
      (Lags-Keeps _ _ (
        update_where-Lags (is_in_batch f.batch) (forwarded_again f.at) b.state.requests
          (λ r e. (refl, refl, refl, refl, (refl, λ x h. h)))))
      refl v.small
