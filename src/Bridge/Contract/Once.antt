-- ===== src/Bridge/Contract/Once.antt =====
-- packages/cre/bridge/bridge.ts: what a pump of a contract keeps, and which requests it opens.
use beam_sdk_public.Common.{
  ℕ, suc, ◌+◌, ◌≡◌, ◌≢◌, ◌≤◌, refl, sym, ap, ◌∙◌, subst, Bool, true, false, ◌||◌, Option, none,
  some, inl, inr, List, [], ◌∷◌, if_rule, ltb, leb, Text, text_eq, Has, All, length, get_at, set_at,
  IsIn, IsIn-set_at, IsIn-set_at_self,
}
use beam_sdk_public.Receipts.Entries.{Added, adds, nothing, throws}
use beam_sdk_public.Bridge.Attestations.{Attestation, AttestationRequest, max_attestations}
use beam_sdk_public.Bridge.Requests.{
  AnswerView, BridgeRequest, describe, has_no, is_unanswered, answer, answer_view, update_where,
  some_where, delete_where, is_expired, drop_expired, unanswered,
}
use beam_sdk_public.Bridge.Pumps.{Bridge}
use beam_sdk_public.Bridge.Pumps.Keeping.{
  Kept, Keeps, Keeps-refl, Keeps-trans, update_where-Keeps, delete_where-Keeps, update_where_none,
  delete_where_none, or_head, or_tail, and_head, BridgeInv, Goes,
}
use beam_sdk_public.Bridge.Contract.{
  ContractAnswers, ChainAnswer, Opening, ChainCall, looks_up, requests, ChainIo, recorded_reply,
  max_chain_failures, overdue, is_overdue, not_recorded, counted_failure, unavailable, failed_call,
  opened_in, Pumping, is_pending, change, after_view, open_once, open_new, after_lookup, pump_one,
  pump_each, with_requests, save_if, pump_contract,
}

-- No subject is asked for again once its request was opened. The newest call is the first.
abbrev pub OpensOnce : List ChainCall → Type 0
OpensOnce [] = Unit
OpensOnce (looks_up q block ∷ cs) = OpensOnce cs
OpensOnce (requests q o ∷ cs) =
    ((p : Attestation) (x : Opening) → Has (requests p (some x)) cs → describe p ≢ describe q)
    × OpensOnce cs

record Asked (s : Pumping) : Type 0 where
  pub known :
      (q : Attestation) (o : Opening)
      → Has (requests q (some o)) s.calls
      → IsIn (describe q) s.opened
  pub once : OpensOnce s.calls

-- From one state of the loop to a later one.
record Steps (s t : Pumping) : Type 0 where
  pub keeps : Keeps s.kept t.kept
  pub quiet : t.changed ≡ false → (s.changed ≡ false) × (t.kept ≡ s.kept)
  pub asked : Asked s → Asked t

Steps-refl : (s : Pumping) → Steps s s
Steps-refl s = record { keeps = Keeps-refl s.kept; quiet = λ e. (e, refl); asked = λ a. a }

Steps-trans : (s t u : Pumping) → Steps s t → Steps t u → Steps s u
Steps-trans s t u v w = record {
  keeps = Keeps-trans s.kept t.kept u.kept v.keeps w.keeps;
  quiet = λ e. (let (f, g) = w.quiet e in let (h, i) = v.quiet f in (h, g ∙ i));
  asked = λ a. w.asked (v.asked a);
}

abbrev IsSafe : (BridgeRequest → BridgeRequest) → Type 0
IsSafe f = (q : BridgeRequest) → is_unanswered q ≡ true → Kept q (f q)

Kept-answered :
    (q p : BridgeRequest) → q.received_at ≡ p.received_at → is_unanswered q ≡ true → Kept q p
Kept-answered q p e f = (e, λ x h. cc (f, ap has_no h))

failed_call-IsSafe : (now : ℕ) → IsSafe (failed_call now)
failed_call-IsSafe now q f =
    if_rule (Kept q) (leb max_chain_failures (suc q.attempts)) (unavailable now q)
      (counted_failure q) (λ e. Kept-answered q (unavailable now q) refl f) (λ e. (refl, λ x h. h))

change-Steps :
    (r : BridgeRequest) (f : BridgeRequest → BridgeRequest) (s : Pumping)
    → IsSafe f
    → Steps s (change r f s)
change-Steps r f s v = record {
  keeps =
      update_where-Keeps (is_pending r) f s.kept
        (λ q e. v q (and_head (is_unanswered q) (text_eq q.id r.id) e));
  quiet = λ e. cc e;
  asked = λ a. record { known = a.known; once = a.once };
}

looks_up-Steps :
    (q : Attestation) (block : Option ℕ) (s : Pumping)
    → Steps s (record s { calls = looks_up q block ∷ s.calls })
looks_up-Steps q block s = record {
  keeps = Keeps-refl s.kept;
  quiet = λ e. (e, refl);
  asked = λ a. record {
    known = λ p o h. elim h [ inl e ↦ cc e | inr m ↦ a.known p o m ];
    once = a.once;
  };
}

not_yet :
    (q : Attestation) (s : Pumping)
    → get_at (describe q) s.opened ≡ none
    → Asked s
    → (p : Attestation) (x : Opening) → Has (requests p (some x)) s.calls
    → describe p ≢ describe q
not_yet q s e a p x h same =
    let (o, f) = a.known p x h in cc (e, f, ap (λ k. get_at k s.opened) same)

refused-Steps :
    (q : Attestation) (s : Pumping)
    → get_at (describe q) s.opened ≡ none
    → Steps s (record s { calls = requests q none ∷ s.calls })
refused-Steps q s e = record {
  keeps = Keeps-refl s.kept;
  quiet = λ f. (f, refl);
  asked = λ a. record {
    known = λ p o h. elim h [ inl f ↦ cc f | inr m ↦ a.known p o m ];
    once = (not_yet q s e a, a.once);
  };
}

subject_of : ChainCall → Text
subject_of (looks_up q block) = []
subject_of (requests q o) = describe q

opens-Steps :
    (q : Attestation) (o : Opening) (s : Pumping)
    → get_at (describe q) s.opened ≡ none
    → Steps s (record s {
      calls = requests q (some o) ∷ s.calls;
      opened = set_at (describe q) o s.opened;
    })
unfolding subject_of
opens-Steps q o s e = record {
  keeps = Keeps-refl s.kept;
  quiet = λ f. (f, refl);
  asked = λ a. record {
    known = λ p x h. elim h [
      | inl f ↦
          subst (λ k. IsIn k (set_at (describe q) o s.opened)) (sym (ap subject_of f))
            (IsIn-set_at_self (describe q) o s.opened)
      | inr m ↦ IsIn-set_at (describe q) (describe p) o s.opened (a.known p x m)
    ];
    once = (not_yet q s e a, a.once);
  };
}

module _ (io : ChainIo) (now : ℕ) where
  after_view-Steps :
      (r : BridgeRequest) (found : ChainAnswer) (x : Added AnswerView) (s : Pumping)
      → Steps s (after_view io now r found x s)
  after_view-Steps r found throws s = change-Steps r (failed_call now) s (failed_call-IsSafe now)
  after_view-Steps r found nothing s = Steps-refl s
  after_view-Steps r found (adds view) s =
      change-Steps r _ s
        (λ q f. Kept-answered q (answer now (recorded_reply io r found view) q) refl f)

  open_once-Steps :
      (r : BridgeRequest) (o x : Option Opening) (s : Pumping)
      → get_at (describe r.attestation) s.opened ≡ o
      → io.request s.calls r.attestation ≡ x
      → Steps s (open_once io now r o s)
  open_once-Steps r (some o) x s e f =
      change-Steps r (opened_in now o.block) s (λ q g. (refl, λ y h. h))
  open_once-Steps r none none s e f = rw f (
      Steps-trans s _ _ (refused-Steps r.attestation s e)
        (change-Steps r (failed_call now) _ (failed_call-IsSafe now)))
  open_once-Steps r none (some o) s e f = rw f (
      Steps-trans s _ _ (opens-Steps r.attestation o s e)
        (change-Steps r (opened_in now o.block) _ (λ q g. (refl, λ y h. h))))

  open_new-Steps :
      (r : BridgeRequest) (o : Option ℕ) (s : Pumping) → Steps s (open_new io now r o s)
  open_new-Steps r (some at) s = Steps-refl s
  open_new-Steps r none s = open_once-Steps r _ _ s refl refl

  after_lookup-Steps :
      (r : BridgeRequest) (o : Option (Option ChainAnswer)) (s : Pumping)
      → Steps s (after_lookup io now r o s)
  after_lookup-Steps r none s = change-Steps r (failed_call now) s (failed_call-IsSafe now)
  after_lookup-Steps r (some none) s = open_new-Steps r r.forwarded_at s
  after_lookup-Steps r (some (some found)) s = after_view-Steps r found (answer_view found.answer) s

  pump_each-Steps : (rs : List BridgeRequest) (s : Pumping) → Steps s (pump_each io now rs s)
  unfolding pump_each
  pump_each-Steps [] s = Steps-refl s
  pump_each-Steps (r ∷ rs) s =
      Steps-trans s (pump_one io now r s) _
        (Steps-trans s _ _ (looks_up-Steps r.attestation r.requested_block s)
          (after_lookup-Steps r _ _))
        (pump_each-Steps rs (pump_one io now r s))

save_if-Goes :
    (b c : Bridge) (changed : Bool)
    → Keeps b.state.requests c.state.requests
    → All (λ (q : AttestationRequest). length q.attest ≤ max_attestations) c.forwarded
    → (changed ≡ false → c.saved ≡ c.state)
    → Goes b (save_if changed c)
save_if-Goes b c true v w f = record { inv = record { stored = refl; small = w }; keeps = v }
save_if-Goes b c false v w f = record { inv = record { stored = f refl; small = w }; keeps = v }

is_overdue-Kept :
    (a : ContractAnswers) (now : ℕ) (r : BridgeRequest)
    → is_overdue a now r ≡ true
    → Kept r (not_recorded a now r)
is_overdue-Kept a now r e =
    Kept-answered r (not_recorded a now r) refl
      (and_head (is_unanswered r) (overdue a now r.forwarded_at) e)

-- A pump of a contract keeps what is saved the state; the requests of before are kept, in their order and with
-- the reply that they had if they had one, or dropped past their retention; and no subject is asked for again
-- on the contract once its request was opened, however the calls answer or fail.
pub pump_contract-Goes :
    (a : ContractAnswers) (io : ChainIo) (now : ℕ) (b : Bridge)
    → BridgeInv b
    → Goes b (pump_contract a io now b).0 × OpensOnce (pump_contract a io now b).1
unfolding pump_contract drop_expired
pump_contract-Goes a io now b v =
    let old = b.state.requests in
    let recent = delete_where (is_expired now) old in
    let kept = update_where (is_overdue a now) (not_recorded a now) recent in
    let dropping = some_where (is_expired now) old in
    let ending = some_where (is_overdue a now) recent in
    let start : Pumping = record {
      kept = kept;
      opened = [];
      calls = [];
      changed = dropping || ending;
    } in
    let all = pump_each-Steps io now (unanswered kept) start in
    let early : Keeps old kept =
      Keeps-trans old recent kept (delete_where-Keeps now old) (
        update_where-Keeps (is_overdue a now) (not_recorded a now) recent
          (is_overdue-Kept a now)) in
    let same : (dropping || ending) ≡ false → old ≡ kept = λ e. sym (
      update_where_none (is_overdue a now) (not_recorded a now) recent (or_tail dropping ending e)
      ∙ delete_where_none (is_expired now) old (or_head dropping ending e)) in
    let stored : (m : List (Text × BridgeRequest))
        → old ≡ m
        → b.saved ≡ record b.state { requests = m } =
      λ m e.
        v.stored ∙ ap (λ (n : List (Text × BridgeRequest)). record b.state { requests = n }) e in
    if_rule (λ (p : Bridge × List ChainCall). Goes b p.0 × OpensOnce p.1) (ltb now b.next_run_at) _
      _
      (λ e. (save_if-Goes b (with_requests kept b) _ early v.small (λ f. stored kept (same f)), tt))
      (λ e. (
        save_if-Goes b
            (with_requests (pump_each io now (unanswered kept) start).kept
              (record b { next_run_at = now + a.poll_seconds }))
            _ (Keeps-trans old kept _ early all.keeps) v.small
            (λ f. (let (g, h) = all.quiet f in stored _ (same g ∙ sym h))),
        (all.asked (record { known = λ q o m. absurd m; once = tt })).once,
      ))
