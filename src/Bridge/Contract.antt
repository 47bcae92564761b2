-- ===== src/Bridge/Contract.antt =====
-- packages/cre/bridge/bridge.ts: `pumpContract`, which looks up receipts on a contract and opens requests there.
pub mod Once
use beam_sdk_public.Common.{
  ℕ, suc, ◌+◌, ◌*◌, Bool, true, false, ◌&&◌, ◌||◌, Option, none, some, List, [], ◌∷◌, ◌++◌,
  if◌then◌else◌, ltb, leb, Text, codes, decimal, text_eq, get_at, set_at,
}
use beam_sdk_public.Receipts.Entries.{Added, adds, nothing, throws}
use beam_sdk_public.Bridge.Attestations.{Attestation, AttestationAnswer}
use beam_sdk_public.Bridge.Requests.{
  chain_reply, AnswerView, BridgeReply, recorded, BridgeRequest, BridgeState, answer_view, describe,
  unanswered_reply, is_unanswered, answer, update_where, some_where, is_expired, drop_expired,
  unanswered,
}
use beam_sdk_public.Bridge.Pumps.{Bridge, save}

pub record ContractAnswers : Type 0 where
  pub answer_within_seconds : ℕ
  pub poll_seconds : ℕ

pub record ChainAnswer : Type 0 where
  pub answer : AttestationAnswer
  pub transaction : Option Text
  pub block : Option ℕ

-- A request that was opened: its transaction and block.
pub record Opening : Type 0 where
  pub transaction : Text
  pub block : ℕ

-- The calls of the contract; a request with its outcome.
pub data ChainCall : Type 0 where
  looks_up : Attestation → Option ℕ → ChainCall
  requests : Attestation → Option Opening → ChainCall

-- The link to a contract, whose calls answer as functions of the calls before, newest first, where `none` is
-- that the call fails.
pub record ChainIo : Type 0 where
  pub chain_id : ℕ
  pub contract : Text
  pub don_attested : Bool
  pub lookup : List ChainCall → Attestation → Option ℕ → Option (Option ChainAnswer)
  pub request : List ChainCall → Attestation → Option Opening

abbrev pub max_chain_failures : ℕ
max_chain_failures = 5

abbrev pub recorded_reply : ChainIo → BridgeRequest → ChainAnswer → AnswerView → BridgeReply
recorded_reply io r found view = recorded (record {
  request = r.attestation;
  answer = view;
  chain_id = io.chain_id;
  contract = io.contract;
  don_attested = io.don_attested;
  transaction = found.transaction;
  block = found.block;
})

abbrev overdue : ContractAnswers → ℕ → Option ℕ → Bool
overdue a now none = false
overdue a now (some at) = ltb (at + a.answer_within_seconds) now

abbrev pub is_overdue : ContractAnswers → ℕ → BridgeRequest → Bool
is_overdue a now r = is_unanswered r && overdue a now r.forwarded_at

abbrev pub not_recorded : ContractAnswers → ℕ → BridgeRequest → BridgeRequest
not_recorded a now r =
    answer now
      (unanswered_reply chain_reply r (codes "not_recorded") (
        codes "No receipt was recorded within "
        ++ decimal a.answer_within_seconds
        ++ codes " seconds: Beam reported nothing finished for it, or the relay is not running."))
      r

abbrev pub counted_failure : BridgeRequest → BridgeRequest
counted_failure r = record r { attempts = suc r.attempts }

abbrev pub unavailable : ℕ → BridgeRequest → BridgeRequest
unavailable now r =
    answer now
      (unanswered_reply chain_reply r (codes "chain_unavailable")
        (codes "The receipts contract could not be read or asked for this receipt."))
      (counted_failure r)

-- The `catch` of a round.
abbrev pub failed_call : ℕ → BridgeRequest → BridgeRequest
failed_call now r =
    if leb max_chain_failures (suc r.attempts) then unavailable now r else counted_failure r

abbrev pub opened_in : ℕ → ℕ → BridgeRequest → BridgeRequest
opened_in now block r = record r { forwarded_at = some now; requested_block = some block }

-- The requests, the map `opened`, the calls, newest first, and `changed`.
pub record Pumping : Type 0 where
  pub kept : List (Text × BridgeRequest)
  pub opened : List (Text × Opening)
  pub calls : List ChainCall
  pub changed : Bool

-- The object of a round, which has no reply yet.
abbrev pub is_pending : BridgeRequest → BridgeRequest → Bool
is_pending r q = is_unanswered q && text_eq q.id r.id

abbrev pub change : BridgeRequest → (BridgeRequest → BridgeRequest) → Pumping → Pumping
change r f s = record s { kept = update_where (is_pending r) f s.kept; changed = true }

abbrev pub after_view :
    ChainIo → ℕ → BridgeRequest → ChainAnswer → Added AnswerView → Pumping → Pumping
after_view io now r found throws s = change r (failed_call now) s
after_view io now r found nothing s = s
after_view io now r found (adds view) s = change r (answer now (recorded_reply io r found view)) s

abbrev pub after_request : ℕ → BridgeRequest → Option Opening → Pumping → Pumping
after_request now r none s =
    change r (failed_call now) (record s { calls = requests r.attestation none ∷ s.calls })
after_request now r (some o) s = change r (opened_in now o.block) (record s {
  calls = requests r.attestation (some o) ∷ s.calls;
  opened = set_at (describe r.attestation) o s.opened;
})

abbrev pub open_once : ChainIo → ℕ → BridgeRequest → Option Opening → Pumping → Pumping
open_once io now r (some o) s = change r (opened_in now o.block) s
open_once io now r none s = after_request now r (io.request s.calls r.attestation) s

abbrev pub open_new : ChainIo → ℕ → BridgeRequest → Option ℕ → Pumping → Pumping
open_new io now r (some at) s = s
open_new io now r none s = open_once io now r (get_at (describe r.attestation) s.opened) s

abbrev pub after_lookup :
    ChainIo → ℕ → BridgeRequest → Option (Option ChainAnswer) → Pumping → Pumping
after_lookup io now r none s = change r (failed_call now) s
after_lookup io now r (some none) s = open_new io now r r.forwarded_at s
after_lookup io now r (some (some found)) s = after_view io now r found (answer_view found.answer) s

abbrev pub pump_one : ChainIo → ℕ → BridgeRequest → Pumping → Pumping
pump_one io now r s =
    after_lookup io now r (io.lookup s.calls r.attestation r.requested_block)
      (record s { calls = looks_up r.attestation r.requested_block ∷ s.calls })

-- The loop over the requests without a reply.
unfoldable pub pump_each : ChainIo → ℕ → List BridgeRequest → Pumping → Pumping
pump_each io now [] s = s
pump_each io now (r ∷ rs) s = pump_each io now rs (pump_one io now r s)

abbrev pub with_requests : List (Text × BridgeRequest) → Bridge → Bridge
with_requests m b = record b { state = (record b.state { requests = m }) }

abbrev pub save_if : Bool → Bridge → Bridge
save_if changed b = if changed then save b else b

-- The bridge, and the calls of the contract that were made. `now` stands for all readings of the clock.
unfoldable pub pump_contract : ContractAnswers → ChainIo → ℕ → Bridge → Bridge × List ChainCall
pump_contract a io now b =
    let recent = drop_expired now b.state.requests in
    let kept = update_where (is_overdue a now) (not_recorded a now) recent in
    let changed =
      some_where (is_expired now) b.state.requests || some_where (is_overdue a now) recent in
    let s =
      pump_each io now (unanswered kept)
        (record { kept = kept; opened = []; calls = []; changed = changed }) in
    if ltb now b.next_run_at then (save_if changed (with_requests kept b), []) else (
      save_if s.changed (with_requests s.kept (record b { next_run_at = now + a.poll_seconds })),
      s.calls,
    )
