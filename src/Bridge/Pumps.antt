-- ===== src/Bridge/Pumps.antt =====
-- packages/cre/bridge/bridge.ts: `pumpCre`, which forwards requests to the workflow on a DON and gives up on them.
-- It waits for the workflow: what it does before that is a step, and what it does after another, which finds the
-- bridge as it is then. Its other calls of `save` and those of the handlers end a step; a save has the state of when
-- it is called.
pub mod Keeping
pub mod Lagging
use beam_sdk_public.Common.{
  ℕ, suc, ◌+◌, Bool, true, false, ◌&&◌, ◌||◌, not, Option, none, some, List, [], ◌∷◌, ◌++◌,
  if◌then◌else◌, ltb, leb, ◌==◌, Text, codes, decimal, text_eq, includes, keep, length, get_at,
  set_at,
}
use beam_sdk_public.Bridge.Attestations.{Attestation, AttestationRequest, max_attestations}
use beam_sdk_public.Bridge.Requests.{
  ReplyType, cre_reply, BridgeReply, BridgeRequest, BridgeState, describe, unanswered_reply,
  is_unanswered, answer, update_where, some_where, is_expired, drop_expired, unanswered,
}

pub record CreAnswers : Type 0 where
  pub workflow_id : Text
  pub workflow_owner : Text
  pub pace_seconds : ℕ
  pub retry_seconds : ℕ
  pub max_attempts : ℕ

-- The state, what was saved last, when the next run is due, and the batches that `forward` was called with, newest first.
pub record Bridge : Type 0 where
  pub state : BridgeState
  pub saved : BridgeState
  pub next_run_at : ℕ
  pub forwarded : List AttestationRequest

abbrev pub save : Bridge → Bridge
save b = record b { saved = b.state }

abbrev pub waited : CreAnswers → ℕ → Option ℕ → Bool
waited a now none = false
waited a now (some at) = leb (at + a.retry_seconds) now

abbrev pub gives_up : CreAnswers → ℕ → BridgeRequest → Bool
gives_up a now r = is_unanswered r && (leb a.max_attempts r.attempts && waited a now r.forwarded_at)

abbrev pub give_up : ℕ → BridgeRequest → BridgeRequest
give_up now r =
    answer now
      (unanswered_reply cre_reply r (codes "no_finished_receipt") (
        codes "No DON-signed report came back after "
        ++ decimal r.attempts
        ++ codes
            " requests: Beam reported nothing finished for it, or the workflow could not be reached."))
      r

abbrev never_or_waited : CreAnswers → ℕ → Option ℕ → Bool
never_or_waited a now none = true
never_or_waited a now (some at) = leb (at + a.retry_seconds) now

abbrev pub is_due : CreAnswers → ℕ → BridgeRequest → Bool
is_due a now r = ltb r.attempts a.max_attempts && never_or_waited a now r.forwarded_at

-- The map `attest` and the ids of the list `batch`.
pub record Batch : Type 0 where
  pub attest : List (Text × Attestation)
  pub ids : List Text

abbrev pub has_key : Option Attestation → Bool
has_key none = false
has_key (some a) = true

abbrev same_flag : Bool → Bool → Bool
same_flag true b = b
same_flag false b = not b

abbrev pub add_to_batch : Bool → BridgeRequest → Batch → Batch
add_to_batch publish r b =
    let key = describe r.attestation in
    if not (same_flag r.publish_onchain publish)
    then b
    else if not (has_key (get_at key b.attest)) && (length b.attest == max_attestations)
    then b
    else (record { attest = set_at key r.attestation b.attest; ids = b.ids ++ r.id ∷ [] })

unfoldable pub batch_of : Bool → List BridgeRequest → Batch → Batch
batch_of publish [] b = b
batch_of publish (r ∷ rs) b = batch_of publish rs (add_to_batch publish r b)

abbrev pub values_of : List (Text × Attestation) → List Attestation
values_of [] = []
values_of ((k, a) ∷ m) = a ∷ values_of m

abbrev pub is_in_batch : Batch → BridgeRequest → Bool
is_in_batch batch r = includes batch.ids r.id

abbrev pub forwarded_again : ℕ → BridgeRequest → BridgeRequest
forwarded_again now r = record r { attempts = suc r.attempts; forwarded_at = some now }

-- What `pumpCre` waits for.
pub record Forwarding : Type 0 where
  pub batch : Batch
  pub at : ℕ

-- Up to the `await`: nothing is saved.
abbrev pub forward : CreAnswers → ℕ → Bool → Batch → Bridge → Bridge × Option Forwarding
forward a now publish batch b = (
  record b {
    next_run_at = now + a.pace_seconds;
    forwarded = record { attest = values_of batch.attest; publish_onchain = publish } ∷ b.forwarded;
  },
  some (record { batch = batch; at = now }),
)

-- Behind the `await`, whatever the outcome says; where `forward` throws, nothing of it is done.
unfoldable pub forward_returned : Forwarding → Bridge → Bridge
forward_returned f b = save (record b {
  state = (record b.state {
    requests = update_where (is_in_batch f.batch) (forwarded_again f.at) b.state.requests;
  });
})

abbrev pub forward_due :
    CreAnswers → ℕ → Bool → List BridgeRequest → Bridge → Bridge × Option Forwarding
forward_due a now changed [] b = (if changed then save b else b, none)
forward_due a now changed (r ∷ rs) b =
    forward a now r.publish_onchain
      (batch_of r.publish_onchain (r ∷ rs) (record { attest = []; ids = [] })) b

-- After the requests that are given up.
abbrev pub forward_next : CreAnswers → ℕ → Bool → Bridge → Bridge × Option Forwarding
forward_next a now changed b =
    forward_due a now changed
      (if ltb now b.next_run_at then [] else keep (is_due a now) (unanswered b.state.requests)) b

-- Up to the `await` of `forward`, or to the end where nothing is due. The clock is read again for each answer; `now` stands for all of the readings of one call.
unfoldable pub pump_cre : CreAnswers → ℕ → Bridge → Bridge × Option Forwarding
pump_cre a now b =
    let kept = drop_expired now b.state.requests in
    let changed =
      some_where (is_expired now) b.state.requests || some_where (gives_up a now) kept in
    forward_next a now changed (record b {
      state = (record b.state { requests = update_where (gives_up a now) (give_up now) kept });
    })
