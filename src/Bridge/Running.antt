-- ===== src/Bridge/Running.antt =====
-- packages/cre/bridge/bridge.ts: any sequence of messages, reports and pumps of a bridge whose answers come from
-- a DON, with those that come while a pump or a report waits.
use beam_sdk_public.Common.{ℕ, Bool, Option, none, some, List, Text}
use beam_sdk_public.Server.Json.{Json}
use beam_sdk_public.Bridge.Attestations.{Attestation}
use beam_sdk_public.Bridge.Pumps.{CreAnswers, Bridge, Forwarding, forward_returned, pump_cre}
use beam_sdk_public.Bridge.Pumps.Lagging.{CreGoes}
use beam_sdk_public.Bridge.Results.{ResultIo, ResultResponse, handle_result, receive}

module _ (io : ResultIo) (a : CreAnswers) (now : ℕ) (seen : List Text) (b : Bridge) where
  abbrev IsGoing : Bridge × ResultResponse → Type 0
  IsGoing p = CreGoes b p.0

module _ (a : CreAnswers) where
  -- What can happen to a bridge, and what it then waits for: a message that asks; a report, which may have come in
  -- at any time before, with other reports seen then; the start of a pump, for which none may be waiting; and the
  -- forwarding of a pump that returns or throws.
  pub data Runs (b : Bridge) : Bridge → Option Forwarding → Type 0 where
    starts : Runs b b none
    receives :
        (id room channel publisher : Text) (attestation : Attestation) (publish : Bool) (now : ℕ)
        (c : Bridge) (o : Option Forwarding)
        → Runs b c o
        → Runs b (receive id room channel publisher attestation publish now c) o
    takes :
        (io : ResultIo) (now : ℕ) (body : Option Json) (seen : List Text) (c : Bridge)
        (o : Option Forwarding)
        → Runs b c o
        → Runs b (handle_result io a now body seen c).0 o
    pumps :
        (now : ℕ) (c : Bridge) → Runs b c none → Runs b (pump_cre a now c).0 (pump_cre a now c).1
    returns : (f : Forwarding) (c : Bridge) → Runs b c (some f) → Runs b (forward_returned f c) none
    fails : (f : Forwarding) (c : Bridge) → Runs b c (some f) → Runs b c none
