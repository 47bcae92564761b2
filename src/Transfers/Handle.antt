-- ===== src/Transfers/Handle.antt =====
-- packages/web-sdk/src/transfers/handle.ts: `BeamTransferHandle`. The handle is its transfer, `#closed`, the
-- events that it emits and the calls of `#resolve` and `#reject`, both newest first. Listeners are not
-- part of it, nor is the stream, whose events are steps.
pub mod Settling
use beam_sdk_public.Common.{
  ℕ, Bool, true, false, not, ◌==◌, Option, none, some, List, [], ◌∷◌, if◌then◌else◌, Text, codes,
}
use beam_sdk_public.Errors.{ErrorCode, aborted, internal, as_remote_error_code}
use beam_sdk_public.Transfers.Wire.{
  TransferStatus, pending, preparing, running, completed, failed, cancelled, is_terminal,
  TransferProgress, Transfer, or_else, WireTransfer, to_transfer,
}

abbrev status_code : TransferStatus → ℕ
status_code pending = 0
status_code preparing = 1
status_code running = 2
status_code completed = 3
status_code failed = 4
status_code cancelled = 5

abbrev pub same_status : TransferStatus → TransferStatus → Bool
same_status a b = status_code a == status_code b

pub data Event : Type 0 where
  on_progress : TransferProgress → Event
  on_status : TransferStatus → Event
  on_completed : Transfer → Event

pub data Settlement : Type 0 where
  resolved : Transfer → Settlement
  -- `BeamApiError`: message and code.
  rejected : Text → ErrorCode → Settlement

pub record Handle : Type 0 where
  pub transfer : Transfer
  pub is_closed : Bool
  pub events : List Event
  pub settlements : List Settlement

abbrev emitted : Event → Handle → Handle
emitted e h = record h { events = e ∷ h.events }

abbrev message_of : TransferStatus → Option (Text × Text) → Text
message_of status (some (code, message)) = message
message_of cancelled none = codes "The transfer was cancelled."
message_of _ none = codes "The transfer failed."

abbrev remote_code : Option (Text × Text) → ErrorCode
remote_code none = internal
remote_code (some (code, message)) = or_else (as_remote_error_code (some code)) internal

abbrev code_of : TransferStatus → Option (Text × Text) → ErrorCode
code_of cancelled e = aborted
code_of _ e = remote_code e

-- `#settle` of an open handle, by the status.
abbrev pub settled_by : TransferStatus → Transfer → Handle → Handle
settled_by completed t h = record h {
  is_closed = true;
  events = on_completed t ∷ h.events;
  settlements = resolved t ∷ h.settlements;
}
settled_by s t h = record h {
  is_closed = true;
  settlements = rejected (message_of s t.error) (code_of s t.error) ∷ h.settlements;
}

unfoldable pub settle : Transfer → Handle → Handle
settle t h = if h.is_closed then h else settled_by t.status t h

abbrev emit_progress : Option TransferProgress → Handle → Handle
emit_progress none h = h
emit_progress (some p) h = emitted (on_progress p) h

-- The transfer replaced, and the events of that.
unfoldable pub announce : Transfer → Handle → Handle
announce next h =
    let changed = not (same_status next.status h.transfer.status) in
    let h1 = emit_progress next.progress (record h { transfer = next }) in
    if changed then emitted (on_status next.status) h1 else h1

unfoldable pub apply : Transfer → Handle → Handle
apply next h = if is_terminal next.status then settle next (announce next h) else announce next h

unfoldable pub refresh : Transfer → Handle → Handle
refresh t h = record h { transfer = t }

-- A round of `#pollUntilTerminal` after its wait, as one step; `none` for a request that fails.
unfoldable pub poll : Option Transfer → Handle → Handle
poll none h = h
poll (some t) h = if h.is_closed then h else apply t (refresh t h)

unfoldable pub close : Handle → Handle
close h = if h.is_closed then h else record h { is_closed = true }

-- The constructor; `#watch` starts the stream.
unfoldable pub new : Transfer → Handle
new t =
    let h : Handle = record { transfer = t; is_closed = false; events = []; settlements = [] } in
    if is_terminal t.status then settle t h else h

pub data Action : Type 0 where
  receives : Transfer → Action
  polls : Option Transfer → Action
  refreshes : Transfer → Action
  closes : Action

unfoldable pub act : Action → Handle → Handle
act (receives t) h = apply t h
act (polls o) h = poll o h
act (refreshes t) h = refresh t h
act closes h = close h

unfoldable pub act_all : List Action → Handle → Handle
act_all [] h = h
act_all (a ∷ as') h = act_all as' (act a h)
