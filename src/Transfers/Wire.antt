-- ===== src/Transfers/Wire.antt =====
-- packages/web-sdk/src/transfers/handle.ts: `toStatus`, `toProgress` and `toTransfer`. A value that is no
-- string, or no number, is `none`. The current time, as an ISO text, is an argument.
use beam_sdk_public.Common.{
  ℕ, ◌*◌, min, Bool, true, false, Option, none, some, if◌then◌else◌, ltb, Text, codes, text_eq,
}

pub data TransferStatus : Type 0 where
  pending preparing running completed failed cancelled : TransferStatus

-- `TERMINAL_STATUSES`.
abbrev pub is_terminal : TransferStatus → Bool
is_terminal completed = true
is_terminal failed = true
is_terminal cancelled = true
is_terminal _ = false

unfoldable pub to_status : Option Text → TransferStatus
to_status none = running
to_status (some t) =
    if text_eq t (codes "pending")
    then pending
    else if text_eq t (codes "preparing")
    then preparing
    else if text_eq t (codes "completed")
    then completed
    else if text_eq t (codes "failed")
    then failed
    else if text_eq t (codes "cancelled")
    then cancelled
    else running

pub record WireProgress : Type 0 where
  pub status : Option Text
  -- Each field in its two spellings, with an underscore and in camel case.
  pub bytes_completed : Option ℕ × Option ℕ
  pub total_bytes : Option ℕ × Option ℕ
  pub destinations_completed : Option ℕ × Option ℕ
  pub destinations_total : Option ℕ × Option ℕ
  pub updated_at : Option Text × Option Text

pub record WireTransfer : Type 0 where
  pub id : Text
  pub status : Option Text
  pub name : Option Text
  pub created_at : Option Text × Option Text
  pub progress : Option WireProgress
  -- `error`: its code and its message.
  pub error : Option (Option Text × Option Text)

pub record TransferProgress : Type 0 where
  pub status : TransferStatus
  pub bytes_completed : ℕ
  pub total_bytes : Option ℕ
  -- A fraction: numerator and denominator.
  pub percent : Option (ℕ × ℕ)
  pub destinations_completed : ℕ
  pub destinations_total : Option ℕ
  pub updated_at : Text

pub record Transfer : Type 0 where
  pub id : Text
  pub status : TransferStatus
  pub name : Option Text
  pub created_at : Text
  pub progress : Option TransferProgress
  pub error : Option (Text × Text)

-- `a ?? b`.
abbrev pub either {ℓ} : {A : Type ℓ} → Option A → Option A → Option A
either none b = b
either (some a) b = some a

abbrev pub or_else {ℓ} : {A : Type ℓ} → Option A → A → A
or_else none d = d
or_else (some a) d = a

abbrev positive : Option ℕ → Option ℕ
positive none = none
positive (some n) = if ltb 0 n then some n else none

-- `Math.min(100, (bytes / total) * 100)`.
abbrev pub percent_of : ℕ → Option ℕ → Option (ℕ × ℕ)
percent_of bytes none = none
percent_of bytes (some total) = some (min (100 * total) (bytes * 100), total)

-- `toStatus(wire.status ?? status)`: a status is its own.
abbrev pub own_status : Option Text → TransferStatus → TransferStatus
own_status none status = status
own_status (some t) status = to_status (some t)

unfoldable pub to_progress : Text → Option WireProgress → TransferStatus → Option TransferProgress
to_progress now none status = none
to_progress now (some w) status =
    let bytes = or_else (either w.bytes_completed.0 w.bytes_completed.1) 0 in
    let total = positive (either w.total_bytes.0 w.total_bytes.1) in
    let own = own_status w.status status in
    some (record {
      status = own;
      bytes_completed = bytes;
      total_bytes = total;
      percent = percent_of bytes total;
      destinations_completed =
          or_else (either w.destinations_completed.0 w.destinations_completed.1) 0;
      destinations_total = either w.destinations_total.0 w.destinations_total.1;
      updated_at = or_else (either w.updated_at.0 w.updated_at.1) now;
    })

abbrev to_error : Option (Option Text × Option Text) → Option (Text × Text)
to_error none = none
to_error (some (code, message)) =
    some (or_else code (codes "internal"), or_else message (codes "The transfer failed."))

unfoldable pub to_transfer : Text → WireTransfer → Transfer
to_transfer now w =
    let status = to_status w.status in
    record {
      id = w.id;
      status = status;
      name = w.name;
      created_at = or_else (either w.created_at.0 w.created_at.1) now;
      progress = to_progress now w.progress status;
      error = to_error w.error;
    }
