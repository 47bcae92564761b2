-- ===== src/Relay/Customers.antt =====
-- packages/cre/relay/customers.ts: customers, the periods of their switch, the cursor of their listing, and
-- charges. An ISO date is the milliseconds that it stands for.
pub mod Cursor
use beam_sdk_public.Common.{
  ℕ, zero, suc, ◌+◌, ◌*◌, ◌-◌, min, max, Bool, true, false, ◌&&◌, ◌||◌, not, Option, none, some,
  List, [], ◌∷◌, ◌++◌, decimal, if◌then◌else◌, ltb, leb, ◌==◌, Text, codes, text_eq, keep,
}
use beam_sdk_public.Receipts.Entries.{Observation}
use beam_sdk_public.Server.Json.{Json, Fields, end, null, obj, get, as_string}

pub record Reader : Type 0 where
  pub api_key : Text
  pub organization_id : Text

pub data Via : Type 0 where
  every_transfer : ℕ → Via
  requester : Text → Via

pub data Owner : Type 0 where
  beam : Owner
  customer : Text → Reader → Via → Owner

pub data RequesterStatus : Type 0 where
  waiting approved revoked : RequesterStatus

pub data AllowlistStatus : Type 0 where
  never allowed removed : AllowlistStatus

pub record Requester : Type 0 where
  pub id : Text
  pub address : Text
  pub status : RequesterStatus
  pub allowlist : AllowlistStatus

pub record Period : Type 0 where
  pub started_at : ℕ
  pub ended_at : Option ℕ

pub record Customer : Type 0 where
  pub organization_id : Text
  pub reader : Reader
  pub periods : List Period
  pub requesters : List Requester

abbrev trailing_listing_ms : ℕ
trailing_listing_ms = 7 * 24 * 60 * 60 * 1000

abbrev some_period : (Period → Bool) → List Period → Bool
some_period p [] = false
some_period p (x ∷ xs) = p x || some_period p xs

-- `now - period.endedAt < TRAILING_LISTING_MS`, without the subtraction.
abbrev is_recent : ℕ → Option ℕ → Bool
is_recent now none = true
is_recent now (some ended) = ltb now (ended + trailing_listing_ms)

unfoldable pub lists_transfers : Customer → ℕ → Bool
lists_transfers c now = some_period (λ p. is_recent now p.ended_at) c.periods

abbrev is_open_at : ℕ → Option ℕ → Bool
is_open_at at none = true
is_open_at at (some ended) = ltb at ended

unfoldable pub created_during_periods : ℕ → List Period → Bool
created_during_periods created periods =
    some_period (λ p. leb p.started_at created && is_open_at created p.ended_at) periods

abbrev least : ℕ → List Period → ℕ
least n [] = n
least n (p ∷ ps) = min p.started_at (least n ps)

abbrev first_start : List Period → Option ℕ
first_start [] = none
first_start (p ∷ ps) = some (least p.started_at ps - 1)

-- `Math.min` of no period is infinite; a customer without periods is not listed.
unfoldable pub initial_transfer_cursor : Customer → Option ℕ
initial_transfer_cursor c = first_start c.periods

pub record ListedTransfer : Type 0 where
  pub id : Text
  pub created_at : ℕ
  pub completed_at : ℕ
  pub observation : Observation

-- A listed transfer's completion, and whether it is done.
pub record Listed : Type 0 where
  pub completed_at : ℕ
  pub done : Bool

abbrev pub lower : ℕ → Option ℕ → ℕ
lower n none = n
lower n (some m) = min n m

-- The least completion of those that are not done.
abbrev pub oldest_pending : List Listed → Option ℕ
oldest_pending [] = none
oldest_pending (x ∷ xs) =
    let rest = oldest_pending xs in if x.done then rest else some (lower x.completed_at rest)

abbrev pub newest : ℕ → List Listed → ℕ
newest n [] = n
newest n (x ∷ xs) = max x.completed_at (newest n xs)

abbrev pub cursor_before : ℕ → List Listed → Option ℕ → ℕ
cursor_before cursor listed none = newest cursor listed
cursor_before cursor listed (some oldest) = max cursor (oldest - 1)

unfoldable pub next_transfer_cursor : ℕ → List Listed → ℕ
next_transfer_cursor cursor listed = cursor_before cursor listed (oldest_pending listed)

pub data ChargeSubject : Type 0 where
  transfer_receipt room_receipt closing : Text → ChargeSubject

pub data ChargeOutcome : Type 0 where
  held charged released : ChargeOutcome
  refused : ℕ → Text → ChargeOutcome
  unavailable : ℕ → ChargeOutcome

-- The members of an object; of another value, none.
abbrev members_of : Option Json → Fields
members_of (some (obj fs)) = fs
members_of (some null) = end
members_of _ = end

abbrev same_text : Option Text → Text → Bool
same_text none t = false
same_text (some u) t = text_eq u t

abbrev is_text : Option Json → Text → Bool
is_text v t = same_text (as_string v) t

abbrev reason_of : ℕ → Option Text → Option Text → Text
reason_of status (some reason) error = reason
reason_of status none (some error) = error
reason_of status none none = codes "HTTP " ++ decimal status

-- `JSON.parse` of the body is a parameter; `none` where it throws.
unfoldable pub project_charge : (Text → Option Json) → ℕ → Text → ChargeOutcome
project_charge parse status body =
    let reply = members_of (parse body) in
    let operation = members_of (get (codes "operation") reply) in
    let state = get (codes "status") operation in
    if leb 500 status || (status == 0)
    then unavailable status
    else if not (status == 200)
    then refused status (
        reason_of status (as_string (get (codes "reason") reply))
          (as_string (get (codes "error") reply)))
    else if is_text state (codes "RESERVED")
    then held
    else if is_text state (codes "COMMITTED")
    then charged
    else if (is_text state (codes "CANCELED") || is_text state (codes "FAILED"))
        && is_text (get (codes "releaseReason") operation) (codes "expired")
    then held
    else released
