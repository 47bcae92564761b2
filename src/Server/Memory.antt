-- ===== src/Server/Memory.antt =====
-- packages/web-sdk-server/src/upstreams/memory.ts: `memoryUpstream`. Each operation takes the state that
-- the closures share, and the time in milliseconds, which stands for its ISO text. The generator of
-- `watchTransfer` is a loop over what happens between its rounds: other operations, then the next round
-- at a time, or the abort of its signal.
pub mod Watching
pub mod Cancelling
mod Examples
use beam_sdk_public.Common.{
  decimal, get_at, set_at, ℕ, zero, suc, ◌+◌, ◌-◌, ◌*◌, ◌/◌, ◌%◌, min, Bool, true, false, ◌||◌,
  Option, none, some, List, [], ◌∷◌, ◌++◌, if◌then◌else◌, ltb, leb, ◌==◌, Text, codes, text_eq,
  includes, take, length,
}
use beam_sdk_public.Server.Checked.{ServerError, broker_error, Checked, ok, fail}
use beam_sdk_public.Server.Token.{get_or}
use beam_sdk_public.Server.Broker.{CreateRoomInput, CreateTransferInput}

-- The options with their defaults filled in, the URL without its trailing slashes.
pub record MemoryUpstreamOptions : Type 0 where
  pub media_url : Text
  pub total_bytes : ℕ
  pub bytes_per_tick : ℕ
  pub fail_transfers : Bool

pub record RoomMedia : Type 0 where
  pub url : Text
  pub token : Text
  pub whip_url : Text
  pub whep_url : Text

pub record RoomRecord : Type 0 where
  pub id : Text
  pub name : Option Text
  pub created_at : ℕ
  pub expires_at : ℕ
  pub media : RoomMedia

pub record TransferProgressRecord : Type 0 where
  pub bytes_completed : ℕ
  pub total_bytes : ℕ
  pub destinations_completed : ℕ
  pub destinations_total : ℕ
  pub updated_at : Option ℕ

pub data TransferStatus : Type 0 where
  pending preparing running completed failed cancelled : TransferStatus

pub record TransferRecord : Type 0 where
  pub id : Text
  pub status : TransferStatus
  pub name : Option Text
  pub created_at : ℕ
  pub progress : Option TransferProgressRecord
  -- `error`: code and message.
  pub error : Option (Text × Text)

pub record Memory : Type 0 where
  pub rooms : List (Text × RoomRecord)
  pub transfers : List (Text × TransferRecord)
  pub cancelled_ids : List Text
  pub counter : ℕ

abbrev pub start : Memory
start = record { rooms = []; transfers = []; cancelled_ids = []; counter = 0 }

abbrev zeros : ℕ → Text
zeros zero = []
zeros (suc n) = 48 ∷ zeros n

-- `.toString().padStart(4, "0")`.
unfoldable pub padded : ℕ → Text
unfolding decimal
padded n = let t = decimal n in zeros (4 - length t) ++ t

abbrev pub next_id : Text → ℕ → Text
next_id prefix counter = prefix ++ codes "_" ++ padded counter

unfoldable pub create_room :
    MemoryUpstreamOptions → ℕ → CreateRoomInput → Memory → Memory × RoomRecord
create_room o now input s =
    let id = next_id (codes "room") (suc s.counter) in
    let room : RoomRecord = record {
      id = id;
      name = input.name;
      created_at = now;
      expires_at = now + get_or 3600 input.ttl_seconds * 1000;
      media = record {
        url = o.media_url;
        token = codes "local-media-token-" ++ id;
        whip_url = o.media_url ++ codes "/whip";
        whep_url = o.media_url ++ codes "/whep";
      };
    } in
    (record s { rooms = set_at id room s.rooms; counter = suc s.counter }, room)

abbrev pub found {ℓ} : {A : Type ℓ} → Text → Text → Option A → Checked A
found what id none = fail (
    broker_error (codes "No such " ++ what ++ codes ": " ++ id ++ codes ".") 404
      (codes "not_found"))
found what id (some a) = ok a

unfoldable pub get_room : Text → Memory → Checked RoomRecord
get_room id s = found (codes "room") id (get_at id s.rooms)

unfoldable pub create_transfer :
    MemoryUpstreamOptions → ℕ → CreateTransferInput → Memory → Memory × TransferRecord
create_transfer o now input s =
    let id = next_id (codes "tr") (suc s.counter) in
    let r : TransferRecord = record {
      id = id;
      status = pending;
      name = input.name;
      created_at = now;
      progress = some (record {
        bytes_completed = 0;
        total_bytes = o.total_bytes;
        destinations_completed = 0;
        destinations_total = length input.destinations;
        updated_at = none;
      });
      error = none;
    } in
    (record s { transfers = set_at id r s.transfers; counter = suc s.counter }, r)

unfoldable pub get_transfer : Text → Memory → Checked TransferRecord
get_transfer id s = found (codes "transfer") id (get_at id s.transfers)

abbrev values : List (Text × TransferRecord) → List TransferRecord
values [] = []
values ((k, r) ∷ es) = r ∷ values es

unfoldable pub list_transfers : Option ℕ → Memory → List TransferRecord
list_transfers limit s = take (get_or 50 limit) (values s.transfers)

-- What `cancelTransfer` refuses to cancel.
abbrev pub has_finished : TransferStatus → Bool
has_finished completed = true
has_finished failed = true
has_finished _ = false

abbrev pub cancel_found : Text → Memory → Checked TransferRecord → Checked Memory
cancel_found id s (fail e) = fail e
cancel_found id s (ok r) =
    if has_finished r.status
    then fail (broker_error (codes "This transfer has already finished.") 409 (codes "conflict"))
    else ok (record s { cancelled_ids = id ∷ s.cancelled_ids })

unfoldable pub cancel_transfer : Text → Memory → Checked Memory
cancel_transfer id s = cancel_found id s (get_transfer id s)

abbrev simulated_failure : Text × Text
simulated_failure = (codes "internal", codes "Simulated failure from the in-memory upstream.")

-- The record that a round of `watchTransfer` yields after it has moved some bytes.
unfoldable pub moved_record : MemoryUpstreamOptions → ℕ → TransferRecord → ℕ → ℕ → TransferRecord
moved_record o now r destinations_total moved =
    let done = leb o.total_bytes moved in
    let progress : TransferProgressRecord = record {
      bytes_completed = moved;
      total_bytes = o.total_bytes;
      destinations_completed = if done then destinations_total else 0;
      destinations_total = destinations_total;
      updated_at = some now;
    } in
    if done
    then (if o.fail_transfers
        then record r { status = failed; progress = some progress; error = some simulated_failure }
        else record r { status = completed; progress = some progress })
    else record r { status = running; progress = some progress }

-- Another operation while the generator waits.
pub data Action : Type 0 where
  creates : ℕ → CreateTransferInput → Action
  cancels : Text → Action

-- A call that throws leaves the state as it was.
abbrev pub or_unchanged : Memory → Checked Memory → Memory
or_unchanged s (fail e) = s
or_unchanged s (ok t) = t

unfoldable pub act : MemoryUpstreamOptions → Action → Memory → Memory
act o (creates now input) s = (create_transfer o now input s).0
act o (cancels id) s = or_unchanged s (cancel_transfer id s)

unfoldable pub act_all : MemoryUpstreamOptions → List Action → Memory → Memory
act_all o [] s = s
act_all o (a ∷ as') s = act_all o as' (act o a s)

-- What comes before a round: the signal's abort, or other operations and then the round at a time.
pub data Gap : Type 0 where
  aborts : Gap
  waits : List Action → ℕ → Gap

-- The records yielded, the state, and whether the generator has returned.
pub record Watch : Type 0 where
  pub yielded : List TransferRecord
  pub memory : Memory
  pub returned : Bool

abbrev pub yielding : TransferRecord → Watch → Watch
yielding r w = record w { yielded = r ∷ w.yielded }

module _ (o : MemoryUpstreamOptions) (id : Text) (r : TransferRecord) (destinations_total : ℕ) where
  abbrev pub store : TransferRecord → Memory → Memory
  store x s = record s { transfers = set_at id x s.transfers }

  unfoldable pub watch_from : List Gap → ℕ → Memory → Watch
  watch_from [] moved s = record { yielded = []; memory = s; returned = false }
  watch_from (aborts ∷ gaps) moved s = record { yielded = []; memory = s; returned = true }
  watch_from (waits as' now ∷ gaps) moved s =
      let t = act_all o as' s in
      let finished : TransferRecord = record r { status = cancelled } in
      let further = min o.total_bytes (moved + o.bytes_per_tick) in
      let next = moved_record o now r destinations_total further in
      let rest = watch_from gaps further (store next t) in
      if includes t.cancelled_ids id
      then record { yielded = finished ∷ []; memory = store finished t; returned = true }
      else if leb o.total_bytes further
      then record { yielded = next ∷ []; memory = store next t; returned = true }
      else yielding next rest

abbrev pub bytes_of : Option TransferProgressRecord → ℕ
bytes_of none = 0
bytes_of (some p) = p.bytes_completed

abbrev destinations_of : Option TransferProgressRecord → ℕ
destinations_of none = 1
destinations_of (some p) = p.destinations_total

abbrev pub watch_found :
    MemoryUpstreamOptions → Text → List Gap → Memory → Checked TransferRecord → Checked Watch
watch_found o id gaps s (fail e) = fail e
watch_found o id gaps s (ok r) =
    ok (watch_from o id r (destinations_of r.progress) gaps (bytes_of r.progress) s)

unfoldable pub watch_transfer : MemoryUpstreamOptions → Text → List Gap → Memory → Checked Watch
watch_transfer o id gaps s = watch_found o id gaps s (get_transfer id s)
