-- ===== src/Transfers/Examples.antt =====
-- Runs of packages/web-sdk/src/transfers/handle.ts, and its theorems at concrete inputs.
use beam_sdk_public.Common.{
  ◌≤◌, ◌≡◌, refl, false, none, some, List, [], ◌∷◌, Text, codes, text_eq, length,
}
use beam_sdk_public.Transfers.Wire.{
  running, WireProgress, WireTransfer, Transfer, to_status, to_progress, to_transfer,
}
use beam_sdk_public.Transfers.Handle.{
  Handle, resolved, new, announce, settle, apply, refresh, poll, close, Action, receives, polls,
  closes, act, act_all,
}
use beam_sdk_public.Transfers.Handle.Settling.{act_all-settles}

abbrev wire_progress : WireProgress
wire_progress = record {
  status = none;
  bytes_completed = (some 5, none);
  total_bytes = (none, some 4);
  destinations_completed = (none, none);
  destinations_total = (none, some 2);
  updated_at = (none, none);
}

abbrev wire : Text → WireTransfer
wire status = record {
  id = codes "tr";
  status = some status;
  name = none;
  created_at = (some (codes "t0"), none);
  progress = some wire_progress;
  error = none;
}

abbrev seen : Text → Transfer
seen status = to_transfer (codes "now") (wire status)

reads_unknown : (seen (codes "paused")).status ≡ running
unfolding to_transfer to_status text_eq
reads_unknown = refl

abbrev steps : List Action
steps =
    receives (seen (codes "running"))
    ∷ polls (some (seen (codes "completed")))
    ∷ receives (seen (codes "failed"))
    ∷ closes
    ∷ []

settles_first :
    (act_all steps (new (seen (codes "pending")))).settlements
    ≡ resolved (seen (codes "completed")) ∷ []
unfolding act_all act new apply announce settle refresh poll close to_transfer to_progress to_status
    text_eq
settles_first = refl

act_all-settles_example :
    let h = act_all steps (new (seen (codes "pending"))) in
    (length h.settlements ≤ 1) × (h.is_closed ≡ false → length h.settlements ≡ 0)
act_all-settles_example = act_all-settles (seen (codes "pending")) steps

abbrev holding : Handle
holding = record {
  transfer = seen (codes "pending");
  is_closed = false;
  events = [];
  settlements = [];
}
