-- ===== src/Server/Memory/Examples.antt =====
-- Runs of packages/web-sdk-server/src/upstreams/memory.ts, and its theorems at concrete inputs.
use beam_sdk_public.Common.{
  text_eq, includes, get_at, set_at, ◌+◌, ◌≡◌, refl, true, false, none, some, List, [], ◌∷◌, codes,
  arith,
}
use beam_sdk_public.Server.Checked.{ok}
use beam_sdk_public.Server.Broker.{CreateTransferInput}
use beam_sdk_public.Server.Memory.{
  MemoryUpstreamOptions, TransferRecord, pending, cancelled, Memory, start, padded, create_transfer,
  get_transfer, cancels, Gap, waits, Watch, watch_transfer, bytes_of,
}
use beam_sdk_public.Server.Memory.Watching.{ends_over, watch_transfer_total}
use beam_sdk_public.Server.Memory.Cancelling.{watch_transfer-cancels}

abbrev options : MemoryUpstreamOptions
options = record {
  media_url = codes "http://127.0.0.1";
  total_bytes = 10;
  bytes_per_tick = 4;
  fail_transfers = false;
}

abbrev input : CreateTransferInput
input = record {
  source = codes "s";
  destinations = codes "d" ∷ codes "e" ∷ [];
  name = none;
  metadata = none;
}

abbrev first : TransferRecord
first = record {
  id = codes "tr_0001";
  status = pending;
  name = none;
  created_at = 5;
  progress = some (record {
    bytes_completed = 0;
    total_bytes = 10;
    destinations_completed = 0;
    destinations_total = 2;
    updated_at = none;
  });
  error = none;
}

abbrev holding : Memory
holding = record {
  rooms = [];
  transfers = (codes "tr_0001", first) ∷ [];
  cancelled_ids = [];
  counter = 1;
}

creates_first : create_transfer options 5 input start ≡ (holding, first)
unfolding create_transfer padded set_at
creates_first = refl

abbrev gaps : List Gap
gaps = waits [] 6 ∷ waits [] 7 ∷ waits [] 8 ∷ []

holds_first : get_transfer (codes "tr_0001") holding ≡ ok first
unfolding get_transfer get_at text_eq
holds_first = refl

watch_transfer_total_example :
    (w : Watch) × (watch_transfer options (codes "tr_0001") gaps holding ≡ ok w)
    × (w.returned ≡ true)
    × (ends_over w.yielded ≡ true)
watch_transfer_total_example =
    watch_transfer_total options (codes "tr_0001") first gaps holding holds_first
      (λ h. cc, (λ h. cc, (λ h. cc, tt))) (omega arith) (omega arith)

watch_transfer-cancels_example :
    (w : Watch) × (x : TransferRecord) × (watch_transfer options
        (codes "tr_0001")
        (waits [] 6 ∷ waits (cancels (codes "tr_0001") ∷ []) 7 ∷ [])
        holding
      ≡ ok w)
    × (w.yielded ≡ x ∷ record first { status = cancelled } ∷ [])
    × (bytes_of x.progress ≡ 0 + 4)
    × (w.returned ≡ true)
    × (get_transfer (codes "tr_0001") w.memory ≡ ok (record first { status = cancelled }))
unfolding includes
watch_transfer-cancels_example =
    watch_transfer-cancels options (codes "tr_0001") first 6 7 [] holding holds_first refl
      (omega arith)
