-- ===== src/Server/Memory/Cancelling.antt =====
-- A transfer that is cancelled while `watchTransfer` watches it.
use beam_sdk_public.Common.{
  get_at-set_at, codes, ℕ, ◌+◌, ◌<◌, ◌≡◌, refl, ap, ◌∙◌, min, true, false, List, [], ◌∷◌, leb, Text,
  text_eq_refl, includes, arith,
}
use beam_sdk_public.Server.Checked.{ok}
use beam_sdk_public.Server.Memory.{
  MemoryUpstreamOptions, TransferRecord, running, cancelled, Memory, get_transfer, cancel_transfer,
  moved_record, Action, cancels, act, act_all, Gap, waits, Watch, yielding, store, watch_from,
  bytes_of, destinations_of, watch_transfer, found,
}
use beam_sdk_public.Server.Memory.Watching.{started, moved_record_lem}

running_record :
    (o : MemoryUpstreamOptions) (now : ℕ) (r : TransferRecord) (d moved : ℕ)
    → moved < o.total_bytes
    → (moved_record o now r d moved).status ≡ running
unfolding moved_record
running_record o now r d moved h = ground arith

capped : (t m : ℕ) → m < t → min t m ≡ m
capped t m h = omega arith

not_over : (t m : ℕ) → m < t → leb t m ≡ false
not_over t m h = ground arith

-- The rounds of the loop, one at a time.
module _ (o : MemoryUpstreamOptions) (id : Text) (r : TransferRecord) (d now : ℕ)
    (gaps : List Gap) where
  moving_round :
      (as' : List Action) (moved : ℕ) (s : Memory)
      → includes (act_all o as' s).cancelled_ids id ≡ false
      → moved + o.bytes_per_tick < o.total_bytes
      → let x = moved_record o now r d (moved + o.bytes_per_tick) in
        watch_from o id r d (waits as' now ∷ gaps) moved s
        ≡ yielding x (
            watch_from o id r d gaps
              (moved + o.bytes_per_tick)
              (store o id r d x (act_all o as' s)))
  unfolding watch_from
  moving_round as' moved s c h = rw (c, capped _ _ h, not_over _ _ h) refl

  last_round :
      (as' : List Action) (moved : ℕ) (s : Memory)
      → includes (act_all o as' s).cancelled_ids id ≡ true
      → let x : TransferRecord = record r { status = cancelled } in
        watch_from o id r d (waits as' now ∷ gaps) moved s
        ≡ record { yielded = x ∷ []; memory = store o id r d x (act_all o as' s); returned = true }
  unfolding watch_from
  last_round as' moved s c = rw c refl

cancel_running :
    (o : MemoryUpstreamOptions) (id : Text) (r : TransferRecord) (s : Memory)
    → r.status ≡ running
    → includes (act_all o (cancels id ∷ []) (store o id r 0 r s)).cancelled_ids id ≡ true
unfolding act_all act cancel_transfer get_transfer includes
cancel_running o id r s e = rw (get_at-set_at id r s.transfers, e, text_eq_refl id) refl

-- For a transfer that was not cancelled before and has more than a round left to move: if it is cancelled
-- after the first round of its watch, the second round stores and yields the record that the watch
-- started from, as cancelled and so with the bytes from before the first round, and the watch returns.
pub watch_transfer-cancels :
    (o : MemoryUpstreamOptions) (id : Text) (r : TransferRecord) (now later : ℕ) (gaps : List Gap)
    (s : Memory)
    → get_transfer id s ≡ ok r
    → includes s.cancelled_ids id ≡ false
    → bytes_of r.progress + o.bytes_per_tick < o.total_bytes
    → (w : Watch) × (x : TransferRecord) × (watch_transfer o id
          (waits [] now ∷ waits (cancels id ∷ []) later ∷ gaps)
          s
        ≡ ok w)
      × (w.yielded ≡ x ∷ record r { status = cancelled } ∷ [])
      × (bytes_of x.progress ≡ bytes_of r.progress + o.bytes_per_tick)
      × (w.returned ≡ true)
      × (get_transfer id w.memory ≡ ok (record r { status = cancelled }))
unfolding act_all get_transfer
watch_transfer-cancels o id r now later gaps s e c h =
    let d : ℕ = destinations_of r.progress in
    let m : ℕ = bytes_of r.progress + o.bytes_per_tick in
    let x : TransferRecord = moved_record o now r d m in
    let t : Memory = store o id r d x s in
    let f : TransferRecord = record r { status = cancelled } in
    let last : Watch = record {
      yielded = f ∷ [];
      memory = store o id r d f (act_all o (cancels id ∷ []) t);
      returned = true;
    } in
    (
      yielding x last,
      x,
      started o id r _ s e
          ∙ ap ok (
              moving_round o id r d now _ [] (bytes_of r.progress) s c h
              ∙ ap (yielding x) (
                  last_round o id r d later gaps (cancels id ∷ []) m t
                    (cancel_running o id x s (running_record o now r d m h)))),
      refl,
      (moved_record_lem o now r d m).1,
      refl,
      ap (found (codes "transfer") id)
          (get_at-set_at id f (act_all o (cancels id ∷ []) t).transfers),
    )
