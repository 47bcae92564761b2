-- ===== src/Server/Memory/Watching.antt =====
-- What the generator of `watchTransfer` yields, and when it returns.
use beam_sdk_public.Common.{
  ℕ, zero, suc, ◌+◌, ◌*◌, ◌≤◌, ◌<◌, ◌≡◌, ◌≢◌, refl, ap, ◌∙◌, min, Bool, true, false, List, [], ◌∷◌,
  leb, Text, includes, length, All, leb→le, arith, if_rule,
}
use beam_sdk_public.Server.Checked.{ok}
use beam_sdk_public.Server.Memory.{
  MemoryUpstreamOptions, TransferRecord, TransferStatus, completed, failed, cancelled, Memory,
  get_transfer, moved_record, act_all, Gap, aborts, waits, Watch, yielding, store, watch_from,
  bytes_of, destinations_of, watch_transfer, watch_found,
}

abbrev pub is_over : TransferStatus → Bool
is_over completed = true
is_over failed = true
is_over cancelled = true
is_over _ = false

abbrev pub ends_over : List TransferRecord → Bool
ends_over [] = false
ends_over (r ∷ []) = is_over r.status
ends_over (r ∷ x ∷ xs) = ends_over (x ∷ xs)

abbrev pub IsWait : Gap → Type 0
IsWait g = g ≢ aborts

suc_mul : (n b : ℕ) → suc n * b ≡ b + n * b
suc_mul n b = omega arith

short : (a b : ℕ) → leb a b ≡ false → b < a
short a b h = ground arith

-- What is left to move after a round that did not reach the total takes another round.
left :
    (t m n b : ℕ)
    → t ≤ m + suc n * b
    → leb t (min t (m + b)) ≡ false
    → (0 < n) × (t ≤ min t (m + b) + n * b)
left t m zero b h e = absurd (omega (arith, suc_mul zero b, short t (min t (m + b)) e))
left t m (suc n) b h e = (omega arith, omega (arith, suc_mul (suc n) b, short t (min t (m + b)) e))

moved-over :
    (o : MemoryUpstreamOptions) (now : ℕ) (r : TransferRecord) (d moved : ℕ)
    → o.total_bytes ≤ moved
    → is_over (moved_record o now r d moved).status ≡ true
unfolding moved_record
moved-over o now r d moved h = ground arith

pub moved_record_lem :
    (o : MemoryUpstreamOptions) (now : ℕ) (r : TransferRecord) (d moved : ℕ)
    → let x = moved_record o now r d moved in
      (x.id ≡ r.id) × (bytes_of x.progress ≡ moved) × (x.status ≡ completed → o.total_bytes ≤ moved)
unfolding moved_record
moved_record_lem o now r d moved = (ground arith, ground arith, λ h. ground arith)

ends_over-cons :
    (x : TransferRecord) (xs : List TransferRecord)
    → ends_over xs ≡ true
    → ends_over (x ∷ xs) ≡ true
ends_over-cons x [] h = cc
ends_over-cons x (y ∷ ys) h = h

abbrev Returns : Watch → Type 0
Returns w = (w.returned ≡ true) × (ends_over w.yielded ≡ true)

yielding-Returns : (x : TransferRecord) (w : Watch) → Returns w → Returns (yielding x w)
yielding-Returns x w v = (v.0, ends_over-cons x w.yielded v.1)

-- A record is rising over what was moved before it, within the total, and completed only with the total.
abbrev pub IsRising : MemoryUpstreamOptions → Text → ℕ → List TransferRecord → Type 0
IsRising o id m [] = Unit
IsRising o id m (y ∷ ys) =
    (y.id ≡ id)
    × (y.status ≢ cancelled → (m ≤ bytes_of y.progress) × (bytes_of y.progress ≤ o.total_bytes))
    × (y.status ≡ completed → bytes_of y.progress ≡ o.total_bytes)
    × IsRising o id (bytes_of y.progress) ys

module _ (o : MemoryUpstreamOptions) (id : Text) (r : TransferRecord) (d : ℕ) where
  watch_from-Returns :
      (gaps : List Gap) (moved : ℕ) (s : Memory)
      → All IsWait gaps
      → 0 < length gaps
      → o.total_bytes ≤ moved + length gaps * o.bytes_per_tick
      → Returns (watch_from o id r d gaps moved s)
  unfolding watch_from
  watch_from-Returns [] moved s w p h = absurd (omega (arith, p))
  watch_from-Returns (aborts ∷ gaps) moved s w p h = absurd (w.0 refl)
  watch_from-Returns (waits as' now ∷ gaps) moved s w p h =
      if_rule Returns (includes (act_all o as' s).cancelled_ids id) _ _ (λ c. (refl, refl))
        (λ n.
          if_rule Returns (leb o.total_bytes (min o.total_bytes (moved + o.bytes_per_tick))) _ _
            (λ full. (refl, moved-over o now r d _ (leb→le _ _ full)))
            (λ more.
              let (p', h') = left o.total_bytes moved (length gaps) o.bytes_per_tick h more in
              let m : ℕ = min o.total_bytes (moved + o.bytes_per_tick) in
              let x : TransferRecord = moved_record o now r d m in
              let t : Memory = store o id r d x (act_all o as' s) in
              yielding-Returns x (watch_from o id r d gaps m t)
                (watch_from-Returns gaps m t w.1 p' h')))

  moved_IsRising :
      (now moved : ℕ) (ys : List TransferRecord)
      → moved ≤ o.total_bytes
      → r.id ≡ id
      → let x = moved_record o now r d (min o.total_bytes (moved + o.bytes_per_tick)) in
        IsRising o id (min o.total_bytes (moved + o.bytes_per_tick)) ys
        → IsRising o id moved (x ∷ ys)
  moved_IsRising now moved ys h e v =
      let m : ℕ = min o.total_bytes (moved + o.bytes_per_tick) in
      let l = moved_record_lem o now r d m in
      (
        l.0 ∙ e,
        λ n. (omega (arith, l.1), omega (arith, l.1)),
        λ f. omega (arith, l.1, l.2 f),
        rw l.1 v,
      )

  watch_from-IsRising :
      (gaps : List Gap) (moved : ℕ) (s : Memory)
      → moved ≤ o.total_bytes
      → r.id ≡ id
      → IsRising o id moved (watch_from o id r d gaps moved s).yielded
  unfolding watch_from
  watch_from-IsRising [] moved s h e = tt
  watch_from-IsRising (aborts ∷ gaps) moved s h e = tt
  watch_from-IsRising (waits as' now ∷ gaps) moved s h e =
      if_rule (λ (w : Watch). IsRising o id moved w.yielded)
        (includes (act_all o as' s).cancelled_ids id) _ _
        (λ c. (e, λ n. absurd (n refl), λ f. cc, tt))
        (λ n.
          if_rule (λ (w : Watch). IsRising o id moved w.yielded)
            (leb o.total_bytes (min o.total_bytes (moved + o.bytes_per_tick))) _ _
            (λ full. moved_IsRising now moved [] h e tt)
            (λ more. moved_IsRising now moved _ h e (watch_from-IsRising gaps _ _ (omega arith) e)))

pub started :
    (o : MemoryUpstreamOptions) (id : Text) (r : TransferRecord) (gaps : List Gap) (s : Memory)
    → get_transfer id s ≡ ok r
    → watch_transfer o id gaps s
      ≡ ok (watch_from o id r (destinations_of r.progress) gaps (bytes_of r.progress) s)
unfolding watch_transfer
started o id r gaps s e = ap (watch_found o id gaps s) e

-- A watch of a known transfer that is not aborted returns once the rounds are enough to move what is
-- left, at least one, and the last record that it yields is in a final status.
pub watch_transfer_total :
    (o : MemoryUpstreamOptions) (id : Text) (r : TransferRecord) (gaps : List Gap) (s : Memory)
    → get_transfer id s ≡ ok r
    → All IsWait gaps
    → 0 < length gaps
    → o.total_bytes ≤ bytes_of r.progress + length gaps * o.bytes_per_tick
    → (w : Watch) × (watch_transfer o id gaps s ≡ ok w)
      × (w.returned ≡ true)
      × (ends_over w.yielded ≡ true)
watch_transfer_total o id r gaps s e a p h =
    let d : ℕ = destinations_of r.progress in
    let v = watch_from-Returns o id r d gaps (bytes_of r.progress) s a p h in
    (watch_from o id r d gaps (bytes_of r.progress) s, started o id r gaps s e, v.0, v.1)

-- The records of a watch carry the transfer's id. Until one is cancelled, their bytes never fall under
-- those before them nor exceed the total, and a completed one has moved the total.
pub watch_transfer-IsRising :
    (o : MemoryUpstreamOptions) (id : Text) (r : TransferRecord) (gaps : List Gap) (s : Memory)
    → get_transfer id s ≡ ok r
    → r.id ≡ id
    → bytes_of r.progress ≤ o.total_bytes
    → (w : Watch) × (watch_transfer o id gaps s ≡ ok w)
      × IsRising o id (bytes_of r.progress) w.yielded
watch_transfer-IsRising o id r gaps s e i h = (
  _,
  started o id r gaps s e,
  watch_from-IsRising o id r (destinations_of r.progress) gaps (bytes_of r.progress) s h i,
)
