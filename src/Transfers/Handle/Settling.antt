-- ===== src/Transfers/Handle/Settling.antt =====
-- How often and with what a handle settles, and which events its polling fallback emits.
use beam_sdk_public.Common.{
  ℕ, suc, ◌+◌, ◌≤◌, ◌≡◌, refl, sym, ◌∙◌, true, false, Option, none, some, List, [], ◌∷◌,
  if◌then◌else◌, length, if_rule, arith,
}
use beam_sdk_public.Transfers.Wire.{
  TransferStatus, pending, preparing, running, completed, failed, cancelled, is_terminal, Transfer,
}
use beam_sdk_public.Transfers.Handle.{
  Event, on_status, Handle, settled_by, settle, same_status, announce, apply, refresh, poll, close,
  new, Action, receives, polls, refreshes, closes, act, act_all,
}

-- A handle that has not settled has no settlement, or is closed after just one.
pub record Inv (h : Handle) : Type 0 where
  pub open_unsettled : h.is_closed ≡ false → length h.settlements ≡ 0
  pub settled_once : length h.settlements ≤ 1

settled_by-Inv :
    (s : TransferStatus) (t : Transfer) (h : Handle)
    → length h.settlements ≡ 0
    → Inv (settled_by s t h)
settled_by-Inv pending t h e = record { open_unsettled = λ c. cc; settled_once = omega arith }
settled_by-Inv preparing t h e = record { open_unsettled = λ c. cc; settled_once = omega arith }
settled_by-Inv running t h e = record { open_unsettled = λ c. cc; settled_once = omega arith }
settled_by-Inv completed t h e = record { open_unsettled = λ c. cc; settled_once = omega arith }
settled_by-Inv failed t h e = record { open_unsettled = λ c. cc; settled_once = omega arith }
settled_by-Inv cancelled t h e = record { open_unsettled = λ c. cc; settled_once = omega arith }

settle-Inv : (t : Transfer) (h : Handle) → Inv h → Inv (settle t h)
unfolding settle
settle-Inv t h v =
    if_rule Inv h.is_closed _ _ (λ c. v) (λ o. settled_by-Inv t.status t h (v.open_unsettled o))

same-Inv :
    (g h : Handle) → g.is_closed ≡ h.is_closed → g.settlements ≡ h.settlements → Inv h → Inv g
same-Inv g h c s v = record {
  open_unsettled = λ o. rw s (v.open_unsettled (sym c ∙ o));
  settled_once = rw s v.settled_once;
}

announce_lem :
    (t : Transfer) (h : Handle)
    → let g = announce t h in
      (g.is_closed ≡ h.is_closed) × (g.settlements ≡ h.settlements) × (g.transfer ≡ t)
unfolding announce
announce_lem t h = ground arith

apply-Inv : (t : Transfer) (h : Handle) → Inv h → Inv (apply t h)
unfolding apply
apply-Inv t h v =
    let (c, s, e) = announce_lem t h in
    let w = same-Inv (announce t h) h c s v in
    if_rule Inv (is_terminal t.status) _ _ (λ y. settle-Inv t (announce t h) w) (λ n. w)

poll-Inv : (o : Option Transfer) (h : Handle) → Inv h → Inv (poll o h)
unfolding poll refresh
poll-Inv none h v = v
poll-Inv (some t) h v =
    if_rule Inv h.is_closed _ _ (λ c. v)
      (λ o. apply-Inv t (refresh t h) (same-Inv (refresh t h) h refl refl v))

close-Inv : (h : Handle) → Inv h → Inv (close h)
unfolding close
close-Inv h v =
    if_rule Inv h.is_closed _ _ (λ c. v)
      (λ o. record { open_unsettled = λ c. cc; settled_once = v.settled_once })

act-Inv : (a : Action) (h : Handle) → Inv h → Inv (act a h)
unfolding act refresh
act-Inv (receives t) h v = apply-Inv t h v
act-Inv (polls o) h v = poll-Inv o h v
act-Inv (refreshes t) h v = same-Inv (refresh t h) h refl refl v
act-Inv closes h v = close-Inv h v

act_all-Inv : (as' : List Action) (h : Handle) → Inv h → Inv (act_all as' h)
unfolding act_all
act_all-Inv [] h v = v
act_all-Inv (a ∷ as') h v = act_all-Inv as' (act a h) (act-Inv a h v)

new-Inv : (t : Transfer) → Inv (new t)
unfolding new
new-Inv t =
    let h : Handle = record { transfer = t; is_closed = false; events = []; settlements = [] } in
    let v : Inv h = record { open_unsettled = λ c. refl; settled_once = omega arith } in
    if_rule Inv (is_terminal t.status) _ _ (λ y. settle-Inv t h v) (λ n. v)

-- Whatever reaches a new handle, in whatever order, it settles at most once, and has not settled while it
-- is open.
pub act_all-settles :
    (t : Transfer) (as' : List Action)
    → let h = act_all as' (new t) in
      (length h.settlements ≤ 1) × (h.is_closed ≡ false → length h.settlements ≡ 0)
act_all-settles t as' =
    let v = act_all-Inv as' (new t) (new-Inv t) in (v.settled_once, v.open_unsettled)

-- How many changes of status a handle has emitted.
abbrev pub status_events : List Event → ℕ
status_events [] = 0
status_events (on_status s ∷ es) = suc (status_events es)
status_events (_ ∷ es) = status_events es

same_status_refl : (s : TransferStatus) → same_status s s ≡ true
same_status_refl pending = refl
same_status_refl preparing = refl
same_status_refl running = refl
same_status_refl completed = refl
same_status_refl failed = refl
same_status_refl cancelled = refl

announce-events :
    (t : Transfer) (h : Handle)
    → status_events (announce t h).events
      ≡ status_events h.events + (if same_status t.status h.transfer.status then 0 else 1)
unfolding announce
announce-events t h = ground arith

settled_by-events :
    (s : TransferStatus) (t : Transfer) (h : Handle)
    → status_events (settled_by s t h).events ≡ status_events h.events
settled_by-events pending t h = refl
settled_by-events preparing t h = refl
settled_by-events running t h = refl
settled_by-events completed t h = refl
settled_by-events failed t h = refl
settled_by-events cancelled t h = refl

apply-events :
    (t : Transfer) (h : Handle)
    → status_events (apply t h).events
      ≡ status_events h.events + (if same_status t.status h.transfer.status then 0 else 1)
unfolding apply settle
apply-events t h = ground (arith, announce-events t h, settled_by-events t.status t (announce t h))

-- A transfer that reaches an open handle in another status is announced by one more event if it comes
-- from the stream, and by none if it comes from a round of the polling fallback, which compares it with
-- itself.
pub poll-no_status :
    (t : Transfer) (h : Handle)
    → h.is_closed ≡ false
    → same_status t.status h.transfer.status ≡ false
    → (status_events (act (receives t) h).events ≡ suc (status_events h.events))
      × (status_events (act (polls (some t)) h).events ≡ status_events h.events)
unfolding act poll refresh
poll-no_status t h o d = (
  ground (arith, apply-events t h),
  ground (arith, apply-events t (refresh t h), same_status_refl t.status),
)
