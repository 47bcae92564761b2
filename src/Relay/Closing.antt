-- ===== src/Relay/Closing.antt =====
-- packages/cre/relay/relay.ts: `closeUnanswerable`, with `RelayState`.
pub mod Accounting
use beam_sdk_public.Common.{
  ℕ, suc, Bool, true, false, Option, none, some, List, [], ◌∷◌, if◌then◌else◌, Text, includes,
  set_at,
}
use beam_sdk_public.Receipts.Subjects.{OpenRequest}
use beam_sdk_public.Relay.Customers.{
  Via, requester, ChargeSubject, closing, ChargeOutcome, held, charged, released, refused,
  unavailable,
}
use beam_sdk_public.Relay.Charges.{Effect, reserves, commits, cancels, ChargesIo}

pub record Unanswerable : Type 0 where
  pub request : OpenRequest
  pub organization_id : Text
  pub reason : Text

-- The map `uncommittedCloses`, the calls made, and the count of closed requests.
pub record Closes : Type 0 where
  pub uncommitted : List (Text × Text)
  pub history : List Effect
  pub closed : ℕ

abbrev pub is_unavailable : ChargeOutcome → Bool
is_unavailable (unavailable status) = true
is_unavailable _ = false

abbrev pub is_held : ChargeOutcome → Bool
is_held held = true
is_held _ = false

abbrev pub is_charged : ChargeOutcome → Bool
is_charged charged = true
is_charged _ = false

-- The loop over `state.uncommittedCloses`: what stays in the map, and the calls. The keys of a map differ.
unfoldable pub retry_commits :
    ChargesIo → List (Text × Text) → List Effect → List (Text × Text) × List Effect
retry_commits io [] h = ([], h)
retry_commits io ((key, organization) ∷ es) h =
    let outcome = io.commit_charge h (closing key) in
    let (kept, h') = retry_commits io es (commits (closing key) outcome ∷ h) in
    (if is_unavailable outcome then (key, organization) ∷ kept else kept, h')

-- After `cancelRequest`.
abbrev pub after_cancel : ChargesIo → Unanswerable → Option Text → Closes → Closes
after_cancel io u none s = record s { history = cancels u.request.key none ∷ s.history }
after_cancel io u (some hash) s =
    let h = cancels u.request.key (some hash) ∷ s.history in
    let outcome = io.commit_charge h (closing u.request.key) in
    record {
      uncommitted =
          if is_charged outcome
          then s.uncommitted
          else set_at u.request.key u.organization_id s.uncommitted;
      history = commits (closing u.request.key) outcome ∷ h;
      closed = suc s.closed;
    }

abbrev pub after_reserve : ChargesIo → Unanswerable → ChargeOutcome → Closes → Closes
after_reserve io u outcome s =
    let h = reserves (closing u.request.key) outcome ∷ s.history in
    let next = record s { history = h } in
    if is_held outcome then after_cancel io u (io.cancel_request h u.request.key) next else next

unfoldable pub close_one : ChargesIo → Unanswerable → Closes → Closes
close_one io u s =
    after_reserve io u
      (io.reserve_charge s.history (closing u.request.key) u.organization_id
        (requester u.request.requester))
      s

-- The loop over the requests, with the keys that it has seen.
unfoldable pub close_all : ChargesIo → List Unanswerable → List Text → Closes → Closes
close_all io [] seen s = s
close_all io (u ∷ us) seen s =
    let old = close_all io us seen s in
    let new = close_all io us (u.request.key ∷ seen) (close_one io u s) in
    if includes seen u.request.key then old else new

unfoldable pub close_unanswerable :
    ChargesIo → List Unanswerable → List (Text × Text) → List Effect → Closes
close_unanswerable io us uncommitted h =
    let (kept, h') = retry_commits io uncommitted h in
    close_all io us [] (record { uncommitted = kept; history = h'; closed = 0 })
