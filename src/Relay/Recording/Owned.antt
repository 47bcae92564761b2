-- ===== src/Relay/Recording/Owned.antt =====
-- `runReceipts` as a whole: what it gathers, and the calls that it leaves.
use beam_sdk_public.Common.{
  ℕ, ◌≡◌, ◌≢◌, refl, Option, none, some, List, [], ◌∷◌, Text, text_eq, All, get_at, set_at, length,
  if_rule, ◌==◌, arith, false, take,
}
use beam_sdk_public.Receipts.TransferId.{Hashing, to_lower}
use beam_sdk_public.Receipts.Report.{Abi, transfer_request}
use beam_sdk_public.Receipts.Subjects.{
  Subject, transfer, room, room_request, job, OpenRequest, LookedUp, subject, null, throws,
  subject_key, is_wanted, subject_for_open_request,
}
use beam_sdk_public.Receipts.Subjects.Requests.{request_of, subject_for_open_request_lem}
use beam_sdk_public.Relay.Customers.{
  Owner, beam, customer, Customer, ListedTransfer, approved, revoked, lists_transfers,
  initial_transfer_cursor,
}
use beam_sdk_public.Relay.Charges.{Effect}
use beam_sdk_public.Relay.Closing.Accounting.{Inv}
use beam_sdk_public.Relay.Gathering.{
  RelaySettings, Pending, Gathered, Asker, owned_by, never, stranger, asker_for, asker_among,
  asker_of, subject_of, add_pending, add_asked, add_asker, then_gather, gather_requests,
  customers_by, Owing, Listing, Listings, ListTransfers, add_owed, add_listed, add_listing,
  start_cursor, gather_listings, owing, sort_listed,
}
use beam_sdk_public.Relay.Planning.{RelayIo, Planning, Ran, ran, threw}
use beam_sdk_public.Relay.Planning.Held.{Leaves, IsOwned, IsOwnedPending, PlanInv, plan_all-IsPlan}
use beam_sdk_public.Relay.Recording.{
  Writing, Receipts, receipts_of, write_planned, list_customers, run_gathered, run_receipts,
}
use beam_sdk_public.Relay.Recording.Booked.{IsBooked, write_batches-IsBooked}

IsOwned-set_at :
    (k : Text) (p : Pending) (m : List (Text × Pending))
    → IsOwned p.owner p.subject
    → All IsOwnedPending m
    → All IsOwnedPending (set_at k p m)
unfolding set_at
IsOwned-set_at k p [] b v = (b, tt)
IsOwned-set_at k p ((j, q) ∷ m) b v =
    if_rule (All IsOwnedPending) (text_eq j k) _ _ (λ e. (b, v.1))
      (λ e. (v.0, IsOwned-set_at k p m b v.1))

add_pending-IsOwned :
    (p : Pending) (m : List (Text × Pending))
    → IsOwned p.owner p.subject
    → All IsOwnedPending m
    → All IsOwnedPending (add_pending p m)
unfolding add_pending
add_pending-IsOwned p m b v =
    let key = subject_key p.subject in
    if_rule (All IsOwnedPending) (is_wanted (subject_of (get_at key m)) p.subject) _ _
      (λ e. IsOwned-set_at key p m b v) (λ e. v)

-- A customer's request is not one to start a transfer.
abbrev IsAskable : OpenRequest → Asker → Type 0
IsAskable r (owned_by beam) = Unit
IsAskable r (owned_by (customer organization reader via)) = r.kind ≢ transfer_request
IsAskable r (never organization reason) = Unit
IsAskable r stranger = Unit

other_kind : (a b : ℕ) → (a == b) ≡ false → a ≢ b
other_kind a b h e = ground arith

asker_for-IsAskable : (r : OpenRequest) (a b : Option Customer) → IsAskable r (asker_for r a b)
asker_for-IsAskable r none none = tt
asker_for-IsAskable r none (some c) = tt
asker_for-IsAskable r (some c) b =
    if_rule (IsAskable r) (r.kind == transfer_request) _ _ (λ e. tt)
      (λ e. other_kind r.kind transfer_request e)

asker_among-IsAskable :
    (account : Text) (a b : List (Text × Customer)) (r : OpenRequest) (o : Option ℕ)
    → IsAskable r (asker_among account a b r o)
asker_among-IsAskable account a b r none = tt
asker_among-IsAskable account a b r (some max) =
    let address = to_lower r.requester in
    if_rule (IsAskable r) (text_eq address (to_lower account)) _ _ (λ e. tt)
      (λ e. asker_for-IsAskable r (get_at address a) (get_at address b))

-- The subject of a customer's request is no job.
IsOwned_lem :
    (owner : Owner) (r : OpenRequest) (x : Subject)
    → IsAskable r (owned_by owner)
    → (r.kind ≢ transfer_request → request_of x ≡ none)
    → IsOwned owner x
IsOwned_lem beam r (job j) a f = tt
IsOwned_lem (customer organization reader via) r (job j) a f = cc (f a)
IsOwned_lem owner r (transfer id q) a f = tt
IsOwned_lem owner r (room s) a f = tt
IsOwned_lem owner r (room_request s) a f = tt

abbrev Gathers : Option Gathered → Type 0
Gathers none = Unit
Gathers (some g) = All IsOwnedPending g.pending

add_asked-Gathers :
    (w : Hashing) (s : RelaySettings) (r : OpenRequest) (owner : Owner) (u : LookedUp)
    (g : Gathered)
    → subject_for_open_request w s.client_id s.routes r ≡ u
    → IsAskable r (owned_by owner)
    → All IsOwnedPending g.pending
    → Gathers (add_asked r owner u g)
add_asked-Gathers w s r owner (subject x) g e a v =
    add_pending-IsOwned _ g.pending
      (IsOwned_lem owner r x a (subject_for_open_request_lem w s.client_id s.routes r x e).1) v
add_asked-Gathers w s r owner null g e a v = v
add_asked-Gathers w s r owner throws g e a v = tt

add_asker-Gathers :
    (w : Hashing) (s : RelaySettings) (r : OpenRequest) (who : Asker) (g : Gathered)
    → IsAskable r who
    → All IsOwnedPending g.pending
    → Gathers (add_asker w s r who g)
add_asker-Gathers w s r (owned_by owner) g a v = add_asked-Gathers w s r owner _ g refl a v
add_asker-Gathers w s r (never organization reason) g a v = v
add_asker-Gathers w s r stranger g a v = v

then_gather-Gathers :
    (o : Option Gathered) (f : Gathered → Option Gathered)
    → Gathers o
    → ((g : Gathered) → All IsOwnedPending g.pending → Gathers (f g))
    → Gathers (then_gather o f)
then_gather-Gathers none f v k = tt
then_gather-Gathers (some g) f v k = k g v

gather_requests-Gathers :
    (w : Hashing) (s : RelaySettings) (a b : List (Text × Customer)) (rs : List OpenRequest)
    (g : Gathered)
    → All IsOwnedPending g.pending
    → Gathers (gather_requests w s a b rs g)
unfolding gather_requests asker_of
gather_requests-Gathers w s a b [] g v = v
gather_requests-Gathers w s a b (r ∷ rs) g v =
    let who = asker_among s.relay_account a b r s.customers in
    then_gather-Gathers (add_asker w s r who g) (gather_requests w s a b rs)
      (add_asker-Gathers w s r who g (asker_among-IsAskable s.relay_account a b r s.customers) v)
      (λ g' v'. gather_requests-Gathers w s a b rs g' v')

add_owed-IsOwned :
    (c : Customer) (os : List Owing) (m : List (Text × Pending))
    → All IsOwnedPending m
    → All IsOwnedPending (add_owed c os m)
add_owed-IsOwned c [] m v = v
add_owed-IsOwned c (o ∷ os) m v =
    add_owed-IsOwned c os _
      (if_rule (All IsOwnedPending) o.owed _ _ (λ e. add_pending-IsOwned _ m tt v) (λ e. v))

abbrev Lists : Listings → Type 0
Lists l = All IsOwnedPending l.pending

module _ (list : ListTransfers) (max : ℕ) where
  add_listing-Lists :
      (c : Customer) (start : Option ℕ) (l : Listings)
      → Lists l
      → Lists (add_listing list max c start l)
  add_listing-Lists c none l v = v
  add_listing-Lists c (some cursor) l v = listed (list c.reader cursor)
    where
      listed : (o : Option (List ListedTransfer)) → Lists (add_listed max c cursor o l)
      listed none = v
      listed (some ts) = add_owed-IsOwned c (owing c (take max (sort_listed ts))) l.pending v

  gather_listings-Lists :
      (now : ℕ) (cursors : List (Text × ℕ)) (cs : List Customer) (l : Listings)
      → Lists l
      → Lists (gather_listings list max now cursors cs l)
  unfolding gather_listings
  gather_listings-Lists now cursors [] l v = v
  gather_listings-Lists now cursors (c ∷ cs) l v =
      let start = start_cursor (get_at c.organization_id cursors) (initial_transfer_cursor c) in
      gather_listings-Lists now cursors cs _
        (if_rule Lists (lists_transfers c now) _ _ (λ e. add_listing-Lists c start l v) (λ e. v))

list_customers-Lists :
    (list : ListTransfers) (o : Option ℕ) (now : ℕ) (cursors : List (Text × ℕ)) (cs : List Customer)
    (m : List (Text × Pending))
    → All IsOwnedPending m
    → Lists (list_customers list o now cursors cs m)
list_customers-Lists list none now cursors cs m v = v
list_customers-Lists list (some max) now cursors cs m v =
    gather_listings-Lists list max now cursors cs _ v

module _ (w : Abi) (uncommitted : List (Text × Text)) where
  abbrev IsBookedReceipts : Receipts → Type 0
  IsBookedReceipts r = Inv w uncommitted r.history

  abbrev pub LeavesBooks : Ran Receipts → Type 0
  LeavesBooks = Leaves IsBookedReceipts (Inv w uncommitted)

  module _ (io : RelayIo) (ls : List Listing) (cursors : List (Text × ℕ)) where
    receipts_of-LeavesBooks :
        (s : Planning) (r : Ran Writing)
        → Leaves (IsBooked w uncommitted) (Inv w uncommitted) r
        → LeavesBooks (receipts_of s ls cursors r)
    receipts_of-LeavesBooks s (ran t) v = v
    receipts_of-LeavesBooks s (threw h) v = v

    write_planned-LeavesBooks :
        (r : Ran Planning)
        → Leaves (PlanInv w uncommitted) (Inv w uncommitted) r
        → LeavesBooks (write_planned w io.charges ls cursors r)
    write_planned-LeavesBooks (threw h) v = v
    write_planned-LeavesBooks (ran s) v =
        receipts_of-LeavesBooks s _
          (write_batches-IsBooked w uncommitted io.charges (length s.planned) s.planned _ v)

  run_gathered-LeavesBooks :
      (io : RelayIo) (list : ListTransfers) (s : RelaySettings) (now : ℕ)
      (cursors : List (Text × ℕ)) (cs : List Customer) (h : List Effect) (o : Option Gathered)
      → Inv w uncommitted h
      → Gathers o
      → LeavesBooks (run_gathered w io list s now cursors cs h o)
  run_gathered-LeavesBooks io list s now cursors cs h none v b = v
  run_gathered-LeavesBooks io list s now cursors cs h (some g) v b =
      let found = list_customers list s.customers now cursors cs g.pending in
      write_planned-LeavesBooks io found.listings cursors _ (
        plan_all-IsPlan w uncommitted io s.levels now found.pending _
          (list_customers-Lists list s.customers now cursors cs g.pending b) (v, tt))

-- If the calls before keep the books, so do the calls that a run of `runReceipts` adds, also where it throws.
pub run_receipts-Inv :
    (hashing : Hashing) (w : Abi) (io : RelayIo) (list : ListTransfers) (s : RelaySettings)
    (now : ℕ) (requests : List OpenRequest) (cursors : List (Text × ℕ)) (cs : List Customer)
    (uncommitted : List (Text × Text)) (h : List Effect)
    → Inv w uncommitted h
    → LeavesBooks w uncommitted (run_receipts hashing w io list s now requests cursors cs h)
unfolding run_receipts
run_receipts-Inv hashing w io list s now requests cursors cs uncommitted h v =
    run_gathered-LeavesBooks w uncommitted io list s now cursors cs h _ v (
      gather_requests-Gathers hashing s (customers_by approved cs []) (customers_by revoked cs [])
        requests _ tt)
