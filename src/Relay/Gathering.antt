-- ===== src/Relay/Gathering.antt =====
-- packages/cre/relay/relay.ts: the first half of `runReceipts`, which gathers what is open or owed.
use beam_sdk_public.Common.{
  ℕ, suc, Bool, true, false, Option, none, some, List, [], ◌∷◌, ◌++◌, if◌then◌else◌, leb, ◌==◌,
  Text, codes, text_eq, get_at, set_at, take,
}
use beam_sdk_public.Receipts.TransferId.{Hashing, to_lower}
use beam_sdk_public.Receipts.Report.{ReceiptLevels, transfer_request}
use beam_sdk_public.Receipts.Subjects.{
  Subject, transfer, DeploymentRoutes, OpenRequest, LookedUp, subject, null, throws, subject_key,
  is_wanted, subject_for_open_request,
}
use beam_sdk_public.Receipts.Entries.{Observation}
use beam_sdk_public.Relay.Customers.{
  Reader, every_transfer, requester, Owner, beam, customer, RequesterStatus, waiting, approved,
  revoked, Requester, Customer, ListedTransfer, lists_transfers, created_during_periods,
  initial_transfer_cursor,
}
use beam_sdk_public.Relay.Closing.{Unanswerable}

pub record RelaySettings : Type 0 where
  pub start_block : ℕ
  pub log_range_blocks : ℕ
  pub client_id : Text
  pub levels : ReceiptLevels
  pub routes : DeploymentRoutes
  pub starts : Bool
  pub relay_account : Text
  -- Customers mode, with `maxPerOrganization`.
  pub customers : Option ℕ

pub record Pending : Type 0 where
  pub subject : Subject
  pub owner : Owner
  pub observation : Option Observation
  pub request : Option OpenRequest

-- The maps `approvedBy` and `revokedBy`.
abbrev pub has_status : RequesterStatus → RequesterStatus → Bool
has_status waiting waiting = true
has_status approved approved = true
has_status revoked revoked = true
has_status _ _ = false

abbrev by_address :
    RequesterStatus → Customer → List Requester → List (Text × Customer) → List (Text × Customer)
by_address status c [] m = m
by_address status c (r ∷ rs) m =
    by_address status c rs (if has_status r.status status then set_at r.address c m else m)

unfoldable pub customers_by :
    RequesterStatus → List Customer → List (Text × Customer) → List (Text × Customer)
customers_by status [] m = m
customers_by status (c ∷ cs) m = customers_by status cs (by_address status c c.requesters m)

-- `add`.
abbrev pub subject_of : Option Pending → Option Subject
subject_of none = none
subject_of (some p) = some p.subject

unfoldable pub add_pending : Pending → List (Text × Pending) → List (Text × Pending)
add_pending p m =
    let key = subject_key p.subject in
    if is_wanted (subject_of (get_at key m)) p.subject then set_at key p m else m

pub record Gathered : Type 0 where
  pub pending : List (Text × Pending)
  pub unanswerable : List Unanswerable
  pub strangers : ℕ

-- Whose an open request is: an owner, one that will never be answered, or a stranger's.
pub data Asker : Type 0 where
  owned_by : Owner → Asker
  never : Text → Text → Asker
  stranger : Asker

abbrev pub asker_for : OpenRequest → Option Customer → Option Customer → Asker
asker_for r none (some c) = never c.organization_id (codes "its address is no longer approved")
asker_for r none none = stranger
asker_for r (some c) _ =
    if r.kind == transfer_request
    then never c.organization_id (codes "it asks to start a transfer, which this relay never does")
    else owned_by (customer c.organization_id c.reader (requester r.requester))

abbrev pub asker_among :
    Text → List (Text × Customer) → List (Text × Customer) → OpenRequest → Option ℕ → Asker
asker_among account approved_by revoked_by r none = owned_by beam
asker_among account approved_by revoked_by r (some max) =
    let address = to_lower r.requester in
    if text_eq address (to_lower account)
    then owned_by beam
    else asker_for r (get_at address approved_by) (get_at address revoked_by)

unfoldable pub asker_of :
    RelaySettings → List (Text × Customer) → List (Text × Customer) → OpenRequest → Asker
asker_of s approved_by revoked_by r =
    asker_among s.relay_account approved_by revoked_by r s.customers

-- `request: owner.kind === 'customer' ? request : undefined`.
abbrev pub asked_by : Owner → OpenRequest → Option OpenRequest
asked_by beam r = none
asked_by (customer organization reader via) r = some r

abbrev pub add_asked : OpenRequest → Owner → LookedUp → Gathered → Option Gathered
add_asked r owner (subject x) g = some (record g {
  pending =
      add_pending
        (record { subject = x; owner = owner; observation = none; request = asked_by owner r })
        g.pending;
})
add_asked r owner null g = some g
add_asked r owner throws g = none

abbrev pub add_asker : Hashing → RelaySettings → OpenRequest → Asker → Gathered → Option Gathered
add_asker w s r (owned_by owner) g =
    add_asked r owner (subject_for_open_request w s.client_id s.routes r) g
add_asker w s r (never organization reason) g = some (record g {
  unanswerable =
      g.unanswerable
      ++ record { request = r; organization_id = organization; reason = reason } ∷ [];
})
add_asker w s r stranger g = some (record g { strangers = suc g.strangers })

abbrev pub then_gather {ℓ} : {A : Type ℓ} → Option A → (A → Option A) → Option A
then_gather none f = none
then_gather (some a) f = f a

-- The loop over the open requests; `none` where it throws.
unfoldable pub gather_requests :
    Hashing
    → RelaySettings
    → List (Text × Customer)
    → List (Text × Customer)
    → List OpenRequest
    → Gathered
    → Option Gathered
gather_requests w s approved_by revoked_by [] g = some g
gather_requests w s approved_by revoked_by (r ∷ rs) g =
    then_gather (add_asker w s r (asker_of s approved_by revoked_by r) g)
      (gather_requests w s approved_by revoked_by rs)

-- A listed transfer, and whether it is owed a receipt.
pub record Owing : Type 0 where
  pub transfer : ListedTransfer
  pub owed : Bool

pub record Listing : Type 0 where
  pub customer : Customer
  pub cursor : ℕ
  pub transfers : List Owing

-- `.sort(…)` by completion, which is stable.
abbrev insert_listed : ListedTransfer → List ListedTransfer → List ListedTransfer
insert_listed t [] = t ∷ []
insert_listed t (u ∷ us) =
    let rest = insert_listed t us in
    if leb t.completed_at u.completed_at then t ∷ u ∷ us else u ∷ rest

unfoldable pub sort_listed : List ListedTransfer → List ListedTransfer
sort_listed [] = []
sort_listed (t ∷ ts) = insert_listed t (sort_listed ts)

abbrev pub owing : Customer → List ListedTransfer → List Owing
owing c [] = []
owing c (t ∷ ts) =
    record { transfer = t; owed = created_during_periods t.created_at c.periods } ∷ owing c ts

abbrev pub add_owed : Customer → List Owing → List (Text × Pending) → List (Text × Pending)
add_owed c [] m = m
add_owed c (o ∷ os) m =
    let t = o.transfer in
    let p : Pending = record {
      subject = transfer t.id none;
      owner = customer c.organization_id c.reader (every_transfer t.created_at);
      observation = some t.observation;
      request = none;
    } in
    add_owed c os (if o.owed then add_pending p m else m)

pub record Listings : Type 0 where
  pub pending : List (Text × Pending)
  pub listings : List Listing

abbrev pub start_cursor : Option ℕ → Option ℕ → Option ℕ
start_cursor (some cursor) initial = some cursor
start_cursor none initial = initial

-- The finished transfers after a cursor; nothing where the listing fails.
abbrev pub ListTransfers : Type 0
ListTransfers = Reader → ℕ → Option (List ListedTransfer)

abbrev pub add_listed : ℕ → Customer → ℕ → Option (List ListedTransfer) → Listings → Listings
add_listed max c cursor none l = l
add_listed max c cursor (some ts) l =
    let os = owing c (take max (sort_listed ts)) in
    record {
      pending = add_owed c os l.pending;
      listings = l.listings ++ record { customer = c; cursor = cursor; transfers = os } ∷ [];
    }

abbrev pub add_listing : ListTransfers → ℕ → Customer → Option ℕ → Listings → Listings
add_listing list max c none l = l
add_listing list max c (some cursor) l = add_listed max c cursor (list c.reader cursor) l

-- The loop over the customers. A customer without periods has no first cursor and is passed over.
unfoldable pub gather_listings :
    ListTransfers → ℕ → ℕ → List (Text × ℕ) → List Customer → Listings → Listings
gather_listings list max now cursors [] l = l
gather_listings list max now cursors (c ∷ cs) l =
    let start = start_cursor (get_at c.organization_id cursors) (initial_transfer_cursor c) in
    gather_listings list max now cursors cs
      (if lists_transfers c now then add_listing list max c start l else l)
