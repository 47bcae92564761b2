-- ===== src/Relay/Recording.antt =====
-- packages/cre/relay/relay.ts: the loop of `runReceipts` that writes reports and commits the charges of what they
-- record, the cursors that it moves, and `runReceipts`.
pub mod Booked
pub mod Owned
pub mod Complete
use beam_sdk_public.Common.{
  ℕ, zero, suc, ◌+◌, Bool, true, false, ◌||◌, not, Option, none, some, List, [], ◌∷◌, ◌++◌,
  if◌then◌else◌, Text, codes, includes, get_at, set_at, take, drop, length,
}
use beam_sdk_public.Receipts.TransferId.{Hashing}
use beam_sdk_public.Receipts.Report.{
  Abi, StandardReceiptEntry, RoomReceiptEntry, RequestClosureEntry, JobResultEntry, encode_report,
}
use beam_sdk_public.Receipts.Subjects.{transfer, OpenRequest, subject_key}
use beam_sdk_public.Receipts.Entries.{
  ReportEntry, standard_entry, room_entry, closure_entry, job_entry, Added, adds, nothing, throws,
}
use beam_sdk_public.Relay.Customers.{
  Owner, beam, customer, RequesterStatus, approved, revoked, Customer, ChargeSubject, Listed,
  next_transfer_cursor,
}
use beam_sdk_public.Relay.Charges.{
  max_entries_per_report, charge_subject_of, Planned, Effect, commits, writes, ChargesIo,
}
use beam_sdk_public.Relay.Closing.{Unanswerable, is_charged}
use beam_sdk_public.Relay.Gathering.{
  RelaySettings, Pending, Gathered, Owing, Listing, Listings, ListTransfers, customers_by,
  gather_requests, gather_listings,
}
use beam_sdk_public.Relay.Planning.{RelayIo, Planning, Ran, ran, threw, then_run, plan_all}

-- The entries of each kind.
abbrev pub standard_of : List Planned → List StandardReceiptEntry
standard_of [] = []
standard_of (p ∷ ps) = add_standard p.entry (standard_of ps)
  where
    add_standard : ReportEntry → List StandardReceiptEntry → List StandardReceiptEntry
    add_standard (standard_entry e) es = e ∷ es
    add_standard _ es = es

abbrev pub rooms_of : List Planned → List RoomReceiptEntry
rooms_of [] = []
rooms_of (p ∷ ps) = add_room p.entry (rooms_of ps)
  where
    add_room : ReportEntry → List RoomReceiptEntry → List RoomReceiptEntry
    add_room (room_entry e) es = e ∷ es
    add_room _ es = es

abbrev pub closures_of : List Planned → List RequestClosureEntry
closures_of [] = []
closures_of (p ∷ ps) = add_closure p.entry (closures_of ps)
  where
    add_closure : ReportEntry → List RequestClosureEntry → List RequestClosureEntry
    add_closure (closure_entry e) es = e ∷ es
    add_closure _ es = es

abbrev pub jobs_of : List Planned → List JobResultEntry
jobs_of [] = []
jobs_of (p ∷ ps) = add_job p.entry (jobs_of ps)
  where
    add_job : ReportEntry → List JobResultEntry → List JobResultEntry
    add_job (job_entry e) es = e ∷ es
    add_job _ es = es

-- The count `recorded`, the set `settled`, and the calls made.
pub record Writing : Type 0 where
  pub recorded : ℕ
  pub settled : List Text
  pub history : List Effect

abbrev pub commit_subject : ChargesIo → Planned → Added ChargeSubject → Writing → Ran Writing
commit_subject io p throws s = threw s.history
commit_subject io p nothing s = ran s
commit_subject io p (adds x) s =
    let outcome = io.commit_charge s.history x in
    ran (record s {
      settled = if is_charged outcome then p.key ∷ s.settled else s.settled;
      history = commits x outcome ∷ s.history;
    })

abbrev pub commit_owned : Abi → ChargesIo → Planned → Owner → Writing → Ran Writing
commit_owned w io p beam s = ran s
commit_owned w io p (customer organization reader via) s =
    commit_subject io p (charge_subject_of w p.entry) s

-- The loop over the entries of a report that is mined.
unfoldable pub commit_batch : Abi → ChargesIo → List Planned → Writing → Ran Writing
commit_batch w io [] s = ran s
commit_batch w io (p ∷ ps) s = then_run (commit_owned w io p p.owner s) (commit_batch w io ps)

-- A report that is not written ends the loop; its holds stay for the next pass.
pub data Written : Type 0 where
  broke : Writing → Written
  goes_on : Ran Writing → Written

abbrev pub after_write :
    Abi → ChargesIo → List Planned → Option (Text × List Text) → Writing → Written
after_write w io batch none s = broke (record s { history = writes batch none ∷ s.history })
after_write w io batch (some result) s = goes_on (
    commit_batch w io batch (record s {
      recorded = s.recorded + length batch;
      history = writes batch (some result) ∷ s.history;
    }))

abbrev pub after_encode : Abi → ChargesIo → List Planned → Option Text → Writing → Written
after_encode w io batch none s = broke s
after_encode w io batch (some report) s =
    after_write w io batch (io.write_report s.history report) s

unfoldable pub write_batch : Abi → ChargesIo → List Planned → Writing → Written
write_batch w io batch s =
    after_encode w io batch
      (encode_report w (standard_of batch) (rooms_of batch) (closures_of batch) (jobs_of batch)) s

abbrev pub then_write : Written → (Writing → Ran Writing) → Ran Writing
then_write (broke s) f = ran s
then_write (goes_on r) f = then_run r f

-- The loop over the reports, on fuel.
unfoldable pub write_batches : Abi → ChargesIo → ℕ → List Planned → Writing → Ran Writing
write_batches w io zero ps s = ran s
write_batches w io (suc fuel) [] s = ran s
write_batches w io (suc fuel) (p ∷ ps) s =
    then_write (write_batch w io (take max_entries_per_report (p ∷ ps)) s)
      (write_batches w io fuel (drop max_entries_per_report (p ∷ ps)))

-- What of a listing is done: settled, or not owed a receipt.
abbrev pub listed_of : List Text → List Owing → List Listed
listed_of settled [] = []
listed_of settled (o ∷ os) =
    record {
      completed_at = o.transfer.completed_at;
      done = not o.owed || includes settled (subject_key (transfer o.transfer.id none));
    }
    ∷ listed_of settled os

unfoldable pub move_cursors : List Text → List Listing → List (Text × ℕ) → List (Text × ℕ)
move_cursors settled [] cursors = cursors
move_cursors settled (l ∷ ls) cursors = move_cursors settled ls (
    set_at l.customer.organization_id
      (next_transfer_cursor l.cursor (listed_of settled l.transfers)) cursors)

pub record Receipts : Type 0 where
  pub recorded : ℕ
  pub unanswerable : List Unanswerable
  -- What `saveTransferCursors` is called with, if it is called.
  pub saved : Option (List (Text × ℕ))
  pub history : List Effect

abbrev pub saved_cursors : List Text → List Listing → List (Text × ℕ) → Option (List (Text × ℕ))
saved_cursors settled [] cursors = none
saved_cursors settled (l ∷ ls) cursors = some (move_cursors settled (l ∷ ls) cursors)

abbrev pub receipts_of : Planning → List Listing → List (Text × ℕ) → Ran Writing → Ran Receipts
receipts_of s ls cursors (threw h) = threw h
receipts_of s ls cursors (ran t) = ran (record {
  recorded = t.recorded;
  unanswerable = s.unanswerable;
  saved = saved_cursors t.settled ls cursors;
  history = t.history;
})

-- One iteration for each report, so that the number of the entries is enough fuel.
abbrev pub write_planned :
    Abi → ChargesIo → List Listing → List (Text × ℕ) → Ran Planning → Ran Receipts
write_planned w io ls cursors (threw h) = threw h
write_planned w io ls cursors (ran s) = receipts_of s ls cursors (
    write_batches w io (length s.planned) s.planned
      (record { recorded = 0; settled = s.settled; history = s.history }))

-- `settings.customers ? … : …`.
abbrev pub list_customers :
    ListTransfers
    → Option ℕ
    → ℕ
    → List (Text × ℕ)
    → List Customer
    → List (Text × Pending)
    → Listings
list_customers list none now cursors cs m = record { pending = m; listings = [] }
list_customers list (some max) now cursors cs m =
    gather_listings list max now cursors cs (record { pending = m; listings = [] })

abbrev pub run_gathered :
    Abi
    → RelayIo
    → ListTransfers
    → RelaySettings
    → ℕ
    → List (Text × ℕ)
    → List Customer
    → List Effect
    → Option Gathered
    → Ran Receipts
run_gathered w io list settings now cursors cs h none = threw h
run_gathered w io list settings now cursors cs h (some g) =
    let found = list_customers list settings.customers now cursors cs g.pending in
    write_planned w io.charges found.listings cursors (
      plan_all w io settings.levels now found.pending
        (record { planned = []; settled = []; unanswerable = g.unanswerable; history = h }))

-- The open requests are `io.openRequests()`, and the cursors `io.readTransferCursors()`.
unfoldable pub run_receipts :
    Hashing
    → Abi
    → RelayIo
    → ListTransfers
    → RelaySettings
    → ℕ
    → List OpenRequest
    → List (Text × ℕ)
    → List Customer
    → List Effect
    → Ran Receipts
run_receipts hashing w io list settings now requests cursors cs h =
    run_gathered w io list settings now cursors cs h (
      gather_requests hashing settings (customers_by approved cs []) (customers_by revoked cs [])
        requests (record { pending = []; unanswerable = []; strangers = 0 }))
