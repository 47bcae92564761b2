-- ===== src/Relay/Planning.antt =====
-- packages/cre/relay/relay.ts: the loop of `runReceipts` that looks up what is finished and holds each
-- customer receipt's credit. What Beam answers may depend on the calls made before.
pub mod Held
use beam_sdk_public.Common.{
  ℕ, ◌+◌, ◌*◌, Bool, true, false, Option, none, some, List, [], ◌∷◌, ◌++◌, if◌then◌else◌, ltb, Text,
  codes,
}
use beam_sdk_public.Receipts.Report.{Abi, ReceiptLevels}
use beam_sdk_public.Receipts.Subjects.{
  RoomRequestSubject, RoomSubject, JobSubject, Subject, transfer, room, room_request, job,
  OpenRequest, PublicationLookup, unavailable, absent, error, invalid, found, subject_key,
  room_subject_for_lookup, job_lookups,
}
use beam_sdk_public.Receipts.Entries.{
  Observation, pending, ReportEntry, Added, adds, nothing, throws, published, report_entry_for,
  job_entries_for,
}
use beam_sdk_public.Relay.Customers.{
  Reader, Via, Owner, beam, customer, ChargeSubject, ChargeOutcome, held, charged, released,
  refused,
}
use beam_sdk_public.Relay.Charges.{charge_subject_of, Planned, Effect, reserves, ChargesIo}
use beam_sdk_public.Relay.Closing.{Unanswerable}
use beam_sdk_public.Relay.Gathering.{Pending}

pub record RelayIo : Type 0 where
  pub charges : ChargesIo
  -- Without a reader, with Beam's key.
  pub find_publication : List Effect → RoomRequestSubject → Option Reader → PublicationLookup
  pub observe : List Effect → Subject → Option Reader → Observation

-- The lists `planned` and `unanswerable`, the set `settled`, and the calls made.
pub record Planning : Type 0 where
  pub planned : List Planned
  pub settled : List Text
  pub unanswerable : List Unanswerable
  pub history : List Effect

-- What a part of the pass computes, or the calls made before it throws.
pub data Ran {ℓ} (A : Type ℓ) : Type ℓ where
  ran : A → Ran A
  threw : List Effect → Ran A

abbrev pub then_run {ℓ} : {A : Type ℓ} → Ran A → (A → Ran A) → Ran A
then_run (ran a) f = f a
then_run (threw h) f = threw h

abbrev pub absent_grace_ms : ℕ
absent_grace_ms = 60 * 60 * 1000

unfoldable pub reader_of : Owner → Option Reader
reader_of beam = none
reader_of (customer organization reader via) = some reader

-- `unseen`. The grace is compared without the subtraction.
abbrev pub unseen_by : ℕ → Owner → Option OpenRequest → Text → Planning → Planning
unseen_by now (customer organization reader via) (some r) key s =
    if ltb now (r.opened_at * 1000 + absent_grace_ms) then s else (record s {
      unanswerable =
          s.unanswerable
          ++ record {
            request = r;
            organization_id = organization;
            reason = codes "its key cannot see " ++ key;
          }
            ∷ [];
    })
unseen_by now _ _ key s = s

unfoldable pub unseen : ℕ → Pending → Planning → Planning
unseen now p s = unseen_by now p.owner p.request (subject_key p.subject) s

abbrev pub push : Planned → Planning → Planning
push p s = record s { planned = s.planned ++ p ∷ [] }

-- After `reserveCharge`.
abbrev pub after_hold : Planned → ChargeOutcome → Planning → Planning
after_hold p held s = push p s
after_hold p charged s = record s { settled = p.key ∷ s.settled }
after_hold p released s = record s { settled = p.key ∷ s.settled }
after_hold p _ s = s

abbrev pub plan_charged :
    ChargesIo → Planned → Text → Via → Added ChargeSubject → Planning → Ran Planning
plan_charged io p organization via throws s = threw s.history
plan_charged io p organization via nothing s = ran (push p s)
plan_charged io p organization via (adds x) s =
    let outcome = io.reserve_charge s.history x organization via in
    ran (after_hold p outcome (record s { history = reserves x outcome ∷ s.history }))

abbrev pub plan_entry : Abi → ChargesIo → ReportEntry → Owner → Text → Planning → Ran Planning
plan_entry w io e beam key s = ran (push (record { entry = e; owner = beam; key = key }) s)
plan_entry w io e (customer organization reader via) key s =
    plan_charged io (record { entry = e; owner = customer organization reader via; key = key })
      organization via (charge_subject_of w e) s

-- A listed transfer that can never be recorded is done with.
abbrev pub settle_listed : Option Observation → Text → Planning → Planning
settle_listed none key s = s
settle_listed (some seen) key s = record s { settled = key ∷ s.settled }

-- Without an entry, by the observation.
abbrev pub not_recorded : ℕ → Pending → Text → Observation → Planning → Planning
not_recorded now p key Observation.absent s = unseen now p s
not_recorded now p key pending s = s
not_recorded now p key _ s = settle_listed p.observation key s

abbrev pub plan_added :
    Abi → ChargesIo → ℕ → Pending → Text → Observation → Added ReportEntry → Planning → Ran Planning
plan_added w io now p key seen throws s = threw s.history
plan_added w io now p key seen nothing s = ran (not_recorded now p key seen s)
plan_added w io now p key seen (adds e) s = plan_entry w io e p.owner key s

-- `listedObservation ?? (await io.observe(subject, reader))`.
abbrev pub observation_of : Option Observation → Observation → Observation
observation_of (some seen) fresh = seen
observation_of none fresh = fresh

unfoldable pub plan_subject :
    Abi → RelayIo → ReceiptLevels → ℕ → Pending → Subject → Planning → Ran Planning
plan_subject w io levels now p x s =
    let seen = observation_of p.observation (io.observe s.history x (reader_of p.owner)) in
    plan_added w io.charges now p (subject_key x) seen (report_entry_for w x seen levels) s

abbrev pub with_owner : Owner → Text → List ReportEntry → List Planned
with_owner owner key [] = []
with_owner owner key (e ∷ es) =
    record { entry = e; owner = owner; key = key } ∷ with_owner owner key es

abbrev pub plan_answered : Owner → Text → Added (List ReportEntry) → Planning → Ran Planning
plan_answered owner key throws s = threw s.history
plan_answered owner key nothing s = ran s
plan_answered owner key (adds es) s =
    ran (record s { planned = s.planned ++ with_owner owner key es })

abbrev pub observe_published : RelayIo → Text → Text → Text → Owner → List Effect → Observation
observe_published io r channel publication owner h =
    io.observe h (room (published r channel publication)) (reader_of owner)

abbrev pub plan_published :
    Abi
    → RelayIo
    → ReceiptLevels
    → Owner
    → JobSubject
    → PublicationLookup
    → PublicationLookup
    → Planning
    → Ran Planning
plan_published w io levels owner j (found input) (found output) s =
    plan_answered owner (subject_key (job j))
      (job_entries_for w j (input, output)
        (
          observe_published io j.room j.input_channel input owner s.history,
          observe_published io j.room j.output_channel output owner s.history,
        )
        levels)
      s
plan_published w io levels owner j _ _ s = ran s

unfoldable pub plan_job :
    Abi → RelayIo → ReceiptLevels → Owner → JobSubject → Planning → Ran Planning
plan_job w io levels owner j s =
    let lookups = job_lookups j in
    plan_published w io levels owner j (io.find_publication s.history lookups.0 (reader_of owner))
      (io.find_publication s.history lookups.1 (reader_of owner)) s

abbrev pub is_absent : PublicationLookup → Bool
is_absent absent = true
is_absent _ = false

abbrev pub plan_found :
    Abi
    → RelayIo
    → ReceiptLevels
    → ℕ
    → Pending
    → PublicationLookup
    → Option RoomSubject
    → Planning
    → Ran Planning
plan_found w io levels now p lookup none s = ran (if is_absent lookup then unseen now p s else s)
plan_found w io levels now p lookup (some r) s = plan_subject w io levels now p (room r) s

abbrev pub plan_by_subject :
    Abi → RelayIo → ReceiptLevels → ℕ → Pending → Subject → Planning → Ran Planning
plan_by_subject w io levels now p (job j) s = plan_job w io levels p.owner j s
plan_by_subject w io levels now p (room_request r) s =
    let lookup = io.find_publication s.history r (reader_of p.owner) in
    plan_found w io levels now p lookup (room_subject_for_lookup r lookup) s
plan_by_subject w io levels now p (room r) s = plan_subject w io levels now p (room r) s
plan_by_subject w io levels now p (transfer id r) s =
    plan_subject w io levels now p (transfer id r) s

unfoldable pub plan_item : Abi → RelayIo → ReceiptLevels → ℕ → Pending → Planning → Ran Planning
plan_item w io levels now p s = plan_by_subject w io levels now p p.subject s

-- The loop over the values of the map `pending`.
unfoldable pub plan_all :
    Abi → RelayIo → ReceiptLevels → ℕ → List (Text × Pending) → Planning → Ran Planning
plan_all w io levels now [] s = ran s
plan_all w io levels now ((key, p) ∷ m) s =
    then_run (plan_item w io levels now p s) (plan_all w io levels now m)
