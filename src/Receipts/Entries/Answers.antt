-- ===== src/Receipts/Entries/Answers.antt =====
-- Which entries answer a job.
use beam_sdk_public.Common.{
  ◌≡◌, ◌≢◌, refl, sym, ap, subst, Option, none, some, List, [], ◌∷◌, Text, if◌then◌else◌,
}
use beam_sdk_public.Receipts.Report.{
  Abi, ReceiptLevels, RoomReceiptEntry, JobResultEntry, room_receipt_key,
}
use beam_sdk_public.Receipts.Subjects.{JobSubject, RoomSubject, room}
use beam_sdk_public.Receipts.Entries.{
  Observation, unavailable, absent, pending, error, invalid, not_room, saw_transfer, saw_room,
  ReportEntry, room_entry, job_entry, Added, adds, nothing, throws, closed_transfer, added_closure,
  as_room, linked, published, RoomObservation, zero_bytes32, report_entry_for, job_entries_for,
  room_entry_for,
}

-- The room key of an entry.
abbrev pub key_of : Abi → RoomReceiptEntry → Text
key_of w e = room_receipt_key w e.room e.channel e.publication

-- An entry tells what was seen of a publication in a channel of a Room.
pub record Tells (r c p : Text) (x : RoomObservation) (levels : ReceiptLevels)
    (e : RoomReceiptEntry) : Type 0 where
  pub in_room : e.room ≡ r
  pub in_channel : e.channel ≡ c
  pub of_publication : e.publication ≡ p
  pub status : e.status ≡ x.status
  pub size : e.file_size_bytes ≡ x.file_size_bytes
  pub manifest : e.manifest_sha256 ≡ x.manifest_sha256
  pub targets : e.target_count ≡ x.target_count
  pub evidence : e.evidence_sha256 ≡ x.evidence_sha256
  pub assignments : e.assignments_sha256 ≡ x.assignments_sha256
  pub version : e.evidence_version ≡ x.evidence_version
  pub level : e.level ≡ (if x.is_target_signed then levels.room_signed else levels.room)

Tells-room_entry_for :
    (r c p : Text) (x : RoomObservation) (levels : ReceiptLevels) (e : RoomReceiptEntry)
    → e ≡ room_entry_for (published r c p) x levels
    → Tells r c p x levels e
Tells-room_entry_for r c p x levels e f = subst (Tells r c p x levels) (sym f) (record {
  in_room = refl;
  in_channel = refl;
  of_publication = refl;
  status = refl;
  size = refl;
  manifest = refl;
  targets = refl;
  evidence = refl;
  assignments = refl;
  version = refl;
  level = refl;
})

-- What `jobEntriesFor` may return of two observations.
abbrev pub IsAnswer :
    Abi
    → JobSubject
    → Text × Text
    → RoomObservation × RoomObservation
    → ReceiptLevels
    → List ReportEntry
    → Type 0
IsAnswer w s publications seen levels es =
    (a : RoomReceiptEntry) × (b : RoomReceiptEntry) × (j : JobResultEntry) × (es
      ≡ room_entry a ∷ room_entry b ∷ job_entry j ∷ [])
    × (j.input_room_key ≡ key_of w a)
    × (j.output_room_key ≡ key_of w b)
    × (j.request_id ≡ s.request_id)
    × (j.compute_member ≡ s.compute_member_id)
    × Tells s.room s.input_channel publications.0 seen.0 levels a
    × Tells s.room s.output_channel publications.1 seen.1 levels b
    × (a.request_id ≡ zero_bytes32)
    × (b.request_id ≡ zero_bytes32)

closure-as_room :
    (w : Abi) (s : RoomSubject) (o : Option Text) (a : RoomReceiptEntry)
    → as_room (added_closure w s o) ≢ adds a
closure-as_room w s none a h = cc
closure-as_room w s (some id) a h = cc

-- Only an observation of a Room transfer gives a Room entry, and it is about the subject.
room_lem :
    (w : Abi) (s : RoomSubject) (o : Observation) (levels : ReceiptLevels) (a : RoomReceiptEntry)
    → as_room (report_entry_for w (room s) o levels) ≡ adds a
    → (x : RoomObservation) × (o ≡ saw_room x) × (a ≡ room_entry_for s x levels)
unfolding report_entry_for
room_lem w s unavailable levels a h = cc
room_lem w s absent levels a h = cc
room_lem w s pending levels a h = cc
room_lem w s (error n) levels a h = cc
room_lem w s (invalid t) levels a h = cc
room_lem w s (not_room t) levels a h = absurd (closure-as_room w s (closed_transfer t) a h)
room_lem w s (saw_transfer x) levels a h = cc
room_lem w s (saw_room x) levels a h = (x, refl, cc)

module _ (w : Abi) (s : JobSubject) (input output : RoomSubject) where
  linked_lem :
      (i o : Added RoomReceiptEntry) (es : List ReportEntry)
      → linked w s input output i o ≡ adds es
      → (a : RoomReceiptEntry) × (b : RoomReceiptEntry) × (i ≡ adds a)
        × (o ≡ adds b)
        × (linked w s input output (adds a) (adds b) ≡ adds es)
  linked_lem throws o es h = cc
  linked_lem nothing throws es h = cc
  linked_lem nothing nothing es h = cc
  linked_lem nothing (adds b) es h = cc
  linked_lem (adds a) throws es h = cc
  linked_lem (adds a) nothing es h = cc
  linked_lem (adds a) (adds b) es h = (a, b, refl, refl, h)

-- A job is answered only once both its publications were seen as finished Room transfers. The answer is the entry
-- of the input, which tells what was seen of the input, that of the output, which tells what was seen of the
-- output, neither of which answers a request itself, and the job's result, which links the two by their keys and
-- names the job's request and member.
pub job_entries_for_lem :
    (w : Abi) (s : JobSubject) (publications : Text × Text) (seen : Observation × Observation)
    (levels : ReceiptLevels) (es : List ReportEntry)
    → job_entries_for w s publications seen levels ≡ adds es
    → (x : RoomObservation) × (y : RoomObservation) × (seen.0 ≡ saw_room x)
      × (seen.1 ≡ saw_room y)
      × IsAnswer w s publications (x, y) levels es
unfolding job_entries_for
job_entries_for_lem w s publications seen levels es h =
    let input = published s.room s.input_channel publications.0 in
    let output = published s.room s.output_channel publications.1 in
    let (a, b, e, f, l) = linked_lem w s input output _ _ es h in
    let (x, ex, ax) = room_lem w input seen.0 levels a e in
    let (y, ey, by') = room_lem w output seen.1 levels b f in
    let j : JobResultEntry = record {
      request_id = s.request_id;
      input_room_key = room_receipt_key w s.room s.input_channel publications.0;
      output_room_key = room_receipt_key w s.room s.output_channel publications.1;
      compute_member = s.compute_member_id;
    } in
    (
      x,
      y,
      ex,
      ey,
      (
        a,
        b,
        j,
        cc,
        sym (ap (key_of w) ax),
        sym (ap (key_of w) by'),
        refl,
        refl,
        Tells-room_entry_for s.room s.input_channel publications.0 x levels a ax,
        Tells-room_entry_for s.room s.output_channel publications.1 y levels b by',
        ap (λ (e : RoomReceiptEntry). e.request_id) ax,
        ap (λ (e : RoomReceiptEntry). e.request_id) by',
      ),
    )

-- Once both publications were seen as finished Room transfers, a job is answered.
pub job_entries_for_total :
    (w : Abi) (s : JobSubject) (publications : Text × Text) (x y : RoomObservation)
    (levels : ReceiptLevels)
    → (es : List ReportEntry) × (job_entries_for w s publications (saw_room x, saw_room y) levels
        ≡ adds es)
      × IsAnswer w s publications (x, y) levels es
unfolding job_entries_for report_entry_for
job_entries_for_total w s publications x y levels = (
  _,
  refl,
  (
    _,
    _,
    _,
    refl,
    refl,
    refl,
    refl,
    refl,
    Tells-room_entry_for s.room s.input_channel publications.0 x levels _ refl,
    Tells-room_entry_for s.room s.output_channel publications.1 y levels _ refl,
    refl,
    refl,
  ),
)
