-- ===== src/Receipts/Subjects.antt =====
-- packages/cre/workflows/transfer-receipts/subjects.ts, with the types of beam.ts that it reads. A decimal
-- string of an observation is the number that it spells. A function that throws returns `none`.
pub mod Unique
pub mod Requests
use beam_sdk_public.Common.{
  ℕ, zero, suc, ◌+◌, ◌-◌, ◌*◌, ◌/◌, ◌%◌, Bool, true, false, ◌||◌, ◌&&◌, not, Option, none, some,
  List, [], ◌∷◌, ◌++◌, if◌then◌else◌, ltb, leb, ◌==◌, Text, codes, get_at, set_at,
}
use beam_sdk_public.Receipts.TransferId.{
  Hashing, hex_digit, normalize_request_id, transfer_id_for_request, transfer_id_to_bytes16,
  bytes16_to_transfer_id,
}
use beam_sdk_public.Receipts.Report.{
  Abi, ReceiptLevels, StandardReceiptEntry, RoomReceiptEntry, RequestClosureEntry, JobResultEntry,
  transfer_request, receipt_request, room_receipt_request, standard_transfer,
  room_delivery_transfer, job_transfer, bucket_only_publication, room_receipt_key, room_request_key,
}

pub record RoomRequestSubject : Type 0 where
  pub room : Text
  pub channel : Text
  pub publisher_member_id : Text
  pub request_id : Text

pub record RoomSubject : Type 0 where
  pub room : Text
  pub channel : Text
  pub publication : Text
  pub request_id : Option Text

pub record JobSubject : Type 0 where
  pub room : Text
  pub input_channel : Text
  pub source_member_id : Text
  pub output_channel : Text
  pub compute_member_id : Text
  pub request_id : Text

pub data Subject : Type 0 where
  transfer : Text → Option Text → Subject
  room : RoomSubject → Subject
  room_request : RoomRequestSubject → Subject
  job : JobSubject → Subject

pub record RoomRoute : Type 0 where
  pub room : Text
  pub channel : Text
  pub publisher_member_id : Text

pub record JobOutputRoute : Type 0 where
  pub channel : Text
  pub compute_member_id : Text

pub record DeploymentRoutes : Type 0 where
  pub room_delivery : Option RoomRoute
  pub job_output : Option JobOutputRoute

pub record OpenRequest : Type 0 where
  pub key : Text
  pub kind : ℕ
  pub transfer_kind : ℕ
  pub requester : Text
  pub opened_at : ℕ
  pub request_id : Text
  pub transfer_id : Text
  pub room : Text
  pub channel : Text
  pub publication : Text

abbrev request_key : Option Text → Option Text
request_key none = none
request_key (some id) = some (codes "request:" ++ id)

unfoldable pub room_request_publication_key : Text → Option Text
room_request_publication_key request_id = request_key (normalize_request_id request_id)

-- A character inside `JSON.stringify` of a string.
abbrev unicode_escape : ℕ → Text
unicode_escape c =
    codes "\\u"
    ++ hex_digit (c / 4096)
      ∷ hex_digit (c / 256 % 16)
      ∷ hex_digit (c / 16 % 16)
      ∷ hex_digit (c % 16)
      ∷ []

abbrev escaped : ℕ → Text
escaped c =
    if (c == 34) || (c == 92)
    then 92 ∷ c ∷ []
    else if c == 8
    then codes "\\b"
    else if c == 9
    then codes "\\t"
    else if c == 10
    then codes "\\n"
    else if c == 12
    then codes "\\f"
    else if c == 13
    then codes "\\r"
    else if ltb c 32 || (leb 55296 c && leb c 57343)
    then unicode_escape c
    else c ∷ []

abbrev escaped_all : Text → Text
escaped_all [] = []
escaped_all (c ∷ s) = escaped c ++ escaped_all s

abbrev quoted : Text → Text
quoted s = 34 ∷ escaped_all s ++ 34 ∷ []

-- `JSON.stringify([a, b, c])`.
unfoldable pub stringified : Text → Text → Text → Text
stringified a b c =
    codes "[" ++ quoted a ++ codes "," ++ quoted b ++ codes "," ++ quoted c ++ codes "]"

unfoldable pub subject_key : Subject → Text
subject_key (transfer id r) = codes "transfer:" ++ id
subject_key (room s) = codes "room:" ++ stringified s.room s.channel s.publication
subject_key (room_request s) = codes "roomRequest:" ++ s.request_id
subject_key (job s) = codes "job:" ++ s.request_id

abbrev truthy : Option Text → Bool
truthy none = false
truthy (some []) = false
truthy (some (c ∷ t)) = true

-- Whether `subject.requestId` is truthy.
abbrev pub carries_request : Subject → Bool
carries_request (transfer id r) = truthy r
carries_request (room s) = truthy s.request_id
carries_request (room_request s) = truthy (some s.request_id)
carries_request (job s) = truthy (some s.request_id)

abbrev pub is_wanted : Option Subject → Subject → Bool
is_wanted none s = true
is_wanted (some existing) s = not (carries_request existing) && carries_request s

-- One round of the loop of `uniqueSubjects`, on the entries of its map.
unfoldable pub keep_one : Subject → List (Text × Subject) → List (Text × Subject)
keep_one s m = if is_wanted (get_at (subject_key s) m) s then set_at (subject_key s) s m else m

unfoldable pub collect : List Subject → List (Text × Subject) → List (Text × Subject)
collect [] m = m
collect (s ∷ ss) m = collect ss (keep_one s m)

abbrev pub subjects_of : List (Text × Subject) → List Subject
subjects_of [] = []
subjects_of ((k, s) ∷ es) = s ∷ subjects_of es

unfoldable pub unique_subjects : List Subject → List Subject
unique_subjects ss = subjects_of (collect ss [])

-- What `subjectForOpenRequest` returns: a subject, null, or nothing where it throws.
pub data LookedUp : Type 0 where
  subject : Subject → LookedUp
  null : LookedUp
  throws : LookedUp

abbrev pub transfer_with : Option Text → Option Text → LookedUp
transfer_with none r = throws
transfer_with (some id) r = subject (transfer id r)

abbrev pub room_delivery_subject : Option RoomRoute → Text → LookedUp
room_delivery_subject none id = null
room_delivery_subject (some r) id = subject (
    room_request (record {
      room = r.room;
      channel = r.channel;
      publisher_member_id = r.publisher_member_id;
      request_id = id;
    }))

abbrev pub job_subject : Option RoomRoute → Option JobOutputRoute → Text → LookedUp
job_subject (some r) (some out) id = subject (
    job (record {
      room = r.room;
      input_channel = r.channel;
      source_member_id = r.publisher_member_id;
      output_channel = out.channel;
      compute_member_id = out.compute_member_id;
      request_id = id;
    }))
job_subject _ _ id = null

unfoldable pub subject_for_open_request : Hashing → Text → DeploymentRoutes → OpenRequest → LookedUp
subject_for_open_request w client_id routes request =
    if request.kind == transfer_request
    then (if request.transfer_kind == room_delivery_transfer
        then room_delivery_subject routes.room_delivery request.request_id
        else if request.transfer_kind == job_transfer
        then job_subject routes.room_delivery routes.job_output request.request_id
        else if not (request.transfer_kind == standard_transfer)
        then null
        else transfer_with (transfer_id_for_request w client_id request.request_id)
            (some request.request_id))
    else if request.kind == receipt_request
    then transfer_with (bytes16_to_transfer_id request.transfer_id) none
    else subject (
        room (record {
          room = request.room;
          channel = request.channel;
          publication = request.publication;
          request_id = none;
        }))

pub data PublicationLookup : Type 0 where
  unavailable absent : PublicationLookup
  error : ℕ → PublicationLookup
  invalid : Text → PublicationLookup
  found : Text → PublicationLookup

unfoldable pub room_subject_for_lookup : RoomRequestSubject → PublicationLookup → Option RoomSubject
room_subject_for_lookup s (found publication_id) = some (record {
  room = s.room;
  channel = s.channel;
  publication = publication_id;
  request_id = some s.request_id;
})
room_subject_for_lookup s _ = none

unfoldable pub job_lookups : JobSubject → RoomRequestSubject × RoomRequestSubject
job_lookups s = (
  record {
    room = s.room;
    channel = s.input_channel;
    publisher_member_id = s.source_member_id;
    request_id = s.request_id;
  },
  record {
    room = s.room;
    channel = s.output_channel;
    publisher_member_id = s.compute_member_id;
    request_id = s.request_id;
  },
)
