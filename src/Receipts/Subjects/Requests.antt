-- ===== src/Receipts/Subjects/Requests.antt =====
-- Which request the subject of an open request carries.
use beam_sdk_public.Common.{
  ℕ, ◌≡◌, ◌≢◌, true, false, not, Option, none, some, Text, ◌==◌, if_rule, ==_iff, arith,
}
use beam_sdk_public.Receipts.Report.{
  transfer_request, receipt_request, room_delivery_transfer, job_transfer, standard_transfer,
}
use beam_sdk_public.Receipts.TransferId.{Hashing, transfer_id_for_request, bytes16_to_transfer_id}
use beam_sdk_public.Receipts.Subjects.{
  Subject, transfer, room, room_request, job, RoomRoute, JobOutputRoute, DeploymentRoutes,
  OpenRequest, LookedUp, subject, transfer_with, room_delivery_subject, job_subject,
  subject_for_open_request,
}

-- `subject.requestId`.
abbrev pub request_of : Subject → Option Text
request_of (transfer id r) = r
request_of (room s) = s.request_id
request_of (room_request s) = some s.request_id
request_of (job s) = some s.request_id

abbrev Carries : Option Text → LookedUp → Type 0
Carries o u = (s : Subject) → u ≡ subject s → request_of s ≡ o

transfer_with-Carries : (id r : Option Text) → Carries r (transfer_with id r)
transfer_with-Carries none r s h = cc
transfer_with-Carries (some id) r s h = cc

room_delivery_subject-Carries :
    (r : Option RoomRoute) (id : Text) → Carries (some id) (room_delivery_subject r id)
room_delivery_subject-Carries none id s h = cc
room_delivery_subject-Carries (some r) id s h = cc

job_subject-Carries :
    (r : Option RoomRoute) (o : Option JobOutputRoute) (id : Text)
    → Carries (some id) (job_subject r o id)
job_subject-Carries none none id s h = cc
job_subject-Carries none (some o) id s h = cc
job_subject-Carries (some r) none id s h = cc
job_subject-Carries (some r) (some o) id s h = cc

is_one : (a b : ℕ) → (a == b) ≡ true → a ≢ b → ⊥
is_one a b h n = n ((==_iff a b).0 h)

is_other : (a b : ℕ) → (a == b) ≡ false → a ≢ b
is_other a b h e = ground arith

-- The subject of an open `requestTransfer` carries the id of that request, whichever kind of transfer it
-- asks for; the subject of any other open request carries none.
pub subject_for_open_request_lem :
    (w : Hashing) (client_id : Text) (routes : DeploymentRoutes) (r : OpenRequest) (s : Subject)
    → subject_for_open_request w client_id routes r ≡ subject s
    → (r.kind ≡ transfer_request → request_of s ≡ some r.request_id)
      × (r.kind ≢ transfer_request → request_of s ≡ none)
unfolding subject_for_open_request
subject_for_open_request_lem w client_id routes r s =
    if_rule
      (λ u.
        u ≡ subject s
        → (r.kind ≡ transfer_request → request_of s ≡ some r.request_id)
          × (r.kind ≢ transfer_request → request_of s ≡ none))
      (r.kind == transfer_request) _ _
      (λ y h. (
        λ e.
            if_rule (Carries (some r.request_id)) (r.transfer_kind == room_delivery_transfer) _ _
              (λ d. room_delivery_subject-Carries routes.room_delivery r.request_id)
              (λ n.
                if_rule (Carries (some r.request_id)) (r.transfer_kind == job_transfer) _ _
                  (λ d. job_subject-Carries routes.room_delivery routes.job_output r.request_id)
                  (λ n'.
                    if_rule (Carries (some r.request_id))
                      (not (r.transfer_kind == standard_transfer)) _ _ (λ d t k. cc)
                      (λ d.
                        transfer_with-Carries (transfer_id_for_request w client_id r.request_id)
                          (some r.request_id))))
              s h,
        λ n. absurd (is_one _ _ y n),
      ))
      (λ n h. (
        λ e. absurd (is_other _ _ n e),
        λ n'.
            if_rule (Carries none) (r.kind == receipt_request) _ _
              (λ d. transfer_with-Carries (bytes16_to_transfer_id r.transfer_id) none) (λ d t k. cc)
              s h,
      ))
