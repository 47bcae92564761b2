-- ===== src/Bridge/Attestations/Answering.antt =====
-- Which entry of a report answers an attestation.
use beam_sdk_public.Common.{
  ◌≡◌, refl, ap, subst, sym, ◌∙◌, Bool, true, false, ◌&&◌, Option, none, some, List, [], ◌∷◌,
  if_rule, inl, inr, Text, text_eq→eq, Has, All,
}
use beam_sdk_public.Receipts.TransferId.{to_lower, transfer_id_to_bytes16}
use beam_sdk_public.Receipts.Report.{
  Abi, StandardReceiptEntry, RoomReceiptEntry, RequestClosureEntry, DecodedReport, room_receipt_key,
  room_request_key,
}
use beam_sdk_public.Receipts.Entries.{Added, adds, nothing, throws}
use beam_sdk_public.Bridge.Attestations.{
  Attestation, attest_transfer, attest_room_publication, AttestationAnswer, standard, of_room,
  closure, find, is_of_transfer, is_of_publication, is_of_key, standard_answer, closure_answer,
  room_answer, answer_for_id, answer_for,
}

-- What is found is in the list and passes the test; where nothing is, nothing passes.
abbrev pub Found : {A : Type 0} → (A → Bool) → List A → Option A → Type 0
Found p xs none = All (λ x. p x ≡ false) xs
Found p xs (some a) = Has a xs × (p a ≡ true)

find-Found : {A : Type 0} (p : A → Bool) (xs : List A) → Found p xs (find p xs)
find-Found p [] = tt
find-Found {A = A} p (x ∷ xs) =
    if_rule (Found p (x ∷ xs)) (p x) (some x) (find p xs) (λ e. (inl refl, e))
      (λ e. later (find p xs) e (find-Found p xs))
  where
    later : (o : Option A) → p x ≡ false → Found p xs o → Found p (x ∷ xs) o
    later none e v = (e, v)
    later (some a) e v = (inr v.0, v.1)

module _ (w : Abi) (r : DecodedReport) where
  -- The answer is of the transfer or the publication that is attested.
  abbrev pub IsAbout : Attestation → AttestationAnswer → Type 0
  IsAbout (attest_transfer id) (standard e) =
      Has e r.standard × (transfer_id_to_bytes16 id ≡ some (to_lower e.transfer_id))
  IsAbout (attest_room_publication room channel publication) (of_room e) =
      Has e r.rooms × (e.room ≡ room) × (e.channel ≡ channel) × (e.publication ≡ publication)
  IsAbout (attest_room_publication room channel publication) (closure e) =
      Has e r.closures
      × (to_lower e.key ≡ room_request_key w (room_receipt_key w room channel publication))
      × All (λ (x : RoomReceiptEntry). is_of_publication room channel publication x ≡ false) r.rooms
  IsAbout (attest_transfer id) (of_room e) = ⊥
  IsAbout (attest_transfer id) (closure e) = ⊥
  IsAbout (attest_room_publication room channel publication) (standard e) = ⊥

  abbrev Answers : Attestation → Added AttestationAnswer → Type 0
  Answers a (adds x) = IsAbout a x
  Answers a nothing = Unit
  Answers a throws = Unit

  and_true : (a b : Bool) → (a && b) ≡ true → (a ≡ true) × (b ≡ true)
  and_true true true e = (refl, refl)
  and_true true false e = cc
  and_true false b e = cc

  standard_answer-Answers :
      (id bytes : Text) (o : Option StandardReceiptEntry)
      → transfer_id_to_bytes16 id ≡ some bytes
      → Found (is_of_transfer bytes) r.standard o
      → Answers (attest_transfer id) (standard_answer o)
  standard_answer-Answers id bytes none e v = tt
  standard_answer-Answers id bytes (some x) e v = (v.0, e ∙ ap some (sym (text_eq→eq _ _ v.1)))

  answer_for_id-Answers :
      (id : Text) (o : Option Text)
      → transfer_id_to_bytes16 id ≡ o
      → Answers (attest_transfer id) (answer_for_id o r.standard)
  answer_for_id-Answers id none e = tt
  answer_for_id-Answers id (some bytes) e =
      standard_answer-Answers id bytes _ e (find-Found (is_of_transfer bytes) r.standard)

  module _ (room channel publication : Text) where
    abbrev key : Text
    key = room_request_key w (room_receipt_key w room channel publication)

    closure_answer-Answers :
        (o : Option RequestClosureEntry)
        → All
            (λ (x : RoomReceiptEntry). is_of_publication room channel publication x ≡ false)
            r.rooms
        → Found (is_of_key key) r.closures o
        → Answers (attest_room_publication room channel publication) (closure_answer o)
    closure_answer-Answers none n v = tt
    closure_answer-Answers (some e) n v = (v.0, text_eq→eq _ _ v.1, n)

    room_answer-Answers :
        (o : Option RoomReceiptEntry)
        → Found (is_of_publication room channel publication) r.rooms o
        → Answers
            (attest_room_publication room channel publication)
            (room_answer o (closure_answer (find (is_of_key key) r.closures)))
    room_answer-Answers none v = closure_answer-Answers _ v (find-Found (is_of_key key) r.closures)
    room_answer-Answers (some e) v =
        let both = and_true _ _ v.1 in
        let rest = and_true _ _ both.1 in
        (v.0, text_eq→eq _ _ both.0, text_eq→eq _ _ rest.0, text_eq→eq _ _ rest.1)

  all_answers : (a : Attestation) → Answers a (answer_for w a r)
  unfolding answer_for
  all_answers (attest_transfer id) = answer_for_id-Answers id _ refl
  all_answers (attest_room_publication room channel publication) =
      room_answer-Answers room channel publication _
        (find-Found (is_of_publication room channel publication) r.rooms)

  -- An entry of a report that answers an attestation is in that report and is about what is attested: a receipt
  -- of the transfer, a receipt of the publication, or, where the report has none, a closure of its request.
  pub answer_for-IsAbout :
      (a : Attestation) (x : AttestationAnswer) → answer_for w a r ≡ adds x → IsAbout a x
  answer_for-IsAbout a x e = subst (Answers a) e (all_answers a)
