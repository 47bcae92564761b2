-- ===== src/Receipts/Subjects/Unique.antt =====
-- What `uniqueSubjects` keeps.
use beam_sdk_public.Common.{
  ◌≡◌, ◌≢◌, refl, sym, ap, ◌∙◌, true, false, some, List, [], ◌∷◌, inl, inr, Text, All, arith,
  text_eq, text_eq→eq, text_eq_refl, get_at, set_at, get_at-set_at, get_at-set_at_other, if_rule,
  Bool-cases, Option-cases, subst,
}
use beam_sdk_public.Receipts.Subjects.{
  Subject, subject_key, carries_request, is_wanted, keep_one, collect, subjects_of, unique_subjects,
}

-- The map holds a subject under the key of `s`, which carries a request id if `s` does.
abbrev pub Covers : List (Text × Subject) → Subject → Type 0
Covers m s =
    (e : Subject) × (get_at (subject_key s) m ≡ some e)
    × (carries_request s ≡ true → carries_request e ≡ true)

wanted : (e s : Subject) → is_wanted (some e) s ≡ true → carries_request s ≡ true
wanted e s h = ground arith

unwanted :
    (e s : Subject)
    → is_wanted (some e) s ≡ false
    → carries_request s ≡ true
    → carries_request e ≡ true
unwanted e s h c = ground arith

keep_one-Covers_new : (s : Subject) (m : List (Text × Subject)) → Covers (keep_one s m) s
unfolding keep_one
keep_one-Covers_new s m = elim (Option-cases (get_at (subject_key s) m)) [
  | inl n ↦ rw n (s, get_at-set_at (subject_key s) s m, λ h. h)
  | inr (e, f) ↦
      if_rule (λ r. Covers r s) (is_wanted (get_at (subject_key s) m) s) _ _
        (λ y. (s, get_at-set_at (subject_key s) s m, λ h. h))
        (λ n. (e, f, λ h. unwanted e s (ap (λ o. is_wanted o s) (sym f) ∙ n) h))
]

keep_one-Covers : (s t : Subject) (m : List (Text × Subject)) → Covers m t → Covers (keep_one s m) t
unfolding keep_one
keep_one-Covers s t m (e, f, c) =
    if_rule (λ r. Covers r t) (is_wanted (get_at (subject_key s) m) s) _ _
      (λ y. elim (Bool-cases (text_eq (subject_key s) (subject_key t))) [
        | inl same ↦
            let k = text_eq→eq _ _ same in
            (
              s,
              subst (λ u. get_at u (set_at (subject_key s) s m) ≡ some s) k
                  (get_at-set_at (subject_key s) s m),
              λ h. wanted e s (ap (λ o. is_wanted o s) (sym (ap (λ u. get_at u m) k ∙ f)) ∙ y),
            )
        | inr differ ↦ (e, get_at-set_at_other _ _ s m differ ∙ f, c)
      ])
      (λ n. (e, f, c))

collect-Covers :
    (ss : List Subject) (t : Subject) (m : List (Text × Subject))
    → Covers m t
    → Covers (collect ss m) t
unfolding collect
collect-Covers [] t m v = v
collect-Covers (s ∷ ss) t m v = collect-Covers ss t (keep_one s m) (keep_one-Covers s t m v)

All-Covers : (ss : List Subject) (m : List (Text × Subject)) → All (Covers (collect ss m)) ss
unfolding collect
All-Covers [] m = tt
All-Covers (s ∷ ss) m =
    (collect-Covers ss s (keep_one s m) (keep_one-Covers_new s m), All-Covers ss (keep_one s m))

-- An entry that stands under its subject's own key, and whose subject has the property.
abbrev pub IsKeyed {κ} : (Subject → Type κ) → Text × Subject → Type κ
IsKeyed P e = (e.0 ≡ subject_key e.1) × P e.1

module _ {κ} (P : Subject → Type κ) where
  set_at-IsKeyed :
      (s : Subject) (m : List (Text × Subject))
      → P s
      → All (IsKeyed P) m
      → All (IsKeyed P) (set_at (subject_key s) s m)
  unfolding set_at
  set_at-IsKeyed s [] p v = ((refl, p), tt)
  set_at-IsKeyed s ((k, e) ∷ m) p v =
      if_rule (All (IsKeyed P)) (text_eq k (subject_key s)) _ _ (λ h. ((text_eq→eq _ _ h, p), v.1))
        (λ h. (v.0, set_at-IsKeyed s m p v.1))

  keep_one-IsKeyed :
      (s : Subject) (m : List (Text × Subject))
      → P s
      → All (IsKeyed P) m
      → All (IsKeyed P) (keep_one s m)
  unfolding keep_one
  keep_one-IsKeyed s m p v =
      if_rule (All (IsKeyed P)) (is_wanted (get_at (subject_key s) m) s) _ _
        (λ h. set_at-IsKeyed s m p v) (λ h. v)

  collect-IsKeyed :
      (ss : List Subject) (m : List (Text × Subject))
      → All P ss
      → All (IsKeyed P) m
      → All (IsKeyed P) (collect ss m)
  unfolding collect
  collect-IsKeyed [] m p v = v
  collect-IsKeyed (s ∷ ss) m p v =
      collect-IsKeyed ss (keep_one s m) p.1 (keep_one-IsKeyed s m p.0 v)

-- Keys that are all different.
abbrev pub Differs : Text → Text × Subject → Type 0
Differs k e = text_eq e.0 k ≡ false

abbrev pub IsDistinct : List (Text × Subject) → Type 0
IsDistinct [] = Unit
IsDistinct ((k, s) ∷ m) = All (Differs k) m × IsDistinct m

set_at-Differs :
    (j k : Text) (s : Subject) (m : List (Text × Subject))
    → text_eq k j ≡ false
    → All (Differs j) m
    → All (Differs j) (set_at k s m)
unfolding set_at
set_at-Differs j k s [] h v = (h, tt)
set_at-Differs j k s ((i, e) ∷ m) h v =
    if_rule (All (Differs j)) (text_eq i k) _ _ (λ c. v) (λ c. (v.0, set_at-Differs j k s m h v.1))

same_text : (a : Text) → text_eq a a ≢ false
same_text a h = cc (text_eq_refl a, h)

text_eq_sym : (a b : Text) → text_eq a b ≡ false → text_eq b a ≡ false
text_eq_sym a b h = elim (Bool-cases (text_eq b a)) [
  | inl e ↦ absurd (subst (λ x. text_eq a x ≢ false) (sym (text_eq→eq b a e)) (same_text a) h)
  | inr n ↦ n
]

set_at-IsDistinct :
    (k : Text) (s : Subject) (m : List (Text × Subject)) → IsDistinct m → IsDistinct (set_at k s m)
unfolding set_at
set_at-IsDistinct k s [] v = (tt, tt)
set_at-IsDistinct k s ((i, e) ∷ m) v =
    if_rule IsDistinct (text_eq i k) _ _ (λ c. v)
      (λ c. (set_at-Differs i k s m (text_eq_sym i k c) v.0, set_at-IsDistinct k s m v.1))

keep_one-IsDistinct :
    (s : Subject) (m : List (Text × Subject)) → IsDistinct m → IsDistinct (keep_one s m)
unfolding keep_one
keep_one-IsDistinct s m v =
    if_rule IsDistinct (is_wanted (get_at (subject_key s) m) s) _ _
      (λ h. set_at-IsDistinct (subject_key s) s m v) (λ h. v)

collect-IsDistinct :
    (ss : List Subject) (m : List (Text × Subject)) → IsDistinct m → IsDistinct (collect ss m)
unfolding collect
collect-IsDistinct [] m v = v
collect-IsDistinct (s ∷ ss) m v = collect-IsDistinct ss (keep_one s m) (keep_one-IsDistinct s m v)

-- The subjects that are kept are those of a map whose keys are all different. It holds each subject under
-- its own key; each given subject is covered by one of the same key, which carries a request id if the
-- given one does; and what holds of all the given subjects holds of those that are kept.
pub unique_subjects_lem {κ} :
    (P : Subject → Type κ) (ss : List Subject)
    → All P ss
    → (m : List (Text × Subject)) × (unique_subjects ss ≡ subjects_of m)
      × IsDistinct m
      × All (IsKeyed P) m
      × All (Covers m) ss
unfolding unique_subjects
unique_subjects_lem P ss p = (
  collect ss [],
  refl,
  collect-IsDistinct ss [] tt,
  collect-IsKeyed P ss [] p tt,
  All-Covers ss [],
)
