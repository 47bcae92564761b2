-- ===== src/Sse/Chunks.antt =====
-- How the chunks of a stream matter to `SseParser` of packages/web-sdk/src/core/transport/sse.ts.
use mathlib.Core.List.{append_assoc, append-nil}
use beam_sdk_public.Common.{
  ℕ, ◌≡◌, ◌≢◌, refl, sym, ap, ◌∙◌, true, false, ◌&&◌, Option, none, some, List, [], ◌∷◌, ◌++◌, ◌==◌,
  Text, Free, All, cons_first, arith, if_rule,
}
use beam_sdk_public.Sse.{
  SseEvent, normalize_from, split_blank, pop_last, parse_frame, parse_frames, cons_event, push,
  push_all,
}

normalize-Free : (s : Text) → Free 13 s → normalize_from false s ≡ s
unfolding normalize_from
normalize-Free [] h = refl
normalize-Free (c ∷ s) h = ground (arith, normalize-Free s h.1)

abbrev frames : List Text → List Text
frames l = (pop_last l).0

abbrev rest : List Text → Text
rest l = (pop_last l).1

-- Splitting can go on from the last piece; and a text of one piece is that piece.
record Resumes (t : Text) (l : List Text) : Type 0 where
  goes_on : (b : Text) → split_blank (t ++ b) ≡ frames l ++ split_blank (rest l ++ b)
  whole : frames l ≡ [] → rest l ≡ t

cons_first-Resumes :
    (c : ℕ) (t : Text) (l : List Text)
    → ((b : Text) → split_blank (c ∷ (t ++ b)) ≡ cons_first c (split_blank (t ++ b)))
    → Resumes t l
    → Resumes (c ∷ t) (cons_first c l)
unfolding pop_last
cons_first-Resumes c t [] step r = record {
  goes_on = λ b. rw (← r.whole refl) refl;
  whole = λ e. ap (◌∷◌ c) (r.whole refl);
}
cons_first-Resumes c t (x ∷ []) step r = record {
  goes_on = λ b. rw (← r.whole refl) refl;
  whole = λ e. ap (◌∷◌ c) (r.whole refl);
}
cons_first-Resumes c t (x ∷ y ∷ l) step r = record {
  goes_on = λ b. step b ∙ ap (cons_first c) (r.goes_on b);
  whole = λ e. cc;
}

cons_frame-Resumes :
    (t s : Text) (l : List Text)
    → l ≢ []
    → ((b : Text) → split_blank (t ++ b) ≡ [] ∷ split_blank (s ++ b))
    → Resumes s l
    → Resumes t ([] ∷ l)
unfolding pop_last
cons_frame-Resumes t s [] n step r = absurd (n refl)
cons_frame-Resumes t s (x ∷ l) n step r = record {
  goes_on = λ b. step b ∙ ap (◌∷◌ []) (r.goes_on b);
  whole = λ e. cc;
}

split-nonempty : (s : Text) → split_blank s ≢ []
unfolding split_blank
split-nonempty [] e = cc
split-nonempty (c ∷ []) e = cc
split-nonempty (c ∷ d ∷ s) e =
    if_rule (λ l. l ≢ []) ((c == 10) && (d == 10)) _ _ (λ h e. cc)
      (λ h. cons-nonempty (split_blank (d ∷ s))) e
  where
    cons-nonempty : (l : List Text) → cons_first c l ≢ []
    cons-nonempty [] e = cc
    cons-nonempty (x ∷ l) e = cc

split-Resumes : (s : Text) → Resumes s (split_blank s)
unfolding split_blank pop_last
split-Resumes [] = record { goes_on = λ b. refl; whole = λ e. refl }
split-Resumes (c ∷ []) = record { goes_on = λ b. refl; whole = λ e. refl }
split-Resumes (c ∷ d ∷ s) =
    if_rule (Resumes (c ∷ d ∷ s)) ((c == 10) && (d == 10)) _ _
      (λ h.
        cons_frame-Resumes (c ∷ d ∷ s) s (split_blank s) (split-nonempty s) (λ b. rw h refl)
          (split-Resumes s))
      (λ h.
        cons_first-Resumes c (d ∷ s) (split_blank (d ∷ s)) (λ b. rw h refl) (split-Resumes (d ∷ s)))

pop-append :
    (fs l : List Text) → l ≢ [] → pop_last (fs ++ l) ≡ (fs ++ (pop_last l).0, (pop_last l).1)
unfolding pop_last
pop-append [] l n = refl
pop-append (f ∷ []) [] n = absurd (n refl)
pop-append (f ∷ []) (x ∷ l) n = refl
pop-append (f ∷ g ∷ fs) l n = ap (λ p. (f ∷ p.0, p.1)) (pop-append (g ∷ fs) l n)

parse_frames-append :
    (fs gs : List Text) → parse_frames (fs ++ gs) ≡ parse_frames fs ++ parse_frames gs
unfolding parse_frames
parse_frames-append [] gs = refl
parse_frames-append (f ∷ fs) gs =
    ap (cons_event (parse_frame f)) (parse_frames-append fs gs) ∙ move (parse_frame f)
  where
    move :
        (o : Option SseEvent)
        → cons_event o (parse_frames fs ++ parse_frames gs)
          ≡ cons_event o (parse_frames fs) ++ parse_frames gs
    move none = refl
    move (some e) = refl

Free-append : (c : ℕ) (s t : Text) → Free c s → Free c t → Free c (s ++ t)
Free-append c [] t h k = k
Free-append c (x ∷ s) t h k = (h.0, Free-append c s t h.1 k)

cons_first-Free :
    (c : ℕ) (l : List Text) → c ≢ 13 → All (Free 13) l → All (Free 13) (cons_first c l)
cons_first-Free c [] h k = ((h, tt), tt)
cons_first-Free c (x ∷ l) h k = ((h, k.0), k.1)

split-Free : (s : Text) → Free 13 s → All (Free 13) (split_blank s)
unfolding split_blank
split-Free [] h = (tt, tt)
split-Free (c ∷ []) h = (h, tt)
split-Free (c ∷ d ∷ s) h =
    if_rule (All (Free 13)) ((c == 10) && (d == 10)) _ _ (λ e. (tt, split-Free s h.1.1))
      (λ e. cons_first-Free c (split_blank (d ∷ s)) h.0 (split-Free (d ∷ s) h.1))

rest-Free : (l : List Text) → All (Free 13) l → Free 13 (rest l)
unfolding pop_last
rest-Free [] h = tt
rest-Free (x ∷ []) h = h.0
rest-Free (x ∷ y ∷ l) h = rest-Free (y ∷ l) h.1

push-Free : (chunk buffer : Text) → Free 13 chunk → Free 13 buffer → Free 13 (push chunk buffer).1
unfolding push
push-Free chunk buffer h k =
    let f = Free-append 13 buffer chunk k h in
    rw (normalize-Free (buffer ++ chunk) f)
      (rest-Free (split_blank (buffer ++ chunk)) (split-Free _ f))

-- `push`, on a text with no carriage return.
abbrev parsed : Text → List SseEvent × Text
parsed s = (parse_frames (frames (split_blank s)), rest (split_blank s))

push-parsed :
    (chunk buffer : Text)
    → Free 13 chunk
    → Free 13 buffer
    → push chunk buffer ≡ parsed (buffer ++ chunk)
unfolding push
push-parsed chunk buffer h k = ap parsed (normalize-Free _ (Free-append 13 buffer chunk k h))

abbrev then_parsed : List SseEvent × Text → Text → List SseEvent × Text
then_parsed p d = let q = parsed (p.1 ++ d) in (p.0 ++ q.0, q.1)

parsed-append : (s d : Text) → then_parsed (parsed s) d ≡ parsed (s ++ d)
parsed-append s d =
    let r = rest (split_blank s) in
    let fs = frames (split_blank s) in
    let popped =
      ap pop_last (Resumes.goes_on (split-Resumes s) d)
      ∙ pop-append fs (split_blank (r ++ d)) (split-nonempty (r ++ d)) in
    sym (
      ap (λ p. (parse_frames p.0, p.1)) popped
      ∙ ap (λ es. (es, rest (split_blank (r ++ d))))
          (parse_frames-append fs (frames (split_blank (r ++ d)))))

-- The concatenation of the chunks.
abbrev pub joined : List Text → Text
joined [] = []
joined (c ∷ cs) = c ++ joined cs

joined-Free : (cs : List Text) → All (Free 13) cs → Free 13 (joined cs)
joined-Free [] h = tt
joined-Free (c ∷ cs) h = Free-append 13 c (joined cs) h.0 (joined-Free cs h.1)

-- On a stream without carriage returns it makes no difference where its chunks end: they give the events
-- that their concatenation gives in one chunk, in the same order, and leave the same buffer.
pub push_all-joined :
    (c : Text) (cs : List Text) (buffer : Text)
    → Free 13 buffer
    → All (Free 13) (c ∷ cs)
    → push_all (c ∷ cs) buffer ≡ push (joined (c ∷ cs)) buffer
unfolding push_all
push_all-joined c [] buffer fb h = rw (append-nil c, append-nil (push c buffer).0) refl
push_all-joined c (d ∷ cs) buffer fb h =
    let later = push_all-joined d cs (push c buffer).1 (push-Free c buffer h.0 fb) h.1 in
    let tail = joined-Free (d ∷ cs) h.1 in
    ap (λ q. ((push c buffer).0 ++ q.0, q.1))
      (later ∙ push-parsed (joined (d ∷ cs)) (push c buffer).1 tail (push-Free c buffer h.0 fb))
    ∙ ap (λ p. then_parsed p (joined (d ∷ cs))) (push-parsed c buffer h.0 fb)
    ∙ parsed-append (buffer ++ c) (joined (d ∷ cs))
    ∙ ap parsed (append_assoc buffer c (joined (d ∷ cs)))
    ∙ sym (push-parsed (c ++ joined (d ∷ cs)) buffer (Free-append 13 c _ h.0 tail) fb)

normalize_cr :
    (a s : Text) → Free 13 a → normalize_from false (a ++ 13 ∷ s) ≡ a ++ 10 ∷ normalize_from true s
unfolding normalize_from
normalize_cr [] s h = refl
normalize_cr (c ∷ a) s h = ground (arith, normalize_cr a s h.1)

one_piece : (a : Text) → Free 10 a → split_blank (a ++ 10 ∷ []) ≡ (a ++ 10 ∷ []) ∷ []
unfolding split_blank
one_piece [] h = refl
one_piece (c ∷ []) h = ground arith
one_piece (c ∷ d ∷ a) h = ground (arith, one_piece (d ∷ a) h.1)

cr-alone : (a : Text) → Free 13 a → Free 10 a → push (a ++ 13 ∷ []) [] ≡ ([], a ++ 10 ∷ [])
unfolding push normalize_from
cr-alone a h k =
    ap (λ t. (parse_frames (frames (split_blank t)), rest (split_blank t))) (normalize_cr a [] h)
    ∙ ap (λ l. (parse_frames (frames l), rest l)) (one_piece a k)

-- Where a chunk ends between the carriage return and the line feed that end a line, the parser reads a
-- blank line there, and so the end of a frame: it is as if the line ended in two line feeds. The same
-- text in one chunk is read as if it ended in one.
pub push_all-cut_crlf :
    (a b : Text)
    → Free 13 a
    → Free 10 a
    → Free 13 b
    → (push_all ((a ++ 13 ∷ []) ∷ (10 ∷ b) ∷ []) [] ≡ push_all ((a ++ 10 ∷ 10 ∷ b) ∷ []) [])
      × (push_all ((a ++ 13 ∷ 10 ∷ b) ∷ []) [] ≡ push_all ((a ++ 10 ∷ b) ∷ []) [])
unfolding push_all
push_all-cut_crlf a b h k hb = (
  ap (λ p. let q = push (10 ∷ b) p.1 in (p.0 ++ (q.0 ++ []), q.1)) (cr-alone a h k)
      ∙ ap (λ q. (q.0 ++ [], q.1))
          (cut
            ∙ sym (
                push-parsed (a ++ 10 ∷ 10 ∷ b) []
                  (line 10 (10 ∷ b) (omega arith, (omega arith, hb))) tt)),
  ap (λ q. (q.0 ++ [], q.1))
      (whole ∙ sym (push-parsed (a ++ 10 ∷ b) [] (Free-append 13 a _ h (omega arith, hb)) tt)),
)
  where
    line : (x : ℕ) (t : Text) → Free 13 (x ∷ t) → Free 13 (a ++ x ∷ t)
    line x t f = Free-append 13 a (x ∷ t) h f

    cut : push (10 ∷ b) (a ++ 10 ∷ []) ≡ parsed (a ++ 10 ∷ 10 ∷ b)
    cut =
        push-parsed (10 ∷ b) (a ++ 10 ∷ []) (omega arith, hb) (line 10 [] (omega arith, tt))
        ∙ ap parsed (append_assoc a (10 ∷ []) (10 ∷ b))

    whole : push (a ++ 13 ∷ 10 ∷ b) [] ≡ parsed (a ++ 10 ∷ b)
    whole =
        unfold push normalize_from in
        ap parsed (normalize_cr a (10 ∷ b) h ∙ ap (λ t. a ++ 10 ∷ t) (normalize-Free b hb))
