-- ===== src/Sse.antt =====
-- packages/web-sdk/src/core/transport/sse.ts: the class `SseParser`. A parser is its buffer; `push` returns
-- the events and the new buffer.
pub mod Chunks
mod Examples
use beam_sdk_public.Common.{
  ℕ, ◌≡◌, Bool, true, false, ◌&&◌, Option, none, some, List, [], ◌∷◌, ◌++◌, if◌then◌else◌, ◌==◌,
  Text, codes, text_eq, cons_first, split_on, join_by,
}

pub record SseEvent : Type 0 where
  pub type : Text
  pub text : Text
  pub id : Option Text

-- `replace(/\r\n|\r/g, "\n")`; the flag tells that the character before was a carriage return.
unfoldable pub normalize_from : Bool → Text → Text
normalize_from after_cr [] = []
normalize_from after_cr (c ∷ s) =
    let rest = normalize_from (c == 13) s in
    if c == 13 then 10 ∷ rest else if (c == 10) && after_cr then rest else c ∷ rest

-- `split("\n\n")`.
unfoldable pub split_blank : Text → List Text
split_blank [] = [] ∷ []
split_blank (c ∷ []) = (c ∷ []) ∷ []
split_blank (c ∷ d ∷ s) =
    let after = split_blank s in
    let on = cons_first c (split_blank (d ∷ s)) in if (c == 10) && (d == 10) then [] ∷ after else on

-- `frames.pop()`: the frames before the last, and the last.
unfoldable pub pop_last : List Text → List Text × Text
pop_last [] = ([], [])
pop_last (x ∷ []) = ([], x)
pop_last (x ∷ y ∷ l) = let (fs, r) = pop_last (y ∷ l) in (x ∷ fs, r)

-- What the loop over the lines of a frame has collected.
pub record Fields : Type 0 where
  pub type : Text
  pub id : Option Text
  pub data_lines : List Text

-- `line.slice(0, colon)` and `line.slice(colon + 1)`; the whole line and "" where there is no colon.
cut : Text → Text × Text
cut [] = ([], [])
cut (c ∷ s) = let (a, b) = cut s in if c == b':' then ([], s) else (c ∷ a, b)

-- `replace(/^ /, "")`.
strip_space : Text → Text
strip_space [] = []
strip_space (c ∷ s) = if c == 32 then s else c ∷ s

set_field : Text → Text → Fields → Fields
set_field field value f =
    if text_eq field (codes "event")
    then record f { type = value }
    else if text_eq field (codes "data")
    then record f { data_lines = f.data_lines ++ value ∷ [] }
    else if text_eq field (codes "id")
    then record f { id = some value }
    else f

-- An empty line, or a comment, is skipped.
read_line : Text → Fields → Fields
unfolding cut strip_space set_field
read_line [] f = f
read_line (c ∷ s) f =
    let (field, value) = cut (c ∷ s) in
    if c == b':' then f else set_field field (strip_space value) f

read_lines : List Text → Fields → Fields
unfolding read_line
read_lines [] f = f
read_lines (l ∷ ls) f = read_lines ls (read_line l f)

event_of : List Text → Fields → Option SseEvent
event_of [] f = none
event_of (d ∷ ds) f = some (record { type = f.type; text = join_by 10 (d ∷ ds); id = f.id })

unfoldable pub parse_frame : Text → Option SseEvent
unfolding read_lines event_of
parse_frame frame =
    let f =
      read_lines (split_on 10 frame)
        (record { type = codes "message"; id = none; data_lines = [] }) in
    event_of f.data_lines f

abbrev pub cons_event : Option SseEvent → List SseEvent → List SseEvent
cons_event none es = es
cons_event (some e) es = e ∷ es

unfoldable pub parse_frames : List Text → List SseEvent
parse_frames [] = []
parse_frames (f ∷ fs) = cons_event (parse_frame f) (parse_frames fs)

-- The chunk is added to the buffer before the line ends are normalised.
unfoldable pub push : Text → Text → List SseEvent × Text
unfolding normalize_from split_blank pop_last parse_frames
push chunk buffer =
    let (frames, rest) = pop_last (split_blank (normalize_from false (buffer ++ chunk))) in
    (parse_frames frames, rest)

unfoldable pub push_all : List Text → Text → List SseEvent × Text
unfolding push
push_all [] buffer = ([], buffer)
push_all (c ∷ cs) buffer =
    let (es, b) = push c buffer in let (fs, b') = push_all cs b in (es ++ fs, b')
