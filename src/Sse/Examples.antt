-- ===== src/Sse/Examples.antt =====
-- The theorems about packages/web-sdk/src/core/transport/sse.ts at concrete inputs.
use beam_sdk_public.Common.{
  ◌≡◌, refl, [], ◌∷◌, ◌++◌, some, arith, Text, codes, split_on, join_by, text_eq,
}
use beam_sdk_public.Sse.{push, push_all, parse_frame}
use beam_sdk_public.Sse.Chunks.{joined, push_all-joined, push_all-cut_crlf}

abbrev first_chunk : Text
first_chunk = codes "id: 7" ++ 10 ∷ codes "da"

abbrev second_chunk : Text
second_chunk = codes "ta: hi" ++ 10 ∷ 10 ∷ []

events :
    push_all (first_chunk ∷ second_chunk ∷ []) []
    ≡ (record { type = codes "message"; text = codes "hi"; id = some (codes "7") } ∷ [], [])
unfolding push_all parse_frame split_on join_by text_eq
events = refl

push_all-joined_example :
    push_all (first_chunk ∷ second_chunk ∷ []) []
    ≡ push (joined (first_chunk ∷ second_chunk ∷ [])) []
push_all-joined_example = push_all-joined first_chunk (second_chunk ∷ []) [] tt (omega arith)

push_all-cut_crlf_example :
    (push_all ((codes "data: a" ++ 13 ∷ []) ∷ (10 ∷ codes "data: b") ∷ []) []
      ≡ push_all ((codes "data: a" ++ 10 ∷ 10 ∷ codes "data: b") ∷ []) [])
    × (push_all ((codes "data: a" ++ 13 ∷ 10 ∷ codes "data: b") ∷ []) []
        ≡ push_all ((codes "data: a" ++ 10 ∷ codes "data: b") ∷ []) [])
push_all-cut_crlf_example =
    push_all-cut_crlf (codes "data: a") (codes "data: b") (omega arith) (omega arith) (omega arith)
