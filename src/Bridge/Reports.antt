-- ===== src/Bridge/Reports.antt =====
-- packages/cre/bridge/report.ts: the submissions and headers of reports. Bytes are numbers.
use beam_sdk_public.Common.{
  ℕ, suc, ◌+◌, ◌-◌, ◌*◌, ◌/◌, ◌%◌, ◌||◌, not, Option, none, some, List, [], ◌∷◌, ◌++◌,
  if◌then◌else◌, ltb, ◌==◌, Text, codes, take, drop, length,
}
use beam_sdk_public.Server.Json.{Json, Items, nil, cons, obj, get, as_string, as_array}
use beam_sdk_public.Receipts.TransferId.{to_lower, every, is_hex}
use beam_sdk_public.Bridge.Signatures.{SignedReport}

abbrev pub report_header_bytes : ℕ
report_header_bytes = 109

pub record ReportHeader : Type 0 where
  pub version : ℕ
  pub execution_id : Text
  pub timestamp : ℕ
  pub don_id : ℕ
  pub don_config_version : ℕ
  pub workflow_id : Text
  pub workflow_name : Text
  pub workflow_owner : Text
  pub report_id : Text

-- The digits of a byte, in lower case.
abbrev digit : ℕ → ℕ
digit n = if ltb n 10 then 48 + n else 87 + n

unfoldable pub hex : List ℕ → Text
hex [] = []
hex (b ∷ bs) = digit (b / 16) ∷ digit (b % 16) ∷ hex bs

abbrev subarray : ℕ → ℕ → List ℕ → List ℕ
subarray start end bytes = take (end - start) (drop start bytes)

-- A big-endian number.
abbrev read_from : ℕ → List ℕ → ℕ
read_from n [] = n
read_from n (b ∷ bs) = read_from (n * 256 + b) bs

abbrev uint32_at : ℕ → List ℕ → ℕ
uint32_at offset bytes = read_from 0 (subarray offset (offset + 4) bytes)

-- `none` where it throws.
unfoldable pub parse_header : List ℕ → Option ReportHeader
parse_header raw =
    if ltb (length raw) report_header_bytes
    then none
    else some (record {
      version = read_from 0 (take 1 raw);
      execution_id = hex (subarray 1 33 raw);
      timestamp = uint32_at 33 raw;
      don_id = uint32_at 37 raw;
      don_config_version = uint32_at 41 raw;
      workflow_id = hex (subarray 45 77 raw);
      workflow_name = hex (subarray 77 87 raw);
      workflow_owner = hex (subarray 87 107 raw);
      report_id = hex (subarray 107 109 raw);
    })

unfoldable pub report_body : List ℕ → Text
report_body raw = codes "0x" ++ hex (drop report_header_bytes raw)

abbrev digit_value : ℕ → ℕ
digit_value c = if ltb c 58 then c - 48 else c - 87

-- `Buffer.from(field, 'hex')`, of an even number of digits in lower case.
abbrev pub bytes_of : Text → List ℕ
bytes_of (a ∷ b ∷ t) = (16 * digit_value a + digit_value b) ∷ bytes_of t
bytes_of _ = []

abbrev bytes_of_text : Option Text → Option (List ℕ)
bytes_of_text none = none
bytes_of_text (some t) =
    if not (length t % 2 == 0) || not (every is_hex (to_lower t))
    then none
    else some (bytes_of (to_lower t))

abbrev cons_bytes : Option (List ℕ) → Option (List (List ℕ)) → Option (List (List ℕ))
cons_bytes (some b) (some bs) = some (b ∷ bs)
cons_bytes _ _ = none

abbrev all_bytes : Items → Option (List (List ℕ))
all_bytes nil = some []
all_bytes (cons x xs) = cons_bytes (bytes_of_text (as_string (some x))) (all_bytes xs)

abbrev count : Items → ℕ
count nil = 0
count (cons x xs) = suc (count xs)

abbrev at_most_64 : Option Items → Option (List (List ℕ))
at_most_64 none = none
at_most_64 (some xs) = if ltb 64 (count xs) then none else all_bytes xs

abbrev signed_report :
    Option (List ℕ) → Option (List ℕ) → Option (List (List ℕ)) → Option SignedReport
signed_report (some raw) (some context) (some signatures) =
    some (record { raw_report = raw; context = context; signatures = signatures })
signed_report _ _ _ = none

unfoldable pub parse_submission : Json → Option SignedReport
parse_submission (obj fs) =
    signed_report (bytes_of_text (as_string (get (codes "report") fs)))
      (bytes_of_text (as_string (get (codes "context") fs)))
      (at_most_64 (as_array (get (codes "signatures") fs)))
parse_submission _ = none
