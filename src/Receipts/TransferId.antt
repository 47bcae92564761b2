-- ===== src/Receipts/TransferId.antt =====
-- packages/cre/workflows/transfer-receipts/transfer-id.ts. A function that throws returns `none`. SHA-256
-- and the UTF-8 encoding are parameters; a byte is a number.
pub mod Spelling
use beam_sdk_public.Common.{
  trim, ℕ, zero, suc, ◌+◌, ◌/◌, ◌%◌, Bool, true, false, ◌||◌, ◌&&◌, not, Option, none, some, List,
  [], ◌∷◌, ◌++◌, if◌then◌else◌, ltb, leb, ◌==◌, Text, codes, keep, take, drop, length, split_on,
  join_by,
}

-- `toLowerCase`, exact on ASCII. The lower case of another character is in none of the patterns below.
abbrev pub lower_char : ℕ → ℕ
lower_char c = if leb 65 c && leb c 90 then c + 32 else c

unfoldable pub to_lower : Text → Text
to_lower [] = []
to_lower (c ∷ s) = lower_char c ∷ to_lower s

-- `[0-9a-f]`.
unfoldable pub is_hex : ℕ → Bool
is_hex c = (leb 48 c && leb c 57) || (leb 97 c && leb c 102)

unfoldable pub every : (ℕ → Bool) → Text → Bool
every p [] = true
every p (c ∷ s) = p c && every p s

-- `[0-9a-f]{n}`.
abbrev pub is_hex_of : ℕ → Text → Bool
is_hex_of n s = (length s == n) && every is_hex s

-- `/^0x[0-9a-f]{n}$/`, which is `BYTES16_PATTERN` for 32 and `BYTES32_PATTERN` for 64.
abbrev pub is_bytes : ℕ → Text → Bool
is_bytes n (a ∷ b ∷ s) = (a == 48) && (b == 120) && is_hex_of n s
is_bytes n _ = false

-- `/^0x0+$/`.
abbrev pub is_zero_bytes : Text → Bool
is_zero_bytes (a ∷ b ∷ c ∷ s) = (a == 48) && (b == 120) && every (λ d. d == 48) (c ∷ s)
is_zero_bytes _ = false

abbrev pub hex_groups : List ℕ → List Text → Bool
hex_groups [] [] = true
hex_groups (n ∷ ns) (s ∷ ss) = is_hex_of n s && hex_groups ns ss
hex_groups _ _ = false

abbrev pub uuid_groups : List ℕ
uuid_groups = 8 ∷ 4 ∷ 4 ∷ 4 ∷ 12 ∷ []

-- `UUID_PATTERN`: five groups of hex digits, between which stand dashes.
unfoldable pub is_uuid : Text → Bool
is_uuid s = hex_groups uuid_groups (split_on 45 s)

unfoldable pub normalize_request_id : Text → Option Text
normalize_request_id id =
    let value = to_lower id in
    if is_bytes 64 value && not (is_zero_bytes value) then some value else none

unfoldable pub normalize_transfer_id : Text → Option Text
normalize_transfer_id id = let value = to_lower id in if is_uuid value then some value else none

abbrev pub prefixed : Option Text → Option Text
prefixed none = none
prefixed (some v) = some (codes "0x" ++ keep (λ c. not (c == 45)) v)

unfoldable pub transfer_id_to_bytes16 : Text → Option Text
transfer_id_to_bytes16 id = prefixed (normalize_transfer_id id)

-- `h.slice(0, 8)`, `h.slice(8, 12)` and so on, with the dashes between them.
abbrev pub pieces : List ℕ → Text → List Text
pieces [] h = []
pieces (n ∷ []) h = h ∷ []
pieces (n ∷ m ∷ ns) h = take n h ∷ pieces (m ∷ ns) (drop n h)

unfoldable pub uuid_of : Text → Text
uuid_of h = join_by 45 (pieces uuid_groups h)

unfoldable pub bytes16_to_transfer_id : Text → Option Text
bytes16_to_transfer_id value =
    let hex = to_lower value in if is_bytes 32 hex then some (uuid_of (drop 2 hex)) else none

abbrev pub hex_digit : ℕ → ℕ
hex_digit n = if ltb n 10 then 48 + n else 87 + n

-- `bytesToHex`.
abbrev pub bytes_to_hex : List ℕ → Text
bytes_to_hex [] = []
bytes_to_hex (b ∷ bs) = hex_digit (b / 16) ∷ hex_digit (b % 16) ∷ bytes_to_hex bs

-- `bytes[i] = f(bytes[i])`.
abbrev pub set_byte : ℕ → (ℕ → ℕ) → List ℕ → List ℕ
set_byte n f [] = []
set_byte zero f (b ∷ bs) = f b ∷ bs
set_byte (suc n) f (b ∷ bs) = b ∷ set_byte n f bs

-- `(b & 0x0f) | 0x50` and `(b & 0x3f) | 0x80`.
abbrev pub with_version : ℕ → ℕ
with_version b = b % 16 + 80

abbrev pub with_variant : ℕ → ℕ
with_variant b = b % 64 + 128

abbrev is_blank : Text → Bool
is_blank [] = true
is_blank (c ∷ s) = false

pub record Hashing : Type 0 where
  -- `sha256` and `utf8ToBytes`.
  pub sha256 : List ℕ → List ℕ
  pub utf8 : Text → List ℕ

unfoldable pub transfer_id_for_idempotency_key : Hashing → Text → Text → Option Text
transfer_id_for_idempotency_key w client_id idempotency_key =
    let key = trim idempotency_key in
    let bytes =
      take 16 (w.sha256 (w.utf8 (codes "beam-transfer:" ++ client_id ++ codes ":" ++ key))) in
    if is_blank client_id || is_blank key
    then none
    else some (uuid_of (bytes_to_hex (set_byte 8 with_variant (set_byte 6 with_version bytes))))

abbrev pub idempotency_key_for_request : Text → Option Text
idempotency_key_for_request = normalize_request_id

abbrev pub id_of_key : Hashing → Text → Option Text → Option Text
id_of_key w client_id none = none
id_of_key w client_id (some key) = transfer_id_for_idempotency_key w client_id key

unfoldable pub transfer_id_for_request : Hashing → Text → Text → Option Text
transfer_id_for_request w client_id request_id =
    id_of_key w client_id (idempotency_key_for_request request_id)
