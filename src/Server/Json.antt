-- ===== src/Server/Json.antt =====
-- JSON values as packages/web-sdk-server/src/broker.ts reads them: whole numbers, and objects as lists of
-- members, of which the last with a name counts.
use beam_sdk_public.Common.{
  ℕ, Bool, true, false, Option, none, some, if◌then◌else◌, Text, text_eq, List, [], ◌∷◌,
}

mutual
  pub data Json : Type 0 where
    null : Json
    bool : Bool → Json
    num : ℕ → Json
    str : Text → Json
    arr : Items → Json
    obj : Fields → Json

  pub data Items : Type 0 where
    nil : Items
    cons : Json → Items → Items

  pub data Fields : Type 0 where
    end : Fields
    field : Text → Json → Fields → Fields

abbrev pick : Option Json → Option Json → Option Json
pick none b = b
pick (some a) b = some a

-- `record[key]`; `none` is `undefined`.
unfoldable pub get : Text → Fields → Option Json
get key end = none
get key (field k v fs) =
    let later = get key fs in if text_eq k key then pick later (some v) else later

-- `typeof value === "string"`, and so on.
unfoldable pub as_string : Option Json → Option Text
as_string (some (str t)) = some t
as_string (some null) = none
as_string _ = none

unfoldable pub as_number : Option Json → Option ℕ
as_number (some (num n)) = some n
as_number (some null) = none
as_number _ = none

-- `Array.isArray(value)`.
unfoldable pub as_array : Option Json → Option Items
as_array (some (arr xs)) = some xs
as_array (some null) = none
as_array _ = none

is_string : Text → Json → Bool
is_string t (str s) = text_eq s t
is_string t null = false
is_string t _ = false

-- `requested.includes(scope)`: strict equality, so that only a string matches.
unfoldable pub includes_string : Items → Text → Bool
unfolding is_string
includes_string nil t = false
includes_string (cons x xs) t = if is_string t x then true else includes_string xs t

-- `array.map(f)`.
unfoldable pub map_items : (Json → Text) → Items → List Text
map_items f nil = []
map_items f (cons x xs) = f x ∷ map_items f xs
