-- ===== src/Json.antt =====
-- JSON values (RFC 8259), which src/gateway/mcp.rs and src/gateway/http.rs build with `json!` and read
-- with `get` and the `as_` methods. How a value is written as text, and read from it, is a parameter.
use serica.Prelude.{
  ℕ, ◌^◌, Bool, Option, none, some, List, [], ◌∷◌, ltb, if◌then◌else◌, Text, text_eq,
}

-- A number is whole and not negative, or negative, or a quotient that is printed as an `f64`.
mutual
  pub data Json : Type 0 where
    null : Json
    boolean : Bool → Json
    number : ℕ → Json
    minus : ℕ → Json
    quotient : ℕ → ℕ → Json
    string : Text → Json
    array : Items → Json
    object : Members → Json

  pub data Items : Type 0 where
    no_item : Items
    item : Json → Items → Items

  pub data Members : Type 0 where
    no_member : Members
    member : Text → Json → Members → Members

abbrev items_of : List Json → Items
items_of [] = no_item
items_of (value ∷ values) = item value (items_of values)

abbrev members_of : List (Text × Json) → Members
members_of [] = no_member
members_of ((key, value) ∷ fields) = member key value (members_of fields)

-- `json!([…])` and `json!({…})`
abbrev pub list : List Json → Json
list values = array (items_of values)

abbrev pub fields : List (Text × Json) → Json
fields entries = object (members_of entries)

abbrev find : Text → Members → Option Json
find key no_member = none
find key (member name value rest) =
    let later = find key rest in if text_eq name key then some value else later

-- `Value::get`, which finds nothing in what is no object.
unfoldable pub get : Text → Json → Option Json
get key (object members) = find key members
get key _ = none

unfoldable pub as_str : Json → Option Text
as_str (string s) = some s
as_str _ = none

-- A `Value` has a whole number only if it fits in 64 bits.
unfoldable pub as_u64 : Json → Option ℕ
as_u64 (number n) = if ltb n (2 ^ 64) then some n else none
as_u64 _ = none

unfoldable pub as_bool : Json → Option Bool
as_bool (boolean b) = some b
as_bool _ = none

-- A field of a `Serialize` struct that may be absent: `null`, or its value.
abbrev pub nullable : Option Text → Json
nullable none = null
nullable (some s) = string s
