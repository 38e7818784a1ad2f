-- ===== src/Json.antt =====
-- JSON values, and `canonicalize` of packages/core/src/index.ts with the `JSON.stringify` that
-- hashes and comparisons feed it to. A number is the text that `JSON.stringify` prints for it: the
-- code only copies numbers. The fields of an object stand in the order of its own keys, and its
-- keys are distinct.
pub mod Order
pub mod Sorting
pub mod Laws
pub mod Complete
pub mod Texts
use Prim.Native.Char.{Char, code}
use Prim.Native.String.{◌++◌, slice}
use glyph_protocol.Prelude.{
  ℕ, zero, suc, ◌+◌, ◌-◌, ◌/◌, ◌%◌, String, Bool, true, false, ltb, eqb, leb, ◌==◌, ◌&&◌,
  if◌then◌else◌, List, [], ◌∷◌, Option, none, some,
}
use Order.{key_le}

mutual
  pub data Json : Type 0 where
    null : Json
    bool : Bool → Json
    num : String → Json
    str : String → Json
    arr : Items → Json
    obj : Fields → Json

  pub data Items : Type 0 where
    nil : Items
    cons : Json → Items → Items

  pub data Fields : Type 0 where
    end : Fields
    field : String → Json → Fields → Fields

-- `Object.keys(v).sort()` and the order in which the keys of the result are enumerated, one key at
-- a time.
unfoldable pub insert_key : String → Json → Fields → Fields
insert_key k v end = field k v end
insert_key k v (field j w fs) =
    if key_le k j then field k v (field j w fs) else field j w (insert_key k v fs)

-- `sorted[key] = …`: the key `__proto__` names the prototype, and becomes no property.
unfoldable pub assign_key : String → Json → Fields → Fields
unfolding insert_key
assign_key k v fs = if k == "__proto__" then fs else insert_key k v fs

unfoldable mutual
  pub canonicalize : Json → Json
  canonicalize null = null
  canonicalize (bool b) = bool b
  canonicalize (num n) = num n
  canonicalize (str s) = str s
  canonicalize (arr vs) = arr (canonicalize_items vs)
  canonicalize (obj fs) = obj (canonicalize_fields fs)

  pub canonicalize_items : Items → Items
  canonicalize_items nil = nil
  canonicalize_items (cons v vs) = cons (canonicalize v) (canonicalize_items vs)

  pub canonicalize_fields : Fields → Fields
  canonicalize_fields end = end
  canonicalize_fields (field k v fs) = assign_key k (canonicalize v) (canonicalize_fields fs)

hex_digit : ℕ → String
hex_digit n = slice "0123456789abcdef" n (n + 1)

-- The escape of one character inside a JSON text.
escape_char : Char → String
unfolding hex_digit
escape_char c =
    let n = code c in
    if eqb n 0x22
    then "\\\""
    else if eqb n 0x5c
    then "\\\\"
    else if eqb n 8
    then "\\b"
    else if eqb n 9
    then "\\t"
    else if eqb n 10
    then "\\n"
    else if eqb n 12
    then "\\f"
    else if eqb n 13
    then "\\r"
    else if ltb n 0x20
    then "\\u00" ++ (hex_digit (n / 16) ++ hex_digit (n % 16))
    else String.◌∷◌ c String.[]

escape : String → String
unfolding escape_char
escape String.[] = String.[]
escape (String.◌∷◌ c s) = escape_char c ++ escape s

pub quote : String → String
unfolding escape
quote s = "\"" ++ (escape s ++ "\"")

-- `JSON.stringify` of a value with no `undefined` in it.
unfoldable mutual
  unfolding quote

  pub stringify : Json → String
  stringify null = "null"
  stringify (bool true) = "true"
  stringify (bool false) = "false"
  stringify (num n) = n
  stringify (str s) = quote s
  stringify (arr vs) = "[" ++ stringify_items vs
  stringify (obj fs) = "{" ++ stringify_fields fs

  pub stringify_items : Items → String
  stringify_items nil = "]"
  stringify_items (cons v nil) = stringify v ++ "]"
  stringify_items (cons v (cons w vs)) = stringify v ++ ("," ++ stringify_items (cons w vs))

  pub stringify_fields : Fields → String
  stringify_fields end = "}"
  stringify_fields (field k v end) = quote k ++ (":" ++ (stringify v ++ "}"))
  stringify_fields (field k v (field j w fs)) =
      quote k ++ (":" ++ (stringify v ++ ("," ++ stringify_fields (field j w fs))))
