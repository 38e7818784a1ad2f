-- ===== src/Adapters/OpenApi/Refs.antt =====
-- `resolveRefs` and `pointerLookup` of packages/adapters/openapi/src/index.ts. The recursion through
-- a `$ref` is on fuel, and `none` stands for fuel that is used up; an object's inherited properties
-- are taken as missing.
pub mod Within
pub mod Termination
use Prim.Native.Char.{Char, code}
use Prim.Native.String.{String, ◌++◌}
use glyph_protocol.Prelude.{
  ℕ, zero, suc, ◌+◌, Bool, true, false, ◌==◌, not, ◌&&◌, eqb, List, [], ◌∷◌, Option, none, some,
  if◌then◌else◌, includes, decimal,
}
use glyph_protocol.Json.{Json, null, bool, num, str, arr, obj, Items, nil, cons, Fields, end, field}
use glyph_protocol.Attest.{member}
use glyph_protocol.Attest.Digest.{after}

-- `s.split('/')`
abbrev pub grow : Char → List String → List String
grow c [] = (String.◌∷◌ c String.[]) ∷ []
grow c (part ∷ parts) = String.◌∷◌ c part ∷ parts

unfoldable pub split_slash : String → List String
split_slash String.[] = "" ∷ []
split_slash (String.◌∷◌ c s) =
    let rest = split_slash s in if eqb (code c) 0x2f then "" ∷ rest else grow c rest

-- `s.replace(/~d/g, to)` for a digit `d`.
unfoldable pub unescape : ℕ → Char → String → String
unescape d to String.[] = String.[]
unescape d to (String.◌∷◌ c String.[]) = String.◌∷◌ c String.[]
unescape d to (String.◌∷◌ c (String.◌∷◌ e s)) =
    let pair = unescape d to s in
    let rest = unescape d to (String.◌∷◌ e s) in
    if eqb (code c) 0x7e && eqb (code e) d then String.◌∷◌ to pair else String.◌∷◌ c rest

abbrev pub key_of : String → String
key_of part = unescape 0x30 "~" (unescape 0x31 "/" part)

unfoldable pub count_of : Items → ℕ
count_of nil = 0
count_of (cons v vs) = suc (count_of vs)

-- `vs[key]` of an array whose first index is `i`.
unfoldable pub item_at : Items → ℕ → String → Option Json
item_at nil i key = none
item_at (cons v vs) i key = if key == decimal i then some v else item_at vs (suc i) key

-- `current[key]`
abbrev pub step_into : Json → String → Option Json
step_into (obj fs) key = member key fs
step_into (arr vs) key =
    if key == "length" then some (num (decimal (count_of vs))) else item_at vs 0 key
step_into _ key = none

-- The loop of `pointerLookup`; `none` stands for `undefined`.
unfoldable pub descend : List String → Option Json → Option Json
descend [] current = current
descend (part ∷ parts) none = none
descend (part ∷ parts) (some v) = descend parts (step_into v (key_of part))

abbrev pub descend_from : Json → Option String → Option Json
descend_from doc none = none
descend_from doc (some path) = descend (split_slash path) (some doc)

-- `pointerLookup`
unfoldable pub pointer_lookup : Json → String → Option Json
unfolding split_slash unescape descend after
pointer_lookup doc ref = descend_from doc (after "#/" ref)

-- A node's `$ref`, when it is a text.
abbrev pub text_of : Option Json → Option String
text_of (some (str s)) = some s
text_of _ = none

abbrev pub and_resolved {ℓ κ} : {A : Type ℓ} {B : Type κ} → Option A → (A → Option B) → Option B
and_resolved none f = none
and_resolved (some v) f = f v

-- `out[key] = …`, on keys that differ.
abbrev pub put_field : String → Json → Fields → Fields
put_field k v fs = if k == "__proto__" then fs else field k v fs

-- `resolveRefs` of a node, where `jump` resolves a reference.
module _ (jump : String → Option Json) where
  abbrev pub jump_or : Option Json → Option String → Option Json
  jump_or entries none = entries
  jump_or entries (some ref) = jump ref

  unfoldable mutual
    pub resolve_node : Json → Option Json
    resolve_node null = some null
    resolve_node (bool b) = some (bool b)
    resolve_node (num n) = some (num n)
    resolve_node (str s) = some (str s)
    resolve_node (arr vs) = and_resolved (resolve_items vs) (λ ws. some (arr ws))
    resolve_node (obj fs) =
        jump_or (and_resolved (resolve_fields fs) (λ gs. some (obj gs)))
          (text_of (member "$ref" fs))

    pub resolve_items : Items → Option Items
    resolve_items nil = some nil
    resolve_items (cons v vs) =
        and_resolved (resolve_node v)
          (λ w. and_resolved (resolve_items vs) (λ ws. some (cons w ws)))

    pub resolve_fields : Fields → Option Fields
    resolve_fields end = some end
    resolve_fields (field k v fs) =
        and_resolved (resolve_node v)
          (λ w. and_resolved (resolve_fields fs) (λ gs. some (put_field k w gs)))

-- What follows the test on `seen`: a missing target is `{}`.
abbrev pub resolve_target : (String → Option Json) → Option Json → Option Json
resolve_target jump none = some (obj end)
resolve_target jump (some target) = resolve_node jump target

-- A reference, with the references that were followed before it.
unfoldable pub follow : Json → ℕ → List String → String → Option Json
unfolding resolve_node pointer_lookup
follow doc zero seen ref = none
follow doc (suc fuel) seen ref =
    if includes seen ref
    then some (obj end)
    else resolve_target (follow doc fuel (ref ∷ seen)) (pointer_lookup doc ref)

-- `resolveRefs(node, doc)`
unfoldable pub resolve_refs : ℕ → Json → Json → Option Json
unfolding follow
resolve_refs fuel doc node = resolve_node (follow doc fuel []) node
