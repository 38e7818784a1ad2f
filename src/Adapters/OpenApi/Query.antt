-- ===== src/Adapters/OpenApi/Query.antt =====
-- Query strings in packages/adapters/openapi/src/index.ts: `appendQuery`, and `redactUrl` with what the
-- platform does with URLs, base64 and case as a parameter.
pub mod Redacted
use Prim.Native.Char.{Char, code}
use Prim.Native.String.{String, ◌++◌}
use glyph_protocol.Prelude.{
  ℕ, suc, Bool, true, false, ◌==◌, not, ◌&&◌, ◌||◌, eqb, List, [], ◌∷◌, map, Option, none, some,
  if◌then◌else◌, or_else, truthy, includes, is_some, decimal,
}
use glyph_protocol.Prelude.Table.{Table, get, set}
use glyph_protocol.Json.{
  Json, null, bool, num, str, arr, obj, Items, nil, cons, Fields, end, field, stringify,
}
use glyph_protocol.Attest.{member, property}
use glyph_protocol.Attest.Digest.{after}
use glyph_protocol.Adapters.Naming.{join}
use glyph_protocol.Adapters.Bridge.{Answer, threw, gave}
use glyph_protocol.Adapters.OpenApi.{
  HttpMethod, upper_name, Parameter, ParameterPlace, in_path, in_query, in_header, in_cookie,
  RequestBody, Requirement, Operation,
}

-- The entries of a `URLSearchParams`.
abbrev pub Query : Type 0
Query = List (String × String)

-- `encodeURIComponent`, `new URLSearchParams(text).entries()`, `toString`, `toLowerCase` and base64.
pub record Platform : Type 0 where
  pub encode : String → String
  pub parse_query : String → Query
  pub print_query : Query → String
  pub lower : String → String
  pub base64 : String → String

-- `String(v)` of a JSON value; inside an array, `null` is the empty text.
abbrev blank_null : Json → String → String
blank_null null s = ""
blank_null v s = s

unfoldable mutual
  pub js_string : Json → String
  js_string null = "null"
  js_string (bool true) = "true"
  js_string (bool false) = "false"
  js_string (num n) = n
  js_string (str s) = s
  js_string (arr vs) = js_items vs
  js_string (obj fs) = "[object Object]"

  pub js_items : Items → String
  js_items nil = ""
  js_items (cons v nil) = blank_null v (js_string v)
  js_items (cons v (cons w vs)) = blank_null v (js_string v) ++ ("," ++ js_items (cons w vs))

-- `query.append`
unfoldable pub append : Query → String → String → Query
append [] key value = (key, value) ∷ []
append (entry ∷ query) key value = entry ∷ append query key value

unfoldable pub without : Query → String → Query
without [] key = []
without ((k, v) ∷ query) key =
    let rest = without query key in if k == key then rest else (k, v) ∷ rest

-- `query.set`: the first entry of the key takes the value, and the others go.
unfoldable pub set_query : Query → String → String → Query
unfolding without
set_query [] key value = (key, value) ∷ []
set_query ((k, v) ∷ query) key value =
    let rest = set_query query key value in
    if k == key then (key, value) ∷ without query key else (k, v) ∷ rest

append_items : Query → String → Items → Query
append_items query name nil = query
append_items query name (cons v vs) = append_items (append query name (js_string v)) name vs

append_fields : Query → Fields → Query
append_fields query end = query
append_fields query (field k v fs) = append_fields (append query k (js_string v)) fs

-- `appendQuery`
unfoldable pub append_query : Query → String → Json → Query
unfolding append append_items append_fields
append_query query name (arr vs) = append_items query name vs
append_query query name (obj fs) = append_fields query fs
append_query query name v = append query name (js_string v)

-- `headers[name] = value`: the key `__proto__` becomes no property.
abbrev pub set_header : Table String → String → String → Table String
set_header headers name value = if name == "__proto__" then headers else set headers name value

-- `url.replace(pattern, text)` of the first occurrence, for a pattern that is not empty.
unfoldable pub replace_first : String → String → String → String
unfolding after
replace_first pattern text String.[] = String.[]
replace_first pattern text (String.◌∷◌ c s) =
    let rest = replace_first pattern text s in
    elim (after pattern (String.◌∷◌ c s)) [ some tail ↦ text ++ tail | none ↦ String.◌∷◌ c rest ]

-- `SENSITIVE_PARAMS`
abbrev pub sensitive_params : List String
sensitive_params =
    "api_key" ∷ "apikey" ∷ "key" ∷ "token" ∷ "access_token" ∷ "secret" ∷ "password"
    ∷ "authorization" ∷ []

abbrev pub with_query : String → String → String
with_query url qs = if qs == "" then url else url ++ ("?" ++ qs)

-- A text before and after its first question mark.
unfoldable pub split_query : String → Option (String × String)
split_query String.[] = none
split_query (String.◌∷◌ c s) =
    let rest = split_query s in
    if eqb (code c) 0x3f
    then some ("", s)
    else elim rest [ none ↦ none | some (base, query) ↦ some (String.◌∷◌ c base, query) ]

module _ (web : Platform) (extra : List String) where
  abbrev pub is_sensitive : String → Bool
  is_sensitive key =
      includes sensitive_params (web.lower key) || includes (map web.lower extra) (web.lower key)

  -- The loop over the entries.
  unfoldable pub redact : Query → Query
  redact [] = []
  redact ((key, value) ∷ query) = (key, (if is_sensitive key then "***" else value)) ∷ redact query

  unfoldable pub has_sensitive : Query → Bool
  has_sensitive [] = false
  has_sensitive ((key, value) ∷ query) = is_sensitive key || has_sensitive query

  abbrev pub redact_query : String → String → String → String
  redact_query url base query =
      let entries = web.parse_query query in
      if not (has_sensitive entries)
      then url
      else with_query base (web.print_query (redact entries))

  abbrev pub redact_split : String → Option (String × String) → String
  redact_split url none = url
  redact_split url (some (base, query)) = redact_query url base query

  -- `redactUrl`
  unfoldable pub redact_url : String → String
  unfolding split_query redact has_sensitive
  redact_url url = redact_split url (split_query url)
