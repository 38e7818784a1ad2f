-- ===== src/Adapters/OpenApi/Request.antt =====
-- The request that an adapted operation sends and what becomes of the response: `buildHandler` and
-- `parseResponse` of packages/adapters/openapi/src/index.ts.
pub mod Wire
use Prim.Native.Char.{code}
use Prim.Native.String.{String, ◌++◌}
use glyph_protocol.Prelude.{
  ℕ, Bool, ◌==◌, not, ◌||◌, eqb, List, [], ◌∷◌, Option, none, some, if◌then◌else◌, or_else, is_some,
  decimal,
}
use glyph_protocol.Prelude.Table.{Table, get, set}
use glyph_protocol.Json.{Json, null, str, obj, end, field, stringify}
use glyph_protocol.Attest.{property}
use glyph_protocol.Attest.Digest.{after}
use glyph_protocol.Adapters.Naming.{join}
use glyph_protocol.Adapters.Bridge.{Answer, threw, gave}
use glyph_protocol.Adapters.OpenApi.{
  HttpMethod, upper_name, Parameter, in_path, in_query, in_header, in_cookie, RequestBody,
  Operation,
}
use glyph_protocol.Adapters.OpenApi.Query.{
  Platform, js_string, append_query, set_header, replace_first, with_query, redact_url,
}
use glyph_protocol.Adapters.OpenApi.Security.{
  Building, push_cookie, SecurityContext, apply_security, query_scheme_names,
}

module _ (web : Platform) where
  -- The `switch` on one parameter that has a value.
  unfoldable pub place_value : Parameter → Json → Building → Building
  unfolding append_query replace_first
  place_value p v b = elim p.place [
    | in_path ↦ record b {
      url = replace_first ("{" ++ (p.name ++ "}")) (web.encode (js_string v)) b.url;
    }
    | in_query ↦ record b { query = append_query b.query p.name v }
    | in_header ↦ record b { headers = set_header b.headers p.name (js_string v) }
    | in_cookie ↦ record b {
      cookies = push_cookie b.cookies (p.name ++ ("=" ++ web.encode (js_string v)));
    }
  ]

  abbrev pub place_option : Parameter → Option Json → Building → Building
  place_option p none b = b
  place_option p (some v) b = place_value p v b

  -- The loop over the parameters.
  unfoldable pub place_all : List Parameter → Json → Building → Building
  unfolding place_value
  place_all [] input b = b
  place_all (p ∷ ps) input b = place_all ps input (place_option p (property p.name input) b)

-- `base.replace(/\/$/, '')`
unfoldable pub drop_slash : String → String
drop_slash String.[] = String.[]
drop_slash (String.◌∷◌ c String.[]) =
    if eqb (code c) 0x2f then String.[] else String.◌∷◌ c String.[]
drop_slash (String.◌∷◌ c (String.◌∷◌ d s)) = String.◌∷◌ c (drop_slash (String.◌∷◌ d s))

pub record Sent : Type 0 where
  pub url : String
  pub method : String
  pub headers : Table String
  pub body : Option String

pub record Response : Type 0 where
  pub ok : Bool
  pub status : ℕ
  pub content_type : Option String
  pub text : String

-- `fetch` reads the headers of the record in order, with names in lower case, and joins the values of
-- names that are then the same.
unfoldable pub append_header : Table String → String → String → Table String
append_header headers name value = elim (get headers name) [
  | none ↦ set headers name value
  | some before ↦ set headers name (before ++ (", " ++ value))
]

unfoldable pub fetch_headers : (String → String) → Table String → Table String → Table String
unfolding append_header
fetch_headers lower [] sent = sent
fetch_headers lower ((name, value) ∷ headers) sent =
    fetch_headers lower headers (append_header sent (lower name) value)

abbrev pub with_cookies : List String → Table String → Table String
with_cookies [] headers = headers
with_cookies (c ∷ cookies) headers = set headers "Cookie" (join "; " (c ∷ cookies))

abbrev pub with_body : Option RequestBody → Option Json → Sent → Sent
with_body (some body) (some v) sent = record sent {
  headers = set sent.headers "Content-Type" "application/json";
  body = some (stringify v);
}
with_body _ _ sent = sent

-- `contentType.includes('application/json')`
unfoldable pub contains : String → String → Bool
unfolding after
contains part String.[] = part == ""
contains part (String.◌∷◌ c s) = is_some (after part (String.◌∷◌ c s)) || contains part s

abbrev raw_text : String → String → Json
raw_text text content_type =
    obj (field "raw" (str text) (field "contentType" (str content_type) end))

abbrev pub parsed_or : Json → Option Json → Json
parsed_or v none = v
parsed_or v (some w) = w

-- `parseResponse`
unfoldable pub parse_response : (String → Option Json) → Response → Json
unfolding contains
parse_response parse_json res =
    let content_type = or_else res.content_type "" in
    if res.text == ""
    then null
    else if content_type == ""
    then parsed_or null (parse_json res.text)
    else if contains "application/json" content_type
    then parsed_or (raw_text res.text content_type) (parse_json res.text)
    else raw_text res.text content_type

module _ (web : Platform) (ctx : SecurityContext) (method : HttpMethod) (path : String)
    (op : Operation) (base_url : String) where
  -- The request, up to the call of `fetch`.
  unfoldable pub build_request : Json → Sent
  unfolding place_all apply_security drop_slash join
  build_request input =
      let start : Building = record {
        url = drop_slash base_url ++ path;
        query = [];
        headers = [];
        cookies = [];
      } in
      let placed = place_all web op.parameters input start in
      let built = apply_security web ctx (or_else op.security ctx.document_security) placed in
      with_body op.request_body (property "body" input) (record {
        url = with_query built.url (web.print_query built.query);
        method = upper_name method;
        headers = with_cookies built.cookies built.headers;
        body = none;
      })

  abbrev pub respond : (String → Option Json) → Sent → Answer Response → Answer Json
  respond parse_json sent (threw message) = threw message
  respond parse_json sent (gave res) =
      if not res.ok
      then threw (
          "HTTP "
          ++ (decimal res.status
              ++ (" from "
                  ++ (sent.method
                      ++ (" "
                          ++ redact_url web (query_scheme_names ctx.security_schemes) sent.url)))))
      else gave (parse_response parse_json res)

  -- `buildHandler`
  unfoldable pub openapi_handler :
      (String → Option Json) → (Sent → Answer Response) → Json → Answer Json
  unfolding build_request parse_response redact_url query_scheme_names
  openapi_handler parse_json fetch input =
      let sent = build_request input in respond parse_json sent (fetch sent)
