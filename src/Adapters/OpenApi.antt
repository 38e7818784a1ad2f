-- ===== src/Adapters/OpenApi.antt =====
-- The OpenAPI adapter: packages/adapters/openapi/src/index.ts, with the types of
-- packages/adapters/openapi/src/openapi-types.ts. The fields of `OpenApiDoc` are those that the code
-- reads of the parsed document, which references point into.
pub mod Refs
pub mod Query
pub mod Cards
pub mod Security
pub mod Request
pub mod Trusted
use Prim.Native.Char.{Char, code}
use Prim.Native.String.{String, ◌++◌}
use glyph_protocol.Prelude.{
  ℕ, Bool, true, false, ◌==◌, not, ◌&&◌, ◌||◌, eqb, leb, List, [], ◌∷◌, Option, none, some,
  if◌then◌else◌, or_else, truthy, includes,
}
use glyph_protocol.Prelude.Table.{Table, get}
use glyph_protocol.Json.{
  Json, null, bool, num, str, arr, obj, Items, nil, cons, Fields, end, field, insert_key,
}
use glyph_protocol.Crypto.{Crypto}
use glyph_protocol.Card.{
  GlyphCard, Cost, medium, RiskTier, safe, caution, danger, texts, compute_glyph_id,
}
use glyph_protocol.Attest.Digest.{after}
use glyph_protocol.Adapters.Naming.{to_kebab}
use glyph_protocol.Adapters.Bridge.{Answer, threw, gave, and_await}

pub data HttpMethod : Type 0 where
  get_method post put patch delete_method : HttpMethod

abbrev pub method_name : HttpMethod → String
method_name get_method = "get"
method_name post = "post"
method_name put = "put"
method_name patch = "patch"
method_name delete_method = "delete"

abbrev pub upper_name : HttpMethod → String
upper_name get_method = "GET"
upper_name post = "POST"
upper_name put = "PUT"
upper_name patch = "PATCH"
upper_name delete_method = "DELETE"

-- `HTTP_METHODS`
abbrev pub http_methods : List HttpMethod
http_methods = get_method ∷ post ∷ put ∷ patch ∷ delete_method ∷ []

pub data ParameterPlace : Type 0 where
  in_path in_query in_header in_cookie : ParameterPlace

pub record Parameter : Type 0 where
  pub name : String
  pub place : ParameterPlace
  pub required : Bool
  pub schema : Option Json

-- The schema is that of `application/json`.
pub record RequestBody : Type 0 where
  pub required : Bool
  pub schema : Option Json

-- A security requirement: the names of its schemes.
abbrev pub Requirement : Type 0
Requirement = List String

-- A response's schema is that of `application/json`.
pub record Operation : Type 0 where
  pub operation_id : Option String
  pub summary : Option String
  pub description : Option String
  pub tags : Option (List String)
  pub parameters : List Parameter
  pub request_body : Option RequestBody
  pub responses : Table (Option Json)
  pub security : Option (List Requirement)
  pub risk : Option String

pub record OpenApiDoc : Type 0 where
  pub parsed : Json
  pub title : Option String
  pub server_url : Option String
  pub paths : Table (HttpMethod → Option Operation)

pub record OpenApiAdapterOptions : Type 0 where
  pub base_url : Option String
  pub provider : Option String
  pub allow_document_server_url : Bool
  pub allowed_hosts : List String

-- `options.allowedHosts.length > 0 && !options.allowedHosts.includes(host)`
abbrev pub is_refused_host : List String → String → Bool
is_refused_host [] host = false
is_refused_host (h ∷ hosts) host = not (includes (h ∷ hosts) host)

abbrev pub host_message : String → String
host_message host =
    "OpenAPI adapter: document server URL host \""
    ++ (host ++ "\" is not in the allowed hosts list")

-- The two branches that read the document's server URL, for the host that `extractHost` finds in it.
abbrev pub document_base : (String → String) → OpenApiAdapterOptions → Option String → Answer String
document_base host_of o none =
    if o.allow_document_server_url
    then threw
        "OpenAPI adapter: allowDocumentServerUrl is true but the document declares no servers[].url"
    else threw
        "OpenAPI adapter requires a baseUrl (or allowDocumentServerUrl + a `servers[]` entry in the document)"
document_base host_of o (some url) =
    if o.allow_document_server_url
    then (if url == ""
        then threw
            "OpenAPI adapter: allowDocumentServerUrl is true but the document declares no servers[].url"
        else if is_refused_host o.allowed_hosts (host_of url)
        then threw (host_message (host_of url))
        else gave url)
    else if url == ""
    then threw
        "OpenAPI adapter requires a baseUrl (or allowDocumentServerUrl + a `servers[]` entry in the document)"
    else threw
        "OpenAPI adapter: document declares a server URL but no explicit baseUrl is provided. Set `baseUrl` to use a trusted URL, or set `allowDocumentServerUrl: true` to opt in to the document-declared URL. Implicit trust of document server URLs is refused as an SSRF vector."

-- The choice of `baseUrl` in `glyphsFromOpenApi`; `extractHost` is a parameter, since the URL parser
-- is the platform's.
unfoldable pub base_url_of : (String → String) → OpenApiAdapterOptions → OpenApiDoc → Answer String
base_url_of host_of o doc =
    if truthy o.base_url
    then gave (or_else o.base_url "")
    else document_base host_of o doc.server_url

abbrev pub is_read : HttpMethod → Bool
is_read get_method = true
is_read _ = false

abbrev pub derived_tier : HttpMethod → RiskTier
derived_tier delete_method = danger
derived_tier get_method = safe
derived_tier _ = caution

-- `RISK_TIERS.has(override)`, with the tier that it names.
unfoldable pub tier_named : String → Option RiskTier
tier_named s =
    if s == "safe"
    then some safe
    else if s == "caution"
    then some caution
    else if s == "danger"
    then some danger
    else none

abbrev pub asks_confirmation : RiskTier → Bool
asks_confirmation danger = true
asks_confirmation _ = false

abbrev pub cost_with : HttpMethod → RiskTier → Cost
cost_with method tier = record {
  latency = medium;
  side_effects = not (is_read method);
  reversible = is_read method;
  risk_tier = tier;
  requires_confirmation = asks_confirmation tier;
}

abbrev pub known_tier : String → Option RiskTier → Answer RiskTier
known_tier override none =
    threw ("invalid x-glyph-risk \"" ++ (override ++ "\" — expected one of safe, caution, danger"))
known_tier override (some tier) = gave tier

abbrev pub tier_of : HttpMethod → Option String → Answer RiskTier
tier_of method none = gave (derived_tier method)
tier_of method (some override) = known_tier override (tier_named override)

-- `deriveCost`
unfoldable pub openapi_cost : HttpMethod → Option String → Answer Cost
unfolding tier_named
openapi_cost method risk = and_await (tier_of method risk) (λ tier. gave (cost_with method tier))

abbrev is_brace : Char → Bool
is_brace c = eqb (code c) 0x7b || eqb (code c) 0x7d

-- `path.replace(/[{}]/g, '')`
unfoldable pub drop_braces : String → String
drop_braces String.[] = String.[]
drop_braces (String.◌∷◌ c s) =
    let rest = drop_braces s in if is_brace c then rest else String.◌∷◌ c rest

-- `operationName`
unfoldable pub operation_name : HttpMethod → String → Option String → String
unfolding drop_braces
operation_name method path id =
    if truthy id
    then to_kebab (or_else id "")
    else to_kebab (method_name method ++ ("-" ++ drop_braces path))
