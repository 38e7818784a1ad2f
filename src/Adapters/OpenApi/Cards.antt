-- ===== src/Adapters/OpenApi/Cards.antt =====
-- `glyphsFromOpenApi` with `buildInputSchema` and `buildOutputSchema` of
-- packages/adapters/openapi/src/index.ts. The two schemas that zod and ajv build are left out.
use Prim.Native.String.{String, ◌++◌}
use glyph_protocol.Prelude.{
  suc, Bool, true, ◌==◌, ◌+◌, List, [], ◌∷◌, Option, none, some, if◌then◌else◌, or_else, is_some,
  length,
}
use glyph_protocol.Prelude.Table.{Table}
use glyph_protocol.Json.{Json, null, str, obj, Fields, end, field}
use glyph_protocol.Crypto.{Crypto}
use glyph_protocol.Card.{GlyphCard, Cost, texts, compute_glyph_id}
use glyph_protocol.Attest.Digest.{after}
use glyph_protocol.Adapters.Bridge.{Answer, gave, and_await}
use glyph_protocol.Adapters.OpenApi.{
  HttpMethod, http_methods, upper_name, is_read, delete_method, put, Parameter, RequestBody,
  Operation, OpenApiDoc, OpenApiAdapterOptions, base_url_of, openapi_cost, operation_name,
}
use glyph_protocol.Adapters.OpenApi.Refs.{resolve_refs}
use glyph_protocol.Adapters.OpenApi.Refs.Within.{refs}

-- `resolveRefs(node, doc)`, with more fuel than there are references.
unfoldable pub resolved : Json → Json → Json
resolved doc node =
    or_else (resolve_refs (suc (length (refs node) + length (refs doc))) doc node) null

-- `properties[name] = …`
unfoldable pub put_property : String → Json → Fields → Fields
put_property name v end = if name == "__proto__" then end else field name v end
put_property name v (field k w fs) =
    let rest = put_property name v fs in if k == name then field name v fs else field k w rest

abbrev pub push_text : List String → String → List String
push_text [] s = s ∷ []
push_text (t ∷ ts) s = t ∷ push_text ts s

-- `properties` and `required`.
abbrev pub InputFields : Type 0
InputFields = Fields × List String

-- The loop over the parameters.
unfoldable pub add_parameters : Json → List Parameter → InputFields → InputFields
unfolding resolved put_property
add_parameters doc [] acc = acc
add_parameters doc (p ∷ ps) (properties, required) = add_parameters doc ps (
  put_property p.name (resolved doc (or_else p.schema (obj end))) properties,
  if p.required then push_text required p.name else required,
)

abbrev pub add_body : Json → Option RequestBody → InputFields → InputFields
add_body doc none acc = acc
add_body doc (some body) (properties, required) = elim body.schema [
  | none ↦ (properties, required)
  | some schema ↦ (
    put_property "body" (resolved doc schema) properties,
    if body.required then push_text required "body" else required,
  )
]

abbrev schema_of : InputFields → Json
schema_of (properties, required) = obj (
    field "type" (str "object")
      (field "properties" (obj properties) (field "required" (texts required) end)))

-- `buildInputSchema`
unfoldable pub build_input_schema : Operation → Json → Json
unfolding add_parameters
build_input_schema op doc =
    schema_of (add_body doc op.request_body (add_parameters doc op.parameters (end, [])))

-- The schema of the first response of which the status begins with 2.
unfoldable pub success_schema : Table (Option Json) → Option Json
unfolding after
success_schema [] = none
success_schema ((status, schema) ∷ responses) =
    let rest = success_schema responses in if is_some (after "2" status) then schema else rest

-- `buildOutputSchema`
unfoldable pub build_output_schema : Operation → Json → Json
unfolding success_schema resolved
build_output_schema op doc = elim (success_schema op.responses) [
  | none ↦ obj end
  | some schema ↦ resolved doc schema
]

abbrev is_idempotent : HttpMethod → Bool
is_idempotent delete_method = true
is_idempotent put = true
is_idempotent method = is_read method

-- `op.summary ?? op.description ?? …`
abbrev intent_of : Operation → HttpMethod → String → String
intent_of op method path =
    or_else op.summary (or_else op.description (upper_name method ++ (" " ++ path)))

-- The card of one operation, but for its id.
unfoldable pub openapi_card_base :
    OpenApiDoc → OpenApiAdapterOptions → String → HttpMethod → String → Operation → Cost → GlyphCard
unfolding build_input_schema build_output_schema operation_name
openapi_card_base doc o now method path op cost = record {
  id = "";
  version = "1.0.0";
  name = operation_name method path op.operation_id;
  intent = intent_of op method path;
  tags = or_else op.tags [];
  cost = cost;
  idempotent = is_idempotent method;
  input = build_input_schema op doc.parsed;
  output = build_output_schema op doc.parsed;
  examples = [];
  failure_modes =
      record { code = "HTTP_ERROR"; description = "The upstream API returned a non-2xx status" }
      ∷ [];
  provider = or_else o.provider (or_else doc.title "openapi");
  required_scopes = none;
  attestation = none;
  public_key = none;
  signature = none;
  created_at = now;
}

-- What the two loops run over an operation with.
pub record OpenApiGlyph : Type 0 where
  pub card : GlyphCard
  pub method : HttpMethod
  pub path : String
  pub operation : Operation
  pub base_url : String

module _ (k : Crypto) (doc : OpenApiDoc) (o : OpenApiAdapterOptions) (now base_url : String) where
  unfoldable pub adapt_operation : HttpMethod → String → Operation → Answer OpenApiGlyph
  unfolding openapi_card_base
  adapt_operation method path op = and_await (openapi_cost method op.risk) (λ cost.
      let base = openapi_card_base doc o now method path op cost in
      gave (record {
        card = record base { id = compute_glyph_id k base };
        method = method;
        path = path;
        operation = op;
        base_url = base_url;
      }))

  abbrev adapt_option :
      HttpMethod
      → String
      → Option Operation
      → Answer (List OpenApiGlyph)
      → Answer (List OpenApiGlyph)
  adapt_option method path none later = later
  adapt_option method path (some op) later =
      and_await (adapt_operation method path op) (λ g. and_await later (λ gs. gave (g ∷ gs)))

  -- The loop over the methods of a path.
  unfoldable pub adapt_methods :
      List HttpMethod
      → String
      → (HttpMethod → Option Operation)
      → Answer (List OpenApiGlyph)
      → Answer (List OpenApiGlyph)
  unfolding adapt_operation
  adapt_methods [] path item later = later
  adapt_methods (method ∷ methods) path item later =
      adapt_option method path (item method) (adapt_methods methods path item later)

  unfoldable pub adapt_paths : Table (HttpMethod → Option Operation) → Answer (List OpenApiGlyph)
  unfolding adapt_methods
  adapt_paths [] = gave []
  adapt_paths ((path, item) ∷ paths) = adapt_methods http_methods path item (adapt_paths paths)

-- `glyphsFromOpenApi`
unfoldable pub glyphs_from_openapi :
    Crypto
    → (String → String)
    → OpenApiAdapterOptions
    → String
    → OpenApiDoc
    → Answer (List OpenApiGlyph)
unfolding adapt_paths base_url_of
glyphs_from_openapi k host_of o now doc =
    and_await (base_url_of host_of o doc) (λ base. adapt_paths k doc o now base doc.paths)
