-- ===== src/Server/Define.antt =====
-- `defineGlyph` of packages/server/src/define.ts. The JSON schemas that the zod package derives, and
-- the printed time, are arguments.
pub mod Published
use glyph_protocol.Prelude.{ℕ, String, Bool, false, List, [], ◌∷◌, Option, none, some, or_else}
use glyph_protocol.Json.{Json}
use glyph_protocol.Crypto.{Crypto}
use glyph_protocol.Card.{GlyphCard, Cost, Example, FailureMode, compute_glyph_id}
use glyph_protocol.Server.Api.{Glyph, SafeParse}

-- The configuration; the handler stands in the surroundings of a request.
pub record GlyphConfig : Type 0 where
  pub name : String
  pub intent : String
  pub tags : Option (List String)
  pub cost : Cost
  pub idempotent : Option Bool
  pub input_schema : Json → SafeParse
  pub output_schema : Json → SafeParse
  pub examples : Option (List Example)
  pub failure_modes : Option (List FailureMode)
  pub provider : String
  pub required_scopes : Option (List String)

-- `config.requiredScopes && config.requiredScopes.length > 0 ? … : undefined`
unfoldable pub declared_scopes : Option (List String) → Option (List String)
declared_scopes none = none
declared_scopes (some []) = none
declared_scopes (some (x ∷ xs)) = some (x ∷ xs)

module _ (k : Crypto) (to_json_schema : (Json → SafeParse) → Json) where
  -- `partial`, with what it lacks left empty.
  unfoldable pub partial_card : GlyphConfig → String → GlyphCard
  unfolding declared_scopes
  partial_card c now = record {
    id = "";
    version = "1.0.0";
    name = c.name;
    intent = c.intent;
    tags = or_else c.tags [];
    cost = c.cost;
    idempotent = or_else c.idempotent false;
    input = to_json_schema c.input_schema;
    output = to_json_schema c.output_schema;
    examples = or_else c.examples [];
    failure_modes = or_else c.failure_modes [];
    provider = c.provider;
    required_scopes = declared_scopes c.required_scopes;
    attestation = none;
    public_key = none;
    signature = none;
    created_at = now;
  }

  -- `defineGlyph`
  unfoldable pub define_glyph : GlyphConfig → String → Glyph
  unfolding partial_card
  define_glyph c now = record {
    card = record (partial_card c now) { id = compute_glyph_id k (partial_card c now) };
    input_schema = c.input_schema;
    output_schema = c.output_schema;
  }
