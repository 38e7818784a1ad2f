-- ===== src/Adapters/Mcp.antt =====
-- The MCP adapter: packages/adapters/mcp/src/index.ts, with the types of
-- packages/adapters/mcp/src/mcp-types.ts. The tool call is a parameter.
pub mod Imported
use Prim.Native.Char.{Char, code}
use Prim.Native.String.{String, ◌++◌}
use glyph_protocol.Prelude.{
  ℕ, Bool, true, false, ◌==◌, not, ◌&&◌, ◌||◌, eqb, ltb, leb, List, [], ◌∷◌, map, length, Option,
  none, some, if◌then◌else◌, or_else, truthy, decimal, includes, any,
}
use glyph_protocol.Json.{Json, null, bool, num, str, arr, obj, Items, nil, cons, Fields, end, field}
use glyph_protocol.Crypto.{Crypto}
use glyph_protocol.Card.{
  GlyphCard, Cost, medium, RiskTier, safe, caution, danger, items_of, opt_field, opt_map,
  compute_glyph_id,
}
use glyph_protocol.Adapters.Naming.{
  is_lower_or_digit, is_alphanumeric, split_camel, squeeze, to_lower, to_kebab, join,
}
use glyph_protocol.Adapters.Bridge.{Answer, threw, gave}

pub record McpToolAnnotations : Type 0 where
  pub read_only_hint : Option Bool
  pub destructive_hint : Option Bool
  pub idempotent_hint : Option Bool

pub record McpTool : Type 0 where
  pub name : String
  pub description : Option String
  pub input_schema : Option Json
  pub output_schema : Option Json
  pub annotations : Option McpToolAnnotations

pub record McpContentBlock : Type 0 where
  pub kind : String
  pub text : Option String

pub record McpToolResult : Type 0 where
  pub content : Option (List McpContentBlock)
  pub structured_content : Option Json
  pub is_error : Bool

pub record McpAdapterOptions : Type 0 where
  pub provider : Option String
  pub max_tools : Option ℕ
  pub redact_descriptions : Bool
  pub sanitize_errors : Bool

-- The words of `DANGEROUS_TOOL_WORDS`.
abbrev pub dangerous_words : List String
dangerous_words =
    "delete" ∷ "destroy" ∷ "remove" ∷ "truncate" ∷ "exec" ∷ "overwrite" ∷ "wipe" ∷ "purge" ∷ "drop"
    ∷ "write" ∷ "update" ∷ "kill" ∷ []

-- The characters of `\w`.
abbrev is_word_char : Char → Bool
is_word_char c = is_alphanumeric c || eqb (code c) 0x5f

abbrev add_char : Char → List String → List String
add_char c [] = (String.◌∷◌ c String.[]) ∷ []
add_char c (run ∷ runs) = String.◌∷◌ c run ∷ runs

-- The pieces of a text between its characters outside `\w`. A word stands between two `\b` exactly
-- where it is a whole piece.
unfoldable pub word_runs : String → List String
word_runs String.[] = "" ∷ []
word_runs (String.◌∷◌ c s) =
    let rest = word_runs s in if is_word_char c then add_char c rest else "" ∷ rest

abbrev is_separator : Char → Bool
is_separator c = eqb (code c) 0x5f || eqb (code c) 0x2d

-- `isDangerousName`
unfoldable pub is_dangerous_name : String → Bool
unfolding split_camel squeeze to_lower word_runs
is_dangerous_name name =
    any (includes dangerous_words)
      (word_runs (to_lower (split_camel " " (squeeze is_separator " " false name))))

-- `hint === true`
abbrev pub is_set : Option Bool → Bool
is_set (some b) = b
is_set none = false

abbrev pub hint : (McpToolAnnotations → Option Bool) → Option McpToolAnnotations → Option Bool
hint f none = none
hint f (some a) = f a

-- `deriveCost`
unfoldable pub derive_cost : String → Option McpToolAnnotations → Cost
unfolding is_dangerous_name
derive_cost name annotations =
    let dangerous = is_dangerous_name name in
    let read_only = is_set (hint (λ a. a.read_only_hint) annotations) && not dangerous in
    let destructive = is_set (hint (λ a. a.destructive_hint) annotations) || dangerous in
    record {
      latency = medium;
      side_effects = not read_only;
      reversible = read_only;
      risk_tier = if destructive then danger else if read_only then safe else caution;
      requires_confirmation = destructive;
    }

-- The card of one tool, but for its id.
unfoldable pub mcp_card_base : McpAdapterOptions → String → McpTool → GlyphCard
unfolding derive_cost to_kebab
mcp_card_base options now tool = record {
  id = "";
  version = "1.0.0";
  name = to_kebab tool.name;
  intent = if options.redact_descriptions then tool.name else or_else tool.description tool.name;
  tags = "mcp" ∷ [];
  cost = derive_cost tool.name tool.annotations;
  idempotent = or_else (hint (λ a. a.idempotent_hint) tool.annotations) false;
  input = or_else tool.input_schema (obj (field "type" (str "object") end));
  output = or_else tool.output_schema (obj end);
  examples = [];
  failure_modes =
      record { code = "MCP_ERROR"; description = "The MCP tool call returned an error" } ∷ [];
  provider = or_else options.provider "mcp";
  required_scopes = none;
  attestation = none;
  public_key = none;
  signature = none;
  created_at = now;
}

unfoldable pub mcp_card : Crypto → McpAdapterOptions → String → McpTool → GlyphCard
unfolding mcp_card_base
mcp_card k options now tool =
    let base = mcp_card_base options now tool in record base { id = compute_glyph_id k base }

-- `.map((block) => block.text).filter(Boolean)`
unfoldable pub block_texts : List McpContentBlock → List String
block_texts [] = []
block_texts (block ∷ blocks) =
    let rest = block_texts blocks in
    if truthy block.text then or_else block.text "" ∷ rest else rest

-- The text of an error's blocks, or `unknown error`.
unfoldable pub error_text : Option (List McpContentBlock) → String
unfolding block_texts join
error_text none = "unknown error"
error_text (some blocks) =
    let text = join " " (block_texts blocks) in if text == "" then "unknown error" else text

abbrev block_json : McpContentBlock → Json
block_json block =
    obj (field "type" (str block.kind) (opt_field "text" (opt_map str block.text) end))

-- `result.structuredContent ?? result.content ?? null`
abbrev pub output_of : Option Json → Option (List McpContentBlock) → Json
output_of none none = null
output_of none (some blocks) = arr (items_of block_json blocks)
output_of (some null) none = null
output_of (some null) (some blocks) = arr (items_of block_json blocks)
output_of (some v) content = v

-- What follows the awaited call; `threw` is the exception of `callTool` itself.
unfoldable pub finish : String → Bool → Answer McpToolResult → Answer Json
unfolding error_text
finish name sanitize_errors (threw message) = threw message
finish name sanitize_errors (gave result) =
    if result.is_error
    then (if sanitize_errors
        then threw ("MCP tool \"" ++ (name ++ "\" failed"))
        else threw ("MCP tool \"" ++ (name ++ ("\" failed: " ++ error_text result.content))))
    else gave (output_of result.structured_content result.content)

-- `buildHandler`, on the name that the MCP server gave the tool.
unfoldable pub mcp_handler :
    (String → Json → Answer McpToolResult) → Bool → String → Json → Answer Json
unfolding finish
mcp_handler call_tool sanitize_errors name input =
    finish name sanitize_errors (call_tool name input)

-- A `GlyphDefinition`, but for its two schemas, which zod and ajv build.
pub record McpGlyph : Type 0 where
  pub card : GlyphCard
  pub handler : Json → Answer Json

abbrev pub exceeds : Option ℕ → ℕ → Bool
exceeds none n = false
exceeds (some most) n = ltb most n

abbrev pub too_many_tools : ℕ → ℕ → String
too_many_tools n most =
    "MCP server exposed " ++ (decimal n ++ (" tools, exceeding maxTools=" ++ decimal most))

-- `glyphsFromMcpTools`
unfoldable pub glyphs_from_mcp_tools :
    Crypto
    → McpAdapterOptions
    → String
    → (String → Json → Answer McpToolResult)
    → List McpTool
    → Answer (List McpGlyph)
unfolding mcp_card mcp_handler
glyphs_from_mcp_tools k options now call_tool tools =
    if exceeds options.max_tools (length tools)
    then threw (too_many_tools (length tools) (or_else options.max_tools 0))
    else gave (
        map
          (λ tool. record {
            card = mcp_card k options now tool;
            handler = mcp_handler call_tool options.sanitize_errors tool.name;
          })
          tools)
