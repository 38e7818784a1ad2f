-- ===== src/Adapters/Bridge/Lazy.antt =====
-- The bridge with three meta-tools: packages/adapters/mcp-server/src/lazy.ts.
use Prim.Native.String.{String, ◌++◌}
use glyph_protocol.Prelude.{
  Bool, true, false, ◌==◌, not, ◌||◌, List, [], ◌∷◌, Option, none, some, if◌then◌else◌,
}
use glyph_protocol.Prelude.Table.{Table, get, set, values}
use glyph_protocol.Json.{Json, null, str, arr, obj, end, field, stringify}
use glyph_protocol.Card.{GlyphCard, risk_name, cost_json, items_of}
use glyph_protocol.Receipt.{SealedEnvelope}
use glyph_protocol.Attest.{property}
use glyph_protocol.Adapters.Bridge.{
  Answer, threw, gave, BridgeClient, ToolResult, Handled, refused, answered, note_on,
  sanitized_note, payload_text,
}

-- `cards` and `indexLoaded`.
pub record Index : Type 0 where
  pub cards : Table GlyphCard
  pub loaded : Bool

-- What `ensureIndex` leaves, and its exception.
abbrev pub Indexed : Type 0
Indexed = Index × Option String

-- The loop of `ensureIndex`: the cards that it has set stay when it throws.
unfoldable pub index_entries : BridgeClient → List String → Table GlyphCard → Indexed
index_entries client [] cards = (record { cards = cards; loaded = true }, none)
index_entries client (name ∷ names) cards = elim (client.get_card name) [
  | threw message ↦ (record { cards = cards; loaded = false }, some message)
  | gave card ↦ index_entries client names (set cards name card)
]

abbrev pub index_from : BridgeClient → Answer (List String) → Index → Indexed
index_from client (threw message) s = (s, some message)
index_from client (gave names) s = index_entries client names s.cards

-- `ensureIndex`
unfoldable pub ensure_index : BridgeClient → Index → Indexed
unfolding index_entries
ensure_index client s = if s.loaded then (s, none) else index_from client client.get_lexicon s

abbrev listing_json : GlyphCard → Json
listing_json c = obj (
    field "name" (str c.name)
      (field "intent" (str c.intent) (field "riskTier" (str (risk_name c.cost.risk_tier)) end)))

abbrev described : GlyphCard → Json
described c = obj (
    field "name" (str c.name) (
      field "intent" (str c.intent)
        (field "input" c.input (field "output" c.output (field "cost" (cost_json c.cost) end)))))

abbrev shown : Json → Handled
shown v = record { result = record { is_error = false; content = stringify v ∷ [] }; called = none }

-- `envelopeToMcpResult` of this file.
unfoldable pub lazy_result : SealedEnvelope → ToolResult
unfolding note_on
lazy_result e = record {
  is_error = false;
  content = payload_text stringify e.payload ∷ sanitized_note "" e.inspection;
}

-- `name` of the arguments, which the code takes to be a text, when it is not empty.
abbrev pub target_of : Json → Option String
target_of args = elim (property "name" args) [
  | some (str s) ↦ if s == "" then none else some s
  | _ ↦ none
]

unfoldable pub describe_card : String → Option GlyphCard → Handled
describe_card target none = refused ("unknown glyph: " ++ target)
describe_card target (some card) = shown (described card)

unfoldable pub invoke_card : BridgeClient → String → Option GlyphCard → Json → Handled
unfolding lazy_result
invoke_card client target none input = refused ("unknown glyph: " ++ target)
invoke_card client target (some card) input =
    if card.cost.requires_confirmation
    then refused
        ("glyph \"" ++ (target ++ "\" requires confirmation; not supported via MCP bridge"))
    else record {
      result = answered lazy_result "lazy bridge error: " (client.call target input);
      called = some target;
    }

-- `p.arguments ?? {}`
abbrev pub arguments_of : Json → Json
arguments_of args = elim (property "arguments" args) [
  | none ↦ obj end
  | some null ↦ obj end
  | some v ↦ v
]

abbrev pub describe_target : Table GlyphCard → Option String → Handled
describe_target cards none = refused "glyph_describe requires {name}"
describe_target cards (some target) = describe_card target (get cards target)

abbrev pub invoke_target : BridgeClient → Table GlyphCard → Option String → Json → Handled
invoke_target client cards none input = refused "glyph_invoke requires {name}"
invoke_target client cards (some target) input = invoke_card client target (get cards target) input

-- A meta-tool once the index is there.
unfoldable pub run_meta : BridgeClient → Table GlyphCard → String → Json → Handled
unfolding describe_card invoke_card
run_meta client cards name args =
    if name == "glyph_index"
    then shown (arr (items_of listing_json (values cards)))
    else if name == "glyph_describe"
    then describe_target cards (target_of args)
    else invoke_target client cards (target_of args) (arguments_of args)

abbrev pub is_meta : String → Bool
is_meta name = name == "glyph_index" || name == "glyph_describe" || name == "glyph_invoke"

abbrev pub run_indexed : BridgeClient → String → Json → Indexed → Handled × Index
run_indexed client name args (s, some message) = (refused ("lazy bridge error: " ++ message), s)
run_indexed client name args (s, none) = (run_meta client s.cards name args, s)

-- The handler of `tools/call`, with the arguments or `{}`.
unfoldable pub lazy_call : BridgeClient → String → Json → Index → Handled × Index
unfolding ensure_index run_meta
lazy_call client name args s =
    if not (is_meta name)
    then (refused ("unknown meta-tool: " ++ name), s)
    else run_indexed client name args (ensure_index client s)
