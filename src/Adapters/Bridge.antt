-- ===== src/Adapters/Bridge.antt =====
-- The bridge that serves glyphs to MCP clients, with every card as a tool:
-- packages/adapters/mcp-server/src/index.ts. The client of the glyph server is an interface.
pub mod Names
pub mod Lazy
pub mod Guarded
use Prim.Native.Char.{Char, code}
use Prim.Native.String.{String, ◌++◌}
use glyph_protocol.Prelude.{
  ℕ, suc, ◌+◌, Bool, true, false, ◌==◌, not, ◌&&◌, ◌||◌, eqb, leb, List, [], ◌∷◌, map, Option, none,
  some, if◌then◌else◌, or_else, decimal,
}
use glyph_protocol.Prelude.Table.{Table, get, set, values}
use glyph_protocol.Json.{
  Json, null, bool, num, str, arr, obj, Items, nil, cons, Fields, end, field, quote, stringify,
}
use glyph_protocol.Card.{GlyphCard, RiskTier, safe, caution, danger, risk_name}
use glyph_protocol.Sanitize.{Finding, Sanitization, kind_name}
use glyph_protocol.Receipt.{SealedEnvelope}
use glyph_protocol.Adapters.Naming.{join}

-- What an awaited step gives: a value, or an exception with its message.
pub data Answer {ℓ} (A : Type ℓ) : Type ℓ where
  threw : String → Answer A
  gave : A → Answer A

abbrev pub and_await {ℓ κ} : {A : Type ℓ} {B : Type κ} → Answer A → (A → Answer B) → Answer B
and_await (threw message) f = threw message
and_await (gave a) f = f a

-- What the bridge takes from `GlyphClient`: the names of the lexicon, a card at depth `rich`, and a
-- call.
pub record BridgeClient : Type 0 where
  pub get_lexicon : Answer (List String)
  pub get_card : String → Answer GlyphCard
  pub call : String → Json → Answer SealedEnvelope

-- `content` is a list of texts, of which each is one block.
pub record ToolResult : Type 0 where
  pub is_error : Bool
  pub content : List String

abbrev pub failed : String → ToolResult
failed message = record { is_error = true; content = message ∷ [] }

-- The characters of `[a-zA-Z0-9_-]`.
abbrev pub is_mcp_char : Char → Bool
is_mcp_char c =
    let n = code c in
    (leb 0x61 n && leb n 0x7a)
    || (leb 0x41 n && leb n 0x5a)
    || (leb 0x30 n && leb n 0x39)
    || eqb n 0x5f
    || eqb n 0x2d

-- A character beyond the basic plane is two code units of a JavaScript text, and each is replaced.
abbrev pub underscores : Char → String → String
underscores c rest =
    if leb 0x10000 (code c) then String.◌∷◌ "_" (String.◌∷◌ "_" rest) else String.◌∷◌ "_" rest

-- `sanitizeMcpName`
unfoldable pub sanitize_mcp_name : String → String
sanitize_mcp_name String.[] = String.[]
sanitize_mcp_name (String.◌∷◌ c s) =
    let rest = sanitize_mcp_name s in
    if is_mcp_char c then String.◌∷◌ c rest else underscores c rest

-- The two maps that `loadCards` fills.
pub record Loaded : Type 0 where
  pub cards : Table GlyphCard
  pub alias : Table String

-- `alias.has(safe)` and what follows it; `taken` is what `alias.get(safe)` answers.
unfoldable pub take_entry : String → GlyphCard → Option String → Loaded → Answer Loaded
unfolding sanitize_mcp_name
take_entry name card (some other) l =
    let safe = sanitize_mcp_name name in
    threw (
      "MCP name collision: glyph \""
      ++ (name
          ++ ("\" and \""
              ++ (other ++ ("\" both normalize to \"" ++ (safe ++ "\". Rename one."))))))
take_entry name card none l =
    gave
      (record { cards = set l.cards name card; alias = set l.alias (sanitize_mcp_name name) name })

-- The loop over the lexicon.
unfoldable pub load_entries : BridgeClient → List String → Loaded → Answer Loaded
unfolding take_entry
load_entries client [] l = gave l
load_entries client (name ∷ names) l = and_await (client.get_card name) (λ card.
    and_await (take_entry name card (get l.alias (sanitize_mcp_name name)) l)
      (load_entries client names))

abbrev pub nothing_loaded : Loaded
nothing_loaded = record { cards = []; alias = [] }

-- `loadCards`, where `cached` is `cacheLexicon !== false` and `held` is what an earlier call stored.
unfoldable pub load_cards : Bool → BridgeClient → Option Loaded → Answer Loaded
unfolding load_entries
load_cards true client (some l) = gave l
load_cards cached client held =
    and_await client.get_lexicon (λ names. load_entries client names nothing_loaded)

-- `JSON.stringify(v, null, 2)`, where `gap` is the line break and the indentation of the value.
mutual
  pretty : String → Json → String
  pretty gap (arr nil) = "[]"
  pretty gap (arr (cons v vs)) =
      "[" ++ (gap ++ ("  " ++ (pretty (gap ++ "  ") v ++ pretty_items gap vs)))
  pretty gap (obj end) = "{}"
  pretty gap (obj (field k v fs)) =
      "{"
      ++ (gap ++ ("  " ++ (quote k ++ (": " ++ (pretty (gap ++ "  ") v ++ pretty_fields gap fs)))))
  pretty gap v = stringify v

  pretty_items : String → Items → String
  pretty_items gap nil = gap ++ "]"
  pretty_items gap (cons v vs) =
      "," ++ (gap ++ ("  " ++ (pretty (gap ++ "  ") v ++ pretty_items gap vs)))

  pretty_fields : String → Fields → String
  pretty_fields gap end = gap ++ "}"
  pretty_fields gap (field k v fs) =
      ","
      ++ (gap ++ ("  " ++ (quote k ++ (": " ++ (pretty (gap ++ "  ") v ++ pretty_fields gap fs)))))

-- The loop over the findings, which adds up the counts of each kind.
unfoldable pub add_counts : List Finding → Table ℕ → Table ℕ
add_counts [] counts = counts
add_counts (f ∷ fs) counts =
    let kind = kind_name f.kind in
    add_counts fs (set counts kind (or_else (get counts kind) 0 + f.count))

unfoldable pub sum : List ℕ → ℕ
sum [] = 0
sum (n ∷ ns) = n + sum ns

unfoldable pub breakdown : Table ℕ → List String
breakdown [] = []
breakdown ((kind, n) ∷ counts) = (decimal n ++ (" " ++ kind)) ∷ breakdown counts

-- The block on the findings, when there are some; `origin` is " from this output" or nothing.
unfoldable pub note_on : String → List Finding → List String
unfolding add_counts sum breakdown join
note_on origin [] = []
note_on origin (f ∷ fs) =
    let counts = add_counts (f ∷ fs) [] in
    ("[glyph: sanitized "
      ++ (decimal (sum (values counts))
          ++ (" invisible character(s)"
              ++ (origin ++ (" — " ++ (join ", " (breakdown counts) ++ "]"))))))
    ∷ []

abbrev pub sanitized_note : String → Option Sanitization → List String
sanitized_note origin none = []
sanitized_note origin (some inspection) = note_on origin inspection.findings

abbrev pub payload_text : (Json → String) → Json → String
payload_text print (str s) = s
payload_text print v = print v

-- `envelopeToMcpResult`
unfoldable pub envelope_to_mcp_result : SealedEnvelope → ToolResult
unfolding note_on pretty
envelope_to_mcp_result e = record {
  is_error = false;
  content = payload_text (pretty "\n") e.payload ∷ sanitized_note " from this output" e.inspection;
}

-- `tags.push(tag)` under a condition.
abbrev tag_if : Bool → String → List String → List String
tag_if b tag rest = if b then tag ∷ rest else rest

abbrev is_safe : RiskTier → Bool
is_safe safe = true
is_safe _ = false

abbrev suffix : List String → String
suffix [] = ""
suffix (tag ∷ tags) = " (" ++ (join ", " (tag ∷ tags) ++ ")")

-- `describeForMcp`
unfoldable pub describe_for_mcp : GlyphCard → String
unfolding join
describe_for_mcp card =
    card.intent
    ++ suffix (
        tag_if (not (is_safe card.cost.risk_tier)) ("risk: " ++ risk_name card.cost.risk_tier) (
          tag_if card.cost.side_effects "has side effects" (
            tag_if (not card.cost.reversible) "not reversible"
              (tag_if card.cost.requires_confirmation "requires confirmation" []))))

pub record McpListing : Type 0 where
  pub name : String
  pub description : String
  pub input_schema : Json

-- The answer of `tools/list`, from the maps.
unfoldable pub list_tools : Loaded → List McpListing
unfolding describe_for_mcp sanitize_mcp_name
list_tools l =
    map
      (λ card. record {
        name = sanitize_mcp_name card.name;
        description = describe_for_mcp card;
        input_schema = card.input;
      })
      (values l.cards)

-- A result and the call that went out for it.
pub record Handled : Type 0 where
  pub result : ToolResult
  pub called : Option String

abbrev pub refused : String → Handled
refused message = record { result = failed message; called = none }

abbrev pub answered : (SealedEnvelope → ToolResult) → String → Answer SealedEnvelope → ToolResult
answered show prefix (threw message) = failed (prefix ++ message)
answered show prefix (gave e) = show e

-- The answer of `tools/call` on the card that was found.
unfoldable pub call_card : BridgeClient → String → String → Option GlyphCard → Json → Handled
unfolding envelope_to_mcp_result
call_card client name original none input = refused ("Unknown Glyph tool: " ++ name)
call_card client name original (some card) input =
    if card.cost.requires_confirmation
    then refused (
        "Glyph tool \""
        ++ (name
            ++ "\" requires confirmation. The MCP bridge cannot satisfy this flow — call this tool via a native Glyph client that supports the prepare/confirm handshake."))
    else record {
      result = answered envelope_to_mcp_result "Glyph call failed: " (client.call original input);
      called = some original;
    }

-- `tools/call`, with the arguments or `{}`.
unfoldable pub call_tool : BridgeClient → Loaded → String → Json → Handled
unfolding call_card
call_tool client l name input =
    let original = or_else (get l.alias name) name in
    call_card client name original (get l.cards original) input

-- The handler of `tools/call`; an exception of `loadCards` is its own.
unfoldable pub serve_call : Bool → BridgeClient → Option Loaded → String → Json → Answer Handled
unfolding load_cards call_tool
serve_call cached client held name input =
    and_await (load_cards cached client held) (λ l. gave (call_tool client l name input))
