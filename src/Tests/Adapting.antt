-- ===== src/Tests/Adapting.antt =====
-- The theorems on the adapters, at small values.
use glyph_protocol.Prelude.{
  ◌≡◌, refl, true, false, Option, none, some, [], ◌∷◌, ◌==◌, if◌then◌else◌, is_some, or_else, arith,
}
use glyph_protocol.Prelude.Table.{get, set}
use glyph_protocol.Json.{stringify, canonicalize, Json, str, obj, end, field}
use glyph_protocol.Crypto.{toy, canonical_hash}
use glyph_protocol.Attest.{member}
use glyph_protocol.Server.Api.{read_json, parsed, ServerState, all_glyphs}
use glyph_protocol.Server.Handlers.{register}
use glyph_protocol.Server.Middleware.{missing_scopes}
use glyph_protocol.Server.Stores.{consume}
use glyph_protocol.Server.Call.{handle_call, replay_or_confirm, confirm, execute, deliver}
use Prim.Native.String.{String}
use glyph_protocol.Adapters.Naming.{to_lower, lower_char}
use glyph_protocol.Adapters.Bridge.{gave, BridgeClient, Loaded, load_cards, call_tool}
use glyph_protocol.Adapters.Bridge.Names.{Routes, load_cards-Routes}
use glyph_protocol.Adapters.Bridge.Lazy.{Index, lazy_call}
use glyph_protocol.Adapters.Bridge.Guarded.{IsUnguarded, bridges-IsUnguarded}
use glyph_protocol.Adapters.Mcp.{McpTool, McpAdapterOptions, is_dangerous_name, mcp_card}
use glyph_protocol.Adapters.Mcp.Imported.{IsGated, mcp_glyph, mcp_tool-IsGated}
use glyph_protocol.Adapters.OpenApi.{get_method, in_header, Operation}
use glyph_protocol.Adapters.OpenApi.Refs.{resolve_refs}
use glyph_protocol.Adapters.OpenApi.Refs.Within.{refs}
use glyph_protocol.Adapters.OpenApi.Refs.Termination.{resolve_refs_total}
use glyph_protocol.Adapters.OpenApi.Query.{Platform, js_string}
use glyph_protocol.Adapters.OpenApi.Security.{SecurityContext, bearer, http_scheme, apply_security}
use glyph_protocol.Adapters.OpenApi.Request.{
  build_request, place_all, place_value, fetch_headers, append_header,
}
use glyph_protocol.Adapters.OpenApi.Trusted.{build_request-authorization}
use glyph_protocol.Tests.{plain, guarded, config, state, around, body, request, unchanged_text}
use glyph_protocol.Tests.Calling.{answer}

-- A document with a reference to itself.
abbrev circular : Json
circular = obj (field "a" (obj (field "$ref" (str "#/a") end)) end)

resolve_refs_total_example : is_some (resolve_refs 3 circular circular) ≡ true
unfolding refs
resolve_refs_total_example = resolve_refs_total 3 circular circular (omega arith)

abbrev bridged : BridgeClient
bridged = record {
  get_lexicon = gave ("send.mail" ∷ "send" ∷ []);
  get_card = λ name. gave plain;
  call = λ name input. gave answer;
}

abbrev loaded : Loaded
loaded = record {
  cards = ("send.mail", plain) ∷ ("send", plain) ∷ [];
  alias = ("send_mail", "send.mail") ∷ ("send", "send") ∷ [];
}

load_cards-Routes_example : Routes bridged loaded "send.mail" (str "hello")
unfolding load_cards get set
load_cards-Routes_example =
    load_cards-Routes bridged ("send.mail" ∷ "send" ∷ []) loaded "send.mail" (str "hello") refl refl
      refl

abbrev index : Index
index = record { cards = ("send", guarded) ∷ []; loaded = true }

bridges-IsUnguarded_example :
    IsUnguarded loaded.cards ((call_tool bridged loaded "send_mail" (str "hello")).called)
    × IsUnguarded
        ((lazy_call bridged "send_mail" (str "hello") index).1.cards)
        ((lazy_call bridged "send_mail" (str "hello") index).0.called)
bridges-IsUnguarded_example = bridges-IsUnguarded bridged loaded index "send_mail" (str "hello")

-- A tool that says it only reads, and has a name that says otherwise.
abbrev wipe : McpTool
wipe = record {
  name = "wipe_disk";
  description = none;
  input_schema = none;
  output_schema = none;
  annotations = some (record {
    read_only_hint = some true;
    destructive_hint = some false;
    idempotent_hint = none;
  });
}

abbrev options : McpAdapterOptions
options = record {
  provider = none;
  max_tools = none;
  redact_descriptions = false;
  sanitize_errors = false;
}

-- A ticket for it is pending.
abbrev ticketed : ServerState
ticketed = record (state plain) {
  confirmations =
      (
        "id",
        record {
          glyph_name = "wipe-disk";
          input_hash = canonical_hash toy (str "hello");
          expires_at = 100;
        },
      )
      ∷ [];
}

abbrev wiped : ServerState
wiped =
    or_else (register toy config ticketed (mcp_glyph toy options "noon" parsed parsed wipe))
      ticketed

abbrev wipe_call : ServerState
wipe_call =
    (handle_call toy unchanged_text config (request all_glyphs) (around 5) "wipe-disk"
      (body none (some "id")) wiped).1

mcp_tool-IsGated_example :
    IsGated toy unchanged_text config
      (request all_glyphs)
      (around 5)
      "wipe-disk"
      (body none (some "id"))
      wiped
      wipe_call
unfolding mcp_card register is_dangerous_name get
mcp_tool-IsGated_example =
    mcp_tool-IsGated toy unchanged_text config (request all_glyphs) (around 5) options "noon" parsed
      parsed wipe (body none (some "id")) ticketed wiped refl refl

-- The handler did run.
wiped_once : wipe_call.executed ≡ ("wipe-disk", str "hello") ∷ []
unfolding handle_call get register mcp_card set read_json missing_scopes replay_or_confirm confirm
    consume canonical_hash stringify canonicalize execute deliver
wiped_once = refl

abbrev web : Platform
web = record {
  encode = λ s. s;
  parse_query = λ s. if s == "token=abc" then ("token", "abc") ∷ [] else ("token", "***") ∷ [];
  print_query = λ es. "token=***";
  lower = λ s. s;
  base64 = λ s. s;
}

abbrev cased : Platform
cased = record web { lower = to_lower }

-- An operation with this header parameter.
abbrev with_header : String → Operation
with_header name = record {
  operation_id = some "readThing";
  summary = none;
  description = none;
  tags = none;
  parameters = record { name = name; place = in_header; required = false; schema = none } ∷ [];
  request_body = none;
  responses = [];
  security = none;
  risk = none;
}

abbrev context : SecurityContext
context = record {
  security_schemes =
      ("main", record { kind = http_scheme; scheme = some "bearer"; place = none; name = none })
      ∷ [];
  document_security = ("main" ∷ []) ∷ [];
  credentials = ("main", bearer "secret") ∷ [];
}

abbrev traced : Json
traced = obj (field "X-Trace" (str "7") end)

-- The header that `fetch` sends.
abbrev authorization_sent : Operation → Json → Option String
authorization_sent op input =
    get
      (fetch_headers to_lower
        (build_request cased context get_method "/x" op "https://api" input).headers [])
      "authorization"

build_request-authorization_example :
    authorization_sent (with_header "X-Trace") traced
    ≡ authorization_sent (with_header "X-Trace") (obj end)
unfolding to_lower lower_char
build_request-authorization_example =
    build_request-authorization cased context get_method "/x" (with_header "X-Trace") "https://api"
      traced (obj end) refl refl refl

bearer_sent : authorization_sent (with_header "X-Trace") traced ≡ some "Bearer secret"
unfolding build_request place_all place_value apply_security fetch_headers append_header get set
    to_lower lower_char member
bearer_sent = refl

-- A header parameter of the same name in lower case stands beside the credential, and is sent before
-- it.
forged_sent :
    authorization_sent
      (with_header "authorization")
      (obj (field "authorization" (str "forged") end))
    ≡ some "forged, Bearer secret"
unfolding build_request place_all place_value apply_security fetch_headers append_header get set
    to_lower lower_char member js_string
forged_sent = refl
