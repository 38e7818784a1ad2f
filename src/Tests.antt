-- ===== src/Tests.antt =====
-- A small tool, its server and its client, on which the theorems are applied: the cards, the
-- requests and the states that the examples below share.
pub mod Cards
pub mod Texts
pub mod Serving
pub mod Limiting
pub mod Calling
pub mod Auditing
pub mod Registry
pub mod Attesting
pub mod Adapting
pub mod Starting
use glyph_protocol.Prelude.{
  ℕ, String, ◌≡◌, refl, Bool, true, false, List, [], ◌∷◌, Option, none, some,
}
use glyph_protocol.Json.{Json, num, str, obj, field, end}
use glyph_protocol.Crypto.{toy}
use glyph_protocol.Card.{GlyphCard, RiskTier, caution, medium}
use glyph_protocol.Card.Identity.{published}
use glyph_protocol.Sanitize.Strip.{IsNormalization}
use glyph_protocol.Server.Api.{
  Glyph, parsed, Config, ServerState, Surroundings, Request, Route, call, CallBody, Body, returned,
}

abbrev pub draft : RiskTier → Bool → String → GlyphCard
draft tier confirms intent = record {
  id = "";
  version = "1.0.0";
  name = "send";
  intent = intent;
  tags = "mail" ∷ [];
  cost = record {
    latency = medium;
    side_effects = true;
    reversible = false;
    risk_tier = tier;
    requires_confirmation = confirms;
  };
  idempotent = false;
  input = obj (field "type" (str "string") end);
  output = obj end;
  examples = [];
  failure_modes = [];
  provider = "acme";
  required_scopes = some ("mail" ∷ []);
  attestation = none;
  public_key = none;
  signature = none;
  created_at = "2026-01-01";
}

-- A tool that needs a ticket, and one that does not.
abbrev pub guarded : GlyphCard
guarded = published toy "key" (draft caution true "Send a mail")

abbrev pub plain : GlyphCard
plain = published toy "key" (draft caution false "Send a mail")

-- The plain tool with another intent.
abbrev pub reworded : GlyphCard
reworded = published toy "key" (draft caution false "Post a mail")

abbrev pub glyph_of : GlyphCard → Glyph
glyph_of c = record { card = c; input_schema = parsed; output_schema = parsed }

abbrev pub unchanged_text : String → String
unchanged_text s = s

abbrev pub config : Config
config = record {
  private_key = "key";
  auth = none;
  rate_limit = none;
  key_registry = none;
  policy = some (λ r. some (some (record { scopes = "mail" ∷ [] })));
  max_pending_confirmations = 4;
  max_body_bytes = 1000;
  dedupe_ttl_ms = some 1000;
  has_on_call = true;
}

abbrev pub state : GlyphCard → ServerState
state c = record {
  glyphs = ("send", glyph_of c) ∷ [];
  manifests = [];
  confirmations = [];
  windows = [];
  recorded = [];
  audited = [];
  executed = [];
}

abbrev pub around : ℕ → Surroundings
around now = record {
  now_limit = now;
  now_prepare = now;
  now_dedupe = now;
  now_confirm = now;
  started = now;
  finished = now;
  now_record = now;
  timestamp = "noon";
  fresh_id = "id";
  run_handler = λ name input. returned (num "1");
}

abbrev pub body : Option String → Option String → Body CallBody
body id token = record {
  content_length = none;
  size = 10;
  content = some (record { input = str "hello"; call_id = id; confirmation_token = token });
}

abbrev pub request : Route → Request
request route = record { authorization = none; remote_address = none; route = route }

pub unchanged_text-IsNormalization : IsNormalization unchanged_text
unchanged_text-IsNormalization = record { nfkc_idem = λ s. refl; nfkc-IsCleanText = λ s h. h }
