-- ===== src/Client/Requests.antt =====
-- The single requests of packages/client/src/index.ts: `buildHeaders`, `get`, `post`, `connect`,
-- `getLexicon` and `prepare`. A body is the value that is printed; the names of headers are in lower
-- case, as the platform keeps them; `encode` is the platform's `encodeURIComponent`.
pub mod Connected
use Prim.Native.String.{◌++◌}
use glyph_protocol.Prelude.{
  ℕ, String, Bool, true, false, List, Option, none, some, truthy, or_else, if◌then◌else◌,
}
use glyph_protocol.Prelude.Table.{Table, set}
use glyph_protocol.Json.{Json}
use glyph_protocol.Card.Depth.{CardDepth, standard, LexiconEntry}
use glyph_protocol.Server.Api.{HandshakeResponse, ConfirmationTicket}
use glyph_protocol.Server.Handlers.{protocol_version}
use glyph_protocol.Client.Pins.{Result, ok, err, request_failed}

-- The fields of the client that its requests use.
pub record Connection : Type 0 where
  pub base_url : String
  pub consumer_id : String
  pub context_budget : ℕ
  pub auth_token : Option String
  pub extra_headers : Table String

pub record HttpRequest {ℓ} (B : Type ℓ) : Type ℓ where
  pub method : String
  pub url : String
  pub headers : Table String
  pub body : Option B

pub record HandshakeRequest : Type 0 where
  pub protocol_version : String
  pub consumer_id : String
  pub context_budget : ℕ
  pub preferred_card_depth : CardDepth

pub record PrepareRequest : Type 0 where
  pub input : Json

-- `buildHeaders`
unfoldable pub build_headers : Connection → Bool → Table String
build_headers c json =
    let typed =
      if json then set c.extra_headers "content-type" "application/json" else c.extra_headers in
    if truthy c.auth_token
    then set typed "authorization" ("Bearer " ++ or_else c.auth_token "")
    else typed

-- A reply that is no success, or is not JSON, throws.
abbrev pub or_throw {ℓ} : {A : Type ℓ} → Option A → Result A
or_throw none = err request_failed
or_throw (some a) = ok a

-- `get`, over a network that answers nothing where the request fails.
unfoldable pub get_path {ℓ κ} :
    {A : Type ℓ} {B : Type κ} → Connection → (HttpRequest B → Option A) → String → Result A
unfolding build_headers
get_path c fetch path = or_throw (
    fetch (record {
      method = "GET";
      url = c.base_url ++ path;
      headers = build_headers c false;
      body = none;
    }))

-- `post`
unfoldable pub post_path {ℓ κ} :
    {A : Type ℓ} {B : Type κ} → Connection → (HttpRequest B → Option A) → String → B → Result A
unfolding build_headers
post_path c fetch path body = or_throw (
    fetch (record {
      method = "POST";
      url = c.base_url ++ path;
      headers = build_headers c true;
      body = some body;
    }))

-- The body of `connect`.
abbrev pub handshake_request : Connection → Option CardDepth → HandshakeRequest
handshake_request c depth = record {
  protocol_version = protocol_version;
  consumer_id = c.consumer_id;
  context_budget = c.context_budget;
  preferred_card_depth = or_else depth standard;
}

-- `connect`
unfoldable pub connect :
    Connection
    → (HttpRequest HandshakeRequest → Option HandshakeResponse)
    → Option CardDepth
    → Result HandshakeResponse
unfolding post_path
connect c fetch depth = post_path c fetch "/handshake" (handshake_request c depth)

-- `getLexicon`
unfoldable pub get_lexicon :
    Connection → (HttpRequest Json → Option (List LexiconEntry)) → Result (List LexiconEntry)
unfolding get_path
get_lexicon c fetch = get_path c fetch "/lexicon"

-- `prepare`
unfoldable pub request_ticket :
    Connection
    → (String → String)
    → (HttpRequest PrepareRequest → Option ConfirmationTicket)
    → String
    → Json
    → Result ConfirmationTicket
unfolding post_path
request_ticket c encode fetch name input =
    post_path c fetch ("/glyphs/" ++ encode name ++ "/prepare") (record { input = input })
