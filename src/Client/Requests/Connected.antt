-- ===== src/Client/Requests/Connected.antt =====
-- A client of packages/client/src/index.ts that talks to a server of packages/server/src/server.ts
-- through the server's own `fetch`.
use Prim.Native.String.{◌++◌}
use glyph_protocol.Prelude.{ℕ, String, true, ◌≡◌, Option, none, some, truthy, false}
use glyph_protocol.Prelude.Table.{Table, get}
use glyph_protocol.Crypto.{Crypto}
use glyph_protocol.Card.Depth.{CardDepth}
use glyph_protocol.Server.Api.{
  Glyph, Config, ServerState, Surroundings, Reply, greeting, HandshakeResponse, HandshakeBody, Body,
  Request, handshake,
}
use glyph_protocol.Server.App.{handle, rate_stop, auth_stop}
use glyph_protocol.Server.Handlers.{protocol_version}
use glyph_protocol.Client.Pins.{Pin, PinStore}
use glyph_protocol.Client.Requests.{
  build_headers, Connection, HttpRequest, HandshakeRequest, handshake_request,
}

-- The body as the server reads it.
abbrev pub sent_body : ℕ → Option HandshakeRequest → Body HandshakeBody
sent_body size none = record { content_length = none; size = size; content = none }
sent_body size (some r) = record {
  content_length = none;
  size = size;
  content = some (record {
    protocol_version = some r.protocol_version;
    preferred_card_depth = some r.preferred_card_depth;
  });
}

abbrev pub greeting_of : Reply → Option HandshakeResponse
greeting_of (greeting h) = some h
greeting_of _ = none

-- The request as the server sees it; `size` is that of the printed body.
abbrev pub seen : ℕ → Option String → HttpRequest HandshakeRequest → Request
seen size remote_address r = record {
  authorization = get r.headers "authorization";
  remote_address = remote_address;
  route = handshake (sent_body size r.body);
}

-- The network that leads to one server's `fetch`, with its two middlewares.
abbrev pub in_process :
    Crypto
    → (String → String)
    → Config
    → Surroundings
    → ServerState
    → ℕ
    → Option String
    → HttpRequest HandshakeRequest
    → Option HandshakeResponse
in_process k nfkc config around s size remote_address r =
    greeting_of (handle k nfkc config (seen size remote_address r) around s).0

-- The tool is pinned under its name, to a card with its id, and not revoked.
abbrev pub IsCurrent : PinStore → Glyph → Type 0
IsCurrent pins g =
    (pin : Pin) × ((get pins g.card.name ≡ some pin)
      × (truthy pin.revoked_at ≡ false)
      × (pin.card.id ≡ g.card.id))

-- The request of `connect`, as the server sees it.
abbrev pub connect_seen : ℕ → Option String → Connection → Option CardDepth → Request
connect_seen size remote_address c depth = seen size remote_address (record {
  method = "POST";
  url = c.base_url ++ "/handshake";
  headers = build_headers c true;
  body = some (handshake_request c depth);
})

abbrev pub Answers :
    Crypto → (String → String) → Config → Request → Surroundings → ServerState → Type 0
Answers k nfkc config r around s =
    ((rate_stop k nfkc config s r around.now_limit).0 ≡ none) × (auth_stop k nfkc config r ≡ none)
