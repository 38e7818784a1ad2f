-- ===== src/Server/Api.antt =====
-- The values of packages/server/src/server.ts: the requests, the answers, the state of a server and
-- its configuration. Messages of errors are left out; their status, code and Retry-After are kept.
use glyph_protocol.Prelude.{ℕ, String, Bool, List, Option, none, some, ltb, if◌then◌else◌}
use glyph_protocol.Prelude.Table.{Table}
use glyph_protocol.Json.{Json}
use glyph_protocol.Card.{GlyphCard, Cost}
use glyph_protocol.Card.Depth.{CardDepth, PartialCard, LexiconEntry}
use glyph_protocol.Receipt.{CallReceipt, SealedEnvelope, UpdateManifest}
use glyph_protocol.Server.Stores.{Confirmations, Window, Recorded}

-- `GlyphErrorCode`
pub data ErrorCode : Type 0 where
  not_found validation_failed confirmation_required invalid_confirmation : ErrorCode
  confirmation_backlog_full output_validation_failed handler_error handler_timeout : ErrorCode
  unauthorized insufficient_scope rate_limited protocol_version_unsupported : ErrorCode
  malformed_json payload_too_large internal_error : ErrorCode

-- What a zod schema's `safeParse` returns.
pub data SafeParse : Type 0 where
  parsed : Json → SafeParse
  rejected : SafeParse

-- How a handler ends. A schema and a handler are code of the glyph's author.
pub data HandlerOutcome : Type 0 where
  returned : Json → HandlerOutcome
  threw : HandlerOutcome
  timed_out : HandlerOutcome

-- `GlyphDefinition`, without the handler, which every call is given apart.
pub record Glyph : Type 0 where
  pub card : GlyphCard
  pub input_schema : Json → SafeParse
  pub output_schema : Json → SafeParse

-- `CallerPrincipal`, of which the server reads the scopes.
pub record CallerPrincipal : Type 0 where
  pub scopes : List String

pub record ConfirmationTicket : Type 0 where
  pub confirmation_token : String
  pub glyph_id : String
  pub name : String
  pub cost : Cost
  pub input : Json
  pub expires_at : ℕ

pub record HandshakeResponse : Type 0 where
  pub protocol_version : String
  pub session_id : String
  pub lexicon : List LexiconEntry
  pub card_depth : CardDepth

pub data Reply : Type 0 where
  failure : ℕ → ErrorCode → Option ℕ → Reply
  healthy no_route : Reply
  registry : Json → Reply
  greeting : HandshakeResponse → Reply
  lexicon : List LexiconEntry → Reply
  card : PartialCard → Reply
  manifest : UpdateManifest → Reply
  ticket : ConfirmationTicket → Reply
  sealed : SealedEnvelope → Reply

-- A request body: its Content-Length header, if it has one (`none` inside: not a number), its size
-- in bytes, and what its text parses to.
pub record Body {ℓ} (A : Type ℓ) : Type ℓ where
  pub content_length : Option (Option ℕ)
  pub size : ℕ
  pub content : Option A

pub data ReadResult {ℓ} (A : Type ℓ) : Type ℓ where
  too_large : ReadResult A
  malformed : ReadResult A
  read : A → ReadResult A

abbrev parse_result {ℓ} : {A : Type ℓ} → Option A → ReadResult A
parse_result none = malformed
parse_result (some a) = read a

-- `readJson`
unfoldable pub read_json {ℓ} : {A : Type ℓ} → Body A → ℕ → ReadResult A
read_json b max_bytes = elim b.content_length [
  | none ↦ if ltb max_bytes b.size then too_large else parse_result b.content
  | some none ↦ parse_result b.content
  | some (some length) ↦ if ltb max_bytes length then too_large else parse_result b.content
]

pub record HandshakeBody : Type 0 where
  pub protocol_version : Option String
  pub preferred_card_depth : Option CardDepth

pub record CallBody : Type 0 where
  pub input : Json
  pub call_id : Option String
  pub confirmation_token : Option String

-- The routes that `setupRoutes` installs; `unrouted` is any other path.
pub data Route : Type 0 where
  health keys all_glyphs unrouted : Route
  handshake : Body HandshakeBody → Route
  glyph_card : String → Option String → Route
  glyph_manifest : String → Route
  prepare : String → Body Json → Route
  call : String → Body CallBody → Route

pub record Request : Type 0 where
  pub authorization : Option String
  pub remote_address : Option String
  pub route : Route

-- `AuthConfig`: the tokens, or the predicate that replaces them.
pub record AuthConfig : Type 0 where
  pub tokens : List String
  pub custom_verify : Option (String → Bool)

pub record RateLimitConfig : Type 0 where
  pub window_ms : ℕ
  pub max : ℕ

-- A policy resolver sees the request; `none` outside is an exception, inside no principal.
pub record Config : Type 0 where
  pub private_key : String
  pub auth : Option AuthConfig
  pub rate_limit : Option RateLimitConfig
  pub key_registry : Option (Option Json)
  pub policy : Option (Request → Option (Option CallerPrincipal))
  pub max_pending_confirmations : ℕ
  pub max_body_bytes : ℕ
  pub dedupe_ttl_ms : Option ℕ
  pub has_on_call : Bool

-- The fields of `GlyphServer` that change, the receipts that `onCall` was handed, and the calls of
-- handlers, each the glyph's name with the input.
pub record ServerState : Type 0 where
  pub glyphs : Table Glyph
  pub manifests : Table UpdateManifest
  pub confirmations : Confirmations
  pub windows : Table Window
  pub recorded : Table Recorded
  pub audited : List CallReceipt
  pub executed : List (String × Json)

-- What a request takes from its surroundings: the clock each time that it is read, fresh ids, the
-- printed time, and how the handler ends on an input.
pub record Surroundings : Type 0 where
  pub now_limit : ℕ
  pub now_prepare : ℕ
  pub now_dedupe : ℕ
  pub now_confirm : ℕ
  pub started : ℕ
  pub finished : ℕ
  pub now_record : ℕ
  pub timestamp : String
  pub fresh_id : String
  pub run_handler : String → Json → HandlerOutcome
