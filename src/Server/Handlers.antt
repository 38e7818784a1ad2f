-- ===== src/Server/Handlers.antt =====
-- The routes of `setupRoutes` in packages/server/src/server.ts, and `register`,
-- `registerManifest`; `/call` stands in `Call`.
pub mod Cases
pub mod Prepare
pub mod Register
use Prim.Native.String.{◌++◌}
use glyph_protocol.Prelude.{
  ℕ, ◌+◌, ◌-◌, String, Bool, true, false, List, [], ◌∷◌, Option, none, some, ltb, leb, ◌==◌, ◌||◌,
  ◌&&◌, not, if◌then◌else◌, or_else, truthy, map, is_some, ◌++◌ as join,
}
use glyph_protocol.Prelude.Table.{Table, get, set, values}
use glyph_protocol.Json.{Json}
use glyph_protocol.Crypto.{Crypto, canonical_hash}
use glyph_protocol.Card.{GlyphCard, sign_glyph}
use glyph_protocol.Card.Depth.{
  CardDepth, minimal, standard, rich, apply_depth, to_lexicon_entry, LexiconEntry,
}
use glyph_protocol.Sanitize.{Sanitization, sanitize}
use glyph_protocol.Receipt.{
  CallReceipt, SealedEnvelope, UpdateManifest, SecurityImpact, inspection_json, sign_receipt,
  sign_manifest, seal_result,
}
use glyph_protocol.Server.Stores.{
  PendingConfirmation, put_confirmation, consume, sweep, get_recorded, put_recorded,
}
use glyph_protocol.Server.Middleware.{missing_scopes, ceil_seconds}
use glyph_protocol.Server.Api.{
  ErrorCode, not_found, validation_failed, confirmation_required, invalid_confirmation,
  confirmation_backlog_full, output_validation_failed, handler_error, handler_timeout,
  insufficient_scope, malformed_json, payload_too_large, internal_error,
  protocol_version_unsupported, SafeParse, parsed, rejected, HandlerOutcome, returned, threw,
  timed_out, Glyph, CallerPrincipal, ConfirmationTicket, HandshakeResponse, Reply, failure, healthy,
  registry, greeting, lexicon, card, manifest, ticket, sealed, Body, ReadResult, too_large,
  malformed, read, read_json, HandshakeBody, CallBody, Config, ServerState, Surroundings, Request,
}

abbrev pub protocol_version : String
protocol_version = "1.0"

abbrev pub confirmation_ttl_ms : ℕ
confirmation_ttl_ms = 300000

abbrev pub refuse : ℕ → ErrorCode → ServerState → Reply × ServerState
refuse status code s = (failure status code none, s)

-- `resolvePrincipal`: a resolver that throws leaves the caller anonymous.
unfoldable pub resolve_principal : Config → Request → Option CallerPrincipal
resolve_principal config r = elim config.policy [
  | none ↦ none
  | some resolver ↦ or_else (resolver r) none
]

module _ (k : Crypto) (config : Config) where
  -- `register`; `none` is the error that the name is taken.
  unfoldable pub register : ServerState → Glyph → Option ServerState
  register s g =
      if is_some (get s.glyphs g.card.name)
      then none
      else (let signed = record g.card {
        public_key = some (k.public_key config.private_key);
        signature = some (sign_glyph k g.card config.private_key);
      } in
          some (record s { glyphs = set s.glyphs g.card.name (record g { card = signed }) }))

  -- `registerManifest`; `none` is the error that the glyph is unknown.
  unfoldable pub register_manifest :
      ServerState → String → String → String → Bool → SecurityImpact → String → Option ServerState
  register_manifest s tool previous_card_id reason is_breaking impact issued_at =
      elim (get s.glyphs tool) [
        | none ↦ none
        | some g ↦
            let base : UpdateManifest = record {
              manifest_version = "0.1";
              tool_name = tool;
              previous_card_id = previous_card_id;
              new_card_id = g.card.id;
              reason = reason;
              is_breaking = is_breaking;
              security_impact = impact;
              issued_at = issued_at;
              server_public_key = k.public_key config.private_key;
              signature = "";
            } in
            let signed = record base { signature = sign_manifest k base config.private_key } in
            some (record s { manifests = set s.manifests tool signed })
      ]

  unfoldable pub lexicon_of : ServerState → List LexiconEntry
  lexicon_of s = map (λ g. to_lexicon_entry g.card) (values s.glyphs)

  -- `POST /handshake`
  unfoldable pub handle_handshake :
      Body HandshakeBody → ServerState → Surroundings → Reply × ServerState
  unfolding lexicon_of
  handle_handshake b s around = elim (read_json b config.max_body_bytes) [
    | too_large ↦ refuse 413 payload_too_large s
    | malformed ↦ refuse 400 malformed_json s
    | read body ↦
        if or_else body.protocol_version "" == protocol_version
        then (
          greeting (record {
            protocol_version = protocol_version;
            session_id = around.fresh_id;
            lexicon = lexicon_of s;
            card_depth = or_else body.preferred_card_depth standard;
          }),
          s,
        )
        else refuse 426 protocol_version_unsupported s
  ]

  depth_of : Option String → Option CardDepth
  depth_of none = some rich
  depth_of (some d) =
      if d == "minimal"
      then some minimal
      else if d == "standard"
      then some standard
      else if d == "rich"
      then some rich
      else none

  -- `GET /glyphs/:name`
  unfoldable pub handle_card : String → Option String → ServerState → Reply × ServerState
  unfolding depth_of
  handle_card name depth s = elim (depth_of depth) [
    | none ↦ refuse 400 validation_failed s
    | some d ↦ elim (get s.glyphs name) [
      | none ↦ refuse 404 not_found s
      | some g ↦ (card (apply_depth g.card d), s)
    ]
  ]

  -- `GET /glyphs/:name/manifest`
  unfoldable pub handle_manifest : String → ServerState → Reply × ServerState
  handle_manifest name s = elim (get s.glyphs name) [
    | none ↦ refuse 404 not_found s
    | some _ ↦ elim (get s.manifests name) [
      | none ↦ refuse 404 not_found s
      | some m ↦ (manifest m, s)
    ]
  ]

  module _ (r : Request) (around : Surroundings) where
    -- The end of `/prepare`: the backlog, and the ticket.
    unfoldable pub mint_ticket : String → Glyph → Json → ServerState → Reply × ServerState
    mint_ticket name g input s =
        let now = around.now_prepare in
        let (backlog, live) = sweep s.confirmations now in
        let swept = record s { confirmations = live } in
        if leb config.max_pending_confirmations backlog.size
        then (let earliest = or_else backlog.earliest_expires_at (now + confirmation_ttl_ms) in
            let seconds = ceil_seconds (earliest - now) in
            (
              failure 503 confirmation_backlog_full (some (if ltb seconds 1 then 1 else seconds)),
              swept,
            ))
        else (let expires_at = now + confirmation_ttl_ms in
            (
              ticket (record {
                confirmation_token = around.fresh_id;
                glyph_id = g.card.id;
                name = g.card.name;
                cost = g.card.cost;
                input = input;
                expires_at = expires_at;
              }),
              record swept {
                confirmations = put_confirmation live around.fresh_id (record {
                  glyph_name = name;
                  input_hash = canonical_hash k input;
                  expires_at = expires_at;
                });
              },
            ))

    -- `POST /glyphs/:name/prepare`
    unfoldable pub handle_prepare : String → Body Json → ServerState → Reply × ServerState
    handle_prepare name b s = elim (get s.glyphs name) [
      | none ↦ refuse 404 not_found s
      | some g ↦ elim (read_json b config.max_body_bytes) [
        | too_large ↦ refuse 413 payload_too_large s
        | malformed ↦ refuse 400 malformed_json s
        | read input ↦ elim (g.input_schema input) [
          | rejected ↦ refuse 400 validation_failed s
          | parsed clean ↦
              elim (missing_scopes g.card.required_scopes (resolve_principal config r)) [
                | [] ↦ mint_ticket name g clean s
                | _ ∷ _ ↦ refuse 403 insufficient_scope s
              ]
        ]
      ]
    ]
