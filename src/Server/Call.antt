-- ===== src/Server/Call.antt =====
-- `POST /glyphs/:name/call` of packages/server/src/server.ts: a chain of gates, each a function that
-- ends the request or goes on with the next one.
pub mod Cases
pub mod Gates
pub mod Deliver
pub mod Once
pub mod Replay
use Prim.Native.String.{◌++◌}
use glyph_protocol.Prelude.{
  ℕ, ◌-◌, String, Bool, true, false, List, [], ◌∷◌, Option, none, some, ltb, ◌==◌, ◌&&◌, not,
  if◌then◌else◌, or_else, truthy, ◌++◌ as join,
}
use glyph_protocol.Prelude.Table.{get}
use glyph_protocol.Json.{Json}
use glyph_protocol.Crypto.{Crypto, canonical_hash}
use glyph_protocol.Sanitize.{Sanitization, sanitize}
use glyph_protocol.Receipt.{CallReceipt, SealedEnvelope, inspection_json, sign_receipt, seal_result}
use glyph_protocol.Server.Stores.{PendingConfirmation, consume, get_recorded, put_recorded}
use glyph_protocol.Server.Middleware.{missing_scopes}
use glyph_protocol.Server.Handlers.{refuse, resolve_principal}
use glyph_protocol.Server.Api.{
  not_found, validation_failed, confirmation_required, invalid_confirmation,
  output_validation_failed, handler_error, handler_timeout, insufficient_scope, malformed_json,
  payload_too_large, parsed, rejected, returned, threw, timed_out, Glyph, Reply, sealed, Body,
  too_large, malformed, read, read_json, CallBody, Config, ServerState, Surroundings, Request,
}

abbrev pub receipt_version : String
receipt_version = "0.3"

module _ (k : Crypto) (nfkc : String → String) (config : Config) (r : Request)
    (around : Surroundings) where
  -- The signed receipt of an execution.
  unfoldable pub make_receipt : Glyph → Json → Option String → Json → Sanitization → CallReceipt
  make_receipt g input client_call_id output inspection =
      let base : CallReceipt = record {
        receipt_version = receipt_version;
        call_id = around.fresh_id;
        client_call_id = if truthy client_call_id then client_call_id else none;
        glyph_id = g.card.id;
        glyph_name = g.card.name;
        input_hash = canonical_hash k input;
        output_hash = canonical_hash k output;
        inspection_hash = canonical_hash k (inspection_json inspection);
        risk_tier = g.card.cost.risk_tier;
        provider = g.card.provider;
        latency_ms = around.finished - around.started;
        timestamp = around.timestamp;
        server_public_key = k.public_key config.private_key;
        signature = "";
      } in
      record base { signature = sign_receipt k base config.private_key }

  -- The sealed envelope with its receipt.
  unfoldable pub make_response : Glyph → Json → Option String → Json → SealedEnvelope
  unfolding make_receipt
  make_response g input client_call_id result =
      let (output, inspection) = sanitize nfkc result in
      let receipt = make_receipt g input client_call_id output inspection in
      let envelope =
        seal_result g.card.id around.fresh_id output (around.finished - around.started)
          g.card.provider (some inspection) around.timestamp around.fresh_id in
      record envelope { receipt = some receipt }

  -- The response is recorded under its key, if there is one.
  unfoldable pub record_response :
      Option ℕ → Option String → SealedEnvelope → ServerState → ServerState
  record_response ttl_ms none response s = s
  record_response none (some key) response s = s
  record_response (some ttl) (some key) response s = record s {
    recorded = put_recorded s.recorded key response ttl around.now_record;
  }

  -- `onCall` is handed the receipt.
  abbrev audit : SealedEnvelope → ServerState → ServerState
  audit response s = record s {
    audited = elim response.receipt [
      | none ↦ s.audited
      | some receipt ↦ if config.has_on_call then join s.audited (receipt ∷ []) else s.audited
    ];
  }

  -- Sanitize, sign, seal, report, record.
  unfoldable pub deliver :
      Glyph → Json → Option String → Option String → Json → ServerState → Reply × ServerState
  unfolding record_response
  deliver g input client_call_id dedupe_key result s =
      let response = make_response g input client_call_id result in
      (sealed response, record_response config.dedupe_ttl_ms dedupe_key response (audit response s))

  -- The handler runs, and its output is validated.
  unfoldable pub execute :
      String → Glyph → Json → Option String → Option String → ServerState → Reply × ServerState
  execute name g input client_call_id dedupe_key s =
      let ran = record s { executed = join s.executed ((name, input) ∷ []) } in
      elim (around.run_handler name input) [
        | timed_out ↦ refuse 504 handler_timeout ran
        | threw ↦ refuse 502 handler_error ran
        | returned result ↦ elim (g.output_schema result) [
          | rejected ↦ refuse 502 output_validation_failed ran
          | parsed checked ↦ deliver g input client_call_id dedupe_key checked ran
        ]
      ]

  -- Whether a ticket allows this call.
  abbrev pub ticket_valid : String → Json → PendingConfirmation → Bool
  ticket_valid name input p =
      ltb around.now_confirm p.expires_at
      && (p.glyph_name == name)
      && (p.input_hash == canonical_hash k input)

  -- The confirmation gate.
  unfoldable pub confirm :
      String
      → Glyph
      → Json
      → Option String
      → Option String
      → Option String
      → ServerState
      → Reply × ServerState
  confirm name g input client_call_id dedupe_key token s =
      if not g.card.cost.requires_confirmation
      then execute name g input client_call_id dedupe_key s
      else if not (truthy token)
      then refuse 403 confirmation_required s
      else (let (pending, rest) = consume s.confirmations (or_else token "") in
          let used = record s { confirmations = rest } in
          elim pending [
            | none ↦ refuse 403 invalid_confirmation used
            | some p ↦
                if ticket_valid name input p
                then execute name g input client_call_id dedupe_key used
                else refuse 403 invalid_confirmation used
          ])

  -- The key under which a response is recorded, if it is to be.
  abbrev pub dedupe_key_of : String → Json → Option String → Option String
  dedupe_key_of name input client_call_id = elim config.dedupe_ttl_ms [
    | none ↦ none
    | some ttl ↦
        if truthy client_call_id
        then some (name ++ (":" ++ (or_else client_call_id "" ++ (":" ++ canonical_hash k input))))
        else none
  ]

  -- The replay of a recorded response.
  unfoldable pub replay_or_confirm :
      String → Glyph → Json → Option String → Option String → ServerState → Reply × ServerState
  replay_or_confirm name g input client_call_id token s =
      elim (dedupe_key_of name input client_call_id) [
        | none ↦ confirm name g input client_call_id none token s
        | some key ↦
            let (cached, recorded) = get_recorded s.recorded key around.now_dedupe in
            let looked = record s { recorded = recorded } in
            elim cached [
              | some response ↦ (sealed response, looked)
              | none ↦ confirm name g input client_call_id (some key) token looked
            ]
      ]

  -- The whole route.
  unfoldable pub handle_call : String → Body CallBody → ServerState → Reply × ServerState
  handle_call name b s = elim (get s.glyphs name) [
    | none ↦ refuse 404 not_found s
    | some g ↦ elim (read_json b config.max_body_bytes) [
      | too_large ↦ refuse 413 payload_too_large s
      | malformed ↦ refuse 400 malformed_json s
      | read body ↦ elim (g.input_schema body.input) [
        | rejected ↦ refuse 400 validation_failed s
        | parsed input ↦ elim (missing_scopes g.card.required_scopes (resolve_principal config r)) [
          | [] ↦ replay_or_confirm name g input body.call_id body.confirmation_token s
          | _ ∷ _ ↦ refuse 403 insufficient_scope s
        ]
      ]
    ]
  ]
