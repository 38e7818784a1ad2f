-- ===== src/Server/Call/Cases.antt =====
-- The ways that a call can go in the call route of packages/server/src/server.ts, one rule for
-- each gate.
use glyph_protocol.Prelude.{
  ℕ, String, ◌≡◌, inl, inr, true, false, Bool-cases, Option-cases, [], ◌∷◌, ◌++◌, Option, none,
  some, or_else, truthy,
}
use glyph_protocol.Prelude.Table.{get}
use glyph_protocol.Json.{Json}
use glyph_protocol.Crypto.{Crypto}
use glyph_protocol.Receipt.{SealedEnvelope}
use glyph_protocol.Server.Stores.{PendingConfirmation, consume, get_recorded}
use glyph_protocol.Server.Stores.Confirmations.{consume-result}
use glyph_protocol.Server.Middleware.{missing_scopes}
use glyph_protocol.Server.Handlers.Cases.{SafeParse-cases, Outcome-cases, Read-cases, List-cases}
use glyph_protocol.Server.Handlers.{refuse, resolve_principal}
use glyph_protocol.Server.Api.{
  Glyph, Reply, sealed, handler_timeout, handler_error, output_validation_failed,
  confirmation_required, invalid_confirmation, not_found, payload_too_large, malformed_json,
  validation_failed, insufficient_scope, ErrorCode, Body, read, read_json, CallBody, Config,
  ServerState, Surroundings, Request, parsed, returned,
}
use glyph_protocol.Server.Call.{
  deliver, execute, ticket_valid, confirm, dedupe_key_of, replay_or_confirm, handle_call,
}

module _ (k : Crypto) (nfkc : String → String) (config : Config) (r : Request)
    (around : Surroundings) where
  module _ {ℓ} (P : Reply × ServerState → Type ℓ) where
    -- `execute`: the handler times out or throws, its output is refused, or it is delivered.
    pub execute_elim :
        (name : String) (g : Glyph) (input : Json) (id key : Option String) (s : ServerState)
        → (let ran = record s { executed = s.executed ++ (name, input) ∷ [] } in
            P (refuse 504 handler_timeout ran)
            → P (refuse 502 handler_error ran)
            → P (refuse 502 output_validation_failed ran)
            → ((result checked : Json)
                → around.run_handler name input ≡ returned result
                → g.output_schema result ≡ parsed checked
                → P (deliver k nfkc config r around g input id key checked ran))
            → P (execute k nfkc config r around name g input id key s))
    unfolding execute
    execute_elim name g input id key s late thrown bad good =
        elim (Outcome-cases (around.run_handler name input)) [
          | inl (inl e) ↦ rw (e, execute) late
          | inl (inr e) ↦ rw (e, execute) thrown
          | inr (result, e) ↦ elim (SafeParse-cases (g.output_schema result)) [
            | inl wrong ↦ rw (e, wrong, execute) bad
            | inr (checked, ok) ↦ rw (e, ok, execute) (good result checked e ok)
          ]
        ]

    -- `confirm`: no ticket is needed, none is presented, it is unknown, it does not fit, or it does.
    pub confirm_elim :
        (name : String) (g : Glyph) (input : Json) (id key token : Option String) (s : ServerState)
        → (let t = or_else token "" in
            let used = record s { confirmations = (consume s.confirmations t).1 } in
            (g.card.cost.requires_confirmation ≡ false
              → P (execute k nfkc config r around name g input id key s))
            → (truthy token ≡ false → P (refuse 403 confirmation_required s))
            → (get s.confirmations t ≡ none → P (refuse 403 invalid_confirmation used))
            → ((p : PendingConfirmation)
                → get s.confirmations t ≡ some p
                → ticket_valid k nfkc config r around name input p ≡ false
                → P (refuse 403 invalid_confirmation used))
            → ((p : PendingConfirmation)
                → truthy token ≡ true
                → get s.confirmations t ≡ some p
                → ticket_valid k nfkc config r around name input p ≡ true
                → P (execute k nfkc config r around name g input id key used))
            → P (confirm k nfkc config r around name g input id key token s))
    unfolding confirm
    confirm_elim name g input id key token s free absent unknown bad good =
        elim (Bool-cases g.card.cost.requires_confirmation) [
          | inr f ↦ simp f (free f)
          | inl needed ↦ elim (Bool-cases (truthy token)) [
            | inr a ↦ simp (needed, a) (absent a)
            | inl present ↦ elim (Option-cases (get s.confirmations (or_else token ""))) [
              | inl none_there ↦
                  simp (needed, present) (rw (consume-result, none_there) (unknown none_there))
              | inr (p, found) ↦
                  elim (Bool-cases (ticket_valid k nfkc config r around name input p)) [
                    | inr wrong ↦
                        simp (needed, present)
                          (rw (consume-result, found, wrong) (bad p found wrong))
                    | inl ok ↦
                        simp (needed, present)
                          (rw (consume-result, found, ok) (good p present found ok))
                  ]
            ]
          ]
        ]

    -- `replay_or_confirm`: nothing is to be recorded, a response is replayed, or there is none yet.
    pub replay_elim :
        (name : String) (g : Glyph) (input : Json) (id token : Option String) (s : ServerState)
        → (dedupe_key_of k nfkc config r around name input id ≡ none
            → P (confirm k nfkc config r around name g input id none token s))
        → ((key : String) (response : SealedEnvelope)
            → dedupe_key_of k nfkc config r around name input id ≡ some key
            → (get_recorded s.recorded key around.now_dedupe).0 ≡ some response
            → P (
              sealed response,
              record s { recorded = (get_recorded s.recorded key around.now_dedupe).1 },
            ))
        → ((key : String)
            → dedupe_key_of k nfkc config r around name input id ≡ some key
            → (get_recorded s.recorded key around.now_dedupe).0 ≡ none
            → P (
                confirm k nfkc config r around name g input id
                  (some key)
                  token
                  (record s { recorded = (get_recorded s.recorded key around.now_dedupe).1 })))
        → P (replay_or_confirm k nfkc config r around name g input id token s)
    unfolding replay_or_confirm
    replay_elim name g input id token s off again fresh =
        elim (Option-cases (dedupe_key_of k nfkc config r around name input id)) [
          | inl e ↦ rw (e, replay_or_confirm) (off e)
          | inr (key, e) ↦ elim (Option-cases (get_recorded s.recorded key around.now_dedupe).0) [
            | inl unseen ↦ rw (e, unseen, replay_or_confirm) (fresh key e unseen)
            | inr (response, seen) ↦ rw (e, seen, replay_or_confirm) (again key response e seen)
          ]
        ]

    -- `handle_call`: refused before the replay gate, with the state unchanged, or passed on.
    pub call_elim :
        (name : String) (b : Body CallBody) (s : ServerState)
        → ((status : ℕ) (code : ErrorCode) → P (refuse status code s))
        → ((g : Glyph) (body : CallBody) (input : Json)
            → get s.glyphs name ≡ some g
            → read_json b config.max_body_bytes ≡ read body
            → g.input_schema body.input ≡ parsed input
            → missing_scopes g.card.required_scopes (resolve_principal config r) ≡ []
            → P (
                replay_or_confirm k nfkc config r around name g input body.call_id
                  body.confirmation_token s))
        → P (handle_call k nfkc config r around name b s)
    unfolding handle_call
    call_elim name b s stop pass = elim (Option-cases (get s.glyphs name)) [
      | inl e ↦ rw (e, handle_call) (stop 404 not_found)
      | inr (g, e) ↦ elim (Read-cases (read_json b config.max_body_bytes)) [
        | inl (inl f) ↦ rw (e, f, handle_call) (stop 413 payload_too_large)
        | inl (inr f) ↦ rw (e, f, handle_call) (stop 400 malformed_json)
        | inr (body, f) ↦ elim (SafeParse-cases (g.input_schema body.input)) [
          | inl h ↦ rw (e, f, h, handle_call) (stop 400 validation_failed)
          | inr (input, h) ↦
              elim (List-cases
                (missing_scopes g.card.required_scopes (resolve_principal config r))) [
                  | inl i ↦ rw (e, f, h, i, handle_call) (pass g body input e f h i)
                  | inr (_, _, i) ↦ rw (e, f, h, i, handle_call) (stop 403 insufficient_scope)
                ]
        ]
      ]
    ]
