-- ===== src/Server/Handlers/Prepare.antt =====
-- The tickets of the prepare route in packages/server/src/server.ts.
use glyph_protocol.Prelude.{
  ℕ, ◌+◌, ◌≤◌, ◌<◌, String, ◌≡◌, refl, inl, inr, Bool-cases, Option-cases, [], some, arith, leb,
  length,
}
use glyph_protocol.Prelude.Table.{get, get-set_self, length-set}
use glyph_protocol.Server.Handlers.Cases.{SafeParse-cases, Read-cases, List-cases}
use glyph_protocol.Json.{Json}
use glyph_protocol.Crypto.{Crypto, canonical_hash}
use glyph_protocol.Server.Stores.{put_confirmation, sweep}
use glyph_protocol.Server.Stores.Confirmations.{sweep-size, length-sweep}
use glyph_protocol.Server.Middleware.{missing_scopes}
use glyph_protocol.Server.Handlers.{
  mint_ticket, handle_prepare, confirmation_ttl_ms, resolve_principal, refuse,
}
use glyph_protocol.Server.Api.{
  Glyph, Reply, ticket, ConfirmationTicket, Body, read, read_json, Config, ServerState,
  Surroundings, Request, parsed, ErrorCode, not_found, payload_too_large, malformed_json,
  validation_failed, insufficient_scope,
}

module _ (k : Crypto) (config : Config) (r : Request) (around : Surroundings) where
  -- What the server knows of a ticket that it has handed out.
  pub record IsTicketed (name : String) (input : Json) (t : ConfirmationTicket) (s s' : ServerState)
      : Type 0 where
    pub token : t.confirmation_token ≡ around.fresh_id
    pub kept_input : t.input ≡ input
    pub pending :
        get s'.confirmations t.confirmation_token
        ≡ some (record {
          glyph_name = name;
          input_hash = canonical_hash k input;
          expires_at = around.now_prepare + confirmation_ttl_ms;
        })
    pub nothing_ran : s'.executed ≡ s.executed

  pub mint_ticket-IsTicketed :
      (name : String) (g : Glyph) (input : Json) (s : ServerState) (t : ConfirmationTicket)
      → (mint_ticket k config r around name g input s).0 ≡ ticket t
      → IsTicketed name input t s (mint_ticket k config r around name g input s).1
  unfolding mint_ticket put_confirmation
  mint_ticket-IsTicketed name g input s t h =
      elim (Bool-cases
        (leb config.max_pending_confirmations (sweep s.confirmations around.now_prepare).0.size)) [
          | inl full ↦ absurd (ground arith)
          | inr room ↦
              let token : t.confirmation_token ≡ around.fresh_id = ground arith in
              rw room (record {
                token = token;
                kept_input = ground arith;
                pending = rw token (get-set_self _ around.fresh_id _);
                nothing_ran = refl;
              })
        ]

  length-mint_ticket :
      (name : String) (g : Glyph) (input : Json) (s : ServerState)
      → length s.confirmations ≤ config.max_pending_confirmations
      → length (mint_ticket k config r around name g input s).1.confirmations
        ≤ config.max_pending_confirmations
  unfolding mint_ticket put_confirmation
  length-mint_ticket name g input s bounded =
      let swept = length-sweep s.confirmations around.now_prepare in
      elim (Bool-cases
        (leb config.max_pending_confirmations (sweep s.confirmations around.now_prepare).0.size)) [
          | inl full ↦ rw full (omega (arith, swept))
          | inr room ↦
              let below : (sweep s.confirmations around.now_prepare).0.size
                  < config.max_pending_confirmations =
                ground arith in
              rw room (
                omega (
                  arith,
                  sweep-size s.confirmations around.now_prepare,
                  length-set (sweep s.confirmations around.now_prepare).1 around.fresh_id _,
                ))
        ]

  -- `handle_prepare`: refused with the state unchanged, or passed on.
  pub prepare_elim {ℓ} :
      (P : Reply × ServerState → Type ℓ) (name : String) (b : Body Json) (s : ServerState)
      → ((status : ℕ) (code : ErrorCode) → P (refuse status code s))
      → ((g : Glyph) (body input : Json)
          → get s.glyphs name ≡ some g
          → read_json b config.max_body_bytes ≡ read body
          → g.input_schema body ≡ parsed input
          → missing_scopes g.card.required_scopes (resolve_principal config r) ≡ []
          → P (mint_ticket k config r around name g input s))
      → P (handle_prepare k config r around name b s)
  unfolding handle_prepare
  prepare_elim P name b s stop pass = elim (Option-cases (get s.glyphs name)) [
    | inl e ↦ rw (e, handle_prepare) (stop 404 not_found)
    | inr (g, e) ↦ elim (Read-cases (read_json b config.max_body_bytes)) [
      | inl (inl f) ↦ rw (e, f, handle_prepare) (stop 413 payload_too_large)
      | inl (inr f) ↦ rw (e, f, handle_prepare) (stop 400 malformed_json)
      | inr (body, f) ↦ elim (SafeParse-cases (g.input_schema body)) [
        | inl h ↦ rw (e, f, h, handle_prepare) (stop 400 validation_failed)
        | inr (input, h) ↦
            elim (List-cases (missing_scopes g.card.required_scopes (resolve_principal config r))) [
              | inl i ↦ rw (e, f, h, i, handle_prepare) (pass g body input e f h i)
              | inr (_, _, i) ↦ rw (e, f, h, i, handle_prepare) (stop 403 insufficient_scope)
            ]
      ]
    ]
  ]

  pub length-handle_prepare :
      (name : String) (b : Body Json) (s : ServerState)
      → length s.confirmations ≤ config.max_pending_confirmations
      → length (handle_prepare k config r around name b s).1.confirmations
        ≤ config.max_pending_confirmations
  length-handle_prepare name b s bounded =
      prepare_elim (λ x. length x.1.confirmations ≤ config.max_pending_confirmations) name b s
        (λ _ _. bounded) (λ g body input _ _ _ _. length-mint_ticket name g input s bounded)

  -- A ticket is only handed out for a registered glyph, an input that its schema accepts, and a
  -- caller with every scope that the card requires; it is stored under the fresh token with the
  -- glyph's name, the hash of the parsed input and an expiry five minutes ahead; and no handler
  -- runs.
  pub handle_prepare-IsTicketed :
      (name : String) (b : Body Json) (s : ServerState) (t : ConfirmationTicket)
      → (handle_prepare k config r around name b s).0 ≡ ticket t
      → (g : Glyph) × (input : Json) × (get s.glyphs name ≡ some g)
        × (missing_scopes g.card.required_scopes (resolve_principal config r) ≡ [])
        × IsTicketed name input t s (handle_prepare k config r around name b s).1
  handle_prepare-IsTicketed name b s t =
      prepare_elim
        (λ x.
          x.0 ≡ ticket t
          → (g : Glyph) × (input : Json) × (get s.glyphs name ≡ some g)
            × (missing_scopes g.card.required_scopes (resolve_principal config r) ≡ [])
            × IsTicketed name input t s x.1)
        name b s (λ _ _ h. absurd (cc))
        (λ g body input e _ _ i h. (g, input, e, i, mint_ticket-IsTicketed name g input s t h))
