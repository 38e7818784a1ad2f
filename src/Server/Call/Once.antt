-- ===== src/Server/Call/Once.antt =====
-- What becomes of one confirmation ticket over several requests of packages/server/src/server.ts.
use glyph_protocol.Prelude.{
  ◌<◌, ◌+◌, String, ◌≡◌, ◌∙◌, ◌⊎◌, inl, inr, true, false, List, [], ◌∷◌, ◌++◌, Option, some, arith,
  or_else, truthy, eq_refl, All, subst, sym, some-injective,
}
use glyph_protocol.Prelude.Table.{get}
use glyph_protocol.Json.{Json}
use glyph_protocol.Crypto.{Crypto, canonical_hash}
use glyph_protocol.Server.Stores.{PendingConfirmation}
use glyph_protocol.Server.Handlers.{mint_ticket, confirmation_ttl_ms}
use glyph_protocol.Server.Api.{
  ConfirmationTicket, ticket, Glyph, Config, ServerState, Surroundings, Request, Body, CallBody,
  read, read_json,
}
use glyph_protocol.Server.Handlers.Prepare.{mint_ticket-IsTicketed}
use glyph_protocol.Server.Call.Gates.{IsConfirmed, executed-execute, handle_call-IsPermitted}
use glyph_protocol.Server.Call.Cases.{confirm_elim}
use glyph_protocol.Server.Call.{ticket_valid, confirm, handle_call}
use glyph_protocol.Server.App.Between.{
  handle_all, IsOther, Spares, handle_all-unknown, handle_all-known,
}

-- A glyph of the name is registered and requires confirmation.
abbrev pub IsGuarded : ServerState → String → Type 0
IsGuarded s name =
    (g : Glyph) × (get s.glyphs name ≡ some g) × (g.card.cost.requires_confirmation ≡ true)

module _ (k : Crypto) (nfkc : String → String) (config : Config) (r : Request)
    (around : Surroundings) (name : String) (b : Body CallBody) (body : CallBody)
    (s : ServerState) where
  abbrev after_call : ServerState
  after_call = (handle_call k nfkc config r around name b s).1

  -- A call of a guarded glyph that ran its handler did so with its ticket.
  call-IsConfirmed :
      IsGuarded s name
      → read_json b config.max_body_bytes ≡ read body
      → (after_call.executed ≡ s.executed)
        ⊎ ((input : Json) × IsConfirmed k nfkc config r around name input body.confirmation_token s
              after_call)
  call-IsConfirmed (g, registered, guarded) was_read =
      elim (handle_call-IsPermitted k nfkc config r around name b s) [
        | inl same ↦ inl same
        | inr p ↦ elim p.confirmed [
          | inr confirmed ↦
              let token : p.body.confirmation_token ≡ body.confirmation_token =
                cc (p.was_read, was_read) in
              inr (
                p.input,
                subst (λ t. IsConfirmed k nfkc config r around name p.input t s after_call) token
                    confirmed,
              )
          | inl free ↦
              let same : p.glyph ≡ g = some-injective (sym p.registered ∙ registered) in
              absurd (cc (same, free, guarded))
        ]
      ]

-- A ticket lets one handler run: after a call of a glyph that requires confirmation has run its
-- handler, and any requests that do not hand out the same token again, a call of a glyph that requires
-- confirmation and presents the same ticket, whatever it is for, runs no handler. It may be answered
-- with the recorded response of an earlier call.
pub handle_call_once :
    (k : Crypto) (nfkc : String → String) (config : Config) (r r' : Request)
    (around around' : Surroundings) (name name' : String) (b b' : Body CallBody)
    (body body' : CallBody) (between : List (Request × Surroundings)) (s : ServerState)
    → read_json b config.max_body_bytes ≡ read body
    → read_json b' config.max_body_bytes ≡ read body'
    → body'.confirmation_token ≡ body.confirmation_token
    → IsGuarded s name
    → ¬ ((handle_call k nfkc config r around name b s).1.executed ≡ s.executed)
    → All (IsOther k nfkc config (or_else body.confirmation_token "")) between
    → IsGuarded
        (handle_all k nfkc config between ((handle_call k nfkc config r around name b s).1))
        name'
    → let s' = handle_all k nfkc config between ((handle_call k nfkc config r around name b s).1) in
      (handle_call k nfkc config r' around' name' b' s').1.executed ≡ s'.executed
handle_call_once k nfkc config r r' around around' name name' b b' body body' between s was_read
      was_read' same guarded ran other guarded' =
    elim (call-IsConfirmed k nfkc config r around name b body s guarded was_read) [
      | inl still ↦ absurd (ran still)
      | inr (input, first) ↦
          let s₁ = (handle_call k nfkc config r around name b s).1 in
          let s' = handle_all k nfkc config between s₁ in
          let gone =
            handle_all-unknown k nfkc config (or_else body.confirmation_token "") between s₁ other
              first.used_up in
          elim (call-IsConfirmed k nfkc config r' around' name' b' body' s' guarded' was_read') [
            | inl still ↦ still
            | inr (input', second) ↦ absurd (cc (second.issued, same, gone))
          ]
    ]

-- A ticket that `/prepare` has handed out stays good until it expires: after any requests that neither
-- present it nor hand out the same token again, and whose sweeps come before it expires, the
-- confirmation gate runs the handler on the ticket's own glyph and input, from any caller.
pub prepare_then_confirm :
    (k : Crypto) (nfkc : String → String) (config : Config) (r r' : Request)
    (around around' : Surroundings) (name : String) (g : Glyph) (input : Json)
    (id key : Option String) (between : List (Request × Surroundings)) (s : ServerState)
    (t : ConfirmationTicket)
    → (mint_ticket k config r around name g input s).0 ≡ ticket t
    → truthy (some around.fresh_id) ≡ true
    → All (Spares k nfkc config around.fresh_id (around.now_prepare + confirmation_ttl_ms)) between
    → around'.now_confirm < around.now_prepare + confirmation_ttl_ms
    → let s' =
        handle_all k nfkc config between ((mint_ticket k config r around name g input s).1) in
      (confirm k nfkc config r' around' name g input id key
        (some t.confirmation_token)
        s').1.executed
      ≡ s'.executed ++ (name, input) ∷ []
prepare_then_confirm k nfkc config r r' around around' name g input id key between s t minted named
      spared early =
    let s₁ = (mint_ticket k config r around name g input s).1 in
    let s' = handle_all k nfkc config between s₁ in
    let known = mint_ticket-IsTicketed k config r around name g input s t minted in
    let own : get s₁.confirmations around.fresh_id ≡ some entry =
      subst (λ j. get s₁.confirmations j ≡ some entry) known.token known.pending in
    let pending = handle_all-known k nfkc config around.fresh_id between entry s₁ spared own in
    subst
      (λ j.
        (confirm k nfkc config r' around' name g input id key (some j) s').1.executed
        ≡ s'.executed ++ (name, input) ∷ [])
      (sym known.token)
      (confirm_elim k nfkc config r' around' (λ x. x.1.executed ≡ s'.executed ++ (name, input) ∷ [])
        name g input id key (some around.fresh_id) s'
        (λ _. executed-execute k nfkc config r' around' name g input id key s')
        (λ absent. absurd (cc)) (λ unknown. absurd (cc (unknown, pending)))
        (λ p found wrong. absurd (fits p (cc (pending, found)) wrong))
        (λ p _ _ _. executed-execute k nfkc config r' around' name g input id key _))
  where
    entry : PendingConfirmation
    entry = record {
      glyph_name = name;
      input_hash = canonical_hash k input;
      expires_at = around.now_prepare + confirmation_ttl_ms;
    }

    fits :
        (p : PendingConfirmation)
        → entry ≡ p
        → ticket_valid k nfkc config r' around' name input p ≡ false
        → ⊥
    fits p e wrong = ground (arith, eq_refl name, eq_refl (canonical_hash k input), early)
