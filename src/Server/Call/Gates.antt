-- ===== src/Server/Call/Gates.antt =====
-- What a call has passed when its handler runs: the gates of the call route in
-- packages/server/src/server.ts.
use glyph_protocol.Prelude.{
  ◌<◌, String, ◌≡◌, refl, ◌⊎◌, inl, inr, true, false, [], ◌∷◌, ◌++◌, Option, none, some, arith,
  or_else, truthy, eq_iff, eq_refl,
}
use glyph_protocol.Prelude.Table.{get}
use glyph_protocol.Json.{Json}
use glyph_protocol.Crypto.{Crypto, canonical_hash}
use glyph_protocol.Server.Stores.{PendingConfirmation}
use glyph_protocol.Server.Stores.Confirmations.{get-consume}
use glyph_protocol.Server.Middleware.{missing_scopes}
use glyph_protocol.Server.Handlers.{resolve_principal}
use glyph_protocol.Server.Api.{
  Glyph, Body, read, read_json, CallBody, Config, ServerState, Surroundings, Request, parsed,
}
use glyph_protocol.Server.Call.Cases.{execute_elim, confirm_elim, replay_elim, call_elim}
use glyph_protocol.Server.Call.{
  deliver, execute, ticket_valid, confirm, replay_or_confirm, handle_call,
}

module _ (k : Crypto) (nfkc : String → String) (config : Config) (r : Request)
    (around : Surroundings) where
  deliver-executed :
      (g : Glyph) (input : Json) (id key : Option String) (result : Json) (s : ServerState)
      → (deliver k nfkc config r around g input id key result s).1.executed ≡ s.executed
  unfolding deliver
  deliver-executed g input id key result s = ground arith

  deliver-confirmations :
      (g : Glyph) (input : Json) (id key : Option String) (result : Json) (s : ServerState)
      → (deliver k nfkc config r around g input id key result s).1.confirmations ≡ s.confirmations
  unfolding deliver
  deliver-confirmations g input id key result s = ground arith

  module _ (name : String) (g : Glyph) (input : Json) (id key : Option String)
      (s : ServerState) where
    pub executed-execute :
        (execute k nfkc config r around name g input id key s).1.executed
        ≡ s.executed ++ (name, input) ∷ []
    executed-execute =
        execute_elim k nfkc config r around (λ x. x.1.executed ≡ s.executed ++ (name, input) ∷ [])
          name g input id key s refl refl refl
          (λ result checked _ _. deliver-executed g input id key checked _)

    pub confirmations-execute :
        (execute k nfkc config r around name g input id key s).1.confirmations ≡ s.confirmations
    confirmations-execute =
        execute_elim k nfkc config r around (λ x. x.1.confirmations ≡ s.confirmations) name g input
          id key s refl refl refl
          (λ result checked _ _. deliver-confirmations g input id key checked _)

  -- A valid ticket was presented, and it is used up.
  pub record IsConfirmed (name : String) (input : Json) (token : Option String) (s s' : ServerState)
      : Type 0 where
    pub presented : truthy token ≡ true
    pub pending : PendingConfirmation
    pub issued : get s.confirmations (or_else token "") ≡ some pending
    pub unexpired : around.now_confirm < pending.expires_at
    pub same_glyph : pending.glyph_name ≡ name
    pub same_input : pending.input_hash ≡ canonical_hash k input
    pub used_up : get s'.confirmations (or_else token "") ≡ none

  abbrev RunsConfirmed : String → Glyph → Json → Option String → ServerState → ServerState → Type 0
  RunsConfirmed name g input token s s' =
      (s'.executed ≡ s.executed)
      ⊎ ((s'.executed ≡ s.executed ++ (name, input) ∷ [])
          × ((g.card.cost.requires_confirmation ≡ false) ⊎ IsConfirmed name input token s s'))

  confirm-RunsConfirmed :
      (name : String) (g : Glyph) (input : Json) (id key token : Option String) (s : ServerState)
      → RunsConfirmed name g input token s
          (confirm k nfkc config r around name g input id key token s).1
  confirm-RunsConfirmed name g input id key token s =
      confirm_elim k nfkc config r around (λ x. RunsConfirmed name g input token s x.1) name g input
        id key token s (λ free. inr (executed-execute name g input id key s, inl free))
        (λ _. inl refl) (λ _. inl refl) (λ _ _ _. inl refl)
        (λ p presented issued valid. inr (
          executed-execute name g input id key _,
          inr (record {
            presented = presented;
            pending = p;
            issued = issued;
            unexpired = (ticket_fits p valid).0;
            same_glyph = (ticket_fits p valid).1;
            same_input = (ticket_fits p valid).2;
            used_up = rw confirmations-execute (rw get-consume (rw eq_refl));
          }),
        ))
    where
      ticket_fits :
          (p : PendingConfirmation)
          → ticket_valid k nfkc config r around name input p ≡ true
          → (around.now_confirm < p.expires_at)
            × (p.glyph_name ≡ name)
            × (p.input_hash ≡ canonical_hash k input)
      ticket_fits p h =
          ground (arith, eq_iff p.glyph_name name, eq_iff p.input_hash (canonical_hash k input))

  -- Everything that a call has passed when it has run the handler.
  pub record IsPermitted (name : String) (b : Body CallBody) (s s' : ServerState) : Type 0 where
    pub glyph : Glyph
    pub registered : get s.glyphs name ≡ some glyph
    pub body : CallBody
    pub was_read : read_json b config.max_body_bytes ≡ read body
    pub input : Json
    pub accepted : glyph.input_schema body.input ≡ parsed input
    pub scoped : missing_scopes glyph.card.required_scopes (resolve_principal config r) ≡ []
    pub once : s'.executed ≡ s.executed ++ (name, input) ∷ []
    pub confirmed :
        (glyph.card.cost.requires_confirmation ≡ false)
        ⊎ IsConfirmed name input body.confirmation_token s s'

  replay-RunsConfirmed :
      (name : String) (g : Glyph) (input : Json) (id token : Option String) (s : ServerState)
      → RunsConfirmed name g input token s
          (replay_or_confirm k nfkc config r around name g input id token s).1
  replay-RunsConfirmed name g input id token s =
      replay_elim k nfkc config r around (λ x. RunsConfirmed name g input token s x.1) name g input
        id token s (λ _. confirm-RunsConfirmed name g input id none token s) (λ _ _ _ _. inl refl)
        (λ key _ _. reread (confirm-RunsConfirmed name g input id (some key) token _))
    where
      reread :
          {recorded : _} {s' : ServerState}
          → RunsConfirmed name g input token (record s { recorded = recorded }) s'
          → RunsConfirmed name g input token s s'
      reread (inl e) = inl e
      reread (inr (e, inl free)) = inr (e, inl free)
      reread (inr (e, inr c)) = inr (
        e,
        inr (record {
          presented = c.presented;
          pending = c.pending;
          issued = c.issued;
          unexpired = c.unexpired;
          same_glyph = c.same_glyph;
          same_input = c.same_input;
          used_up = c.used_up;
        }),
      )

  -- A call runs no handler, or it runs the handler of a registered glyph once, on an input that the
  -- glyph's schema accepts, for a caller with every scope that the card requires; and if the card
  -- requires confirmation, with a ticket that was issued for this glyph and input, has not expired,
  -- and is gone afterwards.
  pub handle_call-IsPermitted :
      (name : String) (b : Body CallBody) (s : ServerState)
      → let s' = (handle_call k nfkc config r around name b s).1 in
        (s'.executed ≡ s.executed) ⊎ IsPermitted name b s s'
  handle_call-IsPermitted name b s =
      call_elim k nfkc config r around (λ x. (x.1.executed ≡ s.executed) ⊎ IsPermitted name b s x.1)
        name b s (λ _ _. inl refl)
        (λ g body input registered was_read accepted scoped.
          permitted g body input registered was_read accepted scoped
            (replay-RunsConfirmed name g input body.call_id body.confirmation_token s))
    where
      permitted :
          (g : Glyph) (body : CallBody) (input : Json) {s' : ServerState}
          → get s.glyphs name ≡ some g
          → read_json b config.max_body_bytes ≡ read body
          → g.input_schema body.input ≡ parsed input
          → missing_scopes g.card.required_scopes (resolve_principal config r) ≡ []
          → RunsConfirmed name g input body.confirmation_token s s'
          → (s'.executed ≡ s.executed) ⊎ IsPermitted name b s s'
      permitted g body input e f h i (inl same) = inl same
      permitted g body input e f h i (inr (once, confirmed)) = inr (record {
        glyph = g;
        registered = e;
        body = body;
        was_read = f;
        input = input;
        accepted = h;
        scoped = i;
        once = once;
        confirmed = confirmed;
      })
