-- ===== src/Server/Ledger/Refined.antt =====
-- The routes of packages/server/src/server.ts keep the promise of the ledger.
use glyph_protocol.Prelude.{
  String, ◌≡◌, refl, sym, inl, inr, true, Option, none, some, or_else, Bool-cases, eq_iff, arith,
  subst, leb,
}
use glyph_protocol.Prelude.Table.{get}
use glyph_protocol.Json.{Json}
use glyph_protocol.Crypto.{Crypto, canonical_hash}
use glyph_protocol.Server.Stores.{PendingConfirmation, consume, put_confirmation, sweep}
use glyph_protocol.Server.Handlers.{mint_ticket}
use glyph_protocol.Server.Handlers.Prepare.{prepare_elim}
use glyph_protocol.Server.Api.{
  Glyph, Reply, failure, confirmation_required, Config, ServerState, Surroundings, Request, Route,
  Body, CallBody, health, keys, all_glyphs, unrouted, handshake, glyph_card, glyph_manifest,
  prepare, call,
}
use glyph_protocol.Server.Call.{execute, deliver, ticket_valid, confirm, handle_call}
use glyph_protocol.Server.Call.Cases.{execute_elim, confirm_elim, replay_elim, call_elim}
use glyph_protocol.Server.Call.Gates.{executed-execute, confirmations-execute}
use glyph_protocol.Server.App.{route_request, handle}
use glyph_protocol.Server.App.Limits.{
  handle_elim, counted, handshake-state, card-state, manifest-state, keys-state,
}
use glyph_protocol.Server.Ledger.{
  LedgerStep, lapse, issue, redeem, run_free, AsksNone, Held, ledger,
}
use glyph_protocol.Server.Ledger.Holdings.{
  get-Held, consume-Within, consume-gone, set-Held, sweep-Within,
}

-- A step of the ledger that leaves the registered glyphs alone.
module _ (k : Crypto) where
  abbrev pub Refines : ServerState → Reply × ServerState → Type 1
  Refines s x =
      LedgerStep (canonical_hash k) (AsksNone s.glyphs) (ledger s) (ledger (x.1))
      × (x.1.glyphs ≡ s.glyphs)

  unchanged : (s : ServerState) (reply : Reply) → Refines s (reply, s)
  unchanged s reply = (lapse (λ j e h. h) refl, refl)

  module _ (nfkc : String → String) (config : Config) (r : Request) (around : Surroundings) where
    glyphs-deliver :
        (g : Glyph) (input : Json) (id key : Option String) (result : Json) (s : ServerState)
        → (deliver k nfkc config r around g input id key result s).1.glyphs ≡ s.glyphs
    unfolding deliver
    glyphs-deliver g input id key result s = ground arith

    glyphs-execute :
        (name : String) (g : Glyph) (input : Json) (id key : Option String) (s : ServerState)
        → (execute k nfkc config r around name g input id key s).1.glyphs ≡ s.glyphs
    glyphs-execute name g input id key s =
        execute_elim k nfkc config r around (λ x. x.1.glyphs ≡ s.glyphs) name g input id key s refl
          refl refl (λ result checked _ _. glyphs-deliver g input id key checked _)

    confirm-Refines :
        (name : String) (g : Glyph) (input : Json) (id key token : Option String) (s : ServerState)
        → get s.glyphs name ≡ some g
        → Refines s (confirm k nfkc config r around name g input id key token s)
    confirm-Refines name g input id key token s registered =
        confirm_elim k nfkc config r around (Refines s) name g input id key token s
          (λ free. (
            run_free name input (g, registered, free)
                (λ j e h.
                  subst (λ m. Held m j e)
                    (confirmations-execute k nfkc config r around name g input id key s) h)
                (executed-execute k nfkc config r around name g input id key s),
            glyphs-execute name g input id key s,
          ))
          (λ absent. unchanged s (failure 403 confirmation_required none))
          (λ unknown. (lapse (consume-Within s.confirmations t) refl, refl))
          (λ p found wrong. (lapse (consume-Within s.confirmations t) refl, refl))
          (λ p present found valid.
            let used : ServerState = record s { confirmations = (consume s.confirmations t).1 } in
            let same = confirmations-execute k nfkc config r around name g input id key used in
            (
              redeem t p name input (get-Held s.confirmations t p found) (fits-name p valid)
                  (fits-input p valid)
                  (λ e.
                    subst (λ m. ¬ Held m t e) (sym same) (consume-gone s.confirmations t p e found))
                  (λ j e h. consume-Within s.confirmations t j e (subst (λ m. Held m j e) same h))
                  (executed-execute k nfkc config r around name g input id key used),
              glyphs-execute name g input id key used,
            ))
      where
        t : String
        t = or_else token ""

        fits-name :
            (p : PendingConfirmation)
            → ticket_valid k nfkc config r around name input p ≡ true
            → p.glyph_name ≡ name
        fits-name p valid = ground (arith, valid, eq_iff p.glyph_name name)

        fits-input :
            (p : PendingConfirmation)
            → ticket_valid k nfkc config r around name input p ≡ true
            → p.input_hash ≡ canonical_hash k input
        fits-input p valid = ground (arith, valid, eq_iff p.input_hash (canonical_hash k input))

    call-Refines :
        (name : String) (b : Body CallBody) (s : ServerState)
        → Refines s (handle_call k nfkc config r around name b s)
    call-Refines name b s =
        call_elim k nfkc config r around (Refines s) name b s
          (λ status code. unchanged s (failure status code none))
          (λ g body input registered _ _ _.
            replay_elim k nfkc config r around (Refines s) name g input body.call_id
              body.confirmation_token s
              (λ _.
                confirm-Refines name g input body.call_id none body.confirmation_token s registered)
              (λ _ _ _ _. (lapse (λ j e h. h) refl, refl))
              (λ key _ _.
                confirm-Refines name g input body.call_id (some key) body.confirmation_token _
                  registered))

    mint_ticket-Refines :
        (name : String) (g : Glyph) (input : Json) (s : ServerState)
        → Refines s (mint_ticket k config r around name g input s)
    unfolding mint_ticket put_confirmation sweep
    mint_ticket-Refines name g input s =
        let now = around.now_prepare in
        let swept = sweep-Within now s.confirmations none in
        elim (Bool-cases
          (leb config.max_pending_confirmations (sweep s.confirmations now).0.size)) [
            | inl full ↦ rw full (lapse swept refl, refl)
            | inr room ↦ rw room (
              issue around.fresh_id _
                  (λ j e h. elim (set-Held _ around.fresh_id _ j e h) [
                    | inl new ↦ inl new
                    | inr old ↦ inr (swept j e old)
                  ])
                  refl,
              refl,
            )
          ]

    route-Refines :
        (route : Route) (s : ServerState) → Refines s (route_request k nfkc config r around route s)
    unfolding route_request
    route-Refines health s = (lapse (λ j e h. h) refl, refl)
    route-Refines keys s = rw keys-state (lapse (λ j e h. h) refl, refl)
    route-Refines all_glyphs s = (lapse (λ j e h. h) refl, refl)
    route-Refines unrouted s = (lapse (λ j e h. h) refl, refl)
    route-Refines (handshake b) s = rw handshake-state (lapse (λ j e h. h) refl, refl)
    route-Refines (glyph_card name depth) s = rw card-state (lapse (λ j e h. h) refl, refl)
    route-Refines (glyph_manifest name) s = rw manifest-state (lapse (λ j e h. h) refl, refl)
    route-Refines (prepare name b) s =
        prepare_elim k config r around (Refines s) name b s
          (λ status code. unchanged s (failure status code none))
          (λ g body input _ _ _ _. mint_ticket-Refines name g input s)
    route-Refines (call name b) s = call-Refines name b s

    -- Every request is one step of the ledger of confirmations, and it leaves the registered glyphs
    -- as they are.
    pub handle-Refines :
        (s : ServerState)
        → let s' = (handle k nfkc config r around s).1 in
          LedgerStep (canonical_hash k) (AsksNone s.glyphs) (ledger s) (ledger s')
          × (s'.glyphs ≡ s.glyphs)
    unfolding counted
    handle-Refines s =
        handle_elim k nfkc config r around (Refines s) s
          (λ reply _. (lapse (λ j e h. h) refl, refl)) (λ reply _. (lapse (λ j e h. h) refl, refl))
          (λ _. route-Refines r.route _)
