-- ===== src/Server/App/Between.antt =====
-- What a request, and a run of requests, of packages/server/src/server.ts does to the tickets that
-- are pending.
use glyph_protocol.Prelude.{
  ℕ, ◌<◌, String, ◌≡◌, refl, inl, inr, false, ◌==◌, Bool-cases, List, [], ◌∷◌, Option, none, some,
  or_else, leb, arith, All,
}
use glyph_protocol.Prelude.Table.{get, get-set}
use glyph_protocol.Json.{Json}
use glyph_protocol.Crypto.{Crypto}
use glyph_protocol.Server.Stores.{
  PendingConfirmation, Confirmations, consume, put_confirmation, sweep, sweep_from, sooner,
}
use glyph_protocol.Server.Stores.Confirmations.{get-consume}
use glyph_protocol.Server.Handlers.{mint_ticket}
use glyph_protocol.Server.Handlers.Prepare.{prepare_elim}
use glyph_protocol.Server.Api.{
  Glyph, Config, ServerState, Surroundings, Request, Route, Body, CallBody, ReadResult, read,
  read_json, health, keys, all_glyphs, unrouted, handshake, glyph_card, glyph_manifest, prepare,
  call,
}
use glyph_protocol.Server.Call.{confirm, handle_call}
use glyph_protocol.Server.Call.Cases.{confirm_elim, replay_elim, call_elim}
use glyph_protocol.Server.Call.Gates.{confirmations-execute}
use glyph_protocol.Server.App.{route_request, handle}
use glyph_protocol.Server.App.Limits.{
  handle_elim, counted, handshake-state, card-state, manifest-state, keys-state,
}

abbrev pub token_in : ReadResult CallBody → Option String
token_in (read body) = body.confirmation_token
token_in _ = none

-- The ticket that a request presents.
abbrev pub presented : Config → Route → String
presented config (call name b) = or_else (token_in (read_json b config.max_body_bytes)) ""
presented config _ = ""

-- A run of whole requests, each with what its surroundings answer.
unfoldable pub handle_all :
    Crypto → (String → String) → Config → List (Request × Surroundings) → ServerState → ServerState
handle_all k nfkc config [] s = s
handle_all k nfkc config ((r, around) ∷ rest) s =
    handle_all k nfkc config rest ((handle k nfkc config r around s).1)

-- What holds of the pending tickets before a request holds after it, if it outlives the use of the
-- ticket that the request presents, the sweep, and a ticket that is handed out.
module _ (k : Crypto) (nfkc : String → String) (config : Config) (r : Request)
    (around : Surroundings) (P : Confirmations → Type 0) where
  abbrev Outlives : String → Type 0
  Outlives token = (m : Confirmations) → P m → P (consume m token).1

  confirm-keeps :
      (name : String) (g : Glyph) (input : Json) (id key token : Option String) (s : ServerState)
      → Outlives (or_else token "")
      → P s.confirmations
      → P (confirm k nfkc config r around name g input id key token s).1.confirmations
  confirm-keeps name g input id key token s used h =
      let after = used s.confirmations h in
      confirm_elim k nfkc config r around (λ x. P x.1.confirmations) name g input id key token s
        (λ _. rw confirmations-execute h) (λ _. h) (λ _. after) (λ _ _ _. after)
        (λ _ _ _ _. rw confirmations-execute after)

  call-keeps :
      (name : String) (b : Body CallBody) (s : ServerState)
      → Outlives (presented config (call name b))
      → P s.confirmations
      → P (handle_call k nfkc config r around name b s).1.confirmations
  call-keeps name b s used h =
      call_elim k nfkc config r around (λ x. P x.1.confirmations) name b s (λ _ _. h)
        (λ g body input _ was_read _ _.
          let own : Outlives (or_else body.confirmation_token "") = rw was_read at used in
          replay_elim k nfkc config r around (λ x. P x.1.confirmations) name g input body.call_id
            body.confirmation_token s
            (λ _. confirm-keeps name g input body.call_id none body.confirmation_token s own h)
            (λ _ _ _ _. h)
            (λ key _ _.
              confirm-keeps name g input body.call_id (some key) body.confirmation_token _ own h))

  abbrev OutlivesMint : Type 0
  OutlivesMint =
      (m : Confirmations)
      → P m
      → P (sweep m around.now_prepare).1
        × ((entry : PendingConfirmation)
            → P (put_confirmation (sweep m around.now_prepare).1 around.fresh_id entry))

  mint_ticket-keeps :
      (name : String) (g : Glyph) (input : Json) (s : ServerState)
      → OutlivesMint
      → P s.confirmations
      → P (mint_ticket k config r around name g input s).1.confirmations
  unfolding mint_ticket
  mint_ticket-keeps name g input s minted h =
      elim (Bool-cases
        (leb config.max_pending_confirmations (sweep s.confirmations around.now_prepare).0.size)) [
          | inl full ↦ rw full (minted s.confirmations h).0
          | inr room ↦ rw room ((minted s.confirmations h).1 _)
        ]

  route-keeps :
      (route : Route) (s : ServerState)
      → Outlives (presented config route)
      → OutlivesMint
      → P s.confirmations
      → P (route_request k nfkc config r around route s).1.confirmations
  unfolding route_request
  route-keeps health s used minted h = h
  route-keeps keys s used minted h = rw keys-state h
  route-keeps all_glyphs s used minted h = h
  route-keeps unrouted s used minted h = h
  route-keeps (handshake b) s used minted h = rw handshake-state h
  route-keeps (glyph_card name depth) s used minted h = rw card-state h
  route-keeps (glyph_manifest name) s used minted h = rw manifest-state h
  route-keeps (prepare name b) s used minted h =
      prepare_elim k config r around (λ x. P x.1.confirmations) name b s (λ _ _. h)
        (λ g body input _ _ _ _. mint_ticket-keeps name g input s minted h)
  route-keeps (call name b) s used minted h = call-keeps name b s used h

  handle-keeps :
      (s : ServerState)
      → Outlives (presented config r.route)
      → OutlivesMint
      → P s.confirmations
      → P (handle k nfkc config r around s).1.confirmations
  unfolding counted
  handle-keeps s used minted h =
      handle_elim k nfkc config r around (λ x. P x.1.confirmations) s (λ _ _. h) (λ _ _. h)
        (λ _. route-keeps r.route _ used minted h)

sweep-unknown :
    (now : ℕ) (m : Confirmations) (earliest : Option ℕ) (token : String)
    → get m token ≡ none
    → get (sweep_from now earliest m).0 token ≡ none
unfolding get sweep_from
sweep-unknown now [] earliest token h = refl
sweep-unknown now ((j, v) ∷ m) earliest token h = elim (Bool-cases (j == token)) [
  | inl here ↦ absurd (cc (rw here at h))
  | inr there ↦
      let rest : get m token ≡ none = rw there at h in
      elim (Bool-cases (leb v.expires_at now)) [
        | inl expired ↦ simp expired (sweep-unknown now m earliest token rest)
        | inr live ↦
            simp (live, there) (sweep-unknown now m (sooner earliest v.expires_at) token rest)
      ]
]

sweep-known :
    (now : ℕ) (m : Confirmations) (earliest : Option ℕ) (token : String) (p : PendingConfirmation)
    → now < p.expires_at
    → get m token ≡ some p
    → get (sweep_from now earliest m).0 token ≡ some p
unfolding get sweep_from
sweep-known now [] earliest token p early h = absurd (cc)
sweep-known now ((j, v) ∷ m) earliest token p early h = elim (Bool-cases (j == token)) [
  | inl here ↦
      let same : some v ≡ some p = rw here at h in
      let live : leb v.expires_at now ≡ false = ground arith in simp (live, here) same
  | inr there ↦
      let rest : get m token ≡ some p = rw there at h in
      elim (Bool-cases (leb v.expires_at now)) [
        | inl expired ↦ simp expired (sweep-known now m earliest token p early rest)
        | inr live ↦
            simp (live, there) (sweep-known now m (sooner earliest v.expires_at) token p early rest)
      ]
]

module _ (k : Crypto) (nfkc : String → String) (config : Config) (token : String) where
  -- The request hands out no ticket with this token.
  abbrev pub IsOther : Request × Surroundings → Type 0
  IsOther (r, around) = (around.fresh_id == token) ≡ false

  -- Nor does it present the token, and the ticket, which expires at the given time, outlives its sweep.
  abbrev pub Spares : ℕ → Request × Surroundings → Type 0
  Spares expires_at (r, around) =
      ((around.fresh_id == token) ≡ false)
      × ((presented config r.route == token) ≡ false)
      × (around.now_prepare < expires_at)

  stays-unknown :
      (r : Request) (around : Surroundings) (s : ServerState)
      → (around.fresh_id == token) ≡ false
      → get s.confirmations token ≡ none
      → get (handle k nfkc config r around s).1.confirmations token ≡ none
  unfolding sweep put_confirmation
  stays-unknown r around s other =
      handle-keeps k nfkc config r around (λ m. get m token ≡ none) s
        (λ m h. rw get-consume (ground (arith, h)))
        (λ m h.
          let swept = sweep-unknown around.now_prepare m none token h in
          (swept, λ entry. rw (get-set, other) swept))

  -- A token that is unknown stays so in a run that does not hand it out again.
  pub handle_all-unknown :
      (requests : List (Request × Surroundings)) (s : ServerState)
      → All IsOther requests
      → get s.confirmations token ≡ none
      → get (handle_all k nfkc config requests s).confirmations token ≡ none
  unfolding handle_all
  handle_all-unknown [] s other h = h
  handle_all-unknown ((r, around) ∷ rest) s (first, later) h =
      handle_all-unknown rest _ later (stays-unknown r around s first h)

  stays-known :
      (p : PendingConfirmation) (r : Request) (around : Surroundings) (s : ServerState)
      → (around.fresh_id == token) ≡ false
      → (presented config r.route == token) ≡ false
      → around.now_prepare < p.expires_at
      → get s.confirmations token ≡ some p
      → get (handle k nfkc config r around s).1.confirmations token ≡ some p
  unfolding sweep put_confirmation
  stays-known p r around s other unused early =
      handle-keeps k nfkc config r around (λ m. get m token ≡ some p) s
        (λ m h. rw (get-consume, unused) h)
        (λ m h.
          let swept = sweep-known around.now_prepare m none token p early h in
          (swept, λ entry. rw (get-set, other) swept))

  -- A ticket stays pending in a run that does not present it, until it expires.
  pub handle_all-known :
      (requests : List (Request × Surroundings)) (p : PendingConfirmation) (s : ServerState)
      → All (Spares p.expires_at) requests
      → get s.confirmations token ≡ some p
      → get (handle_all k nfkc config requests s).confirmations token ≡ some p
  unfolding handle_all
  handle_all-known [] p s spared h = h
  handle_all-known ((r, around) ∷ rest) p s ((other, unused, early), later) h =
      handle_all-known rest p _ later (stays-known p r around s other unused early h)
