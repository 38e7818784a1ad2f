-- ===== src/Server/App/Limits.antt =====
-- What bounds a server of packages/server/src: its rate limiter, its auth gate and its ticket
-- backlog.
use glyph_protocol.Prelude.{
  ℕ, ◌+◌, ◌-◌, ◌≤◌, ◌<◌, String, ◌≡◌, refl, ◌⊎◌, inl, inr, ◌↔◌, Bool, true, false, Bool-cases,
  Option-cases, List, Option, none, some, arith, length, All, or_else, ◌==◌,
}
use glyph_protocol.Prelude.Table.{Table, get}
use glyph_protocol.Json.{Json}
use glyph_protocol.Card.{opt_map}
use glyph_protocol.Crypto.{Crypto}
use glyph_protocol.Server.Stores.{Window, hit}
use glyph_protocol.Server.Stores.Confirmations.{length-consume}
use glyph_protocol.Server.Stores.Windows.{run_hits, hits_of, get-run_hits, hit-own}
use glyph_protocol.Server.Middleware.{
  bearer_token, build_verify, auth_gate, client_key, rate_gate, is_health, ceil_seconds,
}
use glyph_protocol.Server.Handlers.{handle_handshake, handle_card, handle_manifest}
use glyph_protocol.Server.Handlers.{protocol_version}
use glyph_protocol.Server.Handlers.Cases.{Read-cases}
use glyph_protocol.Server.Handlers.Prepare.{length-handle_prepare}
use glyph_protocol.Server.Call.Cases.{confirm_elim, replay_elim, call_elim}
use glyph_protocol.Server.Call.Gates.{confirmations-execute}
use glyph_protocol.Server.Call.{handle_call, confirm}
use glyph_protocol.Server.Api.{
  Reply, failure, unauthorized, rate_limited, Config, RateLimitConfig, AuthConfig, ServerState,
  Surroundings, Request, Route, health, keys, all_glyphs, unrouted, handshake, glyph_card,
  glyph_manifest, prepare, call, Glyph, Body, CallBody, HandshakeBody, read_json,
}
use glyph_protocol.Server.App.{
  route_request, rate_stop, auth_stop, authenticated, handle, handle_keys,
}

-- Within a window, whatever the requests of other clients, the limiter lets a client's request pass
-- exactly while the client has used fewer than `max` of them.
pub rate_gate_iff :
    (config : RateLimitConfig) (verify : Option (String → Bool)) (m : Table Window) (r : Request)
    (hits : List (String × ℕ)) (now : ℕ) (w : Window)
    → is_health r.route ≡ false
    → get m (client_key r verify) ≡ some w
    → All (λ x. x.1 < w.reset_at) hits
    → now < w.reset_at
    → ((rate_gate config verify (run_hits m config.window_ms hits) r now).0 ≡ none)
      ↔ (w.count + hits_of (client_key r verify) hits < config.max)
unfolding rate_gate
rate_gate_iff config verify m r hits now w routed there earlier live =
    let key = client_key r verify in
    let counted =
      hit-own (run_hits m config.window_ms hits) key config.window_ms now
        (get-run_hits m key config.window_ms hits w there earlier) live in
    rw (routed, counted) (λ h. ground arith, λ h. ground arith)

-- A bearer token is presented and it verifies.
abbrev pub IsAuthorized : Crypto → AuthConfig → Request → Type 0
IsAuthorized k auth r =
    ((bearer_token r == "") ≡ false) × (build_verify k auth (bearer_token r) ≡ true)

module _ (k : Crypto) (nfkc : String → String) (config : Config) (r : Request)
    (around : Surroundings) where
  confirm-length :
      (name : String) (g : Glyph) (input : Json) (id key token : Option String) (s : ServerState)
      → length (confirm k nfkc config r around name g input id key token s).1.confirmations
        ≤ length s.confirmations
  confirm-length name g input id key token s =
      confirm_elim k nfkc config r around (λ x. length x.1.confirmations ≤ length s.confirmations)
        name g input id key token s (λ _. rw confirmations-execute (omega arith)) (λ _. omega arith)
        (λ _. length-consume s.confirmations (or_else token ""))
        (λ _ _ _. length-consume s.confirmations (or_else token ""))
        (λ _ _ _ _. rw confirmations-execute (length-consume s.confirmations (or_else token "")))

  call-length :
      (name : String) (b : Body CallBody) (s : ServerState)
      → length (handle_call k nfkc config r around name b s).1.confirmations
        ≤ length s.confirmations
  call-length name b s =
      call_elim k nfkc config r around (λ x. length x.1.confirmations ≤ length s.confirmations) name
        b s (λ _ _. omega arith)
        (λ g body input _ _ _ _.
          replay_elim k nfkc config r around
            (λ x. length x.1.confirmations ≤ length s.confirmations) name g input body.call_id
            body.confirmation_token s
            (λ _. confirm-length name g input body.call_id none body.confirmation_token s)
            (λ _ _ _ _. omega arith)
            (λ key _ _.
              confirm-length name g input body.call_id (some key) body.confirmation_token _))

  pub handshake-state :
      (b : Body HandshakeBody) (s : ServerState) → (handle_handshake k config b s around).1 ≡ s
  unfolding handle_handshake
  handshake-state b s = elim (Read-cases (read_json b config.max_body_bytes)) [
    | inl (inl e) ↦ rw (e, handle_handshake)
    | inl (inr e) ↦ rw (e, handle_handshake)
    | inr (body, e) ↦ elim (Bool-cases (or_else body.protocol_version "" == protocol_version)) [
      | inl same ↦ rw (e, same, handle_handshake)
      | inr other ↦ rw (e, other, handle_handshake)
    ]
  ]

  pub card-state :
      (name : String) (depth : Option String) (s : ServerState)
      → (handle_card k config name depth s).1 ≡ s
  unfolding handle_card
  card-state name depth s = ground arith

  pub manifest-state : (name : String) (s : ServerState) → (handle_manifest k config name s).1 ≡ s
  unfolding handle_manifest
  manifest-state name s = ground arith

  pub keys-state : (s : ServerState) → (handle_keys k nfkc config s).1 ≡ s
  unfolding handle_keys
  keys-state s = ground arith

  abbrev IsBounded : ServerState → Type 0
  IsBounded s = length s.confirmations ≤ config.max_pending_confirmations

  route-IsBounded :
      (route : Route) (s : ServerState)
      → IsBounded s
      → IsBounded (route_request k nfkc config r around route s).1
  unfolding route_request
  route-IsBounded health s h = h
  route-IsBounded keys s h = rw keys-state h
  route-IsBounded all_glyphs s h = h
  route-IsBounded unrouted s h = h
  route-IsBounded (handshake b) s h = rw handshake-state h
  route-IsBounded (glyph_card name depth) s h = rw card-state h
  route-IsBounded (glyph_manifest name) s h = rw manifest-state h
  route-IsBounded (prepare name b) s h = length-handle_prepare k config r around name b s h
  route-IsBounded (call name b) s h = omega (arith, call-length name b s)

  -- `handle`: stopped by the limiter, stopped by the auth gate, or routed.
  module _ {ℓ} (P : Reply × ServerState → Type ℓ) (s : ServerState) where
    unfoldable pub counted : ServerState
    counted = record s { windows = (rate_stop k nfkc config s r around.now_limit).1 }

    pub handle_elim :
        ((reply : Reply)
          → (rate_stop k nfkc config s r around.now_limit).0 ≡ some reply
          → P (reply, counted))
        → ((reply : Reply) → auth_stop k nfkc config r ≡ some reply → P (reply, counted))
        → (auth_stop k nfkc config r ≡ none
            → P (route_request k nfkc config r around r.route counted))
        → P (handle k nfkc config r around s)
    unfolding handle authenticated counted
    handle_elim limited refused routed =
        elim (Option-cases (rate_stop k nfkc config s r around.now_limit).0) [
          | inr (reply, e) ↦ rw (e, handle) (limited reply e)
          | inl e ↦ elim (Option-cases (auth_stop k nfkc config r)) [
            | inr (reply, f) ↦ rw (e, handle) (rw (f, authenticated) (refused reply f))
            | inl f ↦ rw (e, handle) (rw (f, authenticated) (routed f))
          ]
        ]

  -- Whatever the request, at most `max_pending_confirmations` tickets stay pending.
  pub handle-IsBounded :
      (s : ServerState)
      → length s.confirmations ≤ config.max_pending_confirmations
      → length (handle k nfkc config r around s).1.confirmations ≤ config.max_pending_confirmations
  unfolding counted
  handle-IsBounded s h =
      handle_elim (λ x. length x.1.confirmations ≤ config.max_pending_confirmations) s (λ _ _. h)
        (λ _ _. h) (λ _. route-IsBounded r.route _ h)

  auth_gate_unauthorized :
      (auth : AuthConfig)
      → is_health r.route ≡ false
      → ¬ IsAuthorized k auth r
      → auth_gate k auth r ≡ some (failure 401 unauthorized none)
  unfolding auth_gate
  auth_gate_unauthorized auth routed bad = elim (Bool-cases (bearer_token r == "")) [
    | inl e ↦ rw (routed, e)
    | inr e ↦ elim (Bool-cases (build_verify k auth (bearer_token r))) [
      | inl v ↦ absurd (bad (e, v))
      | inr v ↦ rw (routed, e, v)
    ]
  ]

  rate_gate_429 :
      (limit : RateLimitConfig) (verify : Option (String → Bool)) (m : Table Window) (now : ℕ)
      (reply : Reply)
      → (rate_gate limit verify m r now).0 ≡ some reply
      → (seconds : ℕ) × (reply ≡ failure 429 rate_limited (some seconds))
  unfolding rate_gate
  rate_gate_429 limit verify m now reply h = (
    ceil_seconds ((hit m (client_key r verify) limit.window_ms now).0.reset_at - now),
    ground arith,
  )

  rate_stop_429 :
      (s : ServerState) (now : ℕ) (reply : Reply)
      → (rate_stop k nfkc config s r now).0 ≡ some reply
      → (seconds : ℕ) × (reply ≡ failure 429 rate_limited (some seconds))
  unfolding rate_stop
  rate_stop_429 s now reply h = elim (Option-cases config.rate_limit) [
    | inl off ↦ absurd (cc (rw (off, rate_stop) at h))
    | inr (limit, e) ↦
        rate_gate_429 limit (opt_map (build_verify k) config.auth) s.windows now reply
          (ground arith)
  ]

  auth_stop_unauthorized :
      (auth : AuthConfig)
      → config.auth ≡ some auth
      → is_health r.route ≡ false
      → ¬ IsAuthorized k auth r
      → auth_stop k nfkc config r ≡ some (failure 401 unauthorized none)
  unfolding auth_stop
  auth_stop_unauthorized auth on routed bad =
      rw (on, auth_stop) (auth_gate_unauthorized auth routed bad)

  -- With authentication configured, a request other than for /health that presents no valid bearer
  -- token is answered 401 or 429 and changes nothing but the limiter's counters.
  pub handle_unauthorized :
      (auth : AuthConfig) (s : ServerState)
      → config.auth ≡ some auth
      → is_health r.route ≡ false
      → ¬ IsAuthorized k auth r
      → let (reply, s') = handle k nfkc config r around s in
        ((reply ≡ failure 401 unauthorized none)
          ⊎ ((seconds : ℕ) × (reply ≡ failure 429 rate_limited (some seconds))))
        × (record s' { windows = s.windows } ≡ s)
  unfolding counted
  handle_unauthorized auth s on routed bad =
      let stop = auth_stop_unauthorized auth on routed bad in
      handle_elim
        (λ x.
          ((x.0 ≡ failure 401 unauthorized none)
            ⊎ ((seconds : ℕ) × (x.0 ≡ failure 429 rate_limited (some seconds))))
          × (record (x.1) { windows = s.windows } ≡ s))
        s (λ reply e. (inr (rate_stop_429 s around.now_limit reply e), refl))
        (λ reply e. (inl (cc), refl)) (λ passed. absurd (cc))
