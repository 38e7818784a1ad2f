-- ===== src/Server/Middleware.antt =====
-- packages/server/src/middleware.ts and policy.ts: bearer tokens, the auth gate, the rate limiter and
-- the scopes that a caller lacks. SHA-256 stands for the 32 bytes that `timingSafeEqual` compares.
pub mod Scopes
use Prim.Native.String.{◌++◌, slice, len}
use text.Mathlib.Text.{starts_with}
use glyph_protocol.Prelude.{
  ℕ, ◌-◌, ◌+◌, ◌/◌, String, Bool, true, false, List, [], ◌∷◌, Option, none, some, ltb, ◌==◌, ◌||◌,
  not, if◌then◌else◌, or_else, any, keep, includes,
}
use glyph_protocol.Prelude.Table.{Table}
use glyph_protocol.Crypto.{Crypto}
use glyph_protocol.Server.Stores.{Window, hit}
use glyph_protocol.Server.Api.{
  AuthConfig, RateLimitConfig, CallerPrincipal, Request, Route, health, Reply, failure,
  unauthorized, rate_limited,
}

-- `bearerToken`
unfoldable pub bearer_token : Request → String
bearer_token r =
    let header = or_else r.authorization "" in
    if starts_with header "Bearer " then slice header 7 (len header) else ""

-- `buildVerify`
unfoldable pub build_verify : Crypto → AuthConfig → String → Bool
build_verify k config token = elim config.custom_verify [
  | some verify ↦ verify token
  | none ↦ any (λ stored. k.sha256 token == k.sha256 stored) config.tokens
]

abbrev pub is_health : Route → Bool
is_health health = true
is_health _ = false

-- `authMiddleware`: the answer that ends the request, if the gate does not let it through.
unfoldable pub auth_gate : Crypto → AuthConfig → Request → Option Reply
auth_gate k config r =
    if is_health r.route
    then none
    else if (bearer_token r == "") || not (build_verify k config (bearer_token r))
    then some (failure 401 unauthorized none)
    else none

abbrev verified : Option (String → Bool) → String → Bool
verified none t = false
verified (some verify) t = verify t

-- `clientKey`
unfoldable pub client_key : Request → Option (String → Bool) → String
client_key r verify_token =
    let token = bearer_token r in
    if (token == "") || not (verified verify_token token)
    then "ip:" ++ or_else r.remote_address "unknown"
    else "token:" ++ token

-- `Math.ceil(ms / 1000)`
abbrev pub ceil_seconds : ℕ → ℕ
ceil_seconds ms = (ms + 999) / 1000

-- `rateLimitMiddleware`
unfoldable pub rate_gate :
    RateLimitConfig
    → Option (String → Bool)
    → Table Window
    → Request
    → ℕ
    → Option Reply × Table Window
rate_gate config verify_token windows r now =
    if is_health r.route
    then (none, windows)
    else (let (w, counted) = hit windows (client_key r verify_token) config.window_ms now in
        (
          if ltb config.max w.count
              then some (failure 429 rate_limited (some (ceil_seconds (w.reset_at - now))))
              else none,
          counted,
        ))

abbrev pub granted : Option CallerPrincipal → List String
granted none = []
granted (some p) = p.scopes

-- `missingScopes`
unfoldable pub missing_scopes : Option (List String) → Option CallerPrincipal → List String
missing_scopes none caller = []
missing_scopes (some required) caller = keep (λ s. not (includes (granted caller) s)) required
