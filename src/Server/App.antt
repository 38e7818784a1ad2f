-- ===== src/Server/App.antt =====
-- A whole request, as `setupRoutes` of packages/server/src/server.ts installs it: the rate limiter,
-- the auth gate, then the route.
pub mod Limits
pub mod Between
use glyph_protocol.Prelude.{ℕ, String, Bool, List, [], ◌∷◌, Option, none, some, map}
use glyph_protocol.Prelude.Table.{Table, values}
use glyph_protocol.Card.{opt_map}
use glyph_protocol.Server.Stores.{Window}
use glyph_protocol.Crypto.{Crypto}
use glyph_protocol.Server.Middleware.{build_verify, auth_gate, rate_gate}
use glyph_protocol.Server.Api.{
  not_found, internal_error, Reply, failure, healthy, no_route, registry, lexicon, Config,
  ServerState, Surroundings, Request, Route, health, keys, all_glyphs, unrouted, handshake,
  glyph_card, glyph_manifest, prepare, call,
}
use glyph_protocol.Server.Handlers.{
  refuse, lexicon_of, handle_handshake, handle_card, handle_manifest, handle_prepare,
}
use glyph_protocol.Server.Call.{handle_call}

module _ (k : Crypto) (nfkc : String → String) (config : Config) where
  -- `GET /keys`
  unfoldable pub handle_keys : ServerState → Reply × ServerState
  handle_keys s = elim config.key_registry [
    | none ↦ refuse 404 not_found s
    | some none ↦ refuse 500 internal_error s
    | some (some value) ↦ (registry value, s)
  ]

  unfoldable pub route_request : Request → Surroundings → Route → ServerState → Reply × ServerState
  unfolding handle_keys
  route_request r around health s = (healthy, s)
  route_request r around keys s = handle_keys s
  route_request r around all_glyphs s = (lexicon (lexicon_of k config s), s)
  route_request r around unrouted s = (no_route, s)
  route_request r around (handshake b) s = handle_handshake k config b s around
  route_request r around (glyph_card name depth) s = handle_card k config name depth s
  route_request r around (glyph_manifest name) s = handle_manifest k config name s
  route_request r around (prepare name b) s = handle_prepare k config r around name b s
  route_request r around (call name b) s = handle_call k nfkc config r around name b s

  -- The rate limiter, if one is installed; it is given the auth gate's verifier.
  unfoldable pub rate_stop : ServerState → Request → ℕ → Option Reply × Table Window
  rate_stop s r now = elim config.rate_limit [
    | none ↦ (none, s.windows)
    | some limit ↦ rate_gate limit (opt_map (build_verify k) config.auth) s.windows r now
  ]

  -- The auth gate, if one is installed.
  unfoldable pub auth_stop : Request → Option Reply
  auth_stop r = elim config.auth [ none ↦ none | some auth ↦ auth_gate k auth r ]

  -- The auth gate, then the route.
  unfoldable pub authenticated : Request → Surroundings → ServerState → Reply × ServerState
  authenticated r around s = elim (auth_stop r) [
    | some reply ↦ (reply, s)
    | none ↦ route_request r around r.route s
  ]

  -- The rate limiter, then the rest.
  unfoldable pub handle : Request → Surroundings → ServerState → Reply × ServerState
  handle r around s =
      let (stopped, windows) = rate_stop s r around.now_limit in
      let counted = record s { windows = windows } in
      elim stopped [ some reply ↦ (reply, counted) | none ↦ authenticated r around counted ]
