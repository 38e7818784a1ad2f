-- ===== src/Tests/Limiting.antt =====
-- The theorems on the server's limits, on small states.
use glyph_protocol.Prelude.{
  ℕ, ◌≤◌, String, ◌≡◌, refl, ◌⊎◌, ◌↔◌, List, [], ◌∷◌, none, some, length, arith, ◌+◌, ◌<◌,
}
use glyph_protocol.Prelude.Table.{get, set}
use glyph_protocol.Crypto.{toy}
use glyph_protocol.Server.Stores.{sweep, sweep_from, put_confirmation, Window}
use glyph_protocol.Server.Stores.{PendingConfirmation}
use glyph_protocol.Server.Stores.Windows.{run_hits, hits_of}
use glyph_protocol.Server.Middleware.{rate_gate, client_key, bearer_token}
use glyph_protocol.Server.Handlers.{mint_ticket}
use glyph_protocol.Server.Api.{
  failure, all_glyphs, unauthorized, rate_limited, AuthConfig, RateLimitConfig, Config,
}
use glyph_protocol.Server.App.{handle}
use glyph_protocol.Server.App.Limits.{rate_gate_iff, handle-IsBounded, handle_unauthorized}
use glyph_protocol.Tests.{unchanged_text, config, around, request}
use glyph_protocol.Tests.Serving.{call_request, prepared}

limit : RateLimitConfig
limit = record { window_ms = 1000; max = 3 }

open_window : Window
open_window = record { count = 1; reset_at = 1000 }

abbrev windows : List (String × Window)
windows = ("ip:unknown", open_window) ∷ []

abbrev earlier : List (String × ℕ)
earlier = ("ip:unknown", 10) ∷ ("ip:other", 20) ∷ []

rate_gate_iff_example :
    ((rate_gate limit none (run_hits windows limit.window_ms earlier) (request all_glyphs) 30).0
      ≡ none)
    ↔ (open_window.count + hits_of (client_key (request all_glyphs) none) earlier < limit.max)
unfolding get client_key bearer_token open_window
rate_gate_iff_example =
    rate_gate_iff limit none windows (request all_glyphs) earlier 30 open_window refl refl
      (omega arith, (omega arith, tt)) (omega arith)

handle-IsBounded_example :
    length (handle toy unchanged_text config call_request (around 5) prepared).1.confirmations
    ≤ config.max_pending_confirmations
unfolding mint_ticket sweep sweep_from put_confirmation set
handle-IsBounded_example =
    handle-IsBounded toy unchanged_text config call_request (around 5) prepared (omega arith)

abbrev auth : AuthConfig
auth = record { tokens = "secret" ∷ []; custom_verify = none }

abbrev locked : Config
locked = record config { auth = some auth }

handle_unauthorized_example :
    let (reply, s') = handle toy unchanged_text locked call_request (around 5) prepared in
    ((reply ≡ failure 401 unauthorized none)
      ⊎ ((seconds : ℕ) × (reply ≡ failure 429 rate_limited (some seconds))))
    × (record s' { windows = prepared.windows } ≡ prepared)
unfolding bearer_token
handle_unauthorized_example =
    handle_unauthorized toy unchanged_text locked call_request (around 5) auth prepared refl refl
      (λ h. cc (h.0))

abbrev pending : ℕ → PendingConfirmation
pending expires_at = record { glyph_name = "send"; input_hash = "h"; expires_at = expires_at }
