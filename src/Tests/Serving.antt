-- ===== src/Tests/Serving.antt =====
-- The server's theorems on a small tool.
use glyph_protocol.Prelude.{
  List, String, ◌≡◌, refl, ◌⊎◌, [], ◌∷◌, ◌++◌, none, some, or_else, arith, ◌+◌,
}
use glyph_protocol.Prelude.Table.{get, set, delete, AllValues}
use glyph_protocol.Json.{num, str, canonicalize, stringify}
use glyph_protocol.Crypto.{toy, toy-IsSound, canonical_hash}
use glyph_protocol.Receipt.{SealedEnvelope}
use glyph_protocol.Server.Stores.{
  consume, sweep, sweep_from, sweep_expired, put_confirmation, get_recorded, put_recorded, Recorded,
}
use glyph_protocol.Server.Middleware.{missing_scopes}
use glyph_protocol.Server.Handlers.{
  mint_ticket, handle_prepare, resolve_principal, confirmation_ttl_ms,
}
use glyph_protocol.Server.Api.{
  Surroundings, prepare, Reply, ticket, sealed, ConfirmationTicket, ServerState, Request, call,
  read_json,
}
use glyph_protocol.Server.Call.{
  confirm, replay_or_confirm, handle_call, dedupe_key_of, execute, deliver, make_response,
  record_response,
}
use glyph_protocol.Server.Call.Gates.{IsPermitted, handle_call-IsPermitted}
use glyph_protocol.Server.App.{handle, rate_stop, auth_stop, authenticated, route_request}
use glyph_protocol.Server.Ledger.{LedgerStep, AsksNone, ledger}
use glyph_protocol.Server.Ledger.Refined.{handle-Refines}
use glyph_protocol.Server.Call.Once.{handle_call_once, prepare_then_confirm}
use glyph_protocol.Server.App.Between.{handle_all}
use glyph_protocol.Server.Call.Replay.{retry_replays}
use glyph_protocol.Server.Call.Deliver.{IsGenuine, handle_call-IsGenuine}
use glyph_protocol.Tests.{
  guarded, plain, glyph_of, unchanged_text, config, state, around, body, request,
}

abbrev pub call_request : Request
call_request = request (call "send" (body (some "c1") (some "id")))

-- A ticket was handed out at time 0.
abbrev pub prepared : ServerState
prepared =
    (mint_ticket toy config call_request (around 0) "send" (glyph_of guarded) (str "hello")
      (state guarded)).1

abbrev called : Reply × ServerState
called =
    handle_call toy unchanged_text config call_request (around 5) "send"
      (body (some "c1") (some "id")) prepared

handle_call-IsPermitted_example :
    (called.1.executed ≡ prepared.executed)
    ⊎ IsPermitted toy unchanged_text config call_request
        (around 5)
        "send"
        (body (some "c1") (some "id"))
        prepared
        called.1
handle_call-IsPermitted_example =
    handle_call-IsPermitted toy unchanged_text config call_request (around 5) "send"
      (body (some "c1") (some "id")) prepared

-- The handler did run.
called_once : called.1.executed ≡ ("send", str "hello") ∷ []
unfolding get set delete mint_ticket sweep sweep_from put_confirmation handle_call read_json
    missing_scopes resolve_principal replay_or_confirm get_recorded put_recorded confirm consume
    canonical_hash canonicalize stringify execute deliver record_response sweep_expired
called_once = refl

called_once_issued : (called.1.executed ≡ prepared.executed) → ⊥
unfolding mint_ticket sweep sweep_from
called_once_issued same = absurd (cc (called_once, same))

-- Another ticket is asked for in between.
abbrev meanwhile : List (Request × Surroundings)
meanwhile =
    (
      request (
          prepare "send"
            (record { content_length = none; size = 7; content = some (str "hello") })),
      record (around 6) { fresh_id = "other" },
    )
    ∷ []

handle_call_once_example :
    let s' = handle_all toy unchanged_text config meanwhile called.1 in
    (handle_call toy unchanged_text config call_request
      (around 7)
      "send"
      (body (some "c2") (some "id"))
      s').1.executed
    ≡ s'.executed
unfolding get set delete mint_ticket sweep sweep_from put_confirmation handle_call read_json
    missing_scopes resolve_principal replay_or_confirm get_recorded put_recorded confirm consume
    canonical_hash canonicalize stringify execute deliver record_response sweep_expired handle_all
    handle rate_stop auth_stop authenticated route_request handle_prepare
handle_call_once_example =
    handle_call_once toy unchanged_text config call_request call_request (around 5) (around 7)
      "send" "send" (body (some "c1") (some "id")) (body (some "c2") (some "id"))
      (record { input = str "hello"; call_id = some "c1"; confirmation_token = some "id" })
      (record { input = str "hello"; call_id = some "c2"; confirmation_token = some "id" })
      meanwhile prepared refl refl refl (glyph_of guarded, refl, refl) called_once_issued (refl, tt)
      (glyph_of guarded, refl, refl)

issued : ConfirmationTicket
issued = record {
  confirmation_token = "id";
  glyph_id = guarded.id;
  name = "send";
  cost = guarded.cost;
  input = str "hello";
  expires_at = 0 + confirmation_ttl_ms;
}

minted :
    (mint_ticket toy config call_request
      (around 0)
      "send"
      (glyph_of guarded)
      (str "hello")
      (state guarded)).0
    ≡ ticket issued
unfolding mint_ticket sweep sweep_from issued
minted = refl

prepare_then_confirm_example :
    let s' = handle_all toy unchanged_text config meanwhile prepared in
    (confirm toy unchanged_text config call_request
      (around 7)
      "send"
      (glyph_of guarded)
      (str "hello")
      none
      none
      (some issued.confirmation_token)
      s').1.executed
    ≡ s'.executed ++ ("send", str "hello") ∷ []
prepare_then_confirm_example =
    prepare_then_confirm toy unchanged_text config call_request call_request (around 0) (around 7)
      "send" (glyph_of guarded) (str "hello") none none meanwhile (state guarded) issued minted refl
      ((refl, refl, omega arith), tt) (omega arith)

-- A call of the plain tool, and its retry.
abbrev served : Reply × ServerState
served =
    replay_or_confirm toy unchanged_text config call_request (around 5) "send" (glyph_of plain)
      (str "hello") (some "c1") none (state plain)

answer : SealedEnvelope
answer =
    make_response toy unchanged_text config call_request (around 5) (glyph_of plain) (str "hello")
      (some "c1") (num "1")

abbrev served_key : String
served_key =
    or_else
      (dedupe_key_of toy unchanged_text config call_request (around 5) "send" (str "hello")
        (some "c1"))
      ""

record_of_answer : Recorded
record_of_answer = record { response = answer; expires_at = 5 + 1000 }

retry_replays_example :
    replay_or_confirm toy unchanged_text config call_request
      (around 900)
      "send"
      (glyph_of plain)
      (str "hello")
      (some "c1")
      none
      served.1
    ≡ (sealed answer, served.1)
unfolding get set delete replay_or_confirm get_recorded put_recorded confirm consume canonical_hash
    canonicalize stringify execute deliver record_response sweep_expired answer record_of_answer
retry_replays_example =
    retry_replays toy unchanged_text config call_request call_request (around 5) (around 900) "send"
      (glyph_of plain) (str "hello") (some "c1") none none served_key (state plain) answer
      record_of_answer refl refl refl (omega arith)

handle_call-IsGenuine_example :
    IsGenuine toy (toy.public_key "key") answer
    × AllValues
        (λ y. IsGenuine toy (toy.public_key "key") y.response)
        (handle_call toy unchanged_text config call_request
          (around 5)
          "send"
          (body (some "c1") none)
          (state plain)).1.recorded
unfolding get set delete mint_ticket sweep sweep_from put_confirmation handle_call read_json
    missing_scopes resolve_principal replay_or_confirm get_recorded put_recorded confirm consume
    canonical_hash canonicalize stringify execute deliver record_response sweep_expired answer
handle_call-IsGenuine_example =
    handle_call-IsGenuine toy toy-IsSound unchanged_text config call_request (around 5) "send"
      (body (some "c1") none) (state plain) answer tt refl

handle-Refines_example :
    LedgerStep
      (canonical_hash toy)
      (AsksNone prepared.glyphs)
      (ledger prepared)
      (ledger (handle toy unchanged_text config call_request (around 5) prepared).1)
    × ((handle toy unchanged_text config call_request (around 5) prepared).1.glyphs
        ≡ prepared.glyphs)
handle-Refines_example = handle-Refines toy unchanged_text config call_request (around 5) prepared
