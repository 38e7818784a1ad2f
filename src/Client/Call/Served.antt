-- ===== src/Client/Call/Served.antt =====
-- The server's answer meets the client's check: the call route of packages/server/src/server.ts and
-- `verifyReceipt` of packages/client/src/index.ts.
use glyph_protocol.Prelude.{String, ◌≡◌, true, some, truthy, eq_refl}
use glyph_protocol.Json.{Json}
use glyph_protocol.Crypto.{Crypto, IsSound}
use glyph_protocol.Receipt.{verify_receipt, sign_receipt, receipt_json, seal_result}
use glyph_protocol.Server.Api.{Glyph, Config, Request, Surroundings}
use glyph_protocol.Server.Call.{make_response, make_receipt}
use glyph_protocol.Client.Call.{accepts_receipt, receipt_answers}

-- With sound ed25519, the client accepts the receipt of every response that the server makes for a call with an id, if
-- the pinned card is the glyph's and has the server's key.
pub make_response-accepted :
    (k : Crypto) (sound : IsSound k) (nfkc : String → String) (config : Config) (r : Request)
    (around : Surroundings) (g : Glyph) (input : Json) (call_id : String) (result : Json)
    → g.card.public_key ≡ some (k.public_key config.private_key)
    → truthy (some call_id) ≡ true
    → accepts_receipt k
        (make_response k nfkc config r around g input (some call_id) result).receipt
        (make_response k nfkc config r around g input (some call_id) result)
        g.card
        call_id
      ≡ true
unfolding accepts_receipt receipt_answers make_response make_receipt verify_receipt sign_receipt
    receipt_json seal_result
make_response-accepted k sound nfkc config r around g input call_id result own full =
    simp (own, full, sound.sign_nonempty, sound.public_nonempty, sound.verify-sign, eq_refl)
