-- ===== src/Client/Call/Altered.antt =====
-- A gap in the receipt check of packages/client/src/index.ts, which it inherits from `canonicalize` of
-- packages/core/src/index.ts.
use glyph_protocol.Prelude.{String, ◌≡◌, ap, true, Option, some, none, sym, ◌∙◌}
use glyph_protocol.Json.{Json, obj, Fields, field, stringify}
use glyph_protocol.Json.Laws.{canonicalize-proto}
use glyph_protocol.Crypto.{Crypto, canonical_hash}
use glyph_protocol.Card.{GlyphCard}
use glyph_protocol.Receipt.{CallReceipt, SealedEnvelope}
use glyph_protocol.Client.Call.{accepts_receipt, receipt_answers}

hash-proto :
    (k : Crypto) (v : Json) (fs : Fields)
    → canonical_hash k (obj (field "__proto__" v fs)) ≡ canonical_hash k (obj fs)
unfolding canonical_hash
hash-proto k v fs = ap (λ x. k.sha256 (stringify x)) (canonicalize-proto v fs)

-- If the client accepts the receipt of an envelope whose payload is an object, it also accepts the
-- same receipt with the payload altered by a further own field `__proto__` of any value.
pub accepts_receipt-proto :
    (k : Crypto) (receipt : Option CallReceipt) (envelope : SealedEnvelope) (card : GlyphCard)
    (call_id : String) (v : Json) (fs : Fields)
    → envelope.payload ≡ obj fs
    → accepts_receipt k receipt envelope card call_id ≡ true
    → accepts_receipt k receipt
        (record envelope { payload = obj (field "__proto__" v fs) })
        card
        call_id
      ≡ true
unfolding accepts_receipt receipt_answers
accepts_receipt-proto k none envelope card call_id v fs plain h = h
accepts_receipt-proto k (some r) envelope card call_id v fs plain h =
    let same = hash-proto k v fs ∙ sym (ap (canonical_hash k) plain) in simp same h
