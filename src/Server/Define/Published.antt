-- ===== src/Server/Define/Published.antt =====
-- A glyph from its definition to a consumer: `defineGlyph`, `register` and the card route of
-- packages/server/src, and the consumer's checks of packages/client/src/index.ts.
use glyph_protocol.Prelude.{String, ◌≡◌, refl, true, false, none, some, is_some, arith, truthy}
use glyph_protocol.Prelude.Table.{get, set, get-set_self}
use glyph_protocol.Json.{Json}
use glyph_protocol.Crypto.{Crypto, IsSound}
use glyph_protocol.Card.{GlyphCard, compute_glyph_id, picked, verify_glyph}
use glyph_protocol.Card.Depth.{rich_card}
use glyph_protocol.Server.Api.{SafeParse, Config, ServerState, card}
use glyph_protocol.Server.Handlers.{register, handle_card}
use glyph_protocol.Server.Handlers.Register.{signed, signed-verifies, handle_card-registered}
use glyph_protocol.Server.Define.{GlyphConfig, define_glyph, partial_card}
use glyph_protocol.Client.Pins.{PinStore, ok, approve_card, fresh_pin, set_pin, is_revoked}

define_glyph-id :
    (k : Crypto) (to_json_schema : (Json → SafeParse) → Json) (c : GlyphConfig) (now : String)
    → (define_glyph k to_json_schema c now).card.id
      ≡ compute_glyph_id k (define_glyph k to_json_schema c now).card
unfolding define_glyph compute_glyph_id picked
define_glyph-id k to_json_schema c now = refl

verified-truthy : (k : Crypto) (c : GlyphCard) → verify_glyph k c ≡ true → truthy c.signature ≡ true
unfolding verify_glyph
verified-truthy k c valid = ground arith

approved :
    (k : Crypto) (pins : PinStore) (c : GlyphCard) (today : String)
    → verify_glyph k c ≡ true
    → is_revoked (get pins c.name) ≡ false
    → approve_card k pins c false today
      ≡ (ok (fresh_pin c.name today c), set_pin pins (fresh_pin c.name today c))
unfolding approve_card
approved k pins c today valid live = simp (verified-truthy k c valid, valid, live)

-- With sound ed25519: a glyph whose name is free registers, the card route then answers its card in
-- full, signed with the server's key, and a consumer who has not revoked the tool approves that
-- card, which is what is pinned.
pub define_glyph-published :
    (k : Crypto) (to_json_schema : (Json → SafeParse) → Json) (config : Config) (c : GlyphConfig)
    (now today : String) (s : ServerState) (pins : PinStore)
    → IsSound k
    → is_some (get s.glyphs c.name) ≡ false
    → is_revoked (get pins c.name) ≡ false
    → (t : ServerState) × (served : GlyphCard) × (register k config s
          (define_glyph k to_json_schema c now)
        ≡ some t)
      × ((handle_card k config c.name none t).0 ≡ card (rich_card served))
      × (served.public_key ≡ some (k.public_key config.private_key))
      × (approve_card k pins served false today
          ≡ (ok (fresh_pin c.name today served), set_pin pins (fresh_pin c.name today served)))
unfolding register define_glyph partial_card
define_glyph-published k to_json_schema config c now today s pins sound free live =
    let g = define_glyph k to_json_schema c now in
    let served = signed k config g.card in
    let t : ServerState = record s { glyphs = set s.glyphs c.name (record g { card = served }) } in
    let own = define_glyph-id k to_json_schema c now in
    (
      t,
      served,
      rw free,
      handle_card-registered k config c.name t (record g { card = served })
          (get-set_self s.glyphs c.name _),
      refl,
      approved k pins served today (signed-verifies k config g.card sound own) live,
    )
