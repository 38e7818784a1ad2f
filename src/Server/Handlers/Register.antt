-- ===== src/Server/Handlers/Register.antt =====
-- What a server publishes: `register` of packages/server/src/server.ts and the card route.
use glyph_protocol.Prelude.{
  String, ◌≡◌, refl, true, Bool-cases, Option-cases, inl, inr, none, some, is_some, arith, subst,
  eq_iff, sym,
}
use glyph_protocol.Prelude.Table.{get, set, AllValues, AllValues-set, AllValues-get}
use glyph_protocol.Crypto.{Crypto, IsSound}
use glyph_protocol.Card.{GlyphCard, verify_glyph, compute_glyph_id, picked, sign_glyph}
use glyph_protocol.Card.Depth.{apply_depth, rich_card}
use glyph_protocol.Server.Api.{Glyph, Config, ServerState, card}
use glyph_protocol.Server.Handlers.{register, handle_card, depth_of}

-- Every registered card verifies under the server's key.
abbrev pub AllVerified : Crypto → Config → ServerState → Type 0
AllVerified k config s =
    AllValues
      (λ g.
        (verify_glyph k g.card ≡ true)
        × (g.card.public_key ≡ some (k.public_key config.private_key)))
      s.glyphs

-- The card as it is registered.
abbrev pub signed : Crypto → Config → GlyphCard → GlyphCard
signed k config c = record c {
  public_key = some (k.public_key config.private_key);
  signature = some (sign_glyph k c config.private_key);
}

pub signed-verifies :
    (k : Crypto) (config : Config) (c : GlyphCard)
    → IsSound k
    → c.id ≡ compute_glyph_id k c
    → verify_glyph k (signed k config c) ≡ true
unfolding verify_glyph compute_glyph_id picked sign_glyph
signed-verifies k config c sound own =
    let same = (eq_iff (compute_glyph_id k (signed k config c)) c.id).1 (sym own) in
    simp (same, sound.sign_nonempty, sound.public_nonempty, sound.verify-sign)

-- With sound ed25519, registering a glyph whose card has the id of its content keeps every
-- registered card verified under the server's key.
pub register-AllVerified :
    (k : Crypto) (config : Config) (g : Glyph) (s t : ServerState)
    → IsSound k
    → g.card.id ≡ compute_glyph_id k g.card
    → AllVerified k config s
    → register k config s g ≡ some t
    → AllVerified k config t
unfolding register
register-AllVerified k config g s t sound own h e =
    elim (Bool-cases (is_some (get s.glyphs g.card.name))) [
      | inl taken ↦ absurd (ground (arith, taken))
      | inr free ↦
          let added : AllVerified k config (record s {
            glyphs = set s.glyphs g.card.name (record g { card = signed k config g.card });
          }) =
            AllValues-set _ s.glyphs g.card.name _ h
              (signed-verifies k config g.card sound own, refl) in
          let whole : some (record s {
            glyphs = set s.glyphs g.card.name (record g { card = signed k config g.card });
          })
              ≡ some t =
            rw free at e in
          let same : record s {
            glyphs = set s.glyphs g.card.name (record g { card = signed k config g.card });
          }
              ≡ t =
            cc in
          subst (AllVerified k config) same added
    ]

pub handle_card-registered :
    (k : Crypto) (config : Config) (name : String) (s : ServerState) (g : Glyph)
    → get s.glyphs name ≡ some g
    → (handle_card k config name none s).0 ≡ card (rich_card g.card)
unfolding handle_card depth_of apply_depth
handle_card-registered k config name s g found = rw (found, handle_card)

-- If every registered card verifies, so does each card that `GET /glyphs/:name` answers in full, and
-- it carries the server's key.
pub handle_card-verifies :
    (k : Crypto) (config : Config) (name : String) (s : ServerState) (c : GlyphCard)
    → AllVerified k config s
    → (handle_card k config name none s).0 ≡ card (rich_card c)
    → (verify_glyph k c ≡ true) × (c.public_key ≡ some (k.public_key config.private_key))
unfolding handle_card depth_of apply_depth
handle_card-verifies k config name s c h e = elim (Option-cases (get s.glyphs name)) [
  | inl missing ↦ absurd (cc (rw (missing, handle_card) at e))
  | inr (g, found) ↦
      let answer : card (rich_card g.card) ≡ card (rich_card c) = rw (found, handle_card) at e in
      let same : g.card ≡ c = cc in
      subst
        (λ x. (verify_glyph k x ≡ true) × (x.public_key ≡ some (k.public_key config.private_key)))
        same (AllValues-get _ s.glyphs name h found)
]
