-- ===== src/Card/Identity.antt =====
-- The id and the signature of a card: `computeGlyphId`, `signGlyph` and `verifyGlyph` of
-- packages/core/src/index.ts.
use glyph_protocol.Prelude.{
  String, ◌≡◌, refl, sym, ◌∙◌, true, some, eq_refl, truthy, arith, eq_iff, or_else,
}
use glyph_protocol.Json.{canonicalize, stringify}
use glyph_protocol.Crypto.{Crypto, IsSound}
use glyph_protocol.Card.{GlyphCard, picked, compute_glyph_id, sign_glyph, verify_glyph}

-- The card that a provider publishes: its id computed, its key and its signature filled in.
abbrev pub published : Crypto → String → GlyphCard → GlyphCard
published k private c =
    let named = record c { id = compute_glyph_id k c } in
    record named {
      public_key = some (k.public_key private);
      signature = some (sign_glyph k named private);
    }

-- The id does not depend on the id, the key and the signature that the card carries.
compute_glyph_id-published :
    (k : Crypto) (private : String) (c : GlyphCard)
    → compute_glyph_id k (published k private c) ≡ compute_glyph_id k c
unfolding compute_glyph_id picked
compute_glyph_id-published k private c = refl

-- With sound ed25519, a card whose id is computed from its content and that is signed with a private
-- key and carries the public key verifies.
pub verify_glyph-published :
    (k : Crypto) (private : String) (c : GlyphCard)
    → IsSound k
    → verify_glyph k (published k private c) ≡ true
unfolding verify_glyph sign_glyph
verify_glyph-published k private c s = rw (
  compute_glyph_id-published k private c,
  s.sign_nonempty,
  s.public_nonempty,
  eq_refl,
  s.verify-sign,
)

-- What a verified card satisfies.
pub verify_glyph-id :
    (k : Crypto) (c : GlyphCard) → verify_glyph k c ≡ true → c.id ≡ compute_glyph_id k c
unfolding verify_glyph
verify_glyph-id k c h = ground (arith, eq_iff (compute_glyph_id k c) c.id)

pub verify_glyph-signed :
    (k : Crypto) (c : GlyphCard)
    → verify_glyph k c ≡ true
    → (truthy c.signature ≡ true)
      × (truthy c.public_key ≡ true)
      × (k.verify (or_else c.signature "") c.id (or_else c.public_key "") ≡ some true)
unfolding verify_glyph
verify_glyph-signed k c h = ground arith

-- Two verified cards with one id have the same canonical content, unless SHA-256 collides on their
-- canonical texts.
pub verify_glyph-same_content :
    (k : Crypto) (a b : GlyphCard)
    → verify_glyph k a ≡ true
    → verify_glyph k b ≡ true
    → a.id ≡ b.id
    → (compute_glyph_id k a ≡ compute_glyph_id k b
        → stringify (canonicalize (picked a)) ≡ stringify (canonicalize (picked b)))
    → stringify (canonicalize (picked a)) ≡ stringify (canonicalize (picked b))
verify_glyph-same_content k a b ha hb e injective =
    injective (sym (verify_glyph-id k a ha) ∙ e ∙ verify_glyph-id k b hb)
