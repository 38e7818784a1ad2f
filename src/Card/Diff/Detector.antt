-- ===== src/Card/Diff/Detector.antt =====
-- The changes that `diffCards` of packages/core/src/index.ts lists, next to the id of a card.
use glyph_protocol.Prelude.{String, ◌≡◌, refl, ap, false, Option, none, some, arith}
use glyph_protocol.Json.{Json, Fields, end, canonicalize, stringify}
use glyph_protocol.Json.Texts.{SameCanonicalTexts, canonical_text-obj}
use glyph_protocol.Crypto.{Crypto, canonical_hash}
use glyph_protocol.Card.{GlyphCard, opt_field, picked, compute_glyph_id}
use glyph_protocol.Card.Diff.{
  card_changes, cost_changes, provenance_changes, canon_text, diff_cards,
}
use glyph_protocol.Card.Diff.Laws.{quiet_step}

canon_text-some :
    (v w : Json)
    → canon_text (some v) ≡ canon_text (some w)
    → stringify (canonicalize v) ≡ stringify (canonicalize w)
unfolding canon_text
canon_text-some v w h = ground arith

opt_field-SameCanonicalTexts :
    (k : String) (a b : Option Json) (fs gs : Fields)
    → canon_text a ≡ canon_text b
    → SameCanonicalTexts fs gs
    → SameCanonicalTexts (opt_field k a fs) (opt_field k b gs)
unfolding canon_text
opt_field-SameCanonicalTexts k none none fs gs e h = h
opt_field-SameCanonicalTexts k none (some w) fs gs e h = absurd (cc)
opt_field-SameCanonicalTexts k (some v) none fs gs e h = absurd (cc)
opt_field-SameCanonicalTexts k (some v) (some w) fs gs e h = (refl, ground arith, h)

-- If the difference of two cards reports no change, the ids computed from their contents are equal.
pub unchanged-id :
    (k : Crypto) (a b : GlyphCard)
    → (diff_cards a b).changed ≡ false
    → compute_glyph_id k a ≡ compute_glyph_id k b
unfolding diff_cards card_changes cost_changes provenance_changes compute_glyph_id canonical_hash
    picked
unchanged-id k a b h =
    let (version, h) = quiet_step "version" _ _ _ h in
    let (name, h) = quiet_step "name" _ _ _ h in
    let (intent, h) = quiet_step "intent" _ _ _ h in
    let (tags, h) = quiet_step "tags" _ _ _ h in
    let (latency, h) = quiet_step "cost.latency" _ _ _ h in
    let (side_effects, h) = quiet_step "cost.sideEffects" _ _ _ h in
    let (reversible, h) = quiet_step "cost.reversible" _ _ _ h in
    let (risk_tier, h) = quiet_step "cost.riskTier" _ _ _ h in
    let (confirmation, h) = quiet_step "cost.requiresConfirmation" _ _ _ h in
    let (idempotent, h) = quiet_step "idempotent" _ _ _ h in
    let (input, h) = quiet_step "input" _ _ _ h in
    let (output, h) = quiet_step "output" _ _ _ h in
    let (examples, h) = quiet_step "examples" _ _ _ h in
    let (failures, h) = quiet_step "failureModes" _ _ _ h in
    let (provider, h) = quiet_step "provider" _ _ _ h in
    let (scopes, h) = quiet_step "requiredScopes" _ _ _ h in
    let (key, h) = quiet_step "publicKey" _ _ _ h in
    let (attestation, h) = quiet_step "attestation" _ _ _ h in
    ap k.sha256 (
      canonical_text-obj _ _ (
        refl,
        canon_text-some _ _ version,
        (
          refl,
          canon_text-some _ _ name,
          (
            refl,
            canon_text-some _ _ intent,
            (
              refl,
              canon_text-some _ _ tags,
              (
                refl,
                canonical_text-obj _ _ (
                  refl,
                  canon_text-some _ _ latency,
                  (
                    refl,
                    canon_text-some _ _ side_effects,
                    (
                      refl,
                      canon_text-some _ _ reversible,
                      (
                        refl,
                        canon_text-some _ _ risk_tier,
                        (refl, canon_text-some _ _ confirmation, tt),
                      ),
                    ),
                  ),
                ),
                (
                  refl,
                  canon_text-some _ _ idempotent,
                  (
                    refl,
                    canon_text-some _ _ input,
                    (
                      refl,
                      canon_text-some _ _ output,
                      (
                        refl,
                        canon_text-some _ _ examples,
                        (
                          refl,
                          canon_text-some _ _ failures,
                          (
                            refl,
                            canon_text-some _ _ provider,
                            opt_field-SameCanonicalTexts "requiredScopes" _ _ _ _ scopes (
                                opt_field-SameCanonicalTexts "attestation" _ _ end end attestation
                                  tt),
                          ),
                        ),
                      ),
                    ),
                  ),
                ),
              ),
            ),
          ),
        ),
      ))
