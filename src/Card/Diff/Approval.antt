-- ===== src/Card/Diff/Approval.antt =====
-- When `diffCards` of packages/core/src/index.ts asks for approval.
use glyph_protocol.Prelude.{◌≡◌, refl, ◌↔◌, Bool, true, false, some, arith}
use glyph_protocol.Json.{bool, str, canonicalize, stringify}
use glyph_protocol.Card.{
  GlyphCard, RiskTier, safe, caution, danger, texts, attestation_json, opt_map, risk_name,
}
use glyph_protocol.Card.Diff.{
  card_changes, cost_changes, provenance_changes, canon_equal, canon_text, diff_cards,
}
use glyph_protocol.Card.Diff.Laws.{breaking_step, review_step, any-record_change, is_breaking_name}

canon_equal-bool : (x y : Bool) → (canon_equal (some (bool x)) (some (bool y)) ≡ true) ↔ (x ≡ y)
unfolding canon_equal canon_text canonicalize stringify
canon_equal-bool true true = (λ h. refl, λ h. refl)
canon_equal-bool true false = (λ h. absurd (cc h), λ h. absurd (cc h))
canon_equal-bool false true = (λ h. absurd (cc h), λ h. absurd (cc h))
canon_equal-bool false false = (λ h. refl, λ h. refl)

canon_equal-tier :
    (x y : RiskTier)
    → (canon_equal (some (str (risk_name x))) (some (str (risk_name y))) ≡ true) ↔ (x ≡ y)
unfolding canon_equal canon_text canonicalize stringify
canon_equal-tier safe safe = (λ h. refl, λ h. refl)
canon_equal-tier safe caution = (λ h. absurd (cc h), λ h. absurd (cc h))
canon_equal-tier safe danger = (λ h. absurd (cc h), λ h. absurd (cc h))
canon_equal-tier caution safe = (λ h. absurd (cc h), λ h. absurd (cc h))
canon_equal-tier caution caution = (λ h. refl, λ h. refl)
canon_equal-tier caution danger = (λ h. absurd (cc h), λ h. absurd (cc h))
canon_equal-tier danger safe = (λ h. absurd (cc h), λ h. absurd (cc h))
canon_equal-tier danger caution = (λ h. absurd (cc h), λ h. absurd (cc h))
canon_equal-tier danger danger = (λ h. refl, λ h. refl)

-- The terms that a consumer approved: what a change of the card may not touch without review.
pub record SameTerms (a b : GlyphCard) : Type 0 where
  pub version : canon_equal (some (str a.version)) (some (str b.version)) ≡ true
  pub side_effects : a.cost.side_effects ≡ b.cost.side_effects
  pub reversible : a.cost.reversible ≡ b.cost.reversible
  pub risk_tier : a.cost.risk_tier ≡ b.cost.risk_tier
  pub requires_confirmation : a.cost.requires_confirmation ≡ b.cost.requires_confirmation
  pub idempotent : a.idempotent ≡ b.idempotent
  pub input : canon_equal (some a.input) (some b.input) ≡ true
  pub output : canon_equal (some a.output) (some b.output) ≡ true
  pub provider : canon_equal (some (str a.provider)) (some (str b.provider)) ≡ true
  pub required_scopes :
      canon_equal (opt_map texts a.required_scopes) (opt_map texts b.required_scopes) ≡ true
  pub public_key : canon_equal (opt_map str a.public_key) (opt_map str b.public_key) ≡ true
  pub attestation :
      canon_equal (opt_map attestation_json a.attestation) (opt_map attestation_json b.attestation)
      ≡ true

pub terms_kept : (a b : GlyphCard) → (diff_cards a b).requires_approval ≡ false → SameTerms a b
unfolding diff_cards card_changes cost_changes provenance_changes is_breaking_name
terms_kept a b h =
    let (version, h) = breaking_step "version" _ _ _ refl h in
    let h = review_step "tags" _ _ _ (review_step "intent" _ _ _ (review_step "name" _ _ _ h)) in
    let h = review_step "cost.latency" _ _ _ h in
    let (side_effects, h) = breaking_step "cost.sideEffects" _ _ _ refl h in
    let (reversible, h) = breaking_step "cost.reversible" _ _ _ refl h in
    let (risk_tier, h) = breaking_step "cost.riskTier" _ _ _ refl h in
    let (requires_confirmation, h) = breaking_step "cost.requiresConfirmation" _ _ _ refl h in
    let (idempotent, h) = breaking_step "idempotent" _ _ _ refl h in
    let (input, h) = breaking_step "input" _ _ _ refl h in
    let (output, h) = breaking_step "output" _ _ _ refl h in
    let h = review_step "failureModes" _ _ _ (review_step "examples" _ _ _ h) in
    let (provider, h) = breaking_step "provider" _ _ _ refl h in
    let (required_scopes, h) = breaking_step "requiredScopes" _ _ _ refl h in
    let (public_key, h) = breaking_step "publicKey" _ _ _ refl h in
    let (attestation, h) = breaking_step "attestation" _ _ _ refl h in
    record {
      version = version;
      side_effects = (canon_equal-bool _ _).0 side_effects;
      reversible = (canon_equal-bool _ _).0 reversible;
      risk_tier = (canon_equal-tier _ _).0 risk_tier;
      requires_confirmation = (canon_equal-bool _ _).0 requires_confirmation;
      idempotent = (canon_equal-bool _ _).0 idempotent;
      input = input;
      output = output;
      provider = provider;
      required_scopes = required_scopes;
      public_key = public_key;
      attestation = attestation;
    }

terms_suffice : (a b : GlyphCard) → SameTerms a b → (diff_cards a b).requires_approval ≡ false
unfolding diff_cards card_changes cost_changes provenance_changes is_breaking_name
terms_suffice a b h =
    let side_effects = (canon_equal-bool _ _).1 h.side_effects in
    let reversible = (canon_equal-bool _ _).1 h.reversible in
    let risk_tier = (canon_equal-tier _ _).1 h.risk_tier in
    let confirmation = (canon_equal-bool _ _).1 h.requires_confirmation in
    let idempotent = (canon_equal-bool _ _).1 h.idempotent in simp any-record_change (ground arith)

-- A difference asks for approval exactly when one of the terms has moved: the version, a cost other
-- than the latency, idempotence, a schema, the provider, the scopes, the key or the attestation.
pub requires_approval_iff :
    (a b : GlyphCard) → ((diff_cards a b).requires_approval ≡ false) ↔ SameTerms a b
requires_approval_iff a b = (terms_kept a b, terms_suffice a b)
