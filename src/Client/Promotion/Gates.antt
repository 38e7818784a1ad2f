-- ===== src/Client/Promotion/Gates.antt =====
-- When `evaluatePromotion` of packages/client/src/promotion-policy.ts lets an update through.
use glyph_protocol.Prelude.{◌≡◌, ◌↔◌, true, arith, not, ◌||◌}
use glyph_protocol.Client.Promotion.{
  AuditReport, AutoPromotionPolicy, evaluate_promotion, reasons_against, is_valid, escalates,
  find_change,
}

-- None of the reasons of `evaluatePromotion` holds.
pub record IsUnopposed (r : AuditReport) (p : AutoPromotionPolicy) : Type 0 where
  pub signature : r.signature_valid ≡ true
  pub audit : r.passes ≡ true
  pub manifest : (not p.require_manifest || is_valid r.manifest) ≡ true
  pub attestation : (not p.require_attestation || is_valid r.attestation) ≡ true
  pub breaking : (not r.diff.requires_approval || p.allow_breaking) ≡ true
  pub key : (not r.diff.key_changed || p.allow_key_change) ≡ true
  pub risk :
      (not (escalates (find_change "cost.riskTier" r.diff.changes)) || p.allow_risk_escalation)
      ≡ true

allowed :
    (r : AuditReport) (p : AutoPromotionPolicy)
    → (evaluate_promotion r p).0 ≡ true
    → IsUnopposed r p
unfolding evaluate_promotion reasons_against
allowed r p h = record {
  signature = ground arith;
  audit = ground arith;
  manifest = ground arith;
  attestation = ground arith;
  breaking = ground arith;
  key = ground arith;
  risk = ground arith;
}

promoted :
    (r : AuditReport) (p : AutoPromotionPolicy)
    → IsUnopposed r p
    → (evaluate_promotion r p).0 ≡ true
unfolding evaluate_promotion reasons_against
promoted r p h = ground arith

pub evaluate_promotion-IsUnopposed :
    (r : AuditReport) (p : AutoPromotionPolicy)
    → ((evaluate_promotion r p).0 ≡ true) ↔ IsUnopposed r p
evaluate_promotion-IsUnopposed r p = (allowed r p, promoted r p)
