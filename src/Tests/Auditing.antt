-- ===== src/Tests/Auditing.antt =====
-- The theorems on the audit of parked updates, on the small tool.
use glyph_protocol.Prelude.{◌≡◌, refl, ◌↔◌, true, false, [], ◌∷◌, some}
use glyph_protocol.Prelude.Table.{get, set, delete, values}
use glyph_protocol.Json.{canonicalize, stringify, assign_key}
use glyph_protocol.Json.Order.{key_le}
use glyph_protocol.Crypto.{toy, canonical_hash}
use glyph_protocol.Card.{verify_glyph, compute_glyph_id, picked, sign_glyph}
use glyph_protocol.Card.Diff.{CardDiff, diff_cards}
use glyph_protocol.Client.Pins.{fresh_pin, set_pin}
use glyph_protocol.Client.Gate.{any_accepts}
use glyph_protocol.Client.Promotion.{
  AuditReport, AutoPromotionPolicy, absent, evaluate_promotion, reasons_against, find_change,
  is_risk_escalation, risk_rank,
}
use glyph_protocol.Client.Promotion.Risk.{IsAllowed, evaluate_promotion_iff}
use glyph_protocol.Client.Audit.{
  Parked, no_manifest, process_audits, audit_all, audit_entry, check_manifest, get_manifest,
  report_on, settle_all, settle, promote,
}
use glyph_protocol.Client.Audit.Passes.{process_audits-revoked}
use glyph_protocol.Tests.{plain, reworded}
use glyph_protocol.Tests.Calling.{pins, stopped}

abbrev policy : AutoPromotionPolicy
policy = record {
  require_manifest = false;
  require_attestation = false;
  allow_breaking = true;
  allow_risk_escalation = false;
  allow_key_change = false;
}

abbrev report : AuditReport
report = record {
  tool_name = "send";
  new_card_id = reworded.id;
  signature_valid = true;
  manifest = absent;
  attestation = absent;
  diff = diff_cards plain reworded;
  passes = true;
}

evaluate_promotion_iff_example :
    ((evaluate_promotion report policy).0 ≡ true) ↔ IsAllowed report policy plain reworded
evaluate_promotion_iff_example = evaluate_promotion_iff report policy plain reworded refl

abbrev small_diff : CardDiff
small_diff = record {
  changed = true;
  id_changed = true;
  key_changed = false;
  changes = [];
  requires_approval = false;
}

abbrev parked : Parked
parked = record {
  pins = stopped;
  queue =
      (
        "send",
        record { tool_name = "send"; new_card = reworded; diff = small_diff; detected_at = "noon" },
      )
      ∷ [];
}

process_audits-revoked_example : get parked.pins "send" ≡ get parked.pins "send"
unfolding get set delete values process_audits audit_all audit_entry check_manifest get_manifest
    report_on settle_all settle promote set_pin any_accepts evaluate_promotion reasons_against
    find_change is_risk_escalation risk_rank verify_glyph compute_glyph_id picked sign_glyph
    canonical_hash canonicalize stringify assign_key key_le
process_audits-revoked_example =
    process_audits-revoked toy [] (some policy) (λ name. no_manifest) "later" "send" parked parked
      refl refl

abbrev live : Parked
live = record parked { pins = pins }

-- It is the promotion that happens.
promoted_card :
    get (settle (some policy) "later" (record report { diff = small_diff }) live).pins "send"
    ≡ some (fresh_pin "send" "later" reworded)
unfolding get set settle promote set_pin evaluate_promotion reasons_against find_change
    is_risk_escalation compute_glyph_id picked canonical_hash canonicalize stringify assign_key
    key_le
promoted_card = refl
