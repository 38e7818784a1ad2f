-- ===== src/Client/Promotion.antt =====
-- `evaluatePromotion` of packages/client/src/promotion-policy.ts, and the report it reads.
pub mod Gates
pub mod Risk
use glyph_protocol.Prelude.{
  ℕ, String, Bool, true, false, List, [], ◌∷◌, ◌++◌, Option, none, some, ltb, ◌==◌, ◌&&◌, ◌||◌, not,
  or_else, if◌then◌else◌,
}
use glyph_protocol.Prelude.Table.{Table, get}
use glyph_protocol.Json.{Json, str}
use glyph_protocol.Card.Diff.{CardDiff, CardFieldChange}

pub data Check : Type 0 where
  valid invalid absent : Check

pub record AuditReport : Type 0 where
  pub tool_name : String
  pub new_card_id : String
  pub signature_valid : Bool
  pub manifest : Check
  pub attestation : Check
  pub diff : CardDiff
  pub passes : Bool

-- A flag that is left out is off.
pub record AutoPromotionPolicy : Type 0 where
  pub require_manifest : Bool
  pub require_attestation : Bool
  pub allow_breaking : Bool
  pub allow_risk_escalation : Bool
  pub allow_key_change : Bool

-- `RISK_ORDER`
abbrev pub risk_order : Table ℕ
risk_order = ("safe", 0) ∷ ("caution", 1) ∷ ("danger", 2) ∷ []

-- `RISK_ORDER[String(value)] ?? 0`; the tier of a card is a text.
unfoldable pub risk_rank : Option Json → ℕ
risk_rank (some (str tier)) = or_else (get risk_order tier) 0
risk_rank _ = 0

-- `isRiskEscalation`
unfoldable pub is_risk_escalation : Option Json → Option Json → Bool
unfolding risk_rank
is_risk_escalation before after = ltb (risk_rank before) (risk_rank after)

-- `changes.find((c) => c.field === name)`
unfoldable pub find_change : String → List CardFieldChange → Option CardFieldChange
find_change name [] = none
find_change name (c ∷ cs) = if c.name == name then some c else find_change name cs

abbrev pub escalates : Option CardFieldChange → Bool
escalates none = false
escalates (some c) = is_risk_escalation c.before c.after

abbrev pub is_valid : Check → Bool
is_valid valid = true
is_valid _ = false

abbrev pub reason : Bool → String → List String → List String
reason b text later = if b then text ∷ later else later

-- The reasons of `evaluatePromotion`, in their order.
unfoldable pub reasons_against : AuditReport → AutoPromotionPolicy → List String
reasons_against r p = reason (not r.signature_valid) "card signature invalid" (
    reason (not r.passes) "audit did not pass" (
      reason (p.require_manifest && not (is_valid r.manifest))
        "policy requires a valid signed manifest"
        (reason (p.require_attestation && not (is_valid r.attestation))
          "policy requires a valid attestation"
          (reason (r.diff.requires_approval && not p.allow_breaking)
            "breaking change not allowed by policy"
            (reason (r.diff.key_changed && not p.allow_key_change)
              "signing-key change not allowed by policy"
              (reason
                (escalates (find_change "cost.riskTier" r.diff.changes)
                  && not p.allow_risk_escalation)
                "risk escalation not allowed by policy" []))))))

abbrev pub is_empty {ℓ} : {A : Type ℓ} → List A → Bool
is_empty [] = true
is_empty (_ ∷ _) = false

-- `evaluatePromotion`
unfoldable pub evaluate_promotion : AuditReport → AutoPromotionPolicy → Bool × List String
unfolding reasons_against
evaluate_promotion r p = (is_empty (reasons_against r p), reasons_against r p)
