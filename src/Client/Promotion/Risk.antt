-- ===== src/Client/Promotion/Risk.antt =====
-- When `evaluatePromotion` of packages/client/src/promotion-policy.ts lets an update from one card to
-- another through, on the changes that `diffCards` finds.
use glyph_protocol.Prelude.{
  ℕ, String, ◌≡◌, refl, ◌∙◌, ap, true, false, List, Option, none, some, arith, ltb, ◌==◌, ◌≤◌, ◌⊎◌,
  ◌↔◌, inl, inr, Bool, not, ◌||◌, same_text, subst, sym, eq_refl,
}
use glyph_protocol.Prelude.Table.{get}
use glyph_protocol.Json.{Json, str, canonicalize, stringify}
use glyph_protocol.Card.{GlyphCard, RiskTier, safe, caution, danger, risk_name}
use glyph_protocol.Card.Diff.{
  CardFieldChange, record_change, card_changes, cost_changes, provenance_changes, diff_cards,
  canon_equal, canon_text,
}
use glyph_protocol.Client.Promotion.{
  AuditReport, AutoPromotionPolicy, find_change, escalates, is_risk_escalation, risk_rank,
  evaluate_promotion, is_valid, Check, valid, invalid, absent,
}
use glyph_protocol.Card.Diff.Laws.{same_text-eq}
use glyph_protocol.Card.Diff.Approval.{SameTerms, requires_approval_iff}
use glyph_protocol.Client.Promotion.Gates.{evaluate_promotion-IsUnopposed}

abbrev pub tier_rank : RiskTier → ℕ
tier_rank safe = 0
tier_rank caution = 1
tier_rank danger = 2

find-other :
    (name other : String) (a b : Option Json) (later : List CardFieldChange)
    → (other == name) ≡ false
    → find_change name (record_change other a b later) ≡ find_change name later
unfolding find_change record_change
find-other name other a b later h = ground (arith, h)

escalates-own :
    (c d : RiskTier) (later : List CardFieldChange)
    → find_change "cost.riskTier" later ≡ none
    → escalates (
        find_change "cost.riskTier" (
          record_change "cost.riskTier"
            (some (str (risk_name c)))
            (some (str (risk_name d)))
            later))
      ≡ ltb (tier_rank c) (tier_rank d)
unfolding find_change record_change is_risk_escalation risk_rank get canon_equal canon_text
    canonicalize stringify
escalates-own safe safe later h = ap escalates h
escalates-own safe caution later h = refl
escalates-own safe danger later h = refl
escalates-own caution safe later h = refl
escalates-own caution caution later h = ap escalates h
escalates-own caution danger later h = refl
escalates-own danger safe later h = refl
escalates-own danger caution later h = refl
escalates-own danger danger later h = ap escalates h

-- The change that the policy looks at is an escalation exactly when the new card's tier is higher.
escalates-diff_cards :
    (a b : GlyphCard)
    → escalates (find_change "cost.riskTier" (diff_cards a b).changes)
      ≡ ltb (tier_rank a.cost.risk_tier) (tier_rank b.cost.risk_tier)
unfolding diff_cards card_changes cost_changes provenance_changes find_change
escalates-diff_cards a b = simp (find-other, escalates-own a.cost.risk_tier b.cost.risk_tier)

-- What the two cards, the audit and the policy must be for an update to be promoted: `a` is the pinned
-- card and `b` the new one.
pub record IsAllowed (r : AuditReport) (p : AutoPromotionPolicy) (a b : GlyphCard) : Type 0 where
  pub signature : r.signature_valid ≡ true
  pub audit : r.passes ≡ true
  pub manifest : (p.require_manifest ≡ false) ⊎ (r.manifest ≡ valid)
  pub attestation : (p.require_attestation ≡ false) ⊎ (r.attestation ≡ valid)
  pub terms : (p.allow_breaking ≡ true) ⊎ SameTerms a b
  pub key : (p.allow_key_change ≡ true) ⊎ (a.public_key ≡ b.public_key)
  pub risk :
      (p.allow_risk_escalation ≡ true) ⊎ (tier_rank b.cost.risk_tier ≤ tier_rank a.cost.risk_tier)

is_valid_iff : (c : Check) → (is_valid c ≡ true) ↔ (c ≡ valid)
is_valid_iff valid = (λ h. refl, λ h. refl)
is_valid_iff invalid = (λ h. absurd (cc), λ h. absurd (cc))
is_valid_iff absent = (λ h. absurd (cc), λ h. absurd (cc))

-- A check that the policy may require.
required_iff :
    (flag : Bool) (c : Check) → ((not flag || is_valid c) ≡ true) ↔ ((flag ≡ false) ⊎ (c ≡ valid))
required_iff false c = (λ h. inl refl, λ h. refl)
required_iff true c = (
  λ h. inr ((is_valid_iff c).0 h),
  λ h. elim h [ inl off ↦ absurd (cc) | inr v ↦ (is_valid_iff c).1 v ],
)

-- A change that the policy may allow, and what its absence means.
unless_iff :
    (P : Type 0) (change flag : Bool)
    → ((change ≡ false) ↔ P)
    → ((not change || flag) ≡ true) ↔ ((flag ≡ true) ⊎ P)
unless_iff P false flag h = (λ e. inr (h.0 refl), λ e. refl)
unless_iff P true flag h = (λ e. inl e, λ e. elim e [ inl on ↦ on | inr p ↦ absurd (cc (h.1 p)) ])

same_text-same : (x : Option String) → not (same_text x x) ≡ false
same_text-same none = refl
same_text-same (some s) = simp (eq_refl s)

same_key_iff : (x y : Option String) → (not (same_text x y) ≡ false) ↔ (x ≡ y)
same_key_iff x y = (
  λ h. same_text-eq x y (ground arith),
  λ h. subst (λ z. not (same_text x z) ≡ false) h (same_text-same x),
)

lower_iff : (m n : ℕ) → (ltb m n ≡ false) ↔ (n ≤ m)
lower_iff m n = (λ h. ground arith, λ h. ground arith)

key_changed_iff :
    (a b : GlyphCard) → ((diff_cards a b).key_changed ≡ false) ↔ (a.public_key ≡ b.public_key)
unfolding diff_cards
key_changed_iff a b = same_key_iff a.public_key b.public_key

-- An update from a card to another, of which the report has the difference, is promoted exactly when
-- its signature verified, its audit passed, the manifest and the attestation are valid where the policy
-- requires them, and, unless the policy allows it, no term of the card has moved, its key is the same,
-- and its risk tier is not higher.
pub evaluate_promotion_iff :
    (r : AuditReport) (p : AutoPromotionPolicy) (a b : GlyphCard)
    → r.diff ≡ diff_cards a b
    → ((evaluate_promotion r p).0 ≡ true) ↔ IsAllowed r p a b
evaluate_promotion_iff r p a b d =
    let old = evaluate_promotion-IsUnopposed r p in
    (
      λ h. record {
        signature = (old.0 h).signature;
        audit = (old.0 h).audit;
        manifest = (required_iff p.require_manifest r.manifest).0 ((old.0 h).manifest);
        attestation = (required_iff p.require_attestation r.attestation).0 ((old.0 h).attestation);
        terms = terms.0 ((old.0 h).breaking);
        key = key.0 ((old.0 h).key);
        risk = risk.0 ((old.0 h).risk);
      },
      λ h. old.1 (record {
        signature = h.signature;
        audit = h.audit;
        manifest = (required_iff p.require_manifest r.manifest).1 h.manifest;
        attestation = (required_iff p.require_attestation r.attestation).1 h.attestation;
        breaking = terms.1 h.terms;
        key = key.1 h.key;
        risk = risk.1 h.risk;
      }),
    )
  where
    terms :
        ((not r.diff.requires_approval || p.allow_breaking) ≡ true)
        ↔ ((p.allow_breaking ≡ true) ⊎ SameTerms a b)
    terms = unless_iff (SameTerms a b) r.diff.requires_approval p.allow_breaking (
        subst (λ x. (x.requires_approval ≡ false) ↔ SameTerms a b) (sym d)
          (requires_approval_iff a b))

    key :
        ((not r.diff.key_changed || p.allow_key_change) ≡ true)
        ↔ ((p.allow_key_change ≡ true) ⊎ (a.public_key ≡ b.public_key))
    key = unless_iff (a.public_key ≡ b.public_key) r.diff.key_changed p.allow_key_change (
        subst (λ x. (x.key_changed ≡ false) ↔ (a.public_key ≡ b.public_key)) (sym d)
          (key_changed_iff a b))

    risk :
        ((not (escalates (find_change "cost.riskTier" r.diff.changes)) || p.allow_risk_escalation)
          ≡ true)
        ↔ ((p.allow_risk_escalation ≡ true)
            ⊎ (tier_rank b.cost.risk_tier ≤ tier_rank a.cost.risk_tier))
    risk =
        unless_iff (tier_rank b.cost.risk_tier ≤ tier_rank a.cost.risk_tier)
          (escalates (find_change "cost.riskTier" r.diff.changes)) p.allow_risk_escalation
          (subst (λ x. (x ≡ false) ↔ (tier_rank b.cost.risk_tier ≤ tier_rank a.cost.risk_tier))
            (sym (
              ap (λ x. escalates (find_change "cost.riskTier" x.changes)) d
              ∙ escalates-diff_cards a b))
            (lower_iff (tier_rank a.cost.risk_tier) (tier_rank b.cost.risk_tier)))
