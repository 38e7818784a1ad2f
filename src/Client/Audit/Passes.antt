-- ===== src/Client/Audit/Passes.antt =====
-- What a pass of `processAudits` of packages/client/src/index.ts does to the pins.
use glyph_protocol.Prelude.{
  String, ◌≡◌, refl, ◌∙◌, ap, ◌⊎◌, inl, inr, true, false, Bool-cases, List, [], ◌∷◌, Option, none,
  some, arith, eq_iff, ◌==◌, ◌&&◌, not, subst,
}
use glyph_protocol.Prelude.Table.{get, get-set, get-set_self, get-delete_self}
use glyph_protocol.Crypto.{Crypto}
use glyph_protocol.Client.Pins.{Pin, set_pin, fresh_pin, is_revoked, ok}
use glyph_protocol.Client.Gate.{PendingAuditEntry}
use glyph_protocol.Attest.{Verifiers}
use glyph_protocol.Client.Promotion.{AuditReport, AutoPromotionPolicy}
use glyph_protocol.Client.Audit.{
  Parked, ManifestAnswer, is_promotable, promote, settle, settle_all, settle_reports,
  process_audits,
}

-- The report's tool was promoted: the policy let the report through, the tool was not revoked, the
-- parked card has the id that was audited, and now it is pinned and no longer parked.
pub record IsPromotion (policy : Option AutoPromotionPolicy) (r : AuditReport) (s t : Parked)
    : Type 0 where
  pub entry : PendingAuditEntry
  pub pin : Pin
  pub allowed : is_promotable policy r ≡ true
  pub parked : get s.queue r.tool_name ≡ some entry
  pub audited : entry.new_card.id ≡ r.new_card_id
  pub live : is_revoked (get s.pins r.tool_name) ≡ false
  pub pinned : get t.pins r.tool_name ≡ some pin
  pub card : pin.card ≡ entry.new_card
  pub drained : get t.queue r.tool_name ≡ none

promote-cases :
    (policy : Option AutoPromotionPolicy) (found : Option PendingAuditEntry) (r : AuditReport)
    (now : String) (s : Parked)
    → get s.queue r.tool_name ≡ found
    → is_promotable policy r ≡ true
    → (promote found (get s.pins r.tool_name) r now s ≡ s)
      ⊎ IsPromotion policy r s (promote found (get s.pins r.tool_name) r now s)
unfolding promote set_pin
promote-cases policy none r now s g h = inl refl
promote-cases policy (some entry) r now s g h =
    elim (Bool-cases
      ((entry.new_card.id == r.new_card_id) && not (is_revoked (get s.pins r.tool_name)))) [
        | inr stays ↦ rw stays (inl refl)
        | inl goes ↦ rw goes (
            inr (record {
              entry = entry;
              pin = fresh_pin r.tool_name now entry.new_card;
              allowed = h;
              parked = g;
              audited = (eq_iff _ _).0 (ground arith);
              live = ground arith;
              pinned = get-set_self s.pins r.tool_name _;
              card = refl;
              drained = get-delete_self s.queue r.tool_name;
            }))
      ]

-- One turn of the loop of `processAudits`, in any state that it finds, changes nothing, or promotes
-- the report's tool: the policy lets the report through, the tool is not revoked, the parked card
-- has the id that was audited, and it is pinned afterwards and parked no more.
pub settle-cases :
    (policy : Option AutoPromotionPolicy) (now : String) (r : AuditReport) (s : Parked)
    → (settle policy now r s ≡ s) ⊎ IsPromotion policy r s (settle policy now r s)
unfolding settle
settle-cases policy now r s = elim (Bool-cases (is_promotable policy r)) [
  | inl allowed ↦ rw allowed (promote-cases policy (get s.queue r.tool_name) r now s refl allowed)
  | inr withheld ↦ rw withheld (inl refl)
]

promote-revoked :
    (found : Option PendingAuditEntry) (r : AuditReport) (now name : String) (s : Parked)
    → is_revoked (get s.pins name) ≡ true
    → get (promote found (get s.pins r.tool_name) r now s).pins name ≡ get s.pins name
unfolding promote set_pin
promote-revoked none r now name s h = refl
promote-revoked (some entry) r now name s h =
    let at = get-set s.pins r.tool_name name (fresh_pin r.tool_name now entry.new_card) in
    elim (Bool-cases (r.tool_name == name)) [
      | inl here ↦
          let own : is_revoked (get s.pins r.tool_name) ≡ true =
            ap (λ n. is_revoked (get s.pins n)) ((eq_iff _ _).0 here) ∙ h in
          ground (arith, own)
      | inr there ↦ ground (arith, there)
    ]

settle-revoked :
    (policy : Option AutoPromotionPolicy) (now name : String) (r : AuditReport) (s : Parked)
    → is_revoked (get s.pins name) ≡ true
    → get (settle policy now r s).pins name ≡ get s.pins name
unfolding settle
settle-revoked policy now name r s h =
    let kept = promote-revoked (get s.queue r.tool_name) r now name s h in ground arith

settle_all-revoked :
    (policy : Option AutoPromotionPolicy) (now name : String) (rs : List AuditReport) (s : Parked)
    → is_revoked (get s.pins name) ≡ true
    → get (settle_all policy now rs s).pins name ≡ get s.pins name
unfolding settle_all
settle_all-revoked policy now name [] s h = refl
settle_all-revoked policy now name (r ∷ rs) s h =
    let kept = settle-revoked policy now name r s h in
    settle_all-revoked policy now name rs (settle policy now r s) (ap is_revoked kept ∙ h) ∙ kept

settle_reports-revoked :
    (policy : Option AutoPromotionPolicy) (now name : String) (found : Option (List AuditReport))
    (s t : Parked)
    → is_revoked (get s.pins name) ≡ true
    → settle_reports policy now found s ≡ ok t
    → get t.pins name ≡ get s.pins name
settle_reports-revoked policy now name none s t h e = absurd (cc)
settle_reports-revoked policy now name (some rs) s t h e =
    let same : settle_all policy now rs s ≡ t = cc in
    subst (λ x. get x.pins name ≡ get s.pins name) same (settle_all-revoked policy now name rs s h)

-- A pass over the parked updates leaves the pin of a revoked tool as it is, whatever is parked,
-- whatever the manifests and the verifiers say and whatever the policy allows.
pub process_audits-revoked :
    (k : Crypto) (verifiers : Verifiers) (policy : Option AutoPromotionPolicy)
    (manifest : String → ManifestAnswer) (now name : String) (s t : Parked)
    → is_revoked (get s.pins name) ≡ true
    → process_audits k verifiers policy manifest now s ≡ ok t
    → get t.pins name ≡ get s.pins name
unfolding process_audits
process_audits-revoked k verifiers policy manifest now name s t h e =
    settle_reports-revoked policy now name _ s t h e
