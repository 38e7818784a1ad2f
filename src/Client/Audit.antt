-- ===== src/Client/Audit.antt =====
-- The autonomous audit of parked updates: `getManifest`, `auditEntry`, `auditPending` and
-- `processAudits` of packages/client/src/index.ts. The pins and the queue are those of the client.
pub mod Passes
pub mod Runner
use glyph_protocol.Prelude.{
  String, Bool, true, false, List, [], ◌∷◌, Option, none, some, ◌==◌, ◌&&◌, ◌||◌, not, truthy,
  same_text, if◌then◌else◌,
}
use glyph_protocol.Prelude.Table.{Table, get, set, delete, values}
use glyph_protocol.Crypto.{Crypto}
use glyph_protocol.Card.{GlyphCard}
use glyph_protocol.Receipt.{UpdateManifest, verify_manifest}
use glyph_protocol.Client.Pins.{
  Pin, PinStore, set_pin, fresh_pin, is_verified, is_revoked, Result, ok, err, ClientError,
  verification_failed, request_failed, verifier_threw,
}
use glyph_protocol.Client.Gate.{PendingAuditEntry, any_accepts, carries}
use glyph_protocol.Attest.{Verifiers}
use glyph_protocol.Client.Promotion.{
  Check, valid, invalid, absent, AuditReport, AutoPromotionPolicy, evaluate_promotion,
}

-- What the manifest route answers: 404, another failure, or a manifest.
pub data ManifestAnswer : Type 0 where
  no_manifest failed_request : ManifestAnswer
  manifest_of : UpdateManifest → ManifestAnswer

-- `pin && pin.card.publicKey !== manifest.serverPublicKey`
abbrev pub is_foreign : Option Pin → UpdateManifest → Bool
is_foreign none m = false
is_foreign (some pin) m = not (same_text pin.card.public_key (some m.server_public_key))

-- `pin` of `await this.pins.get(name)`, when there is a store.
abbrev pub pin_of : Option PinStore → String → Option Pin
pin_of none name = none
pin_of (some pins) name = get pins name

-- `getManifest`
unfoldable pub get_manifest :
    Crypto → Option PinStore → String → ManifestAnswer → Result (Option UpdateManifest)
get_manifest k pins name no_manifest = ok none
get_manifest k pins name failed_request = err request_failed
get_manifest k pins name (manifest_of m) =
    if not (m.tool_name == name) || not (verify_manifest k m)
    then err (verification_failed name)
    else if is_foreign (pin_of pins name) m
    then err (verification_failed name)
    else ok (some m)

-- `!pin || m.previousCardId === pin.card.id`
abbrev pub follows_pin : Option Pin → UpdateManifest → Bool
follows_pin none m = true
follows_pin (some pin) m = m.previous_card_id == pin.card.id

-- The second check of `auditEntry`.
unfoldable pub check_manifest :
    Option PinStore → PendingAuditEntry → Result (Option UpdateManifest) → Check
check_manifest pins entry (err e) = invalid
check_manifest pins entry (ok none) = absent
check_manifest pins entry (ok (some m)) =
    if (m.new_card_id == entry.new_card.id) && follows_pin (pin_of pins entry.tool_name) m
    then valid
    else invalid

abbrev pub is_invalid : Check → Bool
is_invalid invalid = true
is_invalid _ = false

-- The end of `auditEntry`.
unfoldable pub report_on : Bool → PendingAuditEntry → Check → Check → AuditReport
report_on signature entry manifest attestation = record {
  tool_name = entry.tool_name;
  new_card_id = entry.new_card.id;
  signature_valid = signature;
  manifest = manifest;
  attestation = attestation;
  diff = entry.diff;
  passes = signature && not (is_invalid manifest) && not (is_invalid attestation);
}

-- The third check of `auditEntry`; nothing when a verifier threw.
abbrev pub check_attestation : Bool → Option Bool → Option Check
check_attestation false accepted = some absent
check_attestation true none = none
check_attestation true (some true) = some valid
check_attestation true (some false) = some invalid

abbrev pub report_with : Bool → PendingAuditEntry → Check → Option Check → Option AuditReport
report_with signature entry manifest none = none
report_with signature entry manifest (some attestation) =
    some (report_on signature entry manifest attestation)

abbrev pub also : Option AuditReport → Option (List AuditReport) → Option (List AuditReport)
also none rest = none
also (some r) none = none
also (some r) (some rs) = some (r ∷ rs)

module _ (k : Crypto) (verifiers : Verifiers) (pins : Option PinStore)
    (manifest : String → ManifestAnswer) where
  -- `auditEntry`
  unfoldable pub audit_entry : PendingAuditEntry → Option AuditReport
  unfolding get_manifest check_manifest any_accepts
  audit_entry entry =
      report_with (is_verified k entry.new_card) entry
        (check_manifest pins entry (get_manifest k pins entry.tool_name (manifest entry.tool_name)))
        (check_attestation (carries entry.new_card.attestation)
          (any_accepts verifiers entry.new_card))

  -- `auditPending`; nothing when an audit threw.
  unfoldable pub audit_all : List PendingAuditEntry → Option (List AuditReport)
  unfolding audit_entry
  audit_all [] = some []
  audit_all (e ∷ es) = also (audit_entry e) (audit_all es)

-- The pins and the queue, which a pass reads and writes.
pub record Parked : Type 0 where
  pub pins : PinStore
  pub queue : Table PendingAuditEntry

-- The promotion, on the entry and the pin that are there when it is made.
unfoldable pub promote :
    Option PendingAuditEntry → Option Pin → AuditReport → String → Parked → Parked
unfolding set_pin
promote none pin r now s = s
promote (some entry) pin r now s =
    if (entry.new_card.id == r.new_card_id) && not (is_revoked pin)
    then record {
      pins = set_pin s.pins (fresh_pin r.tool_name now entry.new_card);
      queue = delete s.queue r.tool_name;
    }
    else s

abbrev pub is_promotable : Option AutoPromotionPolicy → AuditReport → Bool
is_promotable none r = false
is_promotable (some policy) r = (evaluate_promotion r policy).0

-- One turn of the loop of `processAudits`, in the state that it finds.
unfoldable pub settle : Option AutoPromotionPolicy → String → AuditReport → Parked → Parked
settle policy now r s =
    if is_promotable policy r
    then promote (get s.queue r.tool_name) (get s.pins r.tool_name) r now s
    else s

unfoldable pub settle_all : Option AutoPromotionPolicy → String → List AuditReport → Parked → Parked
settle_all policy now [] s = s
settle_all policy now (r ∷ rs) s = settle_all policy now rs (settle policy now r s)

abbrev pub settle_reports :
    Option AutoPromotionPolicy → String → Option (List AuditReport) → Parked → Result Parked
settle_reports policy now none s = err verifier_threw
settle_reports policy now (some rs) s = ok (settle_all policy now rs s)

-- `processAudits` with resilient updates, a pin store and a queue.
unfoldable pub process_audits :
    Crypto
    → Verifiers
    → Option AutoPromotionPolicy
    → (String → ManifestAnswer)
    → String
    → Parked
    → Result Parked
unfolding audit_all settle_all
process_audits k verifiers policy manifest now s =
    settle_reports policy now (audit_all k verifiers (some s.pins) manifest (values s.queue)) s
