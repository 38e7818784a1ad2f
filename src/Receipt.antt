-- ===== src/Receipt.antt =====
-- Call receipts, sealed envelopes and update manifests: their types in packages/types/src/types.ts,
-- and `signReceipt`, `verifyReceipt`, `signManifest`, `verifyManifest` and `sealResult` of
-- packages/core/src/index.ts.
pub mod Signing
use glyph_protocol.Prelude.{
  ℕ, String, Bool, true, false, List, Option, none, some, ◌==◌, ◌||◌, not, if◌then◌else◌, decimal,
}
use glyph_protocol.Json.{Json, bool, num, str, arr, obj, Fields, end, field}
use glyph_protocol.Crypto.{Crypto, canonical_hash, caught}
use glyph_protocol.Card.{RiskTier, risk_name, opt_field, opt_map, items_of}
use glyph_protocol.Sanitize.{Finding, Sanitization, kind_name}

pub record CallReceipt : Type 0 where
  pub receipt_version : String
  pub call_id : String
  pub client_call_id : Option String
  pub glyph_id : String
  pub glyph_name : String
  pub input_hash : String
  pub output_hash : String
  pub inspection_hash : String
  pub risk_tier : RiskTier
  pub provider : String
  pub latency_ms : ℕ
  pub timestamp : String
  pub server_public_key : String
  pub signature : String

pub record SealedEnvelope : Type 0 where
  pub glyph_id : String
  pub call_id : String
  pub payload : Json
  pub latency_ms : ℕ
  pub provider : String
  pub timestamp : String
  pub inspection : Option Sanitization
  pub receipt : Option CallReceipt

pub data SecurityImpact : Type 0 where
  no_impact low high : SecurityImpact

abbrev pub impact_name : SecurityImpact → String
impact_name no_impact = "none"
impact_name low = "low"
impact_name high = "high"

pub record UpdateManifest : Type 0 where
  pub manifest_version : String
  pub tool_name : String
  pub previous_card_id : String
  pub new_card_id : String
  pub reason : String
  pub is_breaking : Bool
  pub security_impact : SecurityImpact
  pub issued_at : String
  pub server_public_key : String
  pub signature : String

-- The receipt without its signature, as the object that is hashed.
unfoldable pub receipt_json : CallReceipt → Json
receipt_json r = obj (
    field "receiptVersion" (str r.receipt_version) (
      field "callId" (str r.call_id) (
        field "glyphId" (str r.glyph_id) (
          field "glyphName" (str r.glyph_name) (
            field "inputHash" (str r.input_hash) (
              field "outputHash" (str r.output_hash) (
                field "inspectionHash" (str r.inspection_hash) (
                  field "riskTier" (str (risk_name r.risk_tier)) (
                    field "provider" (str r.provider) (
                      field "latencyMs" (num (decimal r.latency_ms)) (
                        field "timestamp" (str r.timestamp) (
                          field "serverPublicKey" (str r.server_public_key) (
                            opt_field "clientCallId" (opt_map str r.client_call_id) end)))))))))))))

unfoldable pub manifest_json : UpdateManifest → Json
manifest_json m = obj (
    field "manifestVersion" (str m.manifest_version) (
      field "toolName" (str m.tool_name) (
        field "previousCardId" (str m.previous_card_id) (
          field "newCardId" (str m.new_card_id) (
            field "reason" (str m.reason) (
              field "breaking" (bool m.is_breaking) (
                field "securityImpact" (str (impact_name m.security_impact)) (
                  field "issuedAt" (str m.issued_at)
                    (field "serverPublicKey" (str m.server_public_key) end)))))))))

abbrev pub finding_json : Finding → Json
finding_json f = obj (
    field "path" (str f.path)
      (field "kind" (str (kind_name f.kind)) (field "count" (num (decimal f.count)) end)))

unfoldable pub inspection_json : Sanitization → Json
inspection_json s = obj (
    field "modified" (bool s.modified)
      (field "findings" (arr (items_of finding_json s.findings)) end))

module _ (k : Crypto) where
  -- `signReceipt`
  unfoldable pub sign_receipt : CallReceipt → String → String
  sign_receipt r private = k.sign (canonical_hash k (receipt_json r)) private

  -- `verifyReceipt`
  unfoldable pub verify_receipt : CallReceipt → Bool
  verify_receipt r =
      if (r.signature == "") || (r.server_public_key == "")
      then false
      else caught (k.verify r.signature (canonical_hash k (receipt_json r)) r.server_public_key)

  -- `signManifest`
  unfoldable pub sign_manifest : UpdateManifest → String → String
  sign_manifest m private = k.sign (canonical_hash k (manifest_json m)) private

  -- `verifyManifest`
  unfoldable pub verify_manifest : UpdateManifest → Bool
  verify_manifest m =
      if (m.signature == "") || (m.server_public_key == "")
      then false
      else caught (k.verify m.signature (canonical_hash k (manifest_json m)) m.server_public_key)

-- `sealResult`; `random_id` is the id that is drawn when the call has none.
unfoldable pub seal_result :
    String → String → Json → ℕ → String → Option Sanitization → String → String → SealedEnvelope
seal_result glyph_id call_id payload latency_ms provider inspection timestamp random_id = record {
  glyph_id = glyph_id;
  call_id = if call_id == "" then random_id else call_id;
  payload = payload;
  latency_ms = latency_ms;
  provider = provider;
  timestamp = timestamp;
  inspection = inspection;
  receipt = none;
}
