-- ===== src/Card/Diff.antt =====
-- `diffCards` of packages/core/src/index.ts: what moved between an approved card and a new one.
pub mod Laws
pub mod Approval
pub mod Detector
use glyph_protocol.Prelude.{
  String, Bool, true, false, List, [], ◌∷◌, Option, none, some, ◌==◌, not, or_else, if◌then◌else◌,
  any, same_text,
}
use glyph_protocol.Prelude.Table.{Table, get}
use glyph_protocol.Json.{Json, bool, str, arr, canonicalize, stringify}
use glyph_protocol.Card.{
  GlyphCard, Cost, latency_name, risk_name, texts, items_of, example_json, failure_json,
  attestation_json, opt_map,
}

pub data Severity : Type 0 where
  breaking review : Severity

pub record CardFieldChange : Type 0 where
  pub name : String
  pub severity : Severity
  pub before : Option Json
  pub after : Option Json

pub record CardDiff : Type 0 where
  pub changed : Bool
  pub id_changed : Bool
  pub key_changed : Bool
  pub changes : List CardFieldChange
  pub requires_approval : Bool

-- `FIELD_SEVERITY`
abbrev pub field_severity : Table Severity
field_severity =
    ("version", breaking)
    ∷ ("name", review)
    ∷ ("intent", review)
    ∷ ("tags", review)
    ∷ ("cost.latency", review)
    ∷ ("cost.sideEffects", breaking)
    ∷ ("cost.reversible", breaking)
    ∷ ("cost.riskTier", breaking)
    ∷ ("cost.requiresConfirmation", breaking)
    ∷ ("idempotent", breaking)
    ∷ ("input", breaking)
    ∷ ("output", breaking)
    ∷ ("examples", review)
    ∷ ("failureModes", review)
    ∷ ("provider", breaking)
    ∷ ("requiredScopes", breaking)
    ∷ ("publicKey", breaking)
    ∷ ("attestation", breaking)
    ∷ []

-- The canonical text of a value that may be `undefined`.
unfoldable pub canon_text : Option Json → Option String
canon_text none = none
canon_text (some v) = some (stringify (canonicalize v))

unfoldable pub canon_equal : Option Json → Option Json → Bool
canon_equal a b = same_text (canon_text a) (canon_text b)

-- One call of the inner function `record`, before the changes that later calls push.
unfoldable pub record_change :
    String → Option Json → Option Json → List CardFieldChange → List CardFieldChange
record_change name before after later =
    if not (canon_equal before after)
    then record {
      name = name;
      severity = or_else (get field_severity name) review;
      before = before;
      after = after;
    }
      ∷ later
    else later

-- The loop over the keys of `cost`.
unfoldable pub cost_changes : Cost → Cost → List CardFieldChange → List CardFieldChange
unfolding record_change
cost_changes c d later =
    record_change "cost.latency" (some (str (latency_name c.latency)))
      (some (str (latency_name d.latency)))
      (record_change "cost.sideEffects" (some (bool c.side_effects)) (some (bool d.side_effects)) (
        record_change "cost.reversible" (some (bool c.reversible)) (some (bool d.reversible)) (
          record_change "cost.riskTier" (some (str (risk_name c.risk_tier)))
            (some (str (risk_name d.risk_tier)))
            (record_change "cost.requiresConfirmation" (some (bool c.requires_confirmation))
              (some (bool d.requires_confirmation)) later))))

unfoldable pub provenance_changes :
    GlyphCard → GlyphCard → List CardFieldChange → List CardFieldChange
unfolding record_change
provenance_changes c d later =
    record_change "provider" (some (str c.provider)) (some (str d.provider)) (
      record_change "requiredScopes" (opt_map texts c.required_scopes)
        (opt_map texts d.required_scopes)
        (record_change "publicKey" (opt_map str c.public_key) (opt_map str d.public_key) (
          record_change "attestation" (opt_map attestation_json c.attestation)
            (opt_map attestation_json d.attestation) later)))

unfoldable pub card_changes : GlyphCard → GlyphCard → List CardFieldChange
unfolding record_change cost_changes provenance_changes
card_changes a b = record_change "version" (some (str a.version)) (some (str b.version)) (
    record_change "name" (some (str a.name)) (some (str b.name)) (
      record_change "intent" (some (str a.intent)) (some (str b.intent)) (
        record_change "tags" (some (texts a.tags)) (some (texts b.tags)) (
          cost_changes a.cost b.cost (
            record_change "idempotent" (some (bool a.idempotent)) (some (bool b.idempotent)) (
              record_change "input" (some a.input) (some b.input) (
                record_change "output" (some a.output) (some b.output) (
                  record_change "examples" (some (arr (items_of example_json a.examples)))
                    (some (arr (items_of example_json b.examples)))
                    (record_change "failureModes"
                      (some (arr (items_of failure_json a.failure_modes)))
                      (some (arr (items_of failure_json b.failure_modes)))
                      (provenance_changes a b []))))))))))

abbrev pub is_breaking : CardFieldChange → Bool
is_breaking c = elim c.severity [ breaking ↦ true | review ↦ false ]

abbrev pub nonempty {ℓ} : {A : Type ℓ} → List A → Bool
nonempty [] = false
nonempty (x ∷ xs) = true

-- `diffCards`
unfoldable pub diff_cards : GlyphCard → GlyphCard → CardDiff
diff_cards approved next =
    let changes = card_changes approved next in
    record {
      changed = nonempty changes;
      id_changed = not (approved.id == next.id);
      key_changed = not (same_text approved.public_key next.public_key);
      changes = changes;
      requires_approval = any is_breaking changes;
    }
