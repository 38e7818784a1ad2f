-- ===== src/Card.antt =====
-- The glyph card of packages/types/src/types.ts, and its identity and signature in
-- packages/core/src/index.ts. A card is taken to have the type that the code gives it.
pub mod Diff
pub mod Identity
pub mod Depth
use glyph_protocol.Prelude.{
  String, Bool, true, false, List, [], ◌∷◌, Option, none, some, truthy, ◌==◌, not, ◌||◌, or_else,
  if◌then◌else◌,
}
use glyph_protocol.Json.{Json, null, bool, num, str, arr, obj, Items, nil, cons, Fields, end, field}
use glyph_protocol.Crypto.{Crypto, canonical_hash, caught}

pub data Latency : Type 0 where
  fast medium slow : Latency

pub data RiskTier : Type 0 where
  safe caution danger : RiskTier

pub record Cost : Type 0 where
  pub latency : Latency
  pub side_effects : Bool
  pub reversible : Bool
  pub risk_tier : RiskTier
  pub requires_confirmation : Bool

pub record Example : Type 0 where
  pub description : String
  pub input : Json
  pub output : Json

pub record FailureMode : Type 0 where
  pub code : String
  pub description : String

pub record CardAttestation : Type 0 where
  pub kind : String
  pub payload : String
  pub reference : Option String

pub record GlyphCard : Type 0 where
  pub id : String
  pub version : String
  pub name : String
  pub intent : String
  pub tags : List String
  pub cost : Cost
  pub idempotent : Bool
  pub input : Json
  pub output : Json
  pub examples : List Example
  pub failure_modes : List FailureMode
  pub provider : String
  pub required_scopes : Option (List String)
  pub attestation : Option CardAttestation
  pub public_key : Option String
  pub signature : Option String
  pub created_at : String

abbrev pub latency_name : Latency → String
latency_name fast = "fast"
latency_name medium = "medium"
latency_name slow = "slow"

abbrev pub risk_name : RiskTier → String
risk_name safe = "safe"
risk_name caution = "caution"
risk_name danger = "danger"

-- A property whose value may be `undefined`, which `JSON.stringify` leaves out.
abbrev pub opt_field : String → Option Json → Fields → Fields
opt_field k none fs = fs
opt_field k (some v) fs = field k v fs

abbrev pub opt_map {ℓ κ} : {A : Type ℓ} {B : Type κ} → (A → B) → Option A → Option B
opt_map f none = none
opt_map f (some a) = some (f a)

abbrev pub items_of {ℓ} : {A : Type ℓ} → (A → Json) → List A → Items
items_of f [] = nil
items_of f (x ∷ xs) = cons (f x) (items_of f xs)

abbrev pub texts : List String → Json
texts xs = arr (items_of str xs)

abbrev pub cost_json : Cost → Json
cost_json c = obj (
    field "latency" (str (latency_name c.latency)) (
      field "sideEffects" (bool c.side_effects) (
        field "reversible" (bool c.reversible) (
          field "riskTier" (str (risk_name c.risk_tier))
            (field "requiresConfirmation" (bool c.requires_confirmation) end)))))

abbrev pub example_json : Example → Json
example_json e =
    obj (
      field "description" (str e.description) (field "input" e.input (field "output" e.output end)))

abbrev pub failure_json : FailureMode → Json
failure_json f = obj (field "code" (str f.code) (field "description" (str f.description) end))

abbrev pub attestation_json : CardAttestation → Json
attestation_json a = obj (
    field "type" (str a.kind)
      (field "payload" (str a.payload) (opt_field "reference" (opt_map str a.reference) end)))

-- The properties that `CANONICAL_FIELDS` picks, in its order.
unfoldable pub picked : GlyphCard → Json
picked c = obj (
    field "version" (str c.version) (
      field "name" (str c.name) (
        field "intent" (str c.intent) (
          field "tags" (texts c.tags) (
            field "cost" (cost_json c.cost) (
              field "idempotent" (bool c.idempotent) (
                field "input" c.input (
                  field "output" c.output (
                    field "examples" (arr (items_of example_json c.examples)) (
                      field "failureModes" (arr (items_of failure_json c.failure_modes)) (
                        field "provider" (str c.provider) (
                          opt_field "requiredScopes" (opt_map texts c.required_scopes) (
                            opt_field "attestation" (opt_map attestation_json c.attestation)
                              end)))))))))))))

module _ (k : Crypto) where
  -- `computeGlyphId`
  unfoldable pub compute_glyph_id : GlyphCard → String
  compute_glyph_id c = canonical_hash k (picked c)

  -- `signGlyph`
  unfoldable pub sign_glyph : GlyphCard → String → String
  sign_glyph c private = k.sign c.id private

  -- `verifyGlyph`
  unfoldable pub verify_glyph : GlyphCard → Bool
  verify_glyph c =
      if not (truthy c.signature) || not (truthy c.public_key)
      then false
      else if not (compute_glyph_id c == c.id)
      then false
      else caught (k.verify (or_else c.signature "") c.id (or_else c.public_key ""))
