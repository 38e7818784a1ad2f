-- ===== src/Client/Setup.antt =====
-- How a `GlyphClient` of packages/client/src/index.ts is made: its constructor and `production`. A
-- property that the caller gives is absent (`none`), given as `undefined` (`some none`) or given.
pub mod Hardened
use glyph_protocol.Prelude.{
  ℕ, String, Bool, true, false, List, [], ◌∷◌, Option, none, some, ◌&&◌, not, or_else, is_some, ◌⊎◌,
  inl, inr, if◌then◌else◌,
}
use glyph_protocol.Prelude.Table.{Table}
use glyph_protocol.Json.{Json}
use glyph_protocol.Attest.{Verifiers}
use glyph_protocol.Client.Trust.{Resolver}
use glyph_protocol.Client.Pins.{PinStore}
use glyph_protocol.Client.Gate.{
  AttestationPolicy, no_policy, Options, ClientState, PendingAuditEntry, client_verifiers,
}

pub record TrustConfig : Type 0 where
  pub enabled : Bool
  pub resolver : Option Resolver
  pub allow_unknown_providers : Option Bool

abbrev pub Given {ℓ} : Type ℓ → Type ℓ
Given A = Option (Option A)

-- `options.x`, on a property that may be absent.
abbrev pub value_of {ℓ} : {A : Type ℓ} → Given A → Option A
value_of given = or_else given none

-- The options of the constructor, without those of the connection and the callbacks.
pub record ClientConfig : Type 0 where
  pub pins : Option PinStore
  pub secure_mode : Given Bool
  pub auto_approve_review_changes : Given Bool
  pub verify_receipts : Given Bool
  pub tofu : Given Bool
  pub trust : Option TrustConfig
  pub require_attestation : Option AttestationPolicy
  pub attestation_verifiers : Option Verifiers
  pub resilient_updates : Option Bool
  pub pending_audit_queue : Option (Table PendingAuditEntry)

pub data SetupError : Type 0 where
  secure_mode_needs_pins resilient_updates_need_pins tofu_needs_pins : SetupError
  production_needs_pins : SetupError

abbrev pub is_on : Option Bool → Bool
is_on b = or_else b false

abbrev pub trust_enabled_by : Option TrustConfig → Bool
trust_enabled_by none = false
trust_enabled_by (some t) = t.enabled

abbrev pub trust_resolver_of : Option TrustConfig → Option Resolver
trust_resolver_of none = none
trust_resolver_of (some t) = t.resolver

abbrev pub allows_unknown : Option TrustConfig → Bool
allows_unknown none = false
allows_unknown (some t) = is_on t.allow_unknown_providers

-- `options.pendingAuditQueue ?? (this.resilientUpdates ? new MemoryPendingAuditQueue() : undefined)`
abbrev pub queue_of : Option (Table PendingAuditEntry) → Bool → Option (Table PendingAuditEntry)
queue_of (some q) resilient = some q
queue_of none true = some []
queue_of none false = none

-- The object `{ secureMode: true, …, ...options }`: a property that is given wins, whatever it is.
abbrev pub with_defaults : ClientConfig → ClientConfig
with_defaults c = record c {
  secure_mode = some (or_else c.secure_mode (some true));
  verify_receipts = some (or_else c.verify_receipts (some true));
  auto_approve_review_changes = some (or_else c.auto_approve_review_changes (some false));
  tofu = some (or_else c.tofu (some false));
}

module _ (parse_json : String → Option Json) where
  -- The fields that the constructor sets.
  unfoldable pub client_of : ClientConfig → Options × ClientState
  client_of c = (
    record {
      secure_mode = is_on (value_of c.secure_mode);
      auto_approve_review_changes = is_on (value_of c.auto_approve_review_changes);
      verify_receipts = or_else (value_of c.verify_receipts) true;
      tofu = is_on (value_of c.tofu);
      resilient_updates = is_on c.resilient_updates;
      trust_enabled = trust_enabled_by c.trust;
      allow_unknown_providers = allows_unknown c.trust;
      require_attestation = or_else c.require_attestation no_policy;
      verifiers = client_verifiers parse_json (or_else c.attestation_verifiers []);
    },
    record {
      pins = c.pins;
      queue = queue_of c.pending_audit_queue (is_on c.resilient_updates);
      card_cache = [];
      trust_resolver = trust_resolver_of c.trust;
      runner_active = false;
      passes = 0;
      sent = [];
    },
  )

  -- The constructor.
  unfoldable pub new_client : ClientConfig → SetupError ⊎ (Options × ClientState)
  unfolding client_of
  new_client c =
      if is_on (value_of c.secure_mode) && not (is_some c.pins)
      then inl secure_mode_needs_pins
      else if is_on c.resilient_updates && not (is_some c.pins)
      then inl resilient_updates_need_pins
      else if is_on (value_of c.tofu) && not (is_some c.pins)
      then inl tofu_needs_pins
      else inr (client_of c)

  -- `GlyphClient.production`
  unfoldable pub production : ClientConfig → SetupError ⊎ (Options × ClientState)
  unfolding new_client
  production c =
      if not (is_some c.pins) then inl production_needs_pins else new_client (with_defaults c)
