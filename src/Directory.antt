-- ===== src/Directory.antt =====
-- The public directory of providers: packages/core/src/providers-registry.ts, with the types of
-- packages/types/src/types.ts, and `discoverProviders` of packages/client/src/index.ts.
pub mod Rooted
use glyph_protocol.Prelude.{
  ℕ, String, Bool, true, false, List, Option, none, some, ◌==◌, ◌&&◌, ◌||◌, not, truthy, or_else,
  if◌then◌else◌, decimal, same_text,
}
use glyph_protocol.Json.{Json, num, str, arr, obj, end, field}
use glyph_protocol.Crypto.{Crypto, canonical_hash, caught}
use glyph_protocol.Card.{opt_field, opt_map, items_of}
use glyph_protocol.Client.Pins.{Result, ok, err, request_failed, verification_failed}

pub data ProviderStatus : Type 0 where
  active revoked : ProviderStatus

pub record RegistryProvider : Type 0 where
  pub name : String
  pub endpoint : String
  pub public_key : String
  pub intent : Option String
  pub conformance_badge : Option String
  pub last_verified_at : Option String
  pub tags : Option (List String)
  pub status : ProviderStatus
  pub revoked_at : Option String
  pub revocation_reason : Option String

pub record SignedBy : Type 0 where
  pub name : String
  pub public_key : String
  pub fingerprint : String

-- The code also reads registries without a `signedBy`.
pub record PublicProvidersRegistry : Type 0 where
  pub registry_version : String
  pub registry_id : String
  pub issued_at : String
  pub ttl_seconds : ℕ
  pub providers : List RegistryProvider
  pub signed_by : Option SignedBy
  pub signature : String

abbrev pub providers_registry_version : String
providers_registry_version = "1.0"

abbrev pub status_json : ProviderStatus → Json
status_json active = str "active"
status_json revoked = str "revoked"

unfoldable pub provider_json : RegistryProvider → Json
provider_json p = obj (
    field "name" (str p.name) (
      field "endpoint" (str p.endpoint) (
        field "publicKey" (str p.public_key) (
          opt_field "intent" (opt_map str p.intent) (
            opt_field "conformanceBadge" (opt_map str p.conformance_badge) (
              opt_field "lastVerifiedAt" (opt_map str p.last_verified_at) (
                opt_field "tags" (opt_map (λ ts. arr (items_of str ts)) p.tags) (
                  field "status" (status_json p.status) (
                    opt_field "revokedAt" (opt_map str p.revoked_at)
                      (opt_field "revocationReason" (opt_map str p.revocation_reason) end))))))))))

abbrev pub signed_by_json : SignedBy → Json
signed_by_json s = obj (
    field "name" (str s.name)
      (field "publicKey" (str s.public_key) (field "fingerprint" (str s.fingerprint) end)))

-- The object that `registrySigningPayload` hashes.
unfoldable pub directory_json : PublicProvidersRegistry → Json
unfolding provider_json
directory_json r = obj (
    field "registryVersion" (str r.registry_version) (
      field "registryId" (str r.registry_id) (
        field "issuedAt" (str r.issued_at) (
          field "ttlSeconds" (num (decimal r.ttl_seconds)) (
            field "providers" (arr (items_of provider_json r.providers))
              (opt_field "signedBy" (opt_map signed_by_json r.signed_by) end))))))

-- `registry.signedBy?.publicKey`
abbrev pub issuer_key : Option SignedBy → Option String
issuer_key none = none
issuer_key (some s) = some s.public_key

module _ (k : Crypto) where
  -- `signProvidersRegistry`
  unfoldable pub sign_providers_registry : PublicProvidersRegistry → String → String
  sign_providers_registry r private = k.sign (canonical_hash k (directory_json r)) private

  -- `verifyProvidersRegistry`
  unfoldable pub verify_providers_registry : PublicProvidersRegistry → Option String → Bool
  verify_providers_registry r trust_root =
      if r.signature == "" || not (truthy (issuer_key r.signed_by))
      then false
      else if not (r.registry_version == providers_registry_version)
      then false
      else if truthy trust_root && not (same_text trust_root (issuer_key r.signed_by))
      then false
      else caught (
          k.verify r.signature (canonical_hash k (directory_json r))
            (or_else (issuer_key r.signed_by) ""))

  -- `discoverProviders`, on what the address answers; nothing when the request fails.
  unfoldable pub discover_providers :
      Option PublicProvidersRegistry → String → Result PublicProvidersRegistry
  unfolding verify_providers_registry
  discover_providers none trust_root = err request_failed
  discover_providers (some r) trust_root =
      if not (verify_providers_registry r (some trust_root))
      then err (verification_failed r.registry_id)
      else ok r
