-- ===== src/Directory/Rooted.antt =====
-- What `discoverProviders` of packages/client/src/index.ts lets through.
use glyph_protocol.Prelude.{
  String, ◌≡◌, refl, true, false, Bool-cases, inl, inr, Option, none, some, ◌==◌, ◌&&◌, not,
  if◌then◌else◌, arith, eq_iff, ◌⊎◌, subst, sym, ap, ◌∙◌,
}
use glyph_protocol.Crypto.{Crypto, IsSound, canonical_hash, caught, caught-true}
use glyph_protocol.Client.Pins.{ok}
use glyph_protocol.Directory.{
  PublicProvidersRegistry, SignedBy, providers_registry_version, directory_json, issuer_key,
  sign_providers_registry, verify_providers_registry, discover_providers,
}

-- The key signed the registry's content.
pub record IsRooted (k : Crypto) (root : String) (r : PublicProvidersRegistry) : Type 0 where
  pub issuer : SignedBy
  pub named : r.signed_by ≡ some issuer
  pub key : issuer.public_key ≡ root
  pub version : r.registry_version ≡ providers_registry_version
  pub signed : k.verify r.signature (canonical_hash k (directory_json r)) root ≡ some true

verified-IsRooted :
    (k : Crypto) (root : String) (r : PublicProvidersRegistry) (named : Option SignedBy)
    → (root == "") ≡ false
    → verify_providers_registry k (record r { signed_by = named }) (some root) ≡ true
    → IsRooted k root (record r { signed_by = named })
unfolding verify_providers_registry
verified-IsRooted k root r none full h = absurd (ground arith)
verified-IsRooted k root r (some issuer) full h =
    let same : root ≡ issuer.public_key = (eq_iff root issuer.public_key).0 (ground arith) in
    let content = canonical_hash k (directory_json (record r { signed_by = some issuer })) in
    let valid : caught (k.verify r.signature content issuer.public_key) ≡ true = ground arith in
    record {
      issuer = issuer;
      named = refl;
      key = sym same;
      version = (eq_iff r.registry_version providers_registry_version).0 (ground arith);
      signed =
          subst (λ key. k.verify r.signature content key ≡ some true) (sym same)
            (caught-true (k.verify r.signature content issuer.public_key) valid);
    }

-- With a trust root that is not empty, a registry that `discoverProviders` returns is the one that
-- the address answered, has the supported version, names the trust root as its issuer's key, and
-- its signature by that key verifies over the canonical hash of everything else in it.
pub discover_providers-IsRooted :
    (k : Crypto) (root : String) (answer : Option PublicProvidersRegistry)
    (r : PublicProvidersRegistry)
    → (root == "") ≡ false
    → discover_providers k answer root ≡ ok r
    → (answer ≡ some r) × IsRooted k root r
unfolding discover_providers
discover_providers-IsRooted k root none r full h = absurd (cc)
discover_providers-IsRooted k root (some found) r full h =
    elim (Bool-cases (verify_providers_registry k found (some root))) [
      | inr bad ↦ absurd (ground arith)
      | inl good ↦
          let same : found ≡ r = ground arith in
          (
            ap some same,
            subst (IsRooted k root) same (verified-IsRooted k root found found.signed_by full good),
          )
    ]

root_passes :
    (root key : String)
    → (root ≡ key) ⊎ (root ≡ "")
    → (if not (root == "") && not (root == key) then false else true) ≡ true
root_passes root key (inl e) = simp ((eq_iff root key).1 e) (ground arith)
root_passes root key (inr e) = simp ((eq_iff root "").1 e)

signed-verifies :
    (k : Crypto) (private root : String) (r : PublicProvidersRegistry) (issuer : SignedBy)
    → IsSound k
    → r.registry_version ≡ providers_registry_version
    → r.signed_by ≡ some issuer
    → issuer.public_key ≡ k.public_key private
    → (root ≡ k.public_key private) ⊎ (root ≡ "")
    → verify_providers_registry k
        (record r { signature = sign_providers_registry k r private })
        (some root)
      ≡ true
unfolding verify_providers_registry sign_providers_registry directory_json
signed-verifies k private root r issuer sound version named own trusted =
    let content = canonical_hash k (directory_json r) in
    let key : issuer_key r.signed_by ≡ some (k.public_key private) =
      ap issuer_key named ∙ ap some own in
    let current : (r.registry_version == providers_registry_version) ≡ true =
      (eq_iff r.registry_version providers_registry_version).1 version in
    simp (key, current, sound.sign_nonempty, sound.public_nonempty, sound.verify-sign)
      (root_passes root (k.public_key private) trusted)

-- With sound ed25519, a registry of the supported version that is signed with its named issuer's
-- private key is returned to every consumer whose trust root is that issuer's key, and also to one
-- whose trust root is the empty text, whoever the issuer is.
pub discover_providers-signed :
    (k : Crypto) (private root : String) (r : PublicProvidersRegistry) (issuer : SignedBy)
    → IsSound k
    → r.registry_version ≡ providers_registry_version
    → r.signed_by ≡ some issuer
    → issuer.public_key ≡ k.public_key private
    → (root ≡ k.public_key private) ⊎ (root ≡ "")
    → let signed = record r { signature = sign_providers_registry k r private } in
      discover_providers k (some signed) root ≡ ok signed
unfolding discover_providers
discover_providers-signed k private root r issuer sound version named own trusted =
    simp (signed-verifies k private root r issuer sound version named own trusted)
