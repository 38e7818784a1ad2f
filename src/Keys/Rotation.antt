-- ===== src/Keys/Rotation.antt =====
-- A rotation with the builders of packages/core/src/key-registry.ts makes a registry that verifies.
use glyph_protocol.Prelude.{
  ℕ, String, ◌≡◌, true, false, List, [], ◌∷◌, none, some, eq_refl, ◌==◌, truthy, subst,
}
use glyph_protocol.Prelude.Table.{get, set}
use glyph_protocol.Crypto.{Crypto, IsSound, canonical_hash}
use glyph_protocol.Keys.{
  KeyEntry, KeyRegistry, key_registry_version, entry_payload_json, registry_json, index_keys,
  check_parent, check_entry, check_entries, check_outer, check_indexed, verify_key_registry,
  build_key_entry, build_key_registry, last_active,
}

-- The genesis key, retired, and the key that it introduced.
abbrev pub rotated : Crypto → String → String → String → String → String → List KeyEntry
rotated k old new since until from =
    record (build_key_entry k (k.public_key old) since none) { valid_until = some until }
    ∷ build_key_entry k (k.public_key new) from (some (k.sha256 (k.public_key old), old))
    ∷ []

-- The registry that is built from them, before and after it is signed.
abbrev pub unsigned : Crypto → String → String → List KeyEntry → ℕ → String → KeyRegistry
unsigned k server_id public entries ttl_seconds issued_at = record {
  registry_version = key_registry_version;
  server_id = server_id;
  active = k.sha256 public;
  keys = entries;
  issued_at = issued_at;
  ttl_seconds = ttl_seconds;
  signature = "";
}

abbrev pub sealed_registry : Crypto → String → String → List KeyEntry → ℕ → String → KeyRegistry
sealed_registry k server_id new entries ttl_seconds issued_at =
    let base = unsigned k server_id (k.public_key new) entries ttl_seconds issued_at in
    record base { signature = k.sign (canonical_hash k (registry_json base)) new }

sealed-verifies :
    (k : Crypto) (old new since until from server_id issued_at : String) (ttl_seconds : ℕ)
    → IsSound k
    → truthy (some (k.sha256 (k.public_key old))) ≡ true
    → (k.sha256 (k.public_key old) == k.sha256 (k.public_key new)) ≡ false
    → verify_key_registry k
        (sealed_registry k server_id new (rotated k old new since until from) ttl_seconds issued_at)
      ≡ some true
unfolding build_key_entry verify_key_registry check_indexed index_keys check_entries check_entry
    check_parent check_outer entry_payload_json registry_json get set
sealed-verifies k old new since until from server_id issued_at ttl_seconds sound full differ =
    simp (full, differ, eq_refl, sound.sign_nonempty, sound.verify-sign)

-- With sound ed25519 and two keys whose fingerprints differ, the first one not empty: the registry
-- that is built from the retired genesis key and the key that it introduced, signed with the new
-- key, verifies.
pub rotation-verifies :
    (k : Crypto) (old new since until from server_id issued_at : String) (ttl_seconds : ℕ)
    (r : KeyRegistry)
    → IsSound k
    → truthy (some (k.sha256 (k.public_key old))) ≡ true
    → (k.sha256 (k.public_key old) == k.sha256 (k.public_key new)) ≡ false
    → build_key_registry k server_id (rotated k old new since until from) new ttl_seconds issued_at
      ≡ some r
    → verify_key_registry k r ≡ some true
unfolding build_key_entry build_key_registry last_active
rotation-verifies k old new since until from server_id issued_at ttl_seconds r sound full differ
      built =
    let same : sealed_registry k server_id new (rotated k old new since until from) ttl_seconds
          issued_at
        ≡ r =
      cc in
    subst (λ x. verify_key_registry k x ≡ some true) same
      (sealed-verifies k old new since until from server_id issued_at ttl_seconds sound full differ)
