-- ===== src/Tests/Registry.antt =====
-- The theorems on key registries, on a registry whose key was rotated once.
use glyph_protocol.Prelude.{◌≡◌, refl, some, List, true}
use glyph_protocol.Crypto.{toy, toy-IsSound}
use glyph_protocol.Keys.{
  KeyEntry, KeyRegistry, build_key_entry, build_key_registry, last_active, verify_key_registry,
}
use glyph_protocol.Keys.Rotation.{rotated, sealed_registry, rotation-verifies}
use glyph_protocol.Keys.Chain.{IsChained, verify_key_registry-IsChained}

abbrev entries : List KeyEntry
entries = rotated toy "old" "new" "a" "bbb" "bb"

abbrev registry : KeyRegistry
registry = sealed_registry toy "acme" "new" entries 60 "c"

registry_verifies : verify_key_registry toy registry ≡ some true
unfolding build_key_entry build_key_registry last_active
registry_verifies =
    rotation-verifies toy "old" "new" "a" "bbb" "bb" "acme" "c" 60 registry toy-IsSound refl refl
      refl

verify_key_registry-IsChained_example : IsChained toy registry
verify_key_registry-IsChained_example = verify_key_registry-IsChained toy registry registry_verifies
