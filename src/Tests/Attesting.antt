-- ===== src/Tests/Attesting.antt =====
-- The theorems on schemas and attestations, at small values.
use Prim.Native.String.{String}
use glyph_protocol.Prelude.{◌≡◌, refl, true, false, Option, none, some, [], ◌∷◌}
use glyph_protocol.Json.{Json, str, obj, end, field, canonicalize, stringify, assign_key}
use glyph_protocol.Json.Order.{key_le}
use glyph_protocol.Attest.{member}
use glyph_protocol.Crypto.{toy, canonical_hash}
use glyph_protocol.Card.{GlyphCard, caution, compute_glyph_id, picked}
use glyph_protocol.Schema.{validate_schema_complexity}
use glyph_protocol.Schema.Bounds.{IsMeasured, validate_schema_complexity-IsMeasured}
use glyph_protocol.Attest.Digest.{after}
use glyph_protocol.Attest.Keyless.{
  KeylessIdentityPolicy, BackendAnswer, keyless_subject_digest, verify_keyless, matches_entry,
  matches_any,
}
use glyph_protocol.Client.Gate.{Options, all_policy, client_verifiers}
use glyph_protocol.Client.Gate.Bound.{IsKeyless, verify_keyless-IsKeyless}
use glyph_protocol.Client.Call.{call}
use glyph_protocol.Client.Call.Unattested.{IsUnsent, call-unattested}
use glyph_protocol.Tests.{draft, plain}
use glyph_protocol.Tests.Calling.{options, world, client}

abbrev schema : Json
schema = obj (field "type" (str "object") (field "properties" (obj end) end))

validate_schema_complexity-IsMeasured_example :
    IsMeasured 1 32 schema (validate_schema_complexity 1 32 schema)
validate_schema_complexity-IsMeasured_example = validate_schema_complexity-IsMeasured 1 32 schema

abbrev digest : String
digest = "sha256:0123456789abcdef0123456789abcdef0123456789abcdef0123456789abcdef"

-- A payload that holds the digest, whatever its text.
abbrev parse_digest : String → Option Json
parse_digest s = some (obj (field "digest" (str digest) end))

abbrev with_attestation : String → String → GlyphCard
with_attestation kind payload = record (draft caution false "Send a mail") {
  attestation = some (record { kind = kind; payload = payload; reference = none });
}

-- The rule on an entry and a name that only begins like it.
matches_evil : matches_entry "repo:acme/tools-evil" "repo:acme/tools" ≡ false
unfolding matches_entry after
matches_evil = refl

abbrev strict : Options
strict = record (options false) {
  require_attestation = all_policy;
  verifiers = client_verifiers parse_digest [];
}

call-unattested_example :
    IsUnsent (client []) (call toy strict (world plain) "send" (str "hello") none (client []))
call-unattested_example =
    call-unattested toy parse_digest [] strict (world plain) "send" (str "hello") none (client [])
      refl refl (λ card. tt)

abbrev policy : KeylessIdentityPolicy
policy = record { issuers = "https://ci" ∷ []; identities = "repo:acme/tools" ∷ [] }

abbrev keyless_card : GlyphCard
keyless_card = with_attestation "glyph-keyless-v1" "bundle"

abbrev parse_bundle : String → Option Json
parse_bundle s = some (
    obj (
      field "bundleVersion" (str "glyph-keyless-v1") (
        field "subjectDigest" (str (keyless_subject_digest toy keyless_card))
          (field "issuer" (str "https://ci") (field "identity" (str "repo:acme/tools:ref") end)))))

abbrev trusting : Json → GlyphCard → Option BackendAnswer
trusting bundle card = some (record { trusted = true; error = none })

verify_keyless-IsKeyless_example :
    IsKeyless toy policy (some trusting) parse_bundle (λ s. s) keyless_card
unfolding verify_keyless member keyless_subject_digest compute_glyph_id canonical_hash stringify
    canonicalize picked assign_key key_le matches_any after
verify_keyless-IsKeyless_example =
    verify_keyless-IsKeyless toy policy (some trusting) parse_bundle (λ s. s) keyless_card refl
