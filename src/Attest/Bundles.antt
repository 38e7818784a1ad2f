-- ===== src/Attest/Bundles.antt =====
-- `SigstoreVerifier` and `SlsaVerifier` of packages/client/src/attestation.ts, which look at the
-- shape of a bundle and call none trusted.
use Prim.Native.String.{String}
use glyph_protocol.Prelude.{Bool, true, false, ◌==◌, not, Option, none, some, if◌then◌else◌}
use glyph_protocol.Json.{Json, null, num, str, arr, obj, nil, cons, end, field}
use glyph_protocol.Card.{GlyphCard, CardAttestation, opt_field}
use glyph_protocol.Attest.{
  AttestationResult, no_attestation, invalid_json, missing, wrong_predicate, invalid, structural,
  property, optional_property, is_truthy, is_text,
}

-- `vm.certificate.rawBytes` is a text where the certificate is truthy.
abbrev raw_bytes : Option Json → Option Json
raw_bytes certificate =
    if is_truthy certificate then optional_property "rawBytes" certificate else none

abbrev pub identity_of : Option Json → Option Json
identity_of (some (str s)) = some (str "certificate-present")
identity_of _ = none

abbrev sigstore_details : Option Json → Option Json → Json
sigstore_details media identity = obj (
    opt_field "mediaType" media (
      opt_field "identity" identity (
        field "limitation"
          (str
            "structure-only validation — full cryptographic verification requires sigstore-js dependency")
          end)))

-- The checks on a bundle that is not `null`.
unfoldable pub check_sigstore : Json → AttestationResult
check_sigstore bundle =
    let material = property "verificationMaterial" bundle in
    if not (is_truthy (property "mediaType" bundle))
    then invalid "sigstore" (missing "mediaType")
    else if not (is_truthy material)
    then invalid "sigstore" (missing "verificationMaterial")
    else if not (is_truthy (property "messageSignature" bundle))
    then invalid "sigstore" (missing "messageSignature")
    else structural "sigstore" false (
        sigstore_details (property "mediaType" bundle)
          (identity_of (raw_bytes (optional_property "certificate" material))))

-- What `parsed.mediaType` does on the parsed payload: `null` has no properties, and throws.
abbrev pub sigstore_parsed : Option Json → Option AttestationResult
sigstore_parsed none = some (invalid "sigstore" invalid_json)
sigstore_parsed (some null) = none
sigstore_parsed (some bundle) = some (check_sigstore bundle)

abbrev pub slsa_predicate_type : String
slsa_predicate_type = "https://slsa.dev/provenance/v1"

-- `v?.key` where `v` may also be `null`.
abbrev pub chained : String → Option Json → Option Json
chained key (some v) = property key v
chained key none = none

-- `subject.length === 0` of a truthy value.
abbrev pub is_empty_subject : Json → Bool
is_empty_subject (arr nil) = true
is_empty_subject (obj fs) = elim (property "length" (obj fs)) [
  | some (num n) ↦ n == "0"
  | _ ↦ false
]
is_empty_subject _ = false

-- `subject[0]` of a truthy value.
abbrev pub first_subject : Json → Option Json
first_subject (arr (cons v vs)) = some v
first_subject (str s) = some (str s)
first_subject (obj fs) = property "0" (obj fs)
first_subject _ = none

abbrev slsa_details : Json → Json → Json
slsa_details statement subject =
    let predicate = property "predicate" statement in
    let definition = chained "buildDefinition" predicate in
    obj (
      opt_field "builder" (chained "id" (chained "builder" predicate)) (
        opt_field "buildType"
          (if is_truthy definition then chained "buildType" definition else none)
          (field "subject"
            (obj (
              opt_field "name" (property "name" subject)
                (opt_field "digest" (property "digest" subject) end)))
            end)))

-- `subject0.digest?.sha256`, which throws on `null` and `undefined`.
unfoldable pub check_subject : Json → Option Json → Option AttestationResult
check_subject statement none = none
check_subject statement (some null) = none
check_subject statement (some subject) =
    if not (is_truthy (chained "sha256" (property "digest" subject)))
    then some (invalid "slsa" (missing "subject[0].digest.sha256"))
    else some (structural "slsa" false (slsa_details statement subject))

abbrev pub check_subjects : Json → Option Json → Option AttestationResult
check_subjects statement none = some (invalid "slsa" (missing "subject"))
check_subjects statement (some subjects) =
    if not (is_truthy (some subjects))
    then some (invalid "slsa" (missing "subject"))
    else if is_empty_subject subjects
    then some (invalid "slsa" (missing "subject"))
    else check_subject statement (first_subject subjects)

-- The checks on a statement that is not `null`.
unfoldable pub check_slsa : Json → Option AttestationResult
unfolding check_subject
check_slsa statement =
    let kind = property "predicateType" statement in
    if not (is_text slsa_predicate_type kind)
    then some (invalid "slsa" (wrong_predicate kind))
    else if not (is_truthy (chained "id" (chained "builder" (property "predicate" statement))))
    then some (invalid "slsa" (missing "builder.id"))
    else check_subjects statement (property "subject" statement)

abbrev pub slsa_parsed : Option Json → Option AttestationResult
slsa_parsed none = some (invalid "slsa" invalid_json)
slsa_parsed (some null) = none
slsa_parsed (some statement) = check_slsa statement

module _ (parse_json : String → Option Json) where
  abbrev pub parsed_by {ℓ} : {A : Type ℓ} → A → (Option Json → A) → Option CardAttestation → A
  parsed_by absent f none = absent
  parsed_by absent f (some a) = f (parse_json a.payload)

  -- `SigstoreVerifier.verify`
  unfoldable pub verify_sigstore : GlyphCard → Option AttestationResult
  unfolding check_sigstore
  verify_sigstore card =
      parsed_by (some (invalid "sigstore" no_attestation)) sigstore_parsed card.attestation

  -- `SlsaVerifier.verify`
  unfoldable pub verify_slsa : GlyphCard → Option AttestationResult
  unfolding check_slsa
  verify_slsa card = parsed_by (some (invalid "slsa" no_attestation)) slsa_parsed card.attestation
