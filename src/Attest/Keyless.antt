-- ===== src/Attest/Keyless.antt =====
-- `KeylessVerifier` of packages/core/src/keyless.ts. `Buffer.from(payload, 'base64')` and the
-- backend that checks certificates are parameters.
use Prim.Native.Char.{Char, code}
use Prim.Native.String.{String}
use glyph_protocol.Prelude.{
  Bool, true, false, ◌==◌, not, ◌&&◌, ◌||◌, eqb, List, [], ◌∷◌, Option, none, some, if◌then◌else◌,
}
use glyph_protocol.Json.{Json, null, bool, str, obj, end, field}
use glyph_protocol.Crypto.{Crypto}
use glyph_protocol.Card.{GlyphCard, CardAttestation, opt_field, compute_glyph_id}
use glyph_protocol.Attest.{
  AttestationError, AttestationResult, not_keyless, malformed_bundle, incomplete_bundle,
  other_subject, backend_error, invalid, property, is_text,
}
use glyph_protocol.Attest.Digest.{after}

abbrev pub keyless_type : String
keyless_type = "glyph-keyless-v1"

-- `keylessSubjectDigest`
unfoldable pub keyless_subject_digest : Crypto → GlyphCard → String
keyless_subject_digest k card = k.sha256 (compute_glyph_id k (record card { attestation = none }))

-- `SEGMENT_DELIMITERS.has(c)`
abbrev pub is_delimiter : Char → Bool
is_delimiter c = let n = code c in eqb n 0x3a || eqb n 0x2f

-- `SEGMENT_DELIMITERS.has(a[a.length - 1])`
unfoldable pub ends_segment : String → Bool
ends_segment String.[] = false
ends_segment (String.◌∷◌ c String.[]) = is_delimiter c
ends_segment (String.◌∷◌ c (String.◌∷◌ d s)) = ends_segment (String.◌∷◌ d s)

abbrev pub starts_segment : String → Bool
starts_segment String.[] = false
starts_segment (String.◌∷◌ c s) = is_delimiter c

abbrev pub at_boundary : String → Option String → Bool
at_boundary a none = false
at_boundary a (some rest) = ends_segment a || starts_segment rest

-- The test of `matchesAny` on one entry of the list.
unfoldable pub matches_entry : String → String → Bool
unfolding ends_segment
matches_entry value a = value == a || (not (a == "") && at_boundary a (after a value))

unfoldable pub matches_some : String → List String → Bool
unfolding matches_entry
matches_some value [] = false
matches_some value (a ∷ allow) = matches_entry value a || matches_some value allow

-- `allow.some` on a value that is no text: an empty entry is passed over, and `value.startsWith`
-- throws on any other.
unfoldable pub fails_all : List String → Option Bool
fails_all [] = some false
fails_all (a ∷ allow) = if a == "" then fails_all allow else none

-- `matchesAny`
unfoldable pub matches_any : Option Json → List String → Option Bool
unfolding matches_some fails_all
matches_any value [] = some true
matches_any (some (str s)) (a ∷ allow) = some (matches_some s (a ∷ allow))
matches_any value allow = fails_all allow

-- `KeylessIdentityPolicy`: a list that is not given is empty.
pub record KeylessIdentityPolicy : Type 0 where
  pub issuers : List String
  pub identities : List String

-- What `verifyBundle` answers; `none` is a rejected promise.
pub record BackendAnswer : Type 0 where
  pub trusted : Bool
  pub error : Option String

abbrev pub Backend : Type 0
Backend = Json → GlyphCard → Option BackendAnswer

abbrev and_also : Option Bool → Option Bool → Option Bool
and_also (some true) b = b
and_also a b = a

abbrev pub policy_ok : KeylessIdentityPolicy → Json → Option Bool
policy_ok policy bundle =
    and_also (matches_any (property "issuer" bundle) policy.issuers)
      (matches_any (property "identity" bundle) policy.identities)

-- A backend that is not injected trusts nothing.
abbrev pub ask : Option Backend → Json → GlyphCard → Option BackendAnswer
ask none bundle card = some (record { trusted = false; error = none })
ask (some backend) bundle card = backend bundle card

abbrev keyless_details : Json → Bool → Json
keyless_details bundle ok = obj (
    opt_field "issuer" (property "issuer" bundle)
      (opt_field "identity" (property "identity" bundle) (field "policyOk" (bool ok) end)))

abbrev backend_message : Option String → Option AttestationError
backend_message none = none
backend_message (some e) = if e == "" then none else some (backend_error e)

abbrev pub keyless_result : Json → Option Bool → Option BackendAnswer → Option AttestationResult
keyless_result bundle none answer = none
keyless_result bundle (some ok) none = none
keyless_result bundle (some ok) (some r) = some (record {
  valid = true;
  kind = keyless_type;
  trusted = some (r.trusted && ok);
  details = some (keyless_details bundle ok);
  error = backend_message r.error;
})

module _ (k : Crypto) (policy : KeylessIdentityPolicy) (backend : Option Backend) where
  -- The binding of a bundle with the given `subjectDigest`, and what follows it.
  unfoldable pub check_bound : GlyphCard → Json → Option Json → Option AttestationResult
  check_bound card bundle (some (str digest)) =
      if not (digest == keyless_subject_digest k card)
      then some (invalid keyless_type other_subject)
      else keyless_result bundle (policy_ok policy bundle) (ask backend bundle card)
  check_bound card bundle _ = some (invalid keyless_type incomplete_bundle)

  unfoldable pub check_version : GlyphCard → Json → Option AttestationResult
  unfolding check_bound
  check_version card bundle =
      if not (is_text keyless_type (property "bundleVersion" bundle))
      then some (invalid keyless_type incomplete_bundle)
      else check_bound card bundle (property "subjectDigest" bundle)

  -- The parsed bundle: `null.bundleVersion` throws.
  abbrev pub check_bundle : GlyphCard → Option Json → Option AttestationResult
  check_bundle card none = some (invalid keyless_type malformed_bundle)
  check_bundle card (some null) = none
  check_bundle card (some bundle) = check_version card bundle

  module _ (parse_json : String → Option Json) (decode_base64 : String → String) where
    unfoldable pub check_keyless : GlyphCard → Option CardAttestation → Option AttestationResult
    unfolding check_version
    check_keyless card none = some (invalid keyless_type not_keyless)
    check_keyless card (some a) =
        if not (a.kind == keyless_type)
        then some (invalid keyless_type not_keyless)
        else check_bundle card (parse_json (decode_base64 a.payload))

    -- `KeylessVerifier.verify`
    unfoldable pub verify_keyless : GlyphCard → Option AttestationResult
    unfolding check_keyless
    verify_keyless card = check_keyless card card.attestation
