-- ===== src/Attest/Digest.antt =====
-- `DigestVerifier` of packages/core/src/attestation.ts, which binds a container image's digest.
use Prim.Native.Char.{Char, code}
use glyph_protocol.Prelude.{
  ℕ, ◌-◌, Bool, true, false, String, ◌==◌, not, ◌&&◌, ◌||◌, eqb, ltb, leb, Option, none, some,
  if◌then◌else◌,
}
use glyph_protocol.Json.{Json, bool, str, obj, end, field}
use glyph_protocol.Card.{GlyphCard, CardAttestation}
use glyph_protocol.Attest.{
  AttestationResult, no_attestation, invalid_json, missing_digest, digest_not_text, bad_digest,
  unpinned_digest, invalid, structural, member,
}

-- What is left of a text after a prefix, when it has it.
unfoldable pub after : String → String → Option String
after String.[] s = some s
after (String.◌∷◌ c p) String.[] = none
after (String.◌∷◌ c p) (String.◌∷◌ d s) = if eqb (code c) (code d) then after p s else none

abbrev pub is_lower_hex : Char → Bool
is_lower_hex c = let n = code c in (leb 0x30 n && leb n 0x39) || (leb 0x61 n && leb n 0x66)

-- `[a-f0-9]{n}` over the whole text.
unfoldable pub is_hex : ℕ → String → Bool
is_hex n String.[] = eqb n 0
is_hex n (String.◌∷◌ c s) = ltb 0 n && is_lower_hex c && is_hex (n - 1) s

abbrev pub hex_after_prefix : Option String → Bool
hex_after_prefix none = false
hex_after_prefix (some s) = is_hex 64 s

-- `DIGEST_RE.test(digest)`
unfoldable pub is_digest : String → Bool
unfolding after is_hex
is_digest s = hex_after_prefix (after "sha256:" s)

abbrev unbound_details : String → Json
unbound_details digest = obj (
    field "digest" (str digest) (
      field "subjectBound" (bool false) (
        field "limitation"
          (str
            "format-only validation — set expectedDigest to bind this digest to the serving artifact (RFC-0008 §3.2)")
          end)))

abbrev bound_details : String → Json
bound_details digest = obj (field "digest" (str digest) (field "subjectBound" (bool true) end))

abbrev pinned_details : String → String → Json
pinned_details digest pinned =
    obj (field "digest" (str digest) (field "expectedDigest" (str pinned) end))

abbrev unbound : String → AttestationResult
unbound digest = structural "container-digest" false (unbound_details digest)

-- From the test of the format on; `this.expectedDigest` is unset when it is absent or empty.
unfoldable pub check_digest : Option String → String → AttestationResult
unfolding is_digest
check_digest none digest =
    if not (is_digest digest)
    then invalid "container-digest" (bad_digest digest)
    else unbound digest
check_digest (some pinned) digest =
    if not (is_digest digest)
    then invalid "container-digest" (bad_digest digest)
    else if pinned == ""
    then unbound digest
    else if not (digest == pinned)
    then record (invalid "container-digest" (unpinned_digest digest pinned)) {
      details = some (pinned_details digest pinned);
    }
    else structural "container-digest" true (bound_details digest)

abbrev pub check_field : Option String → Option Json → AttestationResult
check_field expected none = invalid "container-digest" missing_digest
check_field expected (some (str digest)) = check_digest expected digest
check_field expected (some _) = invalid "container-digest" digest_not_text

-- The tests on what `JSON.parse` answers.
abbrev pub check_parsed : Option String → Option Json → AttestationResult
check_parsed expected none = invalid "container-digest" invalid_json
check_parsed expected (some (obj fs)) = check_field expected (member "digest" fs)
check_parsed expected (some _) = invalid "container-digest" missing_digest

module _ (parse_json : String → Option Json) where
  abbrev pub check_attested : Option String → Option CardAttestation → AttestationResult
  check_attested expected none = invalid "container-digest" no_attestation
  check_attested expected (some a) = check_parsed expected (parse_json a.payload)

  -- `DigestVerifier.verify`, which never throws.
  unfoldable pub verify_digest : Option String → GlyphCard → Option AttestationResult
  unfolding check_digest
  verify_digest expected card = some (check_attested expected card.attestation)
