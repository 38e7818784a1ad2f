-- ===== src/Client/Gate/Bound.antt =====
-- What a keyless attestation that opens the gate says: `KeylessVerifier` of
-- packages/core/src/keyless.ts.
use glyph_protocol.Prelude.{
  some-injective, String, ◌≡◌, refl, sym, ap, ◌∙◌, Bool, true, false, ◌==◌, Bool-cases, inl, inr,
  Option, none, some, eq_iff,
}
use glyph_protocol.Json.{Json, null, bool, num, str, arr, obj, canonicalize, stringify}
use glyph_protocol.Crypto.{Crypto}
use glyph_protocol.Card.{GlyphCard, CardAttestation, picked, compute_glyph_id}
use glyph_protocol.Attest.{property, is_text}
use glyph_protocol.Attest.Keyless.{
  KeylessIdentityPolicy, Backend, BackendAnswer, keyless_type, keyless_subject_digest, policy_ok,
  ask, keyless_result, check_bound, check_version, check_bundle, check_keyless, verify_keyless,
}
use glyph_protocol.Client.Gate.Attested.{opens}

module _ (k : Crypto) (policy : KeylessIdentityPolicy) (backend : Option Backend) where
  -- A bundle with the digest of the card's content without the attestation, with an issuer and an
  -- identity that the policy allows, which the injected backend trusts.
  pub record IsTrustedBundle (card : GlyphCard) (bundle : Json) : Type 0 where
    pub answer : BackendAnswer
    pub asked : ask backend bundle card ≡ some answer
    pub trusted : answer.trusted ≡ true
    pub allowed : policy_ok policy bundle ≡ some true
    pub subject : property "subjectDigest" bundle ≡ some (str (keyless_subject_digest k card))

  keyless_result-opens :
      (card : GlyphCard) (bundle : Json) (allowed : Option Bool) (answer : Option BackendAnswer)
      → policy_ok policy bundle ≡ allowed
      → ask backend bundle card ≡ answer
      → property "subjectDigest" bundle ≡ some (str (keyless_subject_digest k card))
      → opens (keyless_result bundle allowed answer) ≡ true
      → IsTrustedBundle card bundle
  keyless_result-opens card bundle none answer p q s h = absurd (cc)
  keyless_result-opens card bundle (some b) none p q s h = absurd (cc)
  keyless_result-opens card bundle (some false) (some r) p q s h =
      absurd (elim (Bool-cases r.trusted) [
        | inl t ↦ let shut : false ≡ true = simp t at h in cc
        | inr t ↦ let shut : false ≡ true = simp t at h in cc
      ])
  keyless_result-opens card bundle (some true) (some r) p q s h = record {
    answer = r;
    asked = q;
    trusted = elim (Bool-cases r.trusted) [
      | inl t ↦ t
      | inr t ↦ absurd (let shut : false ≡ true = simp t at h in cc)
    ];
    allowed = p;
    subject = s;
  }

  check_bound-opens :
      (card : GlyphCard) (bundle : Json) (found : Option Json)
      → property "subjectDigest" bundle ≡ found
      → opens (check_bound k policy backend card bundle found) ≡ true
      → IsTrustedBundle card bundle
  unfolding check_bound
  check_bound-opens card bundle none e h = absurd (cc)
  check_bound-opens card bundle (some null) e h = absurd (cc)
  check_bound-opens card bundle (some (bool b)) e h = absurd (cc)
  check_bound-opens card bundle (some (num n)) e h = absurd (cc)
  check_bound-opens card bundle (some (arr vs)) e h = absurd (cc)
  check_bound-opens card bundle (some (obj fs)) e h = absurd (cc)
  check_bound-opens card bundle (some (str digest)) e h =
      elim (Bool-cases (digest == keyless_subject_digest k card)) [
        | inr other ↦ let shut : false ≡ true = rw other at h in absurd (cc)
        | inl same ↦
            keyless_result-opens card bundle (policy_ok policy bundle) (ask backend bundle card)
              refl refl (e ∙ ap (λ d. some (str d)) ((eq_iff _ _).0 same)) (rw same at h)
      ]

  check_version-opens :
      (card : GlyphCard) (bundle : Json)
      → opens (check_version k policy backend card bundle) ≡ true
      → IsTrustedBundle card bundle
  unfolding check_version
  check_version-opens card bundle h =
      elim (Bool-cases (is_text keyless_type (property "bundleVersion" bundle))) [
        | inr other ↦ let shut : false ≡ true = rw other at h in absurd (cc)
        | inl same ↦
            check_bound-opens card bundle (property "subjectDigest" bundle) refl (rw same at h)
      ]

  check_bundle-opens :
      (card : GlyphCard) (parsed : Option Json)
      → opens (check_bundle k policy backend card parsed) ≡ true
      → (bundle : Json) × (parsed ≡ some bundle) × IsTrustedBundle card bundle
  check_bundle-opens card none h = absurd (cc)
  check_bundle-opens card (some null) h = absurd (cc)
  check_bundle-opens card (some (bool b)) h = (bool b, refl, check_version-opens card (bool b) h)
  check_bundle-opens card (some (num n)) h = (num n, refl, check_version-opens card (num n) h)
  check_bundle-opens card (some (str t)) h = (str t, refl, check_version-opens card (str t) h)
  check_bundle-opens card (some (arr vs)) h = (arr vs, refl, check_version-opens card (arr vs) h)
  check_bundle-opens card (some (obj fs)) h = (obj fs, refl, check_version-opens card (obj fs) h)

  module _ (parse_json : String → Option Json) (decode_base64 : String → String) where
    -- The card's attestation is of the keyless type, and its payload is a trusted bundle.
    pub record IsKeyless (card : GlyphCard) : Type 0 where
      pub attestation : CardAttestation
      pub carried : card.attestation ≡ some attestation
      pub keyless : attestation.kind ≡ keyless_type
      pub bundle : Json
      pub parsed : parse_json (decode_base64 attestation.payload) ≡ some bundle
      pub trusted : IsTrustedBundle card bundle

    check_keyless-opens :
        (card : GlyphCard) (held : Option CardAttestation)
        → card.attestation ≡ held
        → opens (check_keyless k policy backend parse_json decode_base64 card held) ≡ true
        → IsKeyless card
    unfolding check_keyless
    check_keyless-opens card none e h = absurd (cc)
    check_keyless-opens card (some a) e h = elim (Bool-cases (a.kind == keyless_type)) [
      | inr other ↦ let shut : false ≡ true = rw other at h in absurd (cc)
      | inl same ↦
          let found =
            check_bundle-opens card (parse_json (decode_base64 a.payload)) (rw same at h) in
          record {
            attestation = a;
            carried = e;
            keyless = (eq_iff _ _).0 same;
            bundle = found.0;
            parsed = found.1;
            trusted = found.2;
          }
    ]

-- A card on which `KeylessVerifier` opens the attestation gate carries a keyless attestation, of
-- which the bundle names the digest of that card's content without the attestation, with an issuer
-- and an identity that the policy allows, and which an injected backend trusts.
pub verify_keyless-IsKeyless :
    (k : Crypto) (policy : KeylessIdentityPolicy) (backend : Option Backend)
    (parse_json : String → Option Json) (decode_base64 : String → String) (card : GlyphCard)
    → opens (verify_keyless k policy backend parse_json decode_base64 card) ≡ true
    → IsKeyless k policy backend parse_json decode_base64 card
unfolding verify_keyless
verify_keyless-IsKeyless k policy backend parse_json decode_base64 card h =
    check_keyless-opens k policy backend parse_json decode_base64 card card.attestation refl h

-- The card without its attestation.
abbrev pub bare : GlyphCard → GlyphCard
bare card = record card { attestation = none }

str-injective : {a b : String} → str a ≡ str b → a ≡ b
str-injective e = cc

-- One attestation opens the gate for one content only: two cards with the same attestation on which
-- `KeylessVerifier` opens the gate have the same canonical content apart from it, unless SHA-256
-- collides on the two contents or on their ids.
pub verify_keyless-same_content :
    (k : Crypto) (policy : KeylessIdentityPolicy) (backend : Option Backend)
    (parse_json : String → Option Json) (decode_base64 : String → String) (a b : GlyphCard)
    → opens (verify_keyless k policy backend parse_json decode_base64 a) ≡ true
    → opens (verify_keyless k policy backend parse_json decode_base64 b) ≡ true
    → a.attestation ≡ b.attestation
    → (keyless_subject_digest k a ≡ keyless_subject_digest k b
        → compute_glyph_id k (bare a) ≡ compute_glyph_id k (bare b))
    → (compute_glyph_id k (bare a) ≡ compute_glyph_id k (bare b)
        → stringify (canonicalize (picked (bare a))) ≡ stringify (canonicalize (picked (bare b))))
    → stringify (canonicalize (picked (bare a))) ≡ stringify (canonicalize (picked (bare b)))
verify_keyless-same_content k policy backend parse_json decode_base64 a b ha hb e ids contents =
    let p = verify_keyless-IsKeyless k policy backend parse_json decode_base64 a ha in
    let q = verify_keyless-IsKeyless k policy backend parse_json decode_base64 b hb in
    let held : p.attestation ≡ q.attestation = some-injective (sym p.carried ∙ e ∙ q.carried) in
    let same : p.bundle ≡ q.bundle =
      some-injective
        (sym p.parsed ∙ ap (λ x. parse_json (decode_base64 x.payload)) held ∙ q.parsed) in
    contents (
      ids (
        str-injective (
          some-injective
            (sym p.trusted.subject ∙ ap (property "subjectDigest") same ∙ q.trusted.subject))))
