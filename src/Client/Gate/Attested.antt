-- ===== src/Client/Gate/Attested.antt =====
-- Which of the verifiers of packages/core/src/attestation.ts, packages/core/src/keyless.ts and
-- packages/client/src/attestation.ts open the attestation gate of packages/client/src/index.ts.
use glyph_protocol.Prelude.{
  some-injective, String, ◌≡◌, refl, ap, sym, ◌↔◌, Bool, true, false, ◌==◌, Bool-cases, inl, inr,
  Option, none, some, eq_iff, eq_refl, subst,
}
use glyph_protocol.Json.{Json, null, bool, num, str, arr, obj}
use glyph_protocol.Card.{GlyphCard, CardAttestation}
use glyph_protocol.Attest.{AttestationResult, member}
use glyph_protocol.Attest.Digest.{
  is_digest, check_digest, check_field, check_parsed, check_attested, verify_digest,
}
use glyph_protocol.Client.Gate.{accepts}

-- A result on which the gate opens.
abbrev pub opens : Option AttestationResult → Bool
opens none = false
opens (some r) = accepts r

-- The digest that an attestation's payload carries.
abbrev payload_digest : Option Json → Option Json
payload_digest (some (obj fs)) = member "digest" fs
payload_digest _ = none

module _ (parse_json : String → Option Json) where
  abbrev pub attested_digest : Option CardAttestation → Option Json
  attested_digest none = none
  attested_digest (some a) = payload_digest (parse_json a.payload)

is_digest-empty : (s : String) → (s == "") ≡ true → is_digest s ≡ false
unfolding is_digest
is_digest-empty s e = rw ((eq_iff s "").0 e) refl

check_digest-opens :
    (expected : Option String) (digest : String)
    → (accepts (check_digest expected digest) ≡ true)
      ↔ ((expected ≡ some digest) × (is_digest digest ≡ true))
unfolding check_digest
check_digest-opens none digest = elim (Bool-cases (is_digest digest)) [
  | inl shaped ↦ rw shaped ((λ h. absurd (cc)), (λ h. absurd (cc (h.0))))
  | inr bad ↦ rw bad ((λ h. absurd (cc)), (λ h. absurd (cc (h.0))))
]
check_digest-opens (some pinned) digest = elim (Bool-cases (is_digest digest)) [
  | inr bad ↦ rw bad ((λ h. absurd (cc)), (λ h. absurd (cc (h.1))))
  | inl shaped ↦ elim (Bool-cases (pinned == "")) [
    | inl empty ↦
        rw (shaped, empty)
          (
            (λ h. absurd (cc)),
            (λ h.
                let same : pinned ≡ digest = some-injective h.0 in
                absurd
                  (cc (shaped, is_digest-empty digest (subst (λ x. (x == "") ≡ true) same empty)))),
          )
    | inr named ↦ elim (Bool-cases (digest == pinned)) [
      | inr other ↦
          rw (shaped, named, other)
            (
              (λ h. absurd (cc)),
              (λ h.
                  let same : pinned ≡ digest = some-injective h.0 in
                  absurd
                    (cc (other, subst (λ x. (digest == x) ≡ true) (sym same) (eq_refl digest)))),
            )
      | inl equal ↦
          rw (shaped, named, equal)
            ((λ h. (ap some (sym ((eq_iff digest pinned).0 equal)), refl)), (λ h. refl))
    ]
  ]
]

-- What opens the gate, for the digest that was found.
abbrev Pinned : Option String → Option Json → Type 0
Pinned expected found =
    (digest : String) × (expected ≡ some digest)
    × (is_digest digest ≡ true)
    × (found ≡ some (str digest))

check_field-opens :
    (expected : Option String) (found : Option Json)
    → (accepts (check_field expected found) ≡ true) ↔ Pinned expected found
check_field-opens expected none = ((λ h. absurd (cc)), (λ h. absurd (cc (h.3))))
check_field-opens expected (some (str digest)) = (
  (λ h. let both = (check_digest-opens expected digest).0 h in (digest, both.0, both.1, refl)),
  (λ h.
      let same : h.0 ≡ digest = cc (h.3) in
      (check_digest-opens expected digest).1
        (subst (λ d. (expected ≡ some d) × (is_digest d ≡ true)) same (h.1, h.2))),
)
check_field-opens expected (some null) = ((λ h. absurd (cc)), (λ h. absurd (cc (h.3))))
check_field-opens expected (some (bool b)) = ((λ h. absurd (cc)), (λ h. absurd (cc (h.3))))
check_field-opens expected (some (num n)) = ((λ h. absurd (cc)), (λ h. absurd (cc (h.3))))
check_field-opens expected (some (arr vs)) = ((λ h. absurd (cc)), (λ h. absurd (cc (h.3))))
check_field-opens expected (some (obj fs)) = ((λ h. absurd (cc)), (λ h. absurd (cc (h.3))))

check_parsed-opens :
    (expected : Option String) (parsed : Option Json)
    → (accepts (check_parsed expected parsed) ≡ true) ↔ Pinned expected (payload_digest parsed)
check_parsed-opens expected none = ((λ h. absurd (cc)), (λ h. absurd (cc (h.3))))
check_parsed-opens expected (some null) = ((λ h. absurd (cc)), (λ h. absurd (cc (h.3))))
check_parsed-opens expected (some (bool b)) = ((λ h. absurd (cc)), (λ h. absurd (cc (h.3))))
check_parsed-opens expected (some (num n)) = ((λ h. absurd (cc)), (λ h. absurd (cc (h.3))))
check_parsed-opens expected (some (str t)) = ((λ h. absurd (cc)), (λ h. absurd (cc (h.3))))
check_parsed-opens expected (some (arr vs)) = ((λ h. absurd (cc)), (λ h. absurd (cc (h.3))))
check_parsed-opens expected (some (obj fs)) = check_field-opens expected (member "digest" fs)

check_attested-opens :
    (parse_json : String → Option Json) (expected : Option String) (a : Option CardAttestation)
    → (accepts (check_attested parse_json expected a) ≡ true)
      ↔ Pinned expected (attested_digest parse_json a)
check_attested-opens parse_json expected none = ((λ h. absurd (cc)), (λ h. absurd (cc (h.3))))
check_attested-opens parse_json expected (some a) =
    check_parsed-opens expected (parse_json a.payload)

-- `DigestVerifier` opens the attestation gate on exactly the cards of which the attestation's payload
-- is a JSON object with the expected digest in the field `digest`, where that digest is
-- `sha256:` and 64 lower-case hexadecimal digits. With no expected digest it opens the gate on none.
pub verify_digest_iff :
    (parse_json : String → Option Json) (expected : Option String) (card : GlyphCard)
    → (opens (verify_digest parse_json expected card) ≡ true) ↔ (
        (digest : String) × (expected ≡ some digest)
        × (is_digest digest ≡ true)
        × (attested_digest parse_json card.attestation ≡ some (str digest)))
unfolding verify_digest
verify_digest_iff parse_json expected card =
    check_attested-opens parse_json expected card.attestation
