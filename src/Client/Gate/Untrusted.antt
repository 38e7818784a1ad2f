-- ===== src/Client/Gate/Untrusted.antt =====
-- The built-in verifiers of packages/client/src/attestation.ts never open the attestation gate of
-- packages/client/src/index.ts.
use glyph_protocol.Prelude.{
  String, ◌≡◌, ◌≢◌, if◌then◌else◌, refl, Bool, true, false, ◌==◌, not, arith, Bool-cases,
  Option-cases, inl, inr, Option, none, some, [], ◌∷◌, All,
}
use glyph_protocol.Prelude.Table.{set}
use glyph_protocol.Json.{Json, null, bool, num, str, arr, obj}
use glyph_protocol.Card.{GlyphCard, CardAttestation}
use glyph_protocol.Attest.{
  AttestationResult, Verifiers, property, register_verifier, is_truthy, is_text,
}
use glyph_protocol.Attest.Bundles.{
  check_sigstore, sigstore_parsed, verify_sigstore, slsa_predicate_type, chained, check_subject,
  check_subjects, first_subject, is_empty_subject, check_slsa, slsa_parsed, verify_slsa, parsed_by,
}
use glyph_protocol.Client.Gate.{accepts, any_accepts, register_all, client_verifiers}
use glyph_protocol.Client.Gate.Attested.{opens}

check_sigstore-closed : (bundle : Json) → opens (some (check_sigstore bundle)) ≡ false
unfolding check_sigstore
check_sigstore-closed bundle = elim (Bool-cases (is_truthy (property "mediaType" bundle))) [
  | inr e ↦ rw e refl
  | inl e ↦ elim (Bool-cases (is_truthy (property "verificationMaterial" bundle))) [
    | inr f ↦ rw (e, f) refl
    | inl f ↦ elim (Bool-cases (is_truthy (property "messageSignature" bundle))) [
      | inr g ↦ rw (e, f, g) refl
      | inl g ↦ rw (e, f, g) refl
    ]
  ]
]

sigstore_parsed-closed : (parsed : Option Json) → opens (sigstore_parsed parsed) ≡ false
sigstore_parsed-closed none = refl
sigstore_parsed-closed (some null) = refl
sigstore_parsed-closed (some (bool b)) = check_sigstore-closed (bool b)
sigstore_parsed-closed (some (num n)) = check_sigstore-closed (num n)
sigstore_parsed-closed (some (str t)) = check_sigstore-closed (str t)
sigstore_parsed-closed (some (arr vs)) = check_sigstore-closed (arr vs)
sigstore_parsed-closed (some (obj fs)) = check_sigstore-closed (obj fs)

-- One test on the way to a result that does not open the gate.
guard-closed :
    (b : Bool) (x y : Option AttestationResult)
    → opens x ≡ false
    → opens y ≡ false
    → opens (if b then x else y) ≡ false
guard-closed true x y p q = p
guard-closed false x y p q = q

check_subject-closed :
    (statement : Json) (subject : Option Json) → opens (check_subject statement subject) ≡ false
unfolding check_subject
check_subject-closed statement none = refl
check_subject-closed statement (some null) = refl
check_subject-closed statement (some (bool b)) = ground arith
check_subject-closed statement (some (num n)) = ground arith
check_subject-closed statement (some (str t)) = ground arith
check_subject-closed statement (some (arr vs)) = ground arith
check_subject-closed statement (some (obj fs)) = ground arith

check_subjects-closed :
    (statement : Json) (subjects : Option Json) → opens (check_subjects statement subjects) ≡ false
check_subjects-closed statement none = refl
check_subjects-closed statement (some v) =
    guard-closed (not (is_truthy (some v))) _ _ refl (
      guard-closed (is_empty_subject v) _ _ refl (check_subject-closed statement (first_subject v)))

check_slsa-closed : (statement : Json) → opens (check_slsa statement) ≡ false
unfolding check_slsa
check_slsa-closed statement =
    guard-closed (not (is_text slsa_predicate_type (property "predicateType" statement))) _ _ refl (
      guard-closed
        (not (is_truthy (chained "id" (chained "builder" (property "predicate" statement))))) _ _
        refl (check_subjects-closed statement (property "subject" statement)))

slsa_parsed-closed : (parsed : Option Json) → opens (slsa_parsed parsed) ≡ false
slsa_parsed-closed none = refl
slsa_parsed-closed (some null) = refl
slsa_parsed-closed (some (bool b)) = check_slsa-closed (bool b)
slsa_parsed-closed (some (num n)) = check_slsa-closed (num n)
slsa_parsed-closed (some (str t)) = check_slsa-closed (str t)
slsa_parsed-closed (some (arr vs)) = check_slsa-closed (arr vs)
slsa_parsed-closed (some (obj fs)) = check_slsa-closed (obj fs)

parsed_by-closed :
    (parse_json : String → Option Json) (absent : Option AttestationResult)
    (f : Option Json → Option AttestationResult) (a : Option CardAttestation)
    → opens absent ≡ false
    → ((parsed : Option Json) → opens (f parsed) ≡ false)
    → opens (parsed_by parse_json absent f a) ≡ false
parsed_by-closed parse_json absent f none at next = at
parsed_by-closed parse_json absent f (some a) at next = next (parse_json a.payload)

verify_sigstore-closed :
    (parse_json : String → Option Json) (card : GlyphCard)
    → opens (verify_sigstore parse_json card) ≡ false
unfolding verify_sigstore
verify_sigstore-closed parse_json card =
    parsed_by-closed parse_json _ sigstore_parsed card.attestation refl sigstore_parsed-closed

verify_slsa-closed :
    (parse_json : String → Option Json) (card : GlyphCard)
    → opens (verify_slsa parse_json card) ≡ false
unfolding verify_slsa
verify_slsa-closed parse_json card =
    parsed_by-closed parse_json _ slsa_parsed card.attestation refl slsa_parsed-closed

-- A registered verifier that does not open the gate on the card.
abbrev pub IsClosed : GlyphCard → String × (GlyphCard → Option AttestationResult) → Type 0
IsClosed card (kind, verify) = opens (verify card) ≡ false

any_accepts-closed :
    (card : GlyphCard) (verifiers : Verifiers)
    → All (IsClosed card) verifiers
    → any_accepts verifiers card ≢ some true
unfolding any_accepts
any_accepts-closed card [] h e = absurd (cc)
any_accepts-closed card ((kind, verify) ∷ rest) (c, h) e = elim (Option-cases (verify card)) [
  | inl threw ↦ let at : ◌≡◌ {A = Option Bool} none (some true) = rw threw at e in absurd (cc)
  | inr (r, answered) ↦
      let shut : accepts r ≡ false = rw answered at c in
      let later : any_accepts rest card ≡ some true = rw (answered, shut) at e in
      any_accepts-closed card rest h later
]

set-IsClosed :
    (card : GlyphCard) (verifiers : Verifiers) (kind : String)
    (verify : GlyphCard → Option AttestationResult)
    → All (IsClosed card) verifiers
    → opens (verify card) ≡ false
    → All (IsClosed card) (register_verifier kind verify verifiers)
unfolding register_verifier set
set-IsClosed card [] kind verify h c = (c, tt)
set-IsClosed card ((j, w) ∷ rest) kind verify h c = elim (Bool-cases (j == kind)) [
  | inl here ↦ rw here (c, h.1)
  | inr there ↦ rw there (h.0, set-IsClosed card rest kind verify h.1 c)
]

register_all-IsClosed :
    (card : GlyphCard) (user verifiers : Verifiers)
    → All (IsClosed card) user
    → All (IsClosed card) verifiers
    → All (IsClosed card) (register_all user verifiers)
unfolding register_all
register_all-IsClosed card [] verifiers u h = h
register_all-IsClosed card ((kind, verify) ∷ user) verifiers u h =
    register_all-IsClosed card user (register_verifier kind verify verifiers) u.1
      (set-IsClosed card verifiers kind verify h u.0)

pub client_verifiers-closed :
    (parse_json : String → Option Json) (card : GlyphCard) (user : Verifiers)
    → All (IsClosed card) user
    → any_accepts (client_verifiers parse_json user) card ≢ some true
unfolding client_verifiers
client_verifiers-closed parse_json card user u =
    any_accepts-closed card (client_verifiers parse_json user) (
      register_all-IsClosed card user _ u (
        set-IsClosed card _ "slsa" (verify_slsa parse_json)
          (set-IsClosed card [] "sigstore" (verify_sigstore parse_json) tt
            (verify_sigstore-closed parse_json card))
          (verify_slsa-closed parse_json card)))
