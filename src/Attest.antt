-- ===== src/Attest.antt =====
-- The verifiers of attestations: packages/core/src/attestation.ts, packages/core/src/keyless.ts and
-- packages/client/src/attestation.ts. A verifier is a function of the card; `none` is a promise that
-- is rejected. `JSON.parse` is a parameter, whose `none` is a `SyntaxError`.
pub mod Digest
pub mod Bundles
pub mod Keyless
pub mod Segments
use glyph_protocol.Prelude.{
  String, Bool, true, false, ◌==◌, not, ◌||◌, Option, none, some, List, [], ◌∷◌, if◌then◌else◌,
}
use glyph_protocol.Prelude.Table.{Table, set}
use glyph_protocol.Json.{Json, null, bool, num, str, arr, obj, Items, nil, cons, Fields, end, field}
use glyph_protocol.Card.{GlyphCard}

-- The messages of the verifiers, with what they quote.
pub data AttestationError : Type 0 where
  no_attestation invalid_json missing_digest digest_not_text : AttestationError
  bad_digest : String → AttestationError
  unpinned_digest : String → String → AttestationError
  missing : String → AttestationError
  wrong_predicate : Option Json → AttestationError
  not_keyless malformed_bundle incomplete_bundle other_subject : AttestationError
  backend_error : String → AttestationError

pub record AttestationResult : Type 0 where
  pub valid : Bool
  pub kind : String
  pub trusted : Option Bool
  pub details : Option Json
  pub error : Option AttestationError

-- A verifier of the registry, by its type.
abbrev pub Verifiers : Type 0
Verifiers = Table (GlyphCard → Option AttestationResult)

-- `AttestationVerifierRegistry.register`
unfoldable pub register_verifier :
    String → (GlyphCard → Option AttestationResult) → Verifiers → Verifiers
register_verifier kind verify registry = set registry kind verify

abbrev pub invalid : String → AttestationError → AttestationResult
invalid kind e = record {
  valid = false;
  kind = kind;
  trusted = none;
  details = none;
  error = some e;
}

-- A result that is valid and says whether it is trusted.
abbrev pub structural : String → Bool → Json → AttestationResult
structural kind trusted details = record {
  valid = true;
  kind = kind;
  trusted = some trusted;
  details = some details;
  error = none;
}

-- `o[key]` of an object's own properties.
unfoldable pub member : String → Fields → Option Json
member key end = none
member key (field k v fs) = if k == key then some v else member key fs

-- `v.key` on a value that is neither `null` nor `undefined`, for a key that only an object has.
abbrev pub property : String → Json → Option Json
property key (obj fs) = member key fs
property key _ = none

-- `v?.key`
abbrev pub optional_property : String → Option Json → Option Json
optional_property key none = none
optional_property key (some v) = property key v

-- `Boolean(v)` of a value that may be `undefined`.
abbrev pub is_truthy : Option Json → Bool
is_truthy none = false
is_truthy (some null) = false
is_truthy (some (bool b)) = b
is_truthy (some (num n)) = not (n == "0")
is_truthy (some (str s)) = not (s == "")
is_truthy (some (arr vs)) = true
is_truthy (some (obj fs)) = true

-- `v === text`
abbrev pub is_text : String → Option Json → Bool
is_text s (some (str t)) = t == s
is_text s _ = false
