-- ===== src/Crypto.antt =====
-- What the code takes from node:crypto and @noble/ed25519: SHA-256 in hex, and ed25519 over the
-- bytes of a text with keys and signatures in hex. `canonicalHash` of packages/core/src/index.ts.
use Prim.Native.String.{◌++◌}
use Prim.Native.Char.{Char}
use text.Mathlib.TextLemmas.{cons≢nil}
use glyph_protocol.Prelude.{
  String, ◌≡◌, Bool, true, false, Option, none, some, ap, ◌==◌, eq_iff, eq_refl, Bool-cases, inl,
  inr,
}
use glyph_protocol.Json.{Json, canonicalize, stringify}

pub record Crypto : Type 0 where
  pub sha256 : String → String
  pub public_key : String → String
  pub sign : String → String → String
  pub verify : String → String → String → Option Bool

-- The documented behaviour of the two libraries. `verify` takes the signature, the message and the
-- public key, and `none` stands for an exception, as on a key that is no point of the curve.
pub record IsSound (k : Crypto) : Type 0 where
  pub verify-sign :
      (message private : String)
      → k.verify (k.sign message private) message (k.public_key private) ≡ some true
  pub sign_nonempty : (message private : String) → (k.sign message private == "") ≡ false
  pub public_nonempty : (private : String) → (k.public_key private == "") ≡ false

-- `canonicalHash`.
unfoldable pub canonical_hash : Crypto → Json → String
canonical_hash k v = k.sha256 (stringify (canonicalize v))

-- `ed.verify(…)` inside `try { … } catch { return false }`.
abbrev pub caught : Option Bool → Bool
caught none = false
caught (some b) = b

pub caught-true : (b : Option Bool) → caught b ≡ true → b ≡ some true
caught-true none h = absurd (cc)
caught-true (some b) h = ap some h

-- A toy instance of the interface, which shows that its laws can hold together: a key pair is a
-- text and the same text marked, and a signature is the public key followed by the message.
abbrev pub toy : Crypto
toy = record {
  sha256 = λ s. s;
  public_key = λ s. String.◌∷◌ "p" s;
  sign = λ m s. String.◌∷◌ "s" (String.◌∷◌ "p" s ++ m);
  verify = λ sig m p. some (sig == String.◌∷◌ "s" (p ++ m));
}

cons-ne-empty : (c : Char) (s : String) → (String.◌∷◌ c s == "") ≡ false
cons-ne-empty c s = elim (Bool-cases (String.◌∷◌ c s == "")) [
  | inl e ↦ absurd (cons≢nil ((eq_iff _ _).0 e))
  | inr e ↦ e
]

pub toy-IsSound : IsSound toy
toy-IsSound = record {
  verify-sign = λ m s. ap some (eq_refl (String.◌∷◌ "s" (String.◌∷◌ "p" s ++ m)));
  sign_nonempty = λ m s. cons-ne-empty "s" (String.◌∷◌ "p" s ++ m);
  public_nonempty = λ s. cons-ne-empty "p" s;
}
