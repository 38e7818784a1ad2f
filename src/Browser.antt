-- ===== src/Browser.antt =====
-- The verifier for browsers: packages/verify-browser/src. Its copies of `canonicalize` and of the list
-- of canonical fields are word for word those of packages/core/src/index.ts. The two packages call the
-- same ed25519 on bytes and differ in how they read hex.
pub mod Agreement
use Prim.Native.Char.{Char, code}
use glyph_protocol.Prelude.{
  ℕ, ◌+◌, ◌-◌, ◌*◌, String, Bool, true, false, List, [], ◌∷◌, Option, none, some, ◌==◌, ◌&&◌, ◌||◌,
  not, truthy, or_else, leb, if◌then◌else◌,
}
use glyph_protocol.Crypto.{Crypto, canonical_hash, caught}
use glyph_protocol.Card.{GlyphCard, compute_glyph_id}
use glyph_protocol.Receipt.{CallReceipt, receipt_json}

-- What the packages take from @noble/ed25519 and @noble/hashes, on bytes, with the texts that they
-- encode as UTF-8; `hex_to_bytes` is `ed.etc.hexToBytes`, and nothing where it throws.
pub record Noble : Type 0 where
  pub sha256 : String → String
  pub public_key : String → String
  pub sign : String → String → String
  pub verify_bytes : List ℕ → String → List ℕ → Option Bool
  pub hex_to_bytes : String → Option (List ℕ)

unfoldable pub hex_value : Char → Option ℕ
hex_value c =
    let n = code c in
    if leb 0x30 n && leb n 0x39
    then some (n - 0x30)
    else if leb 0x41 n && leb n 0x46
    then some (n - 0x37)
    else if leb 0x61 n && leb n 0x66
    then some (n - 0x57)
    else none

abbrev pub push_byte : Option ℕ → Option ℕ → List ℕ → List ℕ
push_byte none low rest = []
push_byte (some high) none rest = []
push_byte (some high) (some low) rest = (high * 16 + low) ∷ rest

-- `Buffer.from(hex, 'hex')`, which ends at the first pair that is not two hex digits.
unfoldable pub buffer_from_hex : String → List ℕ
unfolding hex_value
buffer_from_hex String.[] = []
buffer_from_hex (String.◌∷◌ c String.[]) = []
buffer_from_hex (String.◌∷◌ c (String.◌∷◌ d s)) =
    push_byte (hex_value c) (hex_value d) (buffer_from_hex s)

abbrev pub verify_hex : Noble → Option (List ℕ) → String → Option (List ℕ) → Option Bool
verify_hex n none message key = none
verify_hex n (some signature) message none = none
verify_hex n (some signature) message (some key) = n.verify_bytes signature message key

-- The library as packages/core uses it, through `fromHex` of its index.ts.
abbrev pub core_crypto : Noble → Crypto
core_crypto n = record {
  sha256 = n.sha256;
  public_key = n.public_key;
  sign = n.sign;
  verify = λ signature message key.
      n.verify_bytes (buffer_from_hex signature) message (buffer_from_hex key);
}

-- The library as packages/verify-browser uses it, through `fromHex` of its canonical.ts.
abbrev pub browser_crypto : Noble → Crypto
browser_crypto n = record {
  sha256 = n.sha256;
  public_key = n.public_key;
  sign = n.sign;
  verify =
      λ signature message key. verify_hex n (n.hex_to_bytes signature) message (n.hex_to_bytes key);
}

module _ (n : Noble) where
  -- `verifyGlyph` of verify.ts
  unfoldable pub browser_verify_glyph : GlyphCard → Bool
  browser_verify_glyph c =
      if not (truthy c.signature) || not (truthy c.public_key)
      then false
      else if not (compute_glyph_id (browser_crypto n) c == c.id)
      then false
      else caught
          ((browser_crypto n).verify (or_else c.signature "") c.id (or_else c.public_key ""))

  -- `verifyReceipt` of verify.ts
  unfoldable pub browser_verify_receipt : CallReceipt → Bool
  browser_verify_receipt r =
      if r.signature == "" || r.server_public_key == ""
      then false
      else caught (
          (browser_crypto n).verify r.signature (canonical_hash (browser_crypto n) (receipt_json r))
            r.server_public_key)
