-- ===== src/Browser/Agreement.antt =====
-- Where the verifier for browsers of packages/verify-browser/src agrees with packages/core/src/index.ts.
use glyph_protocol.Prelude.{
  ℕ, String, ◌≡◌, refl, ◌↔◌, inl, inr, Bool, true, false, Option-cases, List, some, or_else,
  if◌then◌else◌,
}
use glyph_protocol.Crypto.{caught, canonical_hash}
use glyph_protocol.Card.{GlyphCard, verify_glyph, compute_glyph_id}
use glyph_protocol.Receipt.{CallReceipt, verify_receipt, receipt_json}
use glyph_protocol.Browser.{
  Noble, buffer_from_hex, core_crypto, browser_crypto, browser_verify_glyph, browser_verify_receipt,
}

-- `hexToBytes` reads a text, or throws.
abbrev pub Reads : Noble → String → Type 0
Reads n s = (bytes : List ℕ) × (n.hex_to_bytes s ≡ some bytes)

abbrev pub ReadsBoth : Noble → String → String → Type 0
ReadsBoth n signature key = Reads n signature × Reads n key

-- The documented behaviour of `hexToBytes`: what it reads is what the hex digits stand for.
abbrev pub ReadsHex : Noble → Type 0
ReadsHex n =
    (s : String) (bytes : List ℕ) → n.hex_to_bytes s ≡ some bytes → bytes ≡ buffer_from_hex s

verify_hex_iff :
    (n : Noble) (signature message key : String)
    → ReadsHex n
    → (caught ((browser_crypto n).verify signature message key) ≡ true)
      ↔ ((caught ((core_crypto n).verify signature message key) ≡ true) × ReadsBoth n signature key)
verify_hex_iff n signature message key reads = elim (Option-cases (n.hex_to_bytes signature)) [
  | inl bad ↦ simp bad (λ h. absurd (cc), λ (ok, ((bytes, g), r)). absurd (cc g))
  | inr (a, e) ↦ elim (Option-cases (n.hex_to_bytes key)) [
    | inl bad ↦ simp (e, bad) (λ h. absurd (cc), λ (ok, (r, (bytes, g))). absurd (cc g))
    | inr (b, f) ↦
        simp (e, f, reads signature a e, reads key b f)
          (λ h. (h, ((buffer_from_hex signature, refl), (buffer_from_hex key, refl))), λ h. h.0)
  ]
]

gated_iff :
    (P : Type 0) (a b x y : Bool)
    → ((x ≡ true) ↔ ((y ≡ true) × P))
    → ((if a then false else if b then false else x) ≡ true)
      ↔ (((if a then false else if b then false else y) ≡ true) × P)
gated_iff P true b x y h = (λ e. absurd (cc), λ e. absurd (cc (e.0)))
gated_iff P false true x y h = (λ e. absurd (cc), λ e. absurd (cc (e.0)))
gated_iff P false false x y h = h

-- Where `hexToBytes` reads nothing else than hex digits stand for: the verifier for browsers accepts
-- exactly the cards that the core's `verifyGlyph` accepts and of which `hexToBytes` reads both the
-- signature and the public key. The core does not ask for the latter: it reads hex up to the first
-- pair of other characters.
pub browser_verify_glyph_iff :
    (n : Noble) (c : GlyphCard)
    → ReadsHex n
    → (browser_verify_glyph n c ≡ true) ↔ (
        (verify_glyph (core_crypto n) c ≡ true)
        × ReadsBoth n (or_else c.signature "") (or_else c.public_key ""))
unfolding browser_verify_glyph verify_glyph compute_glyph_id canonical_hash
browser_verify_glyph_iff n c reads =
    let signature = or_else c.signature "" in
    let key = or_else c.public_key "" in
    gated_iff (ReadsBoth n signature key) _ _ _ (caught ((core_crypto n).verify signature c.id key))
      (verify_hex_iff n signature c.id key reads)

-- The same of receipts and the core's `verifyReceipt`.
pub browser_verify_receipt_iff :
    (n : Noble) (r : CallReceipt)
    → ReadsHex n
    → (browser_verify_receipt n r ≡ true)
      ↔ ((verify_receipt (core_crypto n) r ≡ true) × ReadsBoth n r.signature r.server_public_key)
unfolding browser_verify_receipt verify_receipt canonical_hash
browser_verify_receipt_iff n r reads =
    let hash = canonical_hash (core_crypto n) (receipt_json r) in
    gated_iff (ReadsBoth n r.signature r.server_public_key) _ false _
      (caught ((core_crypto n).verify r.signature hash r.server_public_key))
      (verify_hex_iff n r.signature hash r.server_public_key reads)
