-- ===== src/Tests/Cards.antt =====
-- The theorems on cards and receipts, on small ones.
use glyph_protocol.Prelude.{
  ℕ, String, ◌≡◌, refl, ◌↔◌, none, some, Bool, true, false, List, [], ◌∷◌, is_some, ◌&&◌,
  if◌then◌else◌, arith, eqb,
}
use glyph_protocol.Json.{canonicalize, stringify, assign_key}
use glyph_protocol.Json.Order.{key_le}
use glyph_protocol.Prelude.Table.{get}
use glyph_protocol.Card.{GlyphCard, danger, safe, verify_glyph, compute_glyph_id, picked}
use glyph_protocol.Browser.{Noble, hex_value, buffer_from_hex, core_crypto, browser_verify_glyph}
use glyph_protocol.Browser.Agreement.{ReadsHex, ReadsBoth, browser_verify_glyph_iff}
use glyph_protocol.Crypto.{canonical_hash}
use glyph_protocol.Card.Diff.{
  diff_cards, card_changes, record_change, cost_changes, provenance_changes, canon_equal,
  canon_text,
}
use glyph_protocol.Card.Diff.Approval.{SameTerms, requires_approval_iff}
use glyph_protocol.Receipt.{CallReceipt, UpdateManifest, high}
use glyph_protocol.Tests.{draft, plain, reworded}

requires_approval_iff_example :
    ((diff_cards plain reworded).requires_approval ≡ false) ↔ SameTerms plain reworded
requires_approval_iff_example = requires_approval_iff plain reworded

-- A new intent asks for no approval, a new risk tier does.
intent_is_free : (diff_cards plain reworded).requires_approval ≡ false
unfolding diff_cards card_changes record_change cost_changes provenance_changes canon_equal
    canon_text canonicalize stringify get assign_key
intent_is_free = refl

risk_is_not : (diff_cards plain (draft danger false "Send a mail")).requires_approval ≡ true
unfolding diff_cards card_changes record_change cost_changes provenance_changes canon_equal
    canon_text canonicalize stringify get assign_key
risk_is_not = refl

abbrev receipt : CallReceipt
receipt = record {
  receipt_version = "0.3";
  call_id = "id";
  client_call_id = some "c1";
  glyph_id = "g";
  glyph_name = "send";
  input_hash = "i";
  output_hash = "o";
  inspection_hash = "s";
  risk_tier = safe;
  provider = "acme";
  latency_ms = 12;
  timestamp = "noon";
  server_public_key = "";
  signature = "";
}

abbrev manifest : UpdateManifest
manifest = record {
  manifest_version = "0.1";
  tool_name = "send";
  previous_card_id = "a";
  new_card_id = "b";
  reason = "fix";
  is_breaking = true;
  security_impact = high;
  issued_at = "noon";
  server_public_key = "";
  signature = "";
}

-- Pairs of hex digits.
abbrev is_pairs : String → Bool
unfolding hex_value
is_pairs String.[] = true
is_pairs (String.◌∷◌ c String.[]) = false
is_pairs (String.◌∷◌ c (String.◌∷◌ d s)) =
    is_some (hex_value c) && is_some (hex_value d) && is_pairs s

-- A library that reads hex strictly and of which one signature verifies.
abbrev noble : Noble
noble = record {
  sha256 = λ s. s;
  public_key = λ s. s;
  sign = λ message private. "ab";
  verify_bytes = λ signature message key. some (is_byte 171 signature);
  hex_to_bytes = λ s. if is_pairs s then some (buffer_from_hex s) else none;
}
  where
    is_byte : ℕ → List ℕ → Bool
    is_byte b (c ∷ []) = eqb b c
    is_byte b _ = false

noble-ReadsHex : ReadsHex noble
noble-ReadsHex s bytes e = ground arith

abbrev by_browser : String → GlyphCard
by_browser signature = record plain {
  id = compute_glyph_id (core_crypto noble) plain;
  public_key = some "cd";
  signature = some signature;
}

browser_verify_glyph_iff_example :
    (browser_verify_glyph noble (by_browser "ab") ≡ true)
    ↔ ((verify_glyph (core_crypto noble) (by_browser "ab") ≡ true) × ReadsBoth noble "ab" "cd")
browser_verify_glyph_iff_example = browser_verify_glyph_iff noble (by_browser "ab") noble-ReadsHex

-- A signature with a tail that is not hex: the core accepts it, the verifier for browsers does not.
tail_in_core : verify_glyph (core_crypto noble) (by_browser "abzz") ≡ true
unfolding verify_glyph compute_glyph_id canonical_hash stringify canonicalize picked assign_key
    key_le buffer_from_hex
tail_in_core = refl

tail_in_browser : browser_verify_glyph noble (by_browser "abzz") ≡ false
unfolding browser_verify_glyph compute_glyph_id canonical_hash stringify canonicalize picked
    assign_key key_le is_pairs
tail_in_browser = refl
