-- ===== src/Tests/Calling.antt =====
-- The client's theorems on a small tool, with the answers of the server on the same tool.
use glyph_protocol.Prelude.{
  String, ◌≡◌, refl, sym, ap, ◌∙◌, Bool-cases, inl, inr, ◌==◌, eq_iff, decimal, Bool, true, false,
  [], ◌∷◌, Option, none, some,
}
use glyph_protocol.Prelude.Table.{get, set}
use glyph_protocol.Json.{obj, field, end, num, str, canonicalize, stringify, assign_key}
use glyph_protocol.Json.Order.{key_le}
use glyph_protocol.Crypto.{toy, toy-IsSound, canonical_hash}
use glyph_protocol.Card.{caution, GlyphCard, verify_glyph, compute_glyph_id, picked, sign_glyph}
use glyph_protocol.Receipt.{
  SealedEnvelope, verify_receipt, receipt_json, inspection_json, sign_receipt, seal_result,
}
use glyph_protocol.Sanitize.{sanitize, sort_findings, sanitize_value}
use glyph_protocol.Server.Call.{make_response, make_receipt}
use glyph_protocol.Client.Pins.{
  Pin, PinStore, fresh_pin, is_revoked, approve_card, revoke_tool, inspect_card, inspect_pin,
}
use glyph_protocol.Client.Pins.Revocation.{IsKeyed, stays, follows, approved, revocation_lasts}
use glyph_protocol.Client.Trust.{
  ProviderTrustEntry, Resolver, Discovery, new_resolver, cache_all, resolve, resolve_from,
  is_valid_entry, enforce_genesis, check_genesis,
}
use glyph_protocol.Client.Trust.Genesis as Genesis
use glyph_protocol.Client.Trust.Genesis.{genesis_fixed}
use glyph_protocol.Client.Gate.{
  any_accepts, Options, ClientState, no_policy, all_policy, get_card, trust_verdict, attest_card,
  attestation_verdict, ensure_approved, judge, load_card, enforce_trust, ensure_attested,
}
use glyph_protocol.Client.Call.{
  World, call, send, check_reply, check_pinned, accepts_receipt, receipt_answers,
}
use glyph_protocol.Client.Call.Receipts.{IsBound, call-IsBound}
use glyph_protocol.Client.Call.Blocked.{IsRefused, call-IsRefused}
use glyph_protocol.Client.Call.Approved.{IsHeld, call-IsHeld}
use glyph_protocol.Client.Call.Cleared.{IsCleared, call-IsCleared}
use glyph_protocol.Card.Identity.{published}
use glyph_protocol.Client.Call.Altered.{accepts_receipt-proto}
use glyph_protocol.Client.Call.Served.{make_response-accepted}
use glyph_protocol.Tests.{draft, plain, reworded, glyph_of, unchanged_text, config, around, request}
use glyph_protocol.Server.Api.{all_glyphs}

abbrev pub options : Bool → Options
options auto = record {
  secure_mode = true;
  auto_approve_review_changes = auto;
  verify_receipts = true;
  tofu = false;
  resilient_updates = false;
  trust_enabled = false;
  allow_unknown_providers = false;
  require_attestation = no_policy;
  verifiers = [];
}

abbrev pub pin : Pin
pin = fresh_pin "send" "noon" plain

abbrev pub pins : PinStore
pins = ("send", pin) ∷ []

abbrev pub client : PinStore → ClientState
client store = record {
  pins = some store;
  queue = none;
  card_cache = [];
  trust_resolver = none;
  runner_active = false;
  passes = 0;
  sent = [];
}

abbrev pub answer : SealedEnvelope
answer =
    make_response toy unchanged_text config (request all_glyphs) (around 5) (glyph_of plain)
      (str "hello") (some "c1") (num "1")

abbrev pub world : GlyphCard → World
world card = record {
  approval_card = some card;
  trust_card = none;
  attestation_card = none;
  discovery = (none, λ provider. none);
  reply = λ p. some answer;
  now = "noon";
  call_id = "c1";
}

make_response-accepted_example : accepts_receipt toy answer.receipt answer plain "c1" ≡ true
make_response-accepted_example =
    make_response-accepted toy toy-IsSound unchanged_text config (request all_glyphs) (around 5)
      (glyph_of plain) (str "hello") "c1" (num "1") refl refl

abbrev after : ClientState
after = (call toy (options false) (world plain) "send" (str "hello") none (client pins)).1

call-IsBound_example : IsBound toy after.pins "send" "c1" answer
unfolding get call ensure_approved enforce_trust ensure_attested load_card judge send check_reply
    check_pinned accepts_receipt receipt_answers inspect_card inspect_pin verify_glyph
    compute_glyph_id picked canonicalize stringify verify_receipt receipt_json inspection_json
    sign_receipt seal_result make_response make_receipt sanitize sign_glyph canonical_hash
    assign_key key_le sort_findings sanitize_value decimal
call-IsBound_example =
    call-IsBound toy (options false) (world plain) "send" (str "hello") none (client pins) after
      pins answer refl refl refl

-- The intent of the tool was reworded, and the client lets that through.
call-IsHeld_example :
    IsHeld
      (options true)
      "send"
      pin
      (call toy (options true) (world reworded) "send" (str "hello") none (client pins)).1.pins
unfolding get
call-IsHeld_example =
    call-IsHeld toy (options true) (world reworded) "send" (str "hello") none (client pins) pins pin
      refl refl refl

abbrev pub stopped : PinStore
stopped = ("send", record pin { revoked_at = some "noon" }) ∷ []

call-IsRefused_example :
    IsRefused
      (client stopped)
      (call toy (options true) (world plain) "send" (str "hello") none (client stopped))
unfolding get
call-IsRefused_example =
    call-IsRefused toy (options true) (world plain) "send" (str "hello") none (client stopped)
      stopped refl refl

pins-IsKeyed : IsKeyed pins
unfolding get
pins-IsKeyed name p h = elim (Bool-cases ("send" == name)) [
  | inl here ↦
      let both : some pin ≡ some p = rw here at h in
      let same : pin ≡ p = cc in
      sym (ap (λ (x : Pin). x.tool_name) same) ∙ (eq_iff "send" name).0 here
  | inr there ↦ let nothing : ◌≡◌ {A = Option Pin} none (some p) = rw there at h in absurd (cc)
]

abbrev revoked_pins : PinStore
revoked_pins = (revoke_tool pins "send" (some "leak") "noon").1

revocation_lasts_example :
    is_revoked (get (approve_card toy revoked_pins reworded false "later").1 "send") ≡ true
    × (approve_card toy
        (approve_card toy revoked_pins reworded false "later").1
        plain
        false
        "even later").1
      ≡ (approve_card toy revoked_pins reworded false "later").1
unfolding get
revocation_lasts_example =
    revocation_lasts toy pins (approve_card toy revoked_pins reworded false "later").1 pin plain
      (some "leak") "noon" "even later" pins-IsKeyed refl refl
      (follows revoked_pins _ _ (approved revoked_pins reworded "later") (stays _))

abbrev genesis : String
genesis = "k1"

abbrev entry : ProviderTrustEntry
entry = record { provider = "acme"; public_keys = "k1" ∷ "k2" ∷ []; genesis_key = none }

abbrev discovery : Discovery
discovery = (some entry, λ provider. none)

abbrev fresh : Resolver
fresh = new_resolver false [] []

genesis_fixed_example : some genesis ≡ some genesis
unfolding resolve resolve_from enforce_genesis check_genesis new_resolver cache_all get set
    is_valid_entry
genesis_fixed_example =
    genesis_fixed discovery discovery "acme" genesis genesis entry entry fresh _ refl refl refl
      (Genesis.follows _ _ _ (Genesis.restarted false [] (resolve discovery "acme" fresh).1)
        (Genesis.stays _))
      refl refl refl

-- A provider that is listed, and a tool with an attestation that a verifier accepts.
abbrev attested : GlyphCard
attested = published toy "key" (record (draft caution false "Send a mail") {
  attestation = some (record { kind = "digest"; payload = "p"; reference = none });
})

abbrev careful : Options
careful = record (options false) {
  secure_mode = false;
  trust_enabled = true;
  require_attestation = all_policy;
  verifiers =
      (
        "digest",
        λ card. some (record {
          valid = true;
          kind = "digest";
          trusted = none;
          details = none;
          error = none;
        }),
      )
      ∷ [];
}

abbrev listed : ProviderTrustEntry
listed = record { provider = "acme"; public_keys = toy.public_key "key" ∷ []; genesis_key = none }

abbrev careful_world : World
careful_world = record (world attested) {
  trust_card = some attested;
  attestation_card = some attested;
  discovery = (some listed, λ provider. none);
}

abbrev careful_client : ClientState
careful_client = record (client []) { pins = none; trust_resolver = some fresh }

call-IsCleared_example : IsCleared toy careful careful_world "send" careful_client
unfolding get set call ensure_approved enforce_trust ensure_attested load_card get_card send
    check_reply trust_verdict attest_card any_accepts attestation_verdict resolve resolve_from
    enforce_genesis check_genesis new_resolver is_valid_entry cache_all verify_glyph
    compute_glyph_id picked canonicalize stringify sign_glyph canonical_hash assign_key key_le
call-IsCleared_example =
    call-IsCleared toy careful careful_world "send" (str "hello") none careful_client
      (call toy careful careful_world "send" (str "hello") none careful_client).1 answer refl refl
      refl refl

-- An answer with an object, and the same with a field `__proto__` added.
abbrev object_answer : SealedEnvelope
object_answer =
    make_response toy unchanged_text config (request all_glyphs) (around 5) (glyph_of plain)
      (str "hello") (some "c1") (obj end)

abbrev object_payload : SealedEnvelope
object_payload = record object_answer { payload = obj end }

accepts_receipt-proto_example :
    accepts_receipt toy object_answer.receipt
      (record object_payload { payload = obj (field "__proto__" (num "1") end) })
      plain
      "c1"
    ≡ true
unfolding make_response make_receipt sanitize sanitize_value sort_findings seal_result sign_receipt
    canonical_hash canonicalize stringify assign_key key_le accepts_receipt receipt_answers
    verify_receipt receipt_json inspection_json decimal compute_glyph_id picked sign_glyph
accepts_receipt-proto_example =
    accepts_receipt-proto toy object_answer.receipt object_payload plain "c1" (num "1") end refl
      refl
