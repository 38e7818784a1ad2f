-- ===== src/Client/Pins.antt =====
-- Pins: packages/client/src/pins.ts, and `inspectCard`, `approveCard`, `revokeTool`,
-- `inspectLexicon` of packages/client/src/index.ts. The printed time is an argument.
pub mod Revocation
use glyph_protocol.Prelude.{
  String, Bool, true, false, List, [], ◌∷◌, Option, none, some, ◌==◌, ◌&&◌, ◌||◌, not, truthy,
  same_text, if◌then◌else◌, map,
}
use glyph_protocol.Prelude.Table.{Table, get, set}
use glyph_protocol.Crypto.{Crypto}
use glyph_protocol.Card.{GlyphCard, verify_glyph}
use glyph_protocol.Card.Diff.{CardDiff, diff_cards}
use glyph_protocol.Card.Depth.{LexiconEntry}

pub record Pin : Type 0 where
  pub tool_name : String
  pub approved_at : String
  pub card : GlyphCard
  pub revoked_at : Option String
  pub revoke_reason : Option String

abbrev pub PinStore : Type 0
PinStore = Table Pin

-- `MemoryPinStore.set`
unfoldable pub set_pin : PinStore → Pin → PinStore
set_pin m p = set m p.tool_name p

-- The errors that the client throws.
pub data ClientError : Type 0 where
  verification_failed : String → ClientError
  revoked_tool : String → Option String → ClientError
  unknown_provider : String → ClientError
  untrusted_key : String → ClientError
  not_approved_new : String → ClientError
  not_approved_changed : String → CardDiff → ClientError
  not_attested : String → ClientError
  request_failed : ClientError
  verifier_threw : ClientError
  no_pin_store : ClientError
  no_pin : String → ClientError

pub data Result {ℓ} (A : Type ℓ) : Type ℓ where
  ok : A → Result A
  err : ClientError → Result A

pub data Inspection : Type 0 where
  new_tool : Inspection
  revoked : Pin → Inspection
  unchanged : Pin → Inspection
  changed : Pin → CardDiff → Inspection

-- `inspectCard`, on the pin that the store has for the card's name.
unfoldable pub inspect_pin : Option Pin → GlyphCard → Inspection
inspect_pin none card = new_tool
inspect_pin (some pin) card =
    if truthy pin.revoked_at
    then revoked pin
    else if (pin.card.id == card.id) && same_text pin.card.public_key card.public_key
    then unchanged pin
    else changed pin (diff_cards pin.card card)

unfoldable pub inspect_card : PinStore → GlyphCard → Inspection
inspect_card pins card = inspect_pin (get pins card.name) card

-- `existing?.revokedAt`
abbrev pub is_revoked : Option Pin → Bool
is_revoked none = false
is_revoked (some p) = truthy p.revoked_at

abbrev pub reason_of : Option Pin → Option String
reason_of none = none
reason_of (some p) = p.revoke_reason

abbrev pub fresh_pin : String → String → GlyphCard → Pin
fresh_pin name now card = record {
  tool_name = name;
  approved_at = now;
  card = card;
  revoked_at = none;
  revoke_reason = none;
}

-- A signature is there and verifies.
abbrev pub is_verified : Crypto → GlyphCard → Bool
is_verified k card = truthy card.signature && verify_glyph k card

-- `approveCard`
unfoldable pub approve_card : Crypto → PinStore → GlyphCard → Bool → String → Result Pin × PinStore
unfolding set_pin
approve_card k pins card reinstate now =
    if not (is_verified k card)
    then (err (verification_failed card.name), pins)
    else if is_revoked (get pins card.name) && not reinstate
    then (err (revoked_tool card.name (reason_of (get pins card.name))), pins)
    else (ok (fresh_pin card.name now card), set_pin pins (fresh_pin card.name now card))

-- `revokeTool`, on the pin that the store has for the tool.
unfoldable pub revoke_pin :
    Option Pin → PinStore → String → Option String → String → Result Pin × PinStore
unfolding set_pin
revoke_pin none pins tool reason now = (err (no_pin tool), pins)
revoke_pin (some pin) pins tool reason now =
    if truthy pin.revoked_at
    then (ok pin, pins)
    else (let revoked = record pin { revoked_at = some now; revoke_reason = reason } in
        (ok revoked, set_pin pins revoked))

unfoldable pub revoke_tool : PinStore → String → Option String → String → Result Pin × PinStore
unfolding revoke_pin
revoke_tool pins tool reason now = revoke_pin (get pins tool) pins tool reason now

pub data LexiconStatus : Type 0 where
  is_new is_unchanged is_changed is_blocked : LexiconStatus

abbrev pub lexicon_status : Option Pin → LexiconEntry → LexiconStatus
lexicon_status none entry = is_new
lexicon_status (some pin) entry =
    if truthy pin.revoked_at
    then is_blocked
    else if pin.card.id == entry.id
    then is_unchanged
    else is_changed

-- `inspectLexicon`
unfoldable pub inspect_lexicon : PinStore → List LexiconEntry → List (String × LexiconStatus)
inspect_lexicon pins entries = map (λ e. (e.name, lexicon_status (get pins e.name) e)) entries
