-- ===== src/Client/Call.antt =====
-- `GlyphClient.call` and its `verifyReceipt`, in packages/client/src/index.ts.
pub mod Receipts
pub mod Blocked
pub mod Cleared
pub mod Unattested
pub mod Altered
pub mod Approved
pub mod Served
pub mod Cases
use glyph_protocol.Prelude.{
  String, Bool, true, false, List, ◌∷◌, Option, none, some, ◌==◌, ◌&&◌, ◌||◌, not, or_else,
  same_text, if◌then◌else◌,
}
use glyph_protocol.Prelude.Table.{get}
use glyph_protocol.Json.{Json, obj, end}
use glyph_protocol.Crypto.{Crypto, canonical_hash}
use glyph_protocol.Card.{GlyphCard}
use glyph_protocol.Sanitize.{Sanitization}
use glyph_protocol.Receipt.{CallReceipt, SealedEnvelope, verify_receipt, inspection_json}
use glyph_protocol.Client.Trust.{Discovery}
use glyph_protocol.Client.Pins.{
  Pin, PinStore, Result, ok, err, ClientError, verification_failed, request_failed,
}
use glyph_protocol.Client.Gate.{
  Options, ClientState, Outcome, Done, Posted, and_then, ensure_approved, enforce_trust,
  ensure_attested,
}

-- What the surroundings answer during one call: the card at each of the three gates, the trust
-- file and addresses, the reply to the call, the printed time and the call id.
pub record World : Type 0 where
  pub approval_card : Option GlyphCard
  pub trust_card : Option GlyphCard
  pub attestation_card : Option GlyphCard
  pub discovery : Discovery
  pub reply : Posted → Option SealedEnvelope
  pub now : String
  pub call_id : String

-- `envelope.inspection ?? {}`
abbrev pub inspection_of : Option Sanitization → Json
inspection_of none = obj end
inspection_of (some s) = inspection_json s

module _ (k : Crypto) where
  -- The checks (a) to (f) of `verifyReceipt`, on a receipt that is there.
  unfoldable pub receipt_answers : CallReceipt → SealedEnvelope → GlyphCard → String → Bool
  receipt_answers r envelope card call_id =
      if not (same_text (some r.server_public_key) card.public_key)
      then false
      else if not (verify_receipt k r)
      then false
      else if not (r.glyph_id == card.id)
      then false
      else if not (canonical_hash k envelope.payload == r.output_hash)
      then false
      else if not (canonical_hash k (inspection_of envelope.inspection) == r.inspection_hash)
      then false
      else or_else r.client_call_id r.call_id == call_id

  unfoldable pub accepts_receipt : Option CallReceipt → SealedEnvelope → GlyphCard → String → Bool
  unfolding receipt_answers
  accepts_receipt none envelope card call_id = false
  accepts_receipt (some r) envelope card call_id = receipt_answers r envelope card call_id

  -- The end of `call`, on the pin that the store has for the tool.
  unfoldable pub check_pinned :
      Option Pin → String → String → SealedEnvelope → Result SealedEnvelope
  unfolding accepts_receipt
  check_pinned none name call_id envelope = err (verification_failed name)
  check_pinned (some pin) name call_id envelope =
      if accepts_receipt envelope.receipt envelope pin.card call_id
      then ok envelope
      else err (verification_failed pin.card.name)

  unfoldable pub check_reply :
      Option PinStore → Options → String → String → SealedEnvelope → Result SealedEnvelope
  unfolding check_pinned
  check_reply none o name call_id envelope = ok envelope
  check_reply (some pins) o name call_id envelope =
      if o.secure_mode && o.verify_receipts
      then check_pinned (get pins name) name call_id envelope
      else ok envelope

  abbrev pub receive :
      Option SealedEnvelope → Options → Posted → ClientState → Outcome SealedEnvelope
  receive none o p s = (err request_failed, s)
  receive (some envelope) o p s = (check_reply s.pins o p.tool p.call_id envelope, s)

  -- The request, once the three gates are passed.
  unfoldable pub send : Options → World → Posted → ClientState → Outcome SealedEnvelope
  unfolding check_reply
  send o w p s = receive (w.reply p) o p (record s { sent = p ∷ s.sent })

  -- `call`
  unfoldable pub call :
      Options → World → String → Json → Option String → ClientState → Outcome SealedEnvelope
  unfolding ensure_approved enforce_trust ensure_attested send
  call o w name input token s = and_then (ensure_approved k o w.now w.approval_card name s) (λ _ s1.
      and_then (enforce_trust k o w.discovery w.trust_card name s1) (λ _ s2.
        and_then (ensure_attested k o w.attestation_card name s2) (λ _ s3.
          send o w
            (record { tool = name; input = input; call_id = w.call_id; confirmation_token = token })
            s3)))
