-- ===== src/Client/Call/Receipts.antt =====
-- What a payload that `call` of packages/client/src/index.ts returns in secure mode is bound to.
use glyph_protocol.Prelude.{
  String, ◌≡◌, refl, ◌∷◌, ◌∙◌, ap, true, Option, none, some, subst, arith, eq_iff, same_text,
  or_else, ◌&&◌, is_some,
}
use glyph_protocol.Prelude.Table.{get}
use glyph_protocol.Json.{Json}
use glyph_protocol.Crypto.{Crypto, canonical_hash}
use glyph_protocol.Card.{GlyphCard}
use glyph_protocol.Receipt.{CallReceipt, SealedEnvelope, verify_receipt}
use glyph_protocol.Client.Pins.{
  Pin, PinStore, Result, ok, err, Inspection, new_tool, revoked, unchanged, changed,
}
use glyph_protocol.Client.Gate.{Options, ClientState, Outcome, Posted, judge, ensure_approved}
use glyph_protocol.Client.Gate.Cases.{approve_elim}
use glyph_protocol.Client.Call.{
  World, receipt_answers, accepts_receipt, check_pinned, check_reply, receive, send, call,
  inspection_of,
}
use glyph_protocol.Client.Call.Cases.{call_elim}

-- The receipt is the answer of the holder of the card's key to the call, for the card, with the
-- payload and the inspection of the envelope.
pub record IsAnswer (k : Crypto) (r : CallReceipt) (envelope : SealedEnvelope) (card : GlyphCard)
    (call_id : String) : Type 0 where
  pub key : same_text (some r.server_public_key) card.public_key ≡ true
  pub signature : verify_receipt k r ≡ true
  pub glyph : r.glyph_id ≡ card.id
  pub output : canonical_hash k envelope.payload ≡ r.output_hash
  pub inspection : canonical_hash k (inspection_of envelope.inspection) ≡ r.inspection_hash
  pub call : or_else r.client_call_id r.call_id ≡ call_id

answers :
    (k : Crypto) (r : CallReceipt) (envelope : SealedEnvelope) (card : GlyphCard) (call_id : String)
    → receipt_answers k r envelope card call_id ≡ true
    → IsAnswer k r envelope card call_id
unfolding receipt_answers
answers k r envelope card call_id h = record {
  key = ground arith;
  signature = ground arith;
  glyph = (eq_iff _ _).0 (ground arith);
  output = (eq_iff _ _).0 (ground arith);
  inspection = (eq_iff _ _).0 (ground arith);
  call = (eq_iff _ _).0 (ground arith);
}

-- The store has a pin of the tool, and the envelope has a receipt that answers the call for the
-- pinned card.
pub record IsBound (k : Crypto) (pins : Option PinStore) (name call_id : String)
    (envelope : SealedEnvelope) : Type 0 where
  pub store : PinStore
  pub pin : Pin
  pub receipt : CallReceipt
  pub stored : pins ≡ some store
  pub pinned : get store name ≡ some pin
  pub received : envelope.receipt ≡ some receipt
  pub answer : IsAnswer k receipt envelope pin.card call_id

check_pinned-answers :
    (k : Crypto) (pin : Pin) (found : Option CallReceipt) (envelope : SealedEnvelope)
    (call_id : String)
    → accepts_receipt k found envelope pin.card call_id ≡ true
    → (r : CallReceipt) × found ≡ some r × IsAnswer k r envelope pin.card call_id
unfolding accepts_receipt
check_pinned-answers k pin none envelope call_id h = absurd (cc)
check_pinned-answers k pin (some r) envelope call_id h =
    (r, refl, answers k r envelope pin.card call_id h)

check_pinned-IsBound :
    (k : Crypto) (pins : PinStore) (found : Option Pin) (name call_id : String)
    (sent envelope : SealedEnvelope)
    → get pins name ≡ found
    → check_pinned k found name call_id sent ≡ ok envelope
    → IsBound k (some pins) name call_id envelope
unfolding check_pinned
check_pinned-IsBound k pins none name call_id sent envelope g h = absurd (cc)
check_pinned-IsBound k pins (some pin) name call_id sent envelope g h =
    let accepted : accepts_receipt k sent.receipt sent pin.card call_id ≡ true = ground arith in
    let (r, at, bound) = check_pinned-answers k pin sent.receipt sent call_id accepted in
    let whole : ok sent ≡ ok envelope = ground arith in
    let same : sent ≡ envelope = cc in
    subst (IsBound k (some pins) name call_id) same (record {
      store = pins;
      pin = pin;
      receipt = r;
      stored = refl;
      pinned = g;
      received = at;
      answer = bound;
    })

judge-stores :
    (k : Crypto) (o : Options) (now name : String) (pins : PinStore) (card : GlyphCard)
    (i : Inspection) (t : ClientState)
    → is_some t.pins ≡ true
    → is_some ((judge k o now name pins card i t).1).pins ≡ true
unfolding judge
judge-stores k o now name pins card (unchanged pin) t h = h
judge-stores k o now name pins card (revoked pin) t h = h
judge-stores k o now name pins card new_tool t h = ground arith
judge-stores k o now name pins card (changed pin diff) t h = ground arith

ensure_approved-stores :
    (k : Crypto) (o : Options) (now : String) (answer : Option GlyphCard) (name : String)
    (s : ClientState) (pins : PinStore)
    → s.pins ≡ some pins
    → is_some ((ensure_approved k o now answer name s).1).pins ≡ true
ensure_approved-stores k o now answer name s pins h =
    approve_elim k (λ r. is_some (r.1).pins ≡ true) o now answer name s pins h
      (λ e t kept. ap is_some (kept.pins ∙ h))
      (λ card t kept named. judge-stores k o now name pins card _ t (ap is_some (kept.pins ∙ h)))

-- What `call` promises of its outcome.
abbrev Promise : Crypto → String → String → Outcome SealedEnvelope → Type 0
Promise k name call_id (err e, t) = Unit
Promise k name call_id (ok envelope, t) = IsBound k t.pins name call_id envelope

checked-Promise :
    (k : Crypto) (pins : PinStore) (name call_id : String) (envelope : SealedEnvelope)
    (t : ClientState) (r : Result SealedEnvelope)
    → some pins ≡ t.pins
    → check_pinned k (get pins name) name call_id envelope ≡ r
    → Promise k name call_id (r, t)
checked-Promise k pins name call_id envelope t (err e) same at = tt
checked-Promise k pins name call_id envelope t (ok answer) same at =
    subst (λ p. IsBound k p name call_id answer) same
      (check_pinned-IsBound k pins (get pins name) name call_id envelope answer refl at)

check_reply-Promise :
    (k : Crypto) (o : Options) (pins : Option PinStore) (name call_id : String)
    (envelope : SealedEnvelope) (t : ClientState)
    → (o.secure_mode && o.verify_receipts) ≡ true
    → is_some pins ≡ true
    → pins ≡ t.pins
    → Promise k name call_id (check_reply k pins o name call_id envelope, t)
unfolding check_reply
check_reply-Promise k o none name call_id envelope t on has same = absurd (cc)
check_reply-Promise k o (some pins) name call_id envelope t on has same =
    rw on (checked-Promise k pins name call_id envelope t _ same refl)

send-Promise :
    (k : Crypto) (o : Options) (w : World) (p : Posted) (t : ClientState)
    → (o.secure_mode && o.verify_receipts) ≡ true
    → is_some t.pins ≡ true
    → Promise k p.tool p.call_id (send k o w p t)
unfolding send
send-Promise k o w p t on has = go (w.reply p)
  where
    go :
        (reply : Option SealedEnvelope)
        → Promise k p.tool p.call_id (receive k reply o p (record t { sent = p ∷ t.sent }))
    go none = tt
    go (some envelope) = check_reply-Promise k o t.pins p.tool p.call_id envelope _ on has refl

-- With a pin store, in secure mode with receipts verified, an envelope that `call` returns has a receipt, and the
-- receipt is signed by the key of the card that is pinned for the tool after the call, names that
-- card and this call, and has the hashes of the payload and of the inspection of the envelope.
pub call-IsBound :
    (k : Crypto) (o : Options) (w : World) (name : String) (input : Json) (token : Option String)
    (s t : ClientState) (pins : PinStore) (envelope : SealedEnvelope)
    → s.pins ≡ some pins
    → (o.secure_mode && o.verify_receipts) ≡ true
    → call k o w name input token s ≡ (ok envelope, t)
    → IsBound k t.pins name w.call_id envelope
call-IsBound k o w name input token s t pins envelope h on at =
    subst (Promise k name w.call_id) at (
      call_elim k (Promise k name w.call_id) o w name input token s (λ e t at. tt)
        (λ e d t u at kept. tt)
        (λ p d d' d'' t t' u at trust attest kept tool id.
          let has =
            subst (λ r. is_some (r.1).pins ≡ true) at
              (ensure_approved-stores k o w.now w.approval_card name s pins h) in
          subst (λ n. Promise k n w.call_id (send k o w p u)) tool
            (subst (λ c. Promise k p.tool c (send k o w p u)) id
              (send-Promise k o w p u on (ap is_some kept.pins ∙ has)))))
