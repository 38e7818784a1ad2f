-- ===== src/Client/Call/Approved.antt =====
-- What the pin of a tool can become while it is called: `ensureApproved` and `call` of
-- packages/client/src/index.ts.
use glyph_protocol.Prelude.{
  String, ◌≡◌, refl, ◌∷◌, ◌∙◌, sym, ap, ◌⊎◌, inl, inr, false, Bool-cases, Option, none, some, subst,
  eq_iff, ◌==◌, ◌&&◌, not, truthy, same_text,
}
use glyph_protocol.Prelude.Table.{get, get-set}
use glyph_protocol.Json.{Json}
use glyph_protocol.Crypto.{Crypto}
use glyph_protocol.Card.{GlyphCard}
use glyph_protocol.Card.Diff.{diff_cards}
use glyph_protocol.Card.Diff.Approval.{SameTerms, terms_kept}
use glyph_protocol.Receipt.{SealedEnvelope}
use glyph_protocol.Client.Pins.{Pin, PinStore, set_pin, inspect_pin, inspect_card, changed}
use glyph_protocol.Client.Gate.{Options, ClientState, Outcome, Done, Posted, judge, ensure_approved}
use glyph_protocol.Client.Gate.Cases.{approve_elim}
use glyph_protocol.Client.Call.{World, receive, send, call}
use glyph_protocol.Client.Call.Cases.{call_elim}

-- The card of a pin afterwards is the one before, or one with the same terms that took its place
-- under options that let review changes through.
abbrev pub IsSuccessor : Options → Pin → Pin → Type 0
IsSuccessor o p q =
    (q ≡ p)
    ⊎ ((o.secure_mode && not o.auto_approve_review_changes) ≡ false × SameTerms p.card q.card)

-- The store has a pin for the tool that is a successor of the pin.
pub record IsHeld (o : Options) (name : String) (p : Pin) (pins : Option PinStore) : Type 0 where
  pub store : PinStore
  pub pin : Pin
  pub stored : pins ≡ some store
  pub pinned : get store name ≡ some pin
  pub successor : IsSuccessor o p pin

kept-IsHeld :
    (o : Options) (name : String) (pins : PinStore) (p : Pin) {held : Option PinStore}
    → get pins name ≡ some p
    → held ≡ some pins
    → IsHeld o name p held
kept-IsHeld o name pins p g h = record {
  store = pins;
  pin = p;
  stored = h;
  pinned = g;
  successor = inl refl;
}

changed-IsHeld :
    (k : Crypto) (o : Options) (now name : String) (pins : PinStore) (card : GlyphCard) (p : Pin)
    (t : ClientState)
    → get pins name ≡ some p
    → p.tool_name ≡ name
    → t.pins ≡ some pins
    → IsHeld o name p ((judge k o now name pins card (changed p (diff_cards p.card card)) t).1).pins
unfolding judge set_pin
changed-IsHeld k o now name pins card p t g n h =
    elim (Bool-cases (o.secure_mode && not o.auto_approve_review_changes)) [
      | inl strict ↦ simp strict (elim (Bool-cases o.resilient_updates) [
        | inl parks ↦ simp parks (kept-IsHeld o name pins p g h)
        | inr blocks ↦ simp blocks (kept-IsHeld o name pins p g h)
      ])
      | inr lenient ↦ elim (Bool-cases (diff_cards p.card card).requires_approval) [
        | inl asks ↦
            rw (lenient, asks)
              (elim (Bool-cases o.resilient_updates) [
                | inl parks ↦ simp parks (kept-IsHeld o name pins p g h)
                | inr blocks ↦ simp blocks (kept-IsHeld o name pins p g h)
              ])
        | inr keeps ↦
            rw (lenient, keeps)
              (record {
                store = set_pin pins (record p { card = card; approved_at = now });
                pin = record p { card = card; approved_at = now };
                stored = refl;
                pinned = get-set pins p.tool_name name _ ∙ simp ((eq_iff _ _).1 n);
                successor = inr (lenient, terms_kept p.card card keeps);
              })
      ]
    ]

judge-IsHeld :
    (k : Crypto) (o : Options) (now name : String) (pins : PinStore) (card : GlyphCard) (p : Pin)
    (found : Option Pin) (t : ClientState)
    → get pins name ≡ some p
    → found ≡ some p
    → p.tool_name ≡ name
    → t.pins ≡ some pins
    → IsHeld o name p ((judge k o now name pins card (inspect_pin found card) t).1).pins
unfolding judge inspect_pin
judge-IsHeld k o now name pins card p none t g f n h = absurd (cc)
judge-IsHeld k o now name pins card p (some q) t g f n h =
    let same : q ≡ p = cc in
    elim (Bool-cases (truthy q.revoked_at)) [
      | inl gone ↦ rw gone (kept-IsHeld o name pins p g h)
      | inr there ↦
          elim (Bool-cases
            ((q.card.id == card.id) && same_text q.card.public_key card.public_key)) [
              | inl stable ↦ rw (there, stable) (kept-IsHeld o name pins p g h)
              | inr moved ↦
                  rw (there, moved)
                    (subst
                      (λ x.
                        IsHeld o name p
                          ((judge k o now name pins card (changed x (diff_cards x.card card)) t).1
                            ).pins)
                      (sym same) (changed-IsHeld k o now name pins card p t g n h))
            ]
    ]

ensure_approved-IsHeld :
    (k : Crypto) (o : Options) (now : String) (answer : Option GlyphCard) (name : String)
    (s : ClientState) (pins : PinStore) (p : Pin)
    → s.pins ≡ some pins
    → get pins name ≡ some p
    → p.tool_name ≡ name
    → IsHeld o name p ((ensure_approved k o now answer name s).1).pins
unfolding inspect_card
ensure_approved-IsHeld k o now answer name s pins p h g n =
    approve_elim k (λ r. IsHeld o name p (r.1).pins) o now answer name s pins h
      (λ e t kept. kept-IsHeld o name pins p g (kept.pins ∙ h))
      (λ card t kept named.
        judge-IsHeld k o now name pins card p (get pins card.name) t g
          (ap (get pins) ((eq_iff _ _).0 named) ∙ g) n (kept.pins ∙ h))

send-pins :
    (k : Crypto) (o : Options) (w : World) (p : Posted) (t : ClientState)
    → ((send k o w p t).1).pins ≡ t.pins
unfolding send
send-pins k o w p t = go (w.reply p)
  where
    go :
        (reply : Option SealedEnvelope)
        → ((receive k reply o p (record t { sent = p ∷ t.sent })).1).pins ≡ t.pins
    go none = refl
    go (some envelope) = refl

-- However a call ends of a tool that has a pin with its name, the tool is pinned afterwards, to the card that was pinned
-- before or, unless secure mode is on without the opt-in for review changes, to a card with the
-- same terms: version, costs other than latency, idempotence, schemas, provider, scopes, key and
-- attestation.
pub call-IsHeld :
    (k : Crypto) (o : Options) (w : World) (name : String) (input : Json) (token : Option String)
    (s : ClientState) (pins : PinStore) (p : Pin)
    → s.pins ≡ some pins
    → get pins name ≡ some p
    → p.tool_name ≡ name
    → IsHeld o name p ((call k o w name input token s).1).pins
call-IsHeld k o w name input token s pins p h g n =
    let gate = ensure_approved-IsHeld k o w.now w.approval_card name s pins p h g n in
    let held = λ (r : Outcome Done). IsHeld o name p (r.1).pins in
    call_elim k (λ r. IsHeld o name p (r.1).pins) o w name input token s
      (λ e t at. subst held at gate)
      (λ e d t u at kept. subst (IsHeld o name p) (sym kept.pins) (subst held at gate))
      (λ q d d' d'' t t' u at trust attest kept tool id.
        subst (IsHeld o name p) (sym (send-pins k o w q u ∙ kept.pins)) (subst held at gate))
