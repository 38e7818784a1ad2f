-- ===== src/Client/Pins/Revocation.antt =====
-- A revocation lasts: `approveCard`, `revokeTool` of packages/client/src/index.ts, over any sequence of them.
use glyph_protocol.Prelude.{
  String, ◌≡◌, refl, Bool, true, false, Bool-cases, inl, inr, Option, none, some, truthy, eq_iff,
  arith, ◌==◌, ap, sym, ◌∙◌, subst,
}
use glyph_protocol.Prelude.Table.{get, get-set}
use glyph_protocol.Crypto.{Crypto}
use glyph_protocol.Card.{GlyphCard}
use glyph_protocol.Client.Pins.{
  Pin, PinStore, set_pin, approve_card, revoke_pin, revoke_tool, is_revoked, fresh_pin,
}

-- The store keeps every pin under the pin's own tool name, as a store that is written by `set` does.
abbrev pub IsKeyed : PinStore → Type 0
IsKeyed pins = (name : String) (p : Pin) → get pins name ≡ some p → p.tool_name ≡ name

set_pin-IsKeyed : (pins : PinStore) (p : Pin) → IsKeyed pins → IsKeyed (set_pin pins p)
unfolding set_pin
set_pin-IsKeyed pins p h name q e =
    let at = get-set pins p.tool_name name p in
    elim (Bool-cases (p.tool_name == name)) [
      | inl here ↦
          let both : some p ≡ some q = ground arith in
          let same : p ≡ q = cc in sym (ap (λ (x : Pin). x.tool_name) same) ∙ (eq_iff _ _).0 here
      | inr there ↦ h name q (ground (arith, there))
    ]

-- One decision of the consumer, other than to reinstate. A printed time is not empty.
pub data Step (k : Crypto) : PinStore → PinStore → Type 0 where
  approved :
      (pins : PinStore) (card : GlyphCard) (now : String)
      → Step k pins ((approve_card k pins card false now).1)
  revoked :
      (pins : PinStore) (tool : String) (reason : Option String) (now : String)
      → truthy (some now) ≡ true
      → Step k pins ((revoke_tool pins tool reason now).1)

pub data Reaches (k : Crypto) : PinStore → PinStore → Type 0 where
  stays : (pins : PinStore) → Reaches k pins pins
  follows :
      (pins pins' pins'' : PinStore)
      → Step k pins pins'
      → Reaches k pins' pins''
      → Reaches k pins pins''

approve-IsKeyed :
    (k : Crypto) (pins : PinStore) (card : GlyphCard) (reinstate : Bool) (now : String)
    → IsKeyed pins
    → IsKeyed ((approve_card k pins card reinstate now).1)
unfolding approve_card
approve-IsKeyed k pins card reinstate now h =
    let written = set_pin-IsKeyed pins (fresh_pin card.name now card) h in ground arith

approve-keeps :
    (k : Crypto) (pins : PinStore) (card : GlyphCard) (now name : String)
    → is_revoked (get pins name) ≡ true
    → is_revoked (get ((approve_card k pins card false now).1) name) ≡ true
unfolding approve_card set_pin
approve-keeps k pins card now name h =
    let at = get-set pins card.name name (fresh_pin card.name now card) in
    elim (Bool-cases (card.name == name)) [
      | inl here ↦
          let own : is_revoked (get pins card.name) ≡ true =
            subst (λ n. is_revoked (get pins n) ≡ true) (sym ((eq_iff _ _).0 here)) h in
          ground (arith, own, h)
      | inr there ↦ ground (arith, there, h, at)
    ]

revoke-keeps :
    (found : Option Pin) (pins : PinStore) (tool : String) (reason : Option String)
    (now name : String)
    → IsKeyed pins
    → get pins tool ≡ found
    → truthy (some now) ≡ true
    → is_revoked (get pins name) ≡ true
    → is_revoked (get ((revoke_pin found pins tool reason now).1) name) ≡ true
unfolding revoke_pin set_pin
revoke-keeps none pins tool reason now name keyed f t h = h
revoke-keeps (some p) pins tool reason now name keyed f t h =
    let at =
      get-set pins p.tool_name name (record p { revoked_at = some now; revoke_reason = reason }) in
    grind arith

revoke-IsKeyed :
    (found : Option Pin) (pins : PinStore) (tool : String) (reason : Option String) (now : String)
    → IsKeyed pins
    → IsKeyed ((revoke_pin found pins tool reason now).1)
unfolding revoke_pin
revoke-IsKeyed none pins tool reason now h = h
revoke-IsKeyed (some p) pins tool reason now h =
    let written =
      set_pin-IsKeyed pins (record p { revoked_at = some now; revoke_reason = reason }) h in
    ground arith

abbrev IsBlocked : PinStore → String → Type 0
IsBlocked pins name = IsKeyed pins × is_revoked (get pins name) ≡ true

Step-IsBlocked :
    (k : Crypto) (pins pins' : PinStore) (name : String)
    → Step k pins pins'
    → IsBlocked pins name
    → IsBlocked pins' name
unfolding revoke_tool
Step-IsBlocked k _ _ name (approved pins card now) h =
    (approve-IsKeyed k pins card false now h.0, approve-keeps k pins card now name h.1)
Step-IsBlocked k _ _ name (revoked pins tool reason now t) h = (
  revoke-IsKeyed (get pins tool) pins tool reason now h.0,
  revoke-keeps (get pins tool) pins tool reason now name h.0 refl t h.1,
)

Reaches-IsBlocked :
    (k : Crypto) (pins pins' : PinStore) (name : String)
    → Reaches k pins pins'
    → IsBlocked pins name
    → IsBlocked pins' name
Reaches-IsBlocked k _ _ name (stays pins) h = h
Reaches-IsBlocked k _ _ name (follows p p' p'' a b) h =
    Reaches-IsBlocked k p' p'' name b (Step-IsBlocked k p p' name a h)

-- `approveCard` on a revoked tool, without `reinstate`, throws and writes nothing.
approve_blocked :
    (k : Crypto) (pins : PinStore) (card : GlyphCard) (now : String)
    → is_revoked (get pins card.name) ≡ true
    → (approve_card k pins card false now).1 ≡ pins
unfolding approve_card
approve_blocked k pins card now h = ground (arith, h)

revoke-blocks :
    (found : Option Pin) (pins : PinStore) (p : Pin) (tool : String) (reason : Option String)
    (now : String)
    → p.tool_name ≡ tool
    → found ≡ some p
    → get pins tool ≡ found
    → truthy (some now) ≡ true
    → is_revoked (get ((revoke_pin found pins tool reason now).1) tool) ≡ true
unfolding revoke_pin set_pin
revoke-blocks none pins p tool reason now own f g t = absurd (cc)
revoke-blocks (some q) pins p tool reason now own f g t =
    let at =
      get-set pins q.tool_name tool (record q { revoked_at = some now; revoke_reason = reason }) in
    let same : q ≡ p = cc in
    let named = ap (λ (x : Pin). x.tool_name) same ∙ own in
    let found = (eq_iff q.tool_name tool).1 named in grind arith

-- In a store that keeps each pin under its name: after `revokeTool` on a pinned tool, every sequence
-- of `approveCard` without `reinstate` and `revokeTool` calls leaves the tool revoked, and such an
-- `approveCard` of it writes nothing.
pub revocation_lasts :
    (k : Crypto) (pins pins' : PinStore) (pin : Pin) (card : GlyphCard) (reason : Option String)
    (now later : String)
    → IsKeyed pins
    → get pins card.name ≡ some pin
    → truthy (some now) ≡ true
    → Reaches k ((revoke_tool pins card.name reason now).1) pins'
    → is_revoked (get pins' card.name) ≡ true × (approve_card k pins' card false later).1 ≡ pins'
unfolding revoke_tool
revocation_lasts k pins pins' pin card reason now later keyed f t r =
    let first =
      revoke-blocks (get pins card.name) pins pin card.name reason now (keyed card.name pin f) f
        refl t in
    let ready : IsBlocked _ card.name =
      (revoke-IsKeyed (get pins card.name) pins card.name reason now keyed, first) in
    let last = Reaches-IsBlocked k _ pins' card.name r ready in
    (last.1, approve_blocked k pins' card later last.1)
