-- ===== src/Client/Call/Blocked.antt =====
-- What a revocation stops: `ensureApproved` and `call` of packages/client/src/index.ts.
use glyph_protocol.Prelude.{String, ◌≡◌, ◌∙◌, ap, true, Option, none, some, subst, eq_iff}
use glyph_protocol.Prelude.Table.{get}
use glyph_protocol.Json.{Json}
use glyph_protocol.Crypto.{Crypto}
use glyph_protocol.Card.{GlyphCard}
use glyph_protocol.Client.Pins.{Pin, PinStore, ok, err, is_revoked, inspect_pin, inspect_card}
use glyph_protocol.Client.Gate.{Options, ClientState, Outcome, judge, ensure_approved}
use glyph_protocol.Client.Gate.Cases.{Same, approve_elim}
use glyph_protocol.Client.Call.{World, call}
use glyph_protocol.Client.Call.Cases.{call_elim}

-- The outcome is an exception, and no pin was written and no call was posted since `s`.
abbrev pub IsRefused {ℓ} : {A : Type ℓ} → ClientState → Outcome A → Type 0
IsRefused s (ok a, t) = ⊥
IsRefused s (err e, t) = Same s t

judge-IsRefused :
    (k : Crypto) (o : Options) (now name : String) (pins : PinStore) (card : GlyphCard)
    (found : Option Pin) (s t : ClientState)
    → Same s t
    → is_revoked found ≡ true
    → IsRefused s (judge k o now name pins card (inspect_pin found card) t)
unfolding judge inspect_pin
judge-IsRefused k o now name pins card none s t h r = absurd (cc)
judge-IsRefused k o now name pins card (some p) s t h r = rw r h

ensure_approved-IsRefused :
    (k : Crypto) (o : Options) (now : String) (answer : Option GlyphCard) (name : String)
    (s : ClientState) (pins : PinStore)
    → s.pins ≡ some pins
    → is_revoked (get pins name) ≡ true
    → IsRefused s (ensure_approved k o now answer name s)
unfolding inspect_card
ensure_approved-IsRefused k o now answer name s pins h r =
    approve_elim k (IsRefused s) o now answer name s pins h (λ e t kept. kept)
      (λ card t kept named.
        judge-IsRefused k o now name pins card (get pins card.name) s t kept
          (ap (λ n. is_revoked (get pins n)) ((eq_iff _ _).0 named) ∙ r))

-- A call of a tool whose pin is revoked throws, whatever the server and the resolver answer and
-- whatever the options are: it posts no call and writes no pin. It may ask the server for the card.
pub call-IsRefused :
    (k : Crypto) (o : Options) (w : World) (name : String) (input : Json) (token : Option String)
    (s : ClientState) (pins : PinStore)
    → s.pins ≡ some pins
    → is_revoked (get pins name) ≡ true
    → IsRefused s (call k o w name input token s)
call-IsRefused k o w name input token s pins h r =
    let gate = ensure_approved-IsRefused k o w.now w.approval_card name s pins h r in
    call_elim k (IsRefused s) o w name input token s (λ e t at. subst (IsRefused s) at gate)
      (λ e d t u at kept. absurd (subst (IsRefused s) at gate))
      (λ p d d' d'' t t' u at trust attest kept tool id. absurd (subst (IsRefused s) at gate))
