-- ===== src/Client/Call/Unattested.antt =====
-- `call` of packages/client/src/index.ts with no verifier that opens the attestation gate.
use glyph_protocol.Prelude.{
  String, ◌≡◌, refl, ◌∙◌, true, Bool-cases, inl, inr, Option, none, some, All, subst, ◌==◌, arith,
}
use glyph_protocol.Prelude.Table.{get}
use glyph_protocol.Json.{Json}
use glyph_protocol.Crypto.{Crypto}
use glyph_protocol.Card.{GlyphCard}
use glyph_protocol.Attest.{Verifiers}
use glyph_protocol.Client.Pins.{
  PinStore, Inspection, new_tool, revoked, unchanged, changed, inspect_card, ok, err,
}
use glyph_protocol.Client.Gate.{
  Options, ClientState, Outcome, all_policy, any_accepts, client_verifiers, judge, judge_card,
  ensure_approved, approved_by, load_card,
}
use glyph_protocol.Client.Gate.Cases.{and_then_elim, Same, load_card-same}
use glyph_protocol.Client.Gate.Untrusted.{IsClosed, client_verifiers-closed}
use glyph_protocol.Client.Call.{World, call}
use glyph_protocol.Client.Call.Cases.{call_elim}
use glyph_protocol.Client.Call.Cleared.{IsAttested, IfPassed, ensure_attested-IsAttested}

-- The outcome is an exception, and no call was sent since `s`.
abbrev pub IsUnsent {ℓ} : {A : Type ℓ} → ClientState → Outcome A → Type 0
IsUnsent s (ok a, t) = ⊥
IsUnsent s (err e, t) = t.sent ≡ s.sent

module _ (k : Crypto) where
  judge-sent :
      (o : Options) (now name : String) (pins : PinStore) (card : GlyphCard) (seen : Inspection)
      (s : ClientState)
      → (judge k o now name pins card seen s).1.sent ≡ s.sent
  unfolding judge
  judge-sent o now name pins card (unchanged pin) s = refl
  judge-sent o now name pins card (revoked pin) s = refl
  judge-sent o now name pins card new_tool s = ground arith
  judge-sent o now name pins card (changed pin diff) s = ground arith

  judge_card-sent :
      (o : Options) (now name : String) (pins : PinStore) (card : GlyphCard) (s : ClientState)
      → (judge_card k o now name pins card s).1.sent ≡ s.sent
  judge_card-sent o now name pins card s = elim (Bool-cases (card.name == name)) [
    | inr other ↦ rw other refl
    | inl named ↦ rw named (judge-sent o now name pins card (inspect_card pins card) s)
  ]

  approved_by-sent :
      (held : Option PinStore) (o : Options) (now : String) (answer : Option GlyphCard)
      (name : String) (s : ClientState)
      → (approved_by k held o now answer name s).1.sent ≡ s.sent
  approved_by-sent none o now answer name s = refl
  approved_by-sent (some pins) o now answer name s =
      let load = load_card k (get s.card_cache name) answer name s in
      let kept : Same s (load.1) = load_card-same k (get s.card_cache name) answer name s in
      and_then_elim (λ x. x.1.sent ≡ s.sent) load (judge_card k o now name pins)
        (λ e t at. subst (λ x. x.1.sent ≡ s.sent) at kept.sent)
        (λ card t at.
          judge_card-sent o now name pins card t ∙ subst (λ x. x.1.sent ≡ s.sent) at kept.sent)

  ensure_approved-sent :
      (o : Options) (now : String) (answer : Option GlyphCard) (name : String) (s : ClientState)
      → (ensure_approved k o now answer name s).1.sent ≡ s.sent
  unfolding ensure_approved
  ensure_approved-sent o now answer name s = approved_by-sent s.pins o now answer name s

-- A client that requires an attestation of every tool, and none of whose own verifiers opens the gate
-- on any card, sends no call: the two verifiers that the constructor registers never open it. `call`
-- then throws, whatever the server, the resolver and the pins are.
pub call-unattested :
    (k : Crypto) (parse_json : String → Option Json) (user : Verifiers) (o : Options) (w : World)
    (name : String) (input : Json) (token : Option String) (s : ClientState)
    → o.require_attestation ≡ all_policy
    → o.verifiers ≡ client_verifiers parse_json user
    → ((card : GlyphCard) → All (IsClosed card) user)
    → IsUnsent s (call k o w name input token s)
call-unattested k parse_json user o w name input token s every filled closed =
    let gate = ensure_approved-sent k o w.now w.approval_card name s in
    call_elim k (IsUnsent s) o w name input token s
      (λ e t at. subst (λ x. x.1.sent ≡ s.sent) at gate)
      (λ e d t u at kept. kept.sent ∙ subst (λ x. x.1.sent ≡ s.sent) at gate)
      (λ p d d' d'' t t' u at trust attest kept tool id.
        let passed_gate : IsAttested k o w.attestation_card name t' =
          subst (IfPassed (IsAttested k o w.attestation_card name t')) attest
            (ensure_attested-IsAttested k w.attestation_card name t' o every) in
        absurd (
          client_verifiers-closed parse_json passed_gate.card user (closed passed_gate.card)
            (subst (λ v. any_accepts v passed_gate.card ≡ some true) filled passed_gate.accepted)))
