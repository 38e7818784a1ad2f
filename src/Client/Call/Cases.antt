-- ===== src/Client/Call/Cases.antt =====
-- The paths through `call` of packages/client/src/index.ts.
use glyph_protocol.Prelude.{String, ◌≡◌, refl, Option, subst}
use glyph_protocol.Json.{Json}
use glyph_protocol.Crypto.{Crypto}
use glyph_protocol.Receipt.{SealedEnvelope}
use glyph_protocol.Client.Pins.{ok, err, ClientError}
use glyph_protocol.Client.Gate.{
  Options, ClientState, Outcome, Done, Posted, ensure_approved, enforce_trust, ensure_attested,
}
use glyph_protocol.Client.Gate.Cases.{
  Same, same-same, and_then_elim, enforce_trust-same, ensure_attested-same,
}
use glyph_protocol.Client.Call.{World, send, call}

-- A property of every way that a call can go: the approval gate throws, a later gate throws, or the
-- request is sent, in a state with the pins and the sent calls that the approval gate left.
pub call_elim {κ} :
    (k : Crypto) (P : Outcome SealedEnvelope → Type κ) (o : Options) (w : World) (name : String)
    (input : Json) (token : Option String) (s : ClientState)
    → ((e : ClientError) (t : ClientState)
        → ensure_approved k o w.now w.approval_card name s ≡ (err e, t)
        → P (err e, t))
    → ((e : ClientError) (d : Done) (t u : ClientState)
        → ensure_approved k o w.now w.approval_card name s ≡ (ok d, t)
        → Same t u
        → P (err e, u))
    → ((p : Posted) (d d' d'' : Done) (t t' u : ClientState)
        → ensure_approved k o w.now w.approval_card name s ≡ (ok d, t)
        → enforce_trust k o w.discovery w.trust_card name t ≡ (ok d', t')
        → ensure_attested k o w.attestation_card name t' ≡ (ok d'', u)
        → Same t u
        → p.tool ≡ name
        → p.call_id ≡ w.call_id
        → P (send k o w p u))
    → P (call k o w name input token s)
unfolding call
call_elim k P o w name input token s unapproved blocked sent =
    and_then_elim P (ensure_approved k o w.now w.approval_card name s) _ unapproved (λ d t at.
      and_then_elim P (enforce_trust k o w.discovery w.trust_card name t) _
        (λ e u trust. blocked e d t u at (trusted t trust))
        (λ d' u trust.
          and_then_elim P (ensure_attested k o w.attestation_card name u) _
            (λ e v attest.
              blocked e d t v at (same-same t u v (trusted t trust) (attested u attest)))
            (λ d'' v attest.
              sent _ d d' d'' t u v at trust attest
                (same-same t u v (trusted t trust) (attested u attest)) refl refl)))
  where
    trusted :
        (t : ClientState) {x : Outcome Done}
        → enforce_trust k o w.discovery w.trust_card name t ≡ x
        → Same t (x.1)
    trusted t at =
        subst (λ x. Same t (x.1)) at (enforce_trust-same k o w.discovery w.trust_card name t)

    attested :
        (t : ClientState) {x : Outcome Done}
        → ensure_attested k o w.attestation_card name t ≡ x
        → Same t (x.1)
    attested t at =
        subst (λ x. Same t (x.1)) at (ensure_attested-same k o w.attestation_card name t)
