-- ===== src/Client/Call/Cleared.antt =====
-- What a result of `call` of packages/client/src/index.ts says of the trust and attestation gates.
use glyph_protocol.Prelude.{
  String, ◌≡◌, refl, ap, ◌∙◌, Bool, true, false, Bool-cases, inl, inr, Option, none, some, subst,
  includes, or_else, truthy, ◌==◌, eq_iff,
}
use glyph_protocol.Prelude.Table.{get}
use glyph_protocol.Json.{Json}
use glyph_protocol.Crypto.{Crypto}
use glyph_protocol.Card.{GlyphCard}
use glyph_protocol.Receipt.{SealedEnvelope}
use glyph_protocol.Client.Pins.{ok, err}
use glyph_protocol.Client.Trust.{ProviderTrustEntry, Discovery, resolve}
use glyph_protocol.Client.Gate.{
  Options, ClientState, Outcome, Done, passed, load_card, resolver_of, ensure_approved, all_policy,
  trust_verdict, trust_card, enforce_trust, any_accepts, attestation_verdict, attest_card, carries,
  ensure_attested,
}
use glyph_protocol.Client.Gate.Cases.{and_then_elim}
use glyph_protocol.Client.Call.{World, call}
use glyph_protocol.Client.Call.Cases.{call_elim}

-- What a gate reads: the cached card of the name, or what the server answers, in the state `s`.
abbrev pub Loads :
    Crypto → Option GlyphCard → String → ClientState → GlyphCard → ClientState → Type 0
Loads k answer name s card t = load_card k (get s.card_cache name) answer name s ≡ (ok card, t)

-- In the state `s`, the client's resolver answered, for the provider of the card that the trust gate
-- reads, an entry that lists the card's key.
pub record IsTrusted (k : Crypto) (d : Discovery) (answer : Option GlyphCard) (name : String)
    (s : ClientState) : Type 0 where
  pub card : GlyphCard
  pub loaded : ClientState
  pub reads : Loads k answer name s card loaded
  pub entry : ProviderTrustEntry
  pub resolved : (resolve d card.provider (resolver_of loaded.trust_resolver)).0 ≡ some entry
  pub keyed : truthy card.public_key ≡ true
  pub listed : includes entry.public_keys (or_else card.public_key "") ≡ true

-- In the state `s`, the card that the attestation gate reads has the name, and it carries an
-- attestation that one of the verifiers accepts.
pub record IsAttested (k : Crypto) (o : Options) (answer : Option GlyphCard) (name : String)
    (s : ClientState) : Type 0 where
  pub card : GlyphCard
  pub loaded : ClientState
  pub reads : Loads k answer name s card loaded
  pub named : card.name ≡ name
  pub carried : carries card.attestation ≡ true
  pub accepted : any_accepts o.verifiers card ≡ some true

abbrev pub IfPassed {ℓ} : Type ℓ → Outcome Done → Type ℓ
IfPassed P (ok d, t) = P
IfPassed P (err e, t) = Unit

module _ (k : Crypto) (answer : Option GlyphCard) (name : String) (s : ClientState) where
  trust_verdict-IsTrusted :
      (d : Discovery) (card : GlyphCard) (loaded t : ClientState)
      (found : Option ProviderTrustEntry)
      → Loads k answer name s card loaded
      → (resolve d card.provider (resolver_of loaded.trust_resolver)).0 ≡ found
      → IfPassed (IsTrusted k d answer name s) (trust_verdict false card found, t)
  unfolding trust_verdict
  trust_verdict-IsTrusted d card loaded t none reads f = tt
  trust_verdict-IsTrusted d card loaded t (some entry) reads f =
      elim (Bool-cases (truthy card.public_key)) [
        | inr absent ↦ simp absent tt
        | inl keyed ↦ elim (Bool-cases (includes entry.public_keys (or_else card.public_key ""))) [
          | inr unlisted ↦ simp (keyed, unlisted) tt
          | inl listed ↦
              simp (keyed, listed)
                (record {
                  card = card;
                  loaded = loaded;
                  reads = reads;
                  entry = entry;
                  resolved = f;
                  keyed = keyed;
                  listed = listed;
                })
        ]
      ]

  enforce_trust-IsTrusted :
      (o : Options) (d : Discovery)
      → o.trust_enabled ≡ true
      → o.allow_unknown_providers ≡ false
      → IfPassed (IsTrusted k d answer name s) (enforce_trust k o d answer name s)
  unfolding enforce_trust
  enforce_trust-IsTrusted o d on strict = simp on (
      and_then_elim (IfPassed (IsTrusted k d answer name s)) _ (trust_card o d) (λ e t at. tt)
        (λ card t at. simp strict (trust_verdict-IsTrusted d card t _ _ at refl)))

  verdict-accepted :
      (found : Option Bool) (o : Options) (card : GlyphCard) (loaded t : ClientState)
      → Loads k answer name s card loaded
      → card.name ≡ name
      → carries card.attestation ≡ true
      → any_accepts o.verifiers card ≡ found
      → IfPassed (IsAttested k o answer name s) (attestation_verdict found name, t)
  unfolding attestation_verdict
  verdict-accepted none o card loaded t reads n c f = tt
  verdict-accepted (some false) o card loaded t reads n c f = tt
  verdict-accepted (some true) o card loaded t reads n c f = record {
    card = card;
    loaded = loaded;
    reads = reads;
    named = n;
    carried = c;
    accepted = f;
  }

  attest_card-IsAttested :
      (o : Options) (card : GlyphCard) (t : ClientState)
      → Loads k answer name s card t
      → o.require_attestation ≡ all_policy
      → IfPassed (IsAttested k o answer name s) (attest_card o name card t)
  unfolding attest_card
  attest_card-IsAttested o card t reads every = elim (Bool-cases (card.name == name)) [
    | inr other ↦ simp other tt
    | inl named ↦ elim (Bool-cases (carries card.attestation)) [
      | inr bare ↦ simp (named, every, bare) tt
      | inl carried ↦
          simp (named, every, carried)
            (verdict-accepted _ o card t t reads ((eq_iff _ _).0 named) carried refl)
    ]
  ]

  pub ensure_attested-IsAttested :
      (o : Options)
      → o.require_attestation ≡ all_policy
      → IfPassed (IsAttested k o answer name s) (ensure_attested k o answer name s)
  unfolding ensure_attested
  ensure_attested-IsAttested o every = simp every (
      and_then_elim (IfPassed (IsAttested k o answer name s)) _ (attest_card o name) (λ e t at. tt)
        (λ card t at. attest_card-IsAttested o card t at every))

abbrev IfAnswered {ℓ} : Type ℓ → Outcome SealedEnvelope → Type ℓ
IfAnswered P (ok e, t) = P
IfAnswered P (err e, t) = Unit

answered {ℓ} : (P : Type ℓ) (x : Outcome SealedEnvelope) → P → IfAnswered P x
answered P (ok e, t) p = p
answered P (err e, t) p = tt

-- The states in which the two gates of a call began, and what they passed.
pub record IsCleared (k : Crypto) (o : Options) (w : World) (name : String) (s : ClientState)
    : Type 0 where
  pub approved : ClientState
  pub trusted : ClientState
  pub approval : ensure_approved k o w.now w.approval_card name s ≡ (ok passed, approved)
  pub trust : enforce_trust k o w.discovery w.trust_card name approved ≡ (ok passed, trusted)
  pub provider : IsTrusted k w.discovery w.trust_card name approved
  pub attestation : IsAttested k o w.attestation_card name trusted

-- With provider trust on, unknown providers not allowed and an attestation required of every tool, a
-- call that returns an envelope has passed the approval gate and then two more: of the card that the
-- trust gate reads, cached by then or answered by the server, the client's resolver answers an entry
-- for the provider that lists the card's key; and the card that the attestation gate reads after it
-- has the called name and carries an attestation that a registered verifier accepts.
pub call-IsCleared :
    (k : Crypto) (o : Options) (w : World) (name : String) (input : Json) (token : Option String)
    (s t : ClientState) (envelope : SealedEnvelope)
    → o.trust_enabled ≡ true
    → o.allow_unknown_providers ≡ false
    → o.require_attestation ≡ all_policy
    → call k o w name input token s ≡ (ok envelope, t)
    → IsCleared k o w name s
call-IsCleared k o w name input token s t envelope on strict every at =
    let Cleared = IfAnswered (IsCleared k o w name s) in
    subst Cleared at (
      call_elim k Cleared o w name input token s (λ e u at. tt) (λ e d u v at kept. tt)
        (λ p d d' d'' u u' v approved trust attest kept tool id.
          answered (IsCleared k o w name s) _ (record {
            approved = u;
            trusted = u';
            approval = approved ∙ ap (λ x. (ok x, u)) (only d);
            trust = trust ∙ ap (λ x. (ok x, u')) (only d');
            provider =
                subst (IfPassed (IsTrusted k w.discovery w.trust_card name u)) trust
                  (enforce_trust-IsTrusted k w.trust_card name u o w.discovery on strict);
            attestation =
                subst (IfPassed (IsAttested k o w.attestation_card name u')) attest
                  (ensure_attested-IsAttested k w.attestation_card name u' o every);
          })))
  where
    only : (d : Done) → d ≡ passed
    only passed = refl
