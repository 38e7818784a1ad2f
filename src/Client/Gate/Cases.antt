-- ===== src/Client/Gate/Cases.antt =====
-- What the gates of packages/client/src/index.ts leave of the client's state: a load touches only
-- the cache, the trust gate only the resolver, and only the approval gate writes a pin.
use glyph_protocol.Prelude.{
  String, ◌≡◌, refl, ◌∙◌, true, Option, none, some, arith, ◌==◌, Bool-cases, inl, inr, subst,
}
use glyph_protocol.Prelude.Table.{get}
use glyph_protocol.Crypto.{Crypto}
use glyph_protocol.Card.{GlyphCard}
use glyph_protocol.Client.Trust.{Discovery}
use glyph_protocol.Client.Pins.{PinStore, Result, ok, err, ClientError, inspect_card}
use glyph_protocol.Client.Gate.{
  Options, ClientState, Outcome, Done, and_then, get_card, load_card, judge, judge_card,
  ensure_approved, trust_card, enforce_trust, attest_card, ensure_attested, is_off,
}

-- A property of every way an awaited step can go.
pub and_then_elim {ℓ κ μ} :
    {A : Type ℓ} {B : Type κ} (P : Outcome B → Type μ) (x : Outcome A)
    (f : A → ClientState → Outcome B)
    → ((e : ClientError) (s : ClientState) → x ≡ (err e, s) → P (err e, s))
    → ((a : A) (s : ClientState) → x ≡ (ok a, s) → P (f a s))
    → P (and_then x f)
and_then_elim P (ok a, s) f failed continued = continued a s refl
and_then_elim P (err e, s) f failed continued = failed e s refl

-- The pins and the calls that were posted are the same in two states. The requests for cards are not
-- part of a state.
pub record Same (s t : ClientState) : Type 0 where
  pub pins : t.pins ≡ s.pins
  pub sent : t.sent ≡ s.sent

abbrev pub same : (s : ClientState) → Same s s
same s = record { pins = refl; sent = refl }

pub same-same : (s t u : ClientState) → Same s t → Same t u → Same s u
same-same s t u a b = record { pins = b.pins ∙ a.pins; sent = b.sent ∙ a.sent }

and_then-same {ℓ κ} :
    {A : Type ℓ} {B : Type κ} (s : ClientState) (x : Outcome A) (f : A → ClientState → Outcome B)
    → Same s (x.1)
    → ((a : A) (t : ClientState) → Same t ((f a t).1))
    → Same s ((and_then x f).1)
and_then-same s (ok a, t) f h g = same-same s t _ h (g a t)
and_then-same s (err e, t) f h g = h

module _ (k : Crypto) where
  pub load_card-same :
      (cached answer : Option GlyphCard) (name : String) (s : ClientState)
      → Same s ((load_card k cached answer name s).1)
  unfolding load_card get_card
  load_card-same (some card) answer name s = same s
  load_card-same none none name s = same s
  load_card-same none (some card) name s = record { pins = ground arith; sent = ground arith }

  pub enforce_trust-same :
      (o : Options) (d : Discovery) (answer : Option GlyphCard) (name : String) (s : ClientState)
      → Same s ((enforce_trust k o d answer name s).1)
  unfolding enforce_trust
  enforce_trust-same o d answer name s = elim (Bool-cases o.trust_enabled) [
    | inl on ↦ rw on (
        and_then-same s _ (trust_card o d) (load_card-same _ answer name s)
          (λ card t. record { pins = refl; sent = refl }))
    | inr off ↦ rw off (same s)
  ]

  attest_card-same :
      (o : Options) (name : String) (card : GlyphCard) (s : ClientState)
      → Same s ((attest_card o name card s).1)
  unfolding attest_card
  attest_card-same o name card s = record { pins = ground arith; sent = ground arith }

  pub ensure_attested-same :
      (o : Options) (answer : Option GlyphCard) (name : String) (s : ClientState)
      → Same s ((ensure_attested k o answer name s).1)
  unfolding ensure_attested
  ensure_attested-same o answer name s = elim (Bool-cases (is_off o.require_attestation)) [
    | inl off ↦ rw off (same s)
    | inr on ↦ rw on (
        and_then-same s _ (attest_card o name) (load_card-same _ answer name s)
          (λ card t. attest_card-same o name card t))
  ]

  -- A property of every way that `ensureApproved` can go with a pin store.
  pub approve_elim {κ} :
      (P : Outcome Done → Type κ) (o : Options) (now : String) (answer : Option GlyphCard)
      (name : String) (s : ClientState) (pins : PinStore)
      → s.pins ≡ some pins
      → ((e : ClientError) (t : ClientState) → Same s t → P (err e, t))
      → ((card : GlyphCard) (t : ClientState)
          → Same s t
          → (card.name == name) ≡ true
          → P (judge k o now name pins card (inspect_card pins card) t))
      → P (ensure_approved k o now answer name s)
  unfolding ensure_approved
  approve_elim P o now answer name s pins h failed judged = simp h (
      and_then_elim P (load_card k (get s.card_cache name) answer name s)
        (judge_card k o now name pins) (λ e t at. failed e t (loaded at))
        (λ card t at. elim (Bool-cases (card.name == name)) [
          | inl named ↦ rw named (judged card t (loaded at) named)
          | inr other ↦ rw other (failed _ t (loaded at))
        ]))
    where
      loaded :
          {r : Result GlyphCard} {t : ClientState}
          → load_card k (get s.card_cache name) answer name s ≡ (r, t)
          → Same s t
      loaded at = subst (λ x. Same s (x.1)) at (load_card-same _ answer name s)
