-- ===== src/Client/Setup/Hardened.antt =====
-- What `GlyphClient.production` of packages/client/src/index.ts promises of the client that it makes.
use mathlib.Core.Bool.{and-false}
use glyph_protocol.Prelude.{
  String, ◌≡◌, refl, inl, inr, Bool, true, false, Option, none, some, ◌↔◌, ◌⊎◌, or_else, arith, ap,
  is_some,
}
use glyph_protocol.Json.{Json}
use glyph_protocol.Client.Pins.{PinStore, ok}
use glyph_protocol.Client.Gate.{Options, ClientState}
use glyph_protocol.Crypto.{Crypto}
use glyph_protocol.Receipt.{SealedEnvelope}
use glyph_protocol.Client.Call.{World, call}
use glyph_protocol.Client.Call.Receipts.{IsBound, call-IsBound}
use glyph_protocol.Client.Setup.{
  ClientConfig, Given, is_on, client_of, new_client, production, with_defaults,
}

-- The caller left the property out, or gave the value itself.
abbrev pub LeftAs : Bool → Given Bool → Type 0
LeftAs b given = (given ≡ none) ⊎ (given ≡ some (some b))

default_on : (given : Given Bool) → (is_on (or_else given (some true)) ≡ true) ↔ LeftAs true given
default_on none = (λ _. inl refl, λ _. refl)
default_on (some none) = (λ h. absurd (cc), λ h. absurd (ground arith))
default_on (some (some b)) = (λ h. inr (ap (λ x. some (some x)) h), λ h. ground arith)

receipts_on :
    (given : Given Bool)
    → ¬ (given ≡ some (some false))
    → or_else (or_else given (some true)) true ≡ true
receipts_on none kept = refl
receipts_on (some none) kept = refl
receipts_on (some (some true)) kept = refl
receipts_on (some (some false)) kept = absurd (kept refl)

-- What a production client with options `o` does for the configuration `c`, in every state `s` in which
-- it has a pin store.
pub record IsHardened (k : Crypto) (c : ClientConfig) (o : Options) : Type 0 where
  pub secure : (o.secure_mode ≡ true) ↔ LeftAs true c.secure_mode
  pub unforced : (o.tofu ≡ true) ↔ (c.tofu ≡ some (some true))
  pub bound :
      LeftAs true c.secure_mode
      → ¬ (c.verify_receipts ≡ some (some false))
      → (w : World) (name : String) (input : Json) (token : Option String) (s t : ClientState)
        (store : PinStore) (envelope : SealedEnvelope)
      → s.pins ≡ some store
      → call k o w name input token s ≡ (ok envelope, t)
      → IsBound k t.pins name w.call_id envelope

default_off :
    (given : Given Bool) → (is_on (or_else given (some false)) ≡ true) ↔ (given ≡ some (some true))
default_off none = (λ h. absurd (cc), λ h. absurd (cc))
default_off (some none) = (λ h. absurd (cc), λ h. absurd (cc))
default_off (some (some b)) = (λ h. ap (λ x. some (some x)) h, λ h. ground arith)

production-client_of :
    (parse_json : String → Option Json) (c : ClientConfig) (pins : PinStore)
    → c.pins ≡ some pins
    → production parse_json c ≡ inr (client_of parse_json (with_defaults c))
unfolding production new_client
production-client_of parse_json c pins h =
    let there : is_some c.pins ≡ true = ap is_some h in simp (there, and-false)

-- With a pin store, `production` makes a client. It is in secure mode exactly when the caller left
-- `secureMode` out or gave `true`, and trusts on first use exactly when the caller gave `true` for it.
-- If it is in secure mode and the caller did not give `false` for `verifyReceipts`, then in every
-- state in which the client has a pin store, as it has at first, an envelope that `call` returns
-- has a receipt that is signed by the key of the card pinned for the tool, and that names that
-- card, this call and the envelope's payload and inspection by their hashes.
pub production-IsHardened :
    (k : Crypto) (parse_json : String → Option Json) (c : ClientConfig) (pins : PinStore)
    → c.pins ≡ some pins
    → (o : Options) × (s : ClientState) × (production parse_json c ≡ inr (o, s))
      × (s.pins ≡ some pins)
      × IsHardened k c o
unfolding client_of
production-IsHardened k parse_json c pins h =
    let (o, s) = client_of parse_json (with_defaults c) in
    let secure = default_on c.secure_mode in
    (
      o,
      s,
      production-client_of parse_json c pins h,
      h,
      record {
        secure = secure;
        unforced = default_off c.tofu;
        bound = λ left kept w name input token s t store envelope held at.
            call-IsBound k o w name input token s t store envelope held
              (simp (secure.1 left) (receipts_on c.verify_receipts kept)) at;
      },
    )
