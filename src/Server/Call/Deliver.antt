-- ===== src/Server/Call/Deliver.antt =====
-- The receipts of the sealed answers of the call route in packages/server/src/server.ts.
use glyph_protocol.Prelude.{
  ℕ, zero, suc, String, ◌≡◌, refl, subst, inl, inr, Bool, true, Bool-cases, Option-cases, [], ◌∷◌,
  Option, none, some, leb,
}
use glyph_protocol.Prelude.Table.{
  Table, get, AllValues, AllValues-set, AllValues-get, AllValues-delete,
}
use glyph_protocol.Json.{Json}
use glyph_protocol.Crypto.{Crypto, IsSound, canonical_hash}
use glyph_protocol.Receipt.{
  SealedEnvelope, CallReceipt, verify_receipt, sign_receipt, receipt_json, seal_result,
  inspection_json,
}
use glyph_protocol.Sanitize.{Sanitization}
use glyph_protocol.Server.Stores.{Recorded, put_recorded, sweep_budget, sweep_expired, get_recorded}
use glyph_protocol.Server.Api.{
  Glyph, Reply, sealed, Body, CallBody, Config, ServerState, Surroundings, Request,
}
use glyph_protocol.Server.Call.Cases.{execute_elim, confirm_elim, replay_elim, call_elim}
use glyph_protocol.Server.Call.{
  make_response, make_receipt, record_response, deliver, execute, confirm, handle_call,
}

-- What a receipt attests.
pub record IsGenuine (k : Crypto) (public : String) (e : SealedEnvelope) : Type 0 where
  pub receipt : CallReceipt
  pub attached : e.receipt ≡ some receipt
  pub own_key : receipt.server_public_key ≡ public
  pub signed : verify_receipt k receipt ≡ true
  pub same_glyph : receipt.glyph_id ≡ e.glyph_id
  pub same_output : receipt.output_hash ≡ canonical_hash k e.payload
  pub inspection : Sanitization
  pub inspected : e.inspection ≡ some inspection
  pub same_inspection : receipt.inspection_hash ≡ canonical_hash k (inspection_json inspection)

AllValues-sweep_expired :
    {V : Type 0} (P : V → Type 0) (expired : V → Bool) (budget : ℕ) (m : Table V)
    → AllValues P m
    → AllValues P (sweep_expired expired budget m)
unfolding sweep_expired
AllValues-sweep_expired P expired zero m h = h
AllValues-sweep_expired P expired (suc budget) [] h = tt
AllValues-sweep_expired P expired (suc budget) ((k, v) ∷ m) h = elim (Bool-cases (expired v)) [
  | inl e ↦ rw e (AllValues-sweep_expired P expired budget m h.1)
  | inr e ↦ rw e (h.0, AllValues-sweep_expired P expired (suc budget) m h.1)
]

module _ (k : Crypto) (sound : IsSound k) (nfkc : String → String) (config : Config) (r : Request)
    (around : Surroundings) where
  make_response-IsGenuine :
      (g : Glyph) (input : Json) (id : Option String) (result : Json)
      → IsGenuine k
          (k.public_key config.private_key)
          (make_response k nfkc config r around g input id result)
  unfolding make_response verify_receipt sign_receipt receipt_json seal_result
  make_response-IsGenuine g input id result = record {
    receipt = make_receipt k nfkc config r around g input id _ _;
    attached = refl;
    own_key = refl;
    signed = rw (sound.sign_nonempty, sound.public_nonempty, sound.verify-sign);
    same_glyph = refl;
    same_output = refl;
    inspection = _;
    inspected = refl;
    same_inspection = refl;
  }

  abbrev pub public : String
  public = k.public_key config.private_key

  -- Every recorded response is genuine, and so is the answer, if it is sealed.
  abbrev pub AnswersGenuine : Reply × ServerState → Type 0
  AnswersGenuine x =
      ((e : SealedEnvelope) → x.0 ≡ sealed e → IsGenuine k public e)
      × AllValues (λ y. IsGenuine k public y.response) x.1.recorded

  record_response-AllGenuine :
      (ttl_ms : Option ℕ) (key : Option String) (e : SealedEnvelope) (s : ServerState)
      → IsGenuine k public e
      → AllValues (λ y. IsGenuine k public y.response) s.recorded
      → AllValues
          (λ y. IsGenuine k public y.response)
          (record_response k nfkc config r around ttl_ms key e s).recorded
  unfolding record_response put_recorded
  record_response-AllGenuine ttl_ms none e s g h = h
  record_response-AllGenuine none (some key) e s g h = h
  record_response-AllGenuine (some ttl) (some key) e s g h =
      AllValues-set _ _ key _ (AllValues-sweep_expired _ _ sweep_budget s.recorded h) g

  deliver-AnswersGenuine :
      (g : Glyph) (input : Json) (id key : Option String) (result : Json) (s : ServerState)
      → AllValues (λ y. IsGenuine k public y.response) s.recorded
      → AnswersGenuine (deliver k nfkc config r around g input id key result s)
  unfolding deliver
  deliver-AnswersGenuine g input id key result s h =
      let genuine = make_response-IsGenuine g input id result in
      (
        λ e same. subst (IsGenuine k public) (cc) genuine,
        record_response-AllGenuine config.dedupe_ttl_ms key _ _ genuine h,
      )

  get_recorded-IsGenuine :
      (m : Table Recorded) (key : String) (now : ℕ)
      → AllValues (λ y. IsGenuine k public y.response) m
      → ((e : SealedEnvelope) → (get_recorded m key now).0 ≡ some e → IsGenuine k public e)
        × AllValues (λ y. IsGenuine k public y.response) (get_recorded m key now).1
  unfolding get_recorded
  get_recorded-IsGenuine m key now h = elim (Option-cases (get m key)) [
    | inl unseen ↦ rw (unseen, get_recorded) (λ e same. absurd (cc), h)
    | inr (x, seen) ↦
        let genuine : IsGenuine k public x.response =
          AllValues-get (λ y. IsGenuine k public y.response) m key h seen in
        elim (Bool-cases (leb x.expires_at now)) [
          | inl over ↦
              rw (seen, get_recorded) (rw over (λ e same. absurd (cc), AllValues-delete _ m key h))
          | inr live ↦
              rw (seen, get_recorded)
                (rw live (λ e same. subst (IsGenuine k public) (cc) genuine, h))
        ]
  ]

  confirm-AnswersGenuine :
      (name : String) (g : Glyph) (input : Json) (id key token : Option String) (s : ServerState)
      → AllValues (λ y. IsGenuine k public y.response) s.recorded
      → AnswersGenuine (confirm k nfkc config r around name g input id key token s)
  confirm-AnswersGenuine name g input id key token s h =
      confirm_elim k nfkc config r around AnswersGenuine name g input id key token s (λ _. runs s h)
        (λ _. (λ e same. absurd (cc), h)) (λ _. (λ e same. absurd (cc), h))
        (λ _ _ _. (λ e same. absurd (cc), h)) (λ _ _ _ _. runs _ h)
    where
      runs :
          (s₁ : ServerState)
          → AllValues (λ y. IsGenuine k public y.response) s₁.recorded
          → AnswersGenuine (execute k nfkc config r around name g input id key s₁)
      runs s₁ h₁ =
          execute_elim k nfkc config r around AnswersGenuine name g input id key s₁
            (λ e same. absurd (cc), h₁) (λ e same. absurd (cc), h₁) (λ e same. absurd (cc), h₁)
            (λ _ checked _ _. deliver-AnswersGenuine g input id key checked _ h₁)

  handle_call-AnswersGenuine :
      (name : String) (b : Body CallBody) (s : ServerState)
      → AllValues (λ y. IsGenuine k public y.response) s.recorded
      → AnswersGenuine (handle_call k nfkc config r around name b s)
  handle_call-AnswersGenuine name b s h =
      call_elim k nfkc config r around AnswersGenuine name b s (λ _ _. (λ e same. absurd (cc), h))
        (λ g body input _ _ _ _.
          replay_elim k nfkc config r around AnswersGenuine name g input body.call_id
            body.confirmation_token s
            (λ _. confirm-AnswersGenuine name g input body.call_id none body.confirmation_token s h)
            (λ key response _ seen.
              let (genuine, rest) = get_recorded-IsGenuine s.recorded key around.now_dedupe h in
              (λ e same. subst (IsGenuine k public) (cc) (genuine response seen), rest))
            (λ key _ _.
              confirm-AnswersGenuine name g input body.call_id (some key) body.confirmation_token _
                (get_recorded-IsGenuine s.recorded key around.now_dedupe h).1))

  -- With sound ed25519: if every recorded response is genuine and a call is answered with an envelope, fresh or
  -- replayed, then the envelope is genuine: its receipt is signed with the server's key and attests
  -- the glyph, the hash of the payload and the hash of the report; and every recorded response
  -- still is.
  pub handle_call-IsGenuine :
      (name : String) (b : Body CallBody) (s : ServerState) (e : SealedEnvelope)
      → AllValues (λ y. IsGenuine k public y.response) s.recorded
      → (handle_call k nfkc config r around name b s).0 ≡ sealed e
      → IsGenuine k public e
        × AllValues
            (λ y. IsGenuine k public y.response)
            (handle_call k nfkc config r around name b s).1.recorded
  handle_call-IsGenuine name b s e h at =
      let (genuine, rest) = handle_call-AnswersGenuine name b s h in (genuine e at, rest)
