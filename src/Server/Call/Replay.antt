-- ===== src/Server/Call/Replay.antt =====
-- Retries of a call: the deduplication of the call route in packages/server/src/server.ts.
use glyph_protocol.Prelude.{
  ℕ, ◌<◌, ◌+◌, String, ◌≡◌, ap, subst, ◌∙◌, inl, inr, false, Bool-cases, Option-cases, Option, none,
  some, arith, leb,
}
use glyph_protocol.Prelude.Table.{Table, get, get-set_self}
use glyph_protocol.Json.{Json}
use glyph_protocol.Crypto.{Crypto}
use glyph_protocol.Receipt.{SealedEnvelope}
use glyph_protocol.Server.Stores.{Recorded, put_recorded, get_recorded}
use glyph_protocol.Server.Api.{Glyph, Reply, sealed, Config, ServerState, Surroundings, Request}
use glyph_protocol.Server.Call.Cases.{execute_elim, confirm_elim, replay_elim}
use glyph_protocol.Server.Call.{
  make_response, record_response, deliver, execute, confirm, dedupe_key_of, replay_or_confirm,
}

get_recorded-live :
    (m : Table Recorded) (key : String) (now : ℕ) {x : Recorded}
    → get m key ≡ some x
    → now < x.expires_at
    → get_recorded m key now ≡ (some x.response, m)
unfolding get_recorded
get_recorded-live m key now {x} h live =
    let kept : leb x.expires_at now ≡ false = ground arith in rw (h, get_recorded) (rw kept)

get-get_recorded :
    (m : Table Recorded) (key : String) (now : ℕ) {e : SealedEnvelope}
    → (get_recorded m key now).0 ≡ some e
    → (x : Recorded) × (get (get_recorded m key now).1 key ≡ some x) × (x.response ≡ e)
unfolding get_recorded
get-get_recorded m key now {e} h = elim (Option-cases (get m key)) [
  | inl unseen ↦ absurd (cc (rw (unseen, get_recorded) at h))
  | inr (x, seen) ↦ elim (Bool-cases (leb x.expires_at now)) [
    | inl over ↦ absurd (cc (rw (seen, over, get_recorded) at h))
    | inr live ↦
        let same : some x.response ≡ some e = rw live at (rw (seen, get_recorded) at h) in
        rw (seen, get_recorded) (rw live (x, seen, cc))
  ]
]

module _ (k : Crypto) (nfkc : String → String) (config : Config) where
  module _ (r : Request) (around : Surroundings) where
    -- The sealed answer of a call stands recorded under its key.
    abbrev IsRecorded : String → Reply × ServerState → Type 0
    IsRecorded key x =
        (e : SealedEnvelope)
        → x.0 ≡ sealed e
        → (y : Recorded) × (get x.1.recorded key ≡ some y) × (y.response ≡ e)

    dedupe_is_on :
        (name : String) (input : Json) (id : Option String) (key : String)
        → dedupe_key_of k nfkc config r around name input id ≡ some key
        → (ttl : ℕ) × (config.dedupe_ttl_ms ≡ some ttl)
    dedupe_is_on name input id key h = elim (Option-cases config.dedupe_ttl_ms) [
      | inl off ↦ absurd (ground arith)
      | inr found ↦ found
    ]

    get-record_response :
        (ttl_ms : Option ℕ) (ttl : ℕ) (key : String) (e : SealedEnvelope) (s : ServerState)
        → ttl_ms ≡ some ttl
        → get (record_response k nfkc config r around ttl_ms (some key) e s).recorded key
          ≡ some (record { response = e; expires_at = around.now_record + ttl })
    unfolding record_response put_recorded
    get-record_response none ttl key e s on = cc
    get-record_response (some t) ttl key e s on =
        get-set_self _ key _
        ∙ ap (λ x. some (record { response = e; expires_at = around.now_record + x })) (cc)

    deliver-IsRecorded :
        (g : Glyph) (input : Json) (id : Option String) (key : String) (result : Json)
        (s : ServerState) (ttl : ℕ)
        → config.dedupe_ttl_ms ≡ some ttl
        → IsRecorded key (deliver k nfkc config r around g input id (some key) result s)
    unfolding deliver put_recorded
    deliver-IsRecorded g input id key result s ttl on e h =
        let response = make_response k nfkc config r around g input id result in
        (
          record { response = response; expires_at = around.now_record + ttl },
          get-record_response config.dedupe_ttl_ms ttl key response _ on,
          cc,
        )

    confirm-IsRecorded :
        (name : String) (g : Glyph) (input : Json) (id token : Option String) (key : String)
        (s : ServerState) (ttl : ℕ)
        → config.dedupe_ttl_ms ≡ some ttl
        → IsRecorded key (confirm k nfkc config r around name g input id (some key) token s)
    confirm-IsRecorded name g input id token key s ttl on =
        confirm_elim k nfkc config r around (IsRecorded key) name g input id (some key) token s
          (λ _. runs s) (λ _ e h. absurd (cc)) (λ _ e h. absurd (cc)) (λ _ _ _ e h. absurd (cc))
          (λ _ _ _ _. runs _)
      where
        runs :
            (s₁ : ServerState)
            → IsRecorded key (execute k nfkc config r around name g input id (some key) s₁)
        runs s₁ =
            execute_elim k nfkc config r around (IsRecorded key) name g input id (some key) s₁
              (λ e h. absurd (cc)) (λ e h. absurd (cc)) (λ e h. absurd (cc))
              (λ _ checked _ _. deliver-IsRecorded g input id key checked _ ttl on)

    replay-IsRecorded :
        (name : String) (g : Glyph) (input : Json) (id token : Option String) (key : String)
        (s : ServerState)
        → dedupe_key_of k nfkc config r around name input id ≡ some key
        → IsRecorded key (replay_or_confirm k nfkc config r around name g input id token s)
    replay-IsRecorded name g input id token key s on =
        replay_elim k nfkc config r around (IsRecorded key) name g input id token s
          (λ off. absurd (cc)) (λ key' response on' seen e h. again key' (cc) response seen e h)
          (λ key' on' _.
            let (ttl, is_on) = dedupe_is_on name input id key on in
            subst
              (λ x. IsRecorded key (
                confirm k nfkc config r around name g input id (some x) token
                  (record s { recorded = (get_recorded s.recorded x around.now_dedupe).1 })))
              (cc) (confirm-IsRecorded name g input id token key _ ttl is_on))
      where
        again :
            (key' : String)
            → key ≡ key'
            → (response : SealedEnvelope)
            → (get_recorded s.recorded key' around.now_dedupe).0 ≡ some response
            → IsRecorded key (
              sealed response,
              record s { recorded = (get_recorded s.recorded key' around.now_dedupe).1 },
            )
        again key' same response seen e h =
            let (y, found, is) = get-get_recorded s.recorded key' around.now_dedupe seen in
            (y, rw same found, cc)

  retry :
      (r r' : Request) (around around' : Surroundings) (name : String) (g : Glyph) (input : Json)
      (id token token' : Option String) (key : String) (s : ServerState) (e : SealedEnvelope)
      → dedupe_key_of k nfkc config r around name input id ≡ some key
      → (replay_or_confirm k nfkc config r around name g input id token s).0 ≡ sealed e
      → let s' = (replay_or_confirm k nfkc config r around name g input id token s).1 in
        (y : Recorded) × (get s'.recorded key ≡ some y)
        × (around'.now_dedupe < y.expires_at
            → replay_or_confirm k nfkc config r' around' name g input id token' s' ≡ (sealed e, s'))
  retry r r' around around' name g input id token token' key s e on answered =
      let s' = (replay_or_confirm k nfkc config r around name g input id token s).1 in
      let (y, found, same) = replay-IsRecorded r around name g input id token key s on e answered in
      (
        y,
        found,
        λ live.
            replay_elim k nfkc config r' around' (λ x. x ≡ (sealed e, s')) name g input id token' s'
              (λ off. absurd (cc))
              (λ key' response on' seen. replayed key' (cc) y found same live response seen)
              (λ key' on' unseen. absurd (missed key' (cc) y found live unseen)),
      )
    where
      s₁ : ServerState
      s₁ = (replay_or_confirm k nfkc config r around name g input id token s).1

      replayed :
          (key' : String)
          → key ≡ key'
          → (y : Recorded) → get s₁.recorded key ≡ some y
          → y.response ≡ e
          → around'.now_dedupe < y.expires_at
          → (response : SealedEnvelope)
          → (get_recorded s₁.recorded key' around'.now_dedupe).0 ≡ some response
          → ◌≡◌ {A = Reply × ServerState}
              (
                sealed response,
                record s₁ { recorded = (get_recorded s₁.recorded key' around'.now_dedupe).1 },
              )
              (sealed e, s₁)
      replayed key' same y found is live response seen =
          let hit =
            get_recorded-live s₁.recorded key' around'.now_dedupe {x = y} (rw (← same) found)
              live in
          let answer : response ≡ e = cc (seen, hit, is) in rw (hit, answer)

      missed :
          (key' : String)
          → key ≡ key'
          → (y : Recorded) → get s₁.recorded key ≡ some y
          → around'.now_dedupe < y.expires_at
          → (get_recorded s₁.recorded key' around'.now_dedupe).0 ≡ none
          → ⊥
      missed key' same y found live unseen =
          let hit =
            get_recorded-live s₁.recorded key' around'.now_dedupe {x = y} (rw (← same) found)
              live in
          cc (unseen, hit)

  -- A retry of an answered call: with deduplication on and a client call id, if a response stands
  -- recorded under the call's key after the answer, then until it expires a second call with the
  -- same glyph, id and parsed input, from any caller that reaches this gate, with any ticket, gets
  -- the same envelope and changes nothing, so it runs no handler.
  pub retry_replays :
      (r r' : Request) (around around' : Surroundings) (name : String) (g : Glyph) (input : Json)
      (id token token' : Option String) (key : String) (s : ServerState) (e : SealedEnvelope)
      (y : Recorded)
      → dedupe_key_of k nfkc config r around name input id ≡ some key
      → (replay_or_confirm k nfkc config r around name g input id token s).0 ≡ sealed e
      → get (replay_or_confirm k nfkc config r around name g input id token s).1.recorded key
        ≡ some y
      → around'.now_dedupe < y.expires_at
      → replay_or_confirm k nfkc config r' around' name g input id token'
          (replay_or_confirm k nfkc config r around name g input id token s).1
        ≡ (sealed e, (replay_or_confirm k nfkc config r around name g input id token s).1)
  retry_replays r r' around around' name g input id token token' key s e y on answered found live =
      let (x, at, same) =
        retry r r' around around' name g input id token token' key s e on answered in
      let agree : x ≡ y = cc in same (rw agree live)

  -- The answer of such a call is recorded, whether it is fresh or replayed.
  pub retry_recorded :
      (r : Request) (around : Surroundings) (name : String) (g : Glyph) (input : Json)
      (id token : Option String) (key : String) (s : ServerState) (e : SealedEnvelope)
      → dedupe_key_of k nfkc config r around name input id ≡ some key
      → (replay_or_confirm k nfkc config r around name g input id token s).0 ≡ sealed e
      → (y : Recorded) × (get
            (replay_or_confirm k nfkc config r around name g input id token s).1.recorded
            key
          ≡ some y)
  retry_recorded r around name g input id token key s e on answered =
      let (x, at, same) = retry r r around around name g input id token token key s e on answered in
      (x, at)
