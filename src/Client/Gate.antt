-- ===== src/Client/Gate.antt =====
-- The three gates of `GlyphClient.call`: `getCard`, `ensureApproved`, `enforceTrust` and
-- `ensureAttested` of packages/client/src/index.ts, with the queue of packages/client/src/audit-queue.ts.
-- A gate takes the state and returns it with its result; what the network answers is an argument.
pub mod Cases
pub mod Attested
pub mod Untrusted
pub mod Bound
use glyph_protocol.Prelude.{
  ℕ, suc, String, Bool, true, false, List, [], ◌∷◌, Option, none, some, ◌==◌, ◌&&◌, ◌||◌, not,
  truthy, or_else, includes, same_text, if◌then◌else◌,
}
use glyph_protocol.Prelude.Table.{Table, get, set}
use glyph_protocol.Json.{Json}
use glyph_protocol.Crypto.{Crypto}
use glyph_protocol.Attest.{AttestationResult, Verifiers, register_verifier}
use glyph_protocol.Attest.Bundles.{verify_sigstore, verify_slsa}
use glyph_protocol.Card.{GlyphCard, CardAttestation, RiskTier, safe, caution, danger, verify_glyph}
use glyph_protocol.Card.Diff.{CardDiff}
use glyph_protocol.Client.Trust.{ProviderTrustEntry, Resolver, Discovery, resolve, new_resolver}
use glyph_protocol.Client.Pins.{
  Pin, PinStore, set_pin, fresh_pin, is_verified, Inspection, new_tool, revoked, unchanged, changed,
  inspect_card, Result, ok, err, ClientError, verification_failed, revoked_tool, not_approved_new,
  not_approved_changed, unknown_provider, untrusted_key, not_attested, request_failed,
  verifier_threw,
}

pub data AttestationPolicy : Type 0 where
  no_policy danger_policy all_policy : AttestationPolicy

-- The loop of the constructor over the consumer's verifiers.
unfoldable pub register_all : Verifiers → Verifiers → Verifiers
register_all [] registry = registry
register_all ((kind, verify) ∷ user) registry =
    register_all user (register_verifier kind verify registry)

-- The registry that the constructor fills.
unfoldable pub client_verifiers : (String → Option Json) → Verifiers → Verifiers
unfolding register_all
client_verifiers parse_json user = register_all user (
    register_verifier "slsa" (verify_slsa parse_json)
      (register_verifier "sigstore" (verify_sigstore parse_json) []))

-- The options of the constructor that the gates read.
pub record Options : Type 0 where
  pub secure_mode : Bool
  pub auto_approve_review_changes : Bool
  pub verify_receipts : Bool
  pub tofu : Bool
  pub resilient_updates : Bool
  pub trust_enabled : Bool
  pub allow_unknown_providers : Bool
  pub require_attestation : AttestationPolicy
  pub verifiers : Verifiers

pub record PendingAuditEntry : Type 0 where
  pub tool_name : String
  pub new_card : GlyphCard
  pub diff : CardDiff
  pub detected_at : String

-- A call that went out: the tool, the input, the call id and the confirmation token.
pub record Posted : Type 0 where
  pub tool : String
  pub input : Json
  pub call_id : String
  pub confirmation_token : Option String

-- The fields of the client, the background passes that it has started and the calls that it has
-- posted, the latest first. A request for a card leaves no trace here but in the cache.
pub record ClientState : Type 0 where
  pub pins : Option PinStore
  pub queue : Option (Table PendingAuditEntry)
  pub card_cache : Table GlyphCard
  pub trust_resolver : Option Resolver
  pub runner_active : Bool
  pub passes : ℕ
  pub sent : List Posted

-- A gate that let the call through.
pub data Done : Type 0 where
  passed : Done

abbrev pub Outcome {ℓ} : Type ℓ → Type ℓ
Outcome A = Result A × ClientState

-- The next step of an `async` function, when the one before did not throw.
abbrev pub and_then {ℓ κ} :
    {A : Type ℓ} {B : Type κ} → Outcome A → (A → ClientState → Outcome B) → Outcome B
and_then (ok a, s) f = f a s
and_then (err e, s) f = (err e, s)

abbrev pub write_pin : PinStore → Pin → ClientState → ClientState
write_pin pins p s = record s { pins = some (set_pin pins p) }

abbrev pub enqueue :
    Option (Table PendingAuditEntry) → PendingAuditEntry → Option (Table PendingAuditEntry)
enqueue none entry = none
enqueue (some q) entry = some (set q entry.tool_name entry)

-- `pendingAuditQueue?.enqueue(entry)` and the trigger of the runner.
abbrev pub park : PendingAuditEntry → ClientState → ClientState
park entry s = record s {
  queue = enqueue s.queue entry;
  passes = if s.runner_active then suc s.passes else s.passes;
}

-- The resolver that the client holds, or a new one with no entries.
abbrev pub resolver_of : Option Resolver → Resolver
resolver_of none = new_resolver false [] []
resolver_of (some r) = r

-- A resolver that was made for this call is dropped after it.
abbrev pub keep_resolver : Option Resolver → Resolver → Option Resolver
keep_resolver none r = none
keep_resolver (some _) r = some r

-- The verdict of `enforceTrust` on the entry that was resolved.
unfoldable pub trust_verdict : Bool → GlyphCard → Option ProviderTrustEntry → Result Done
trust_verdict allow card none = if allow then ok passed else err (unknown_provider card.provider)
trust_verdict allow card (some entry) =
    if not (truthy card.public_key) || not (includes entry.public_keys (or_else card.public_key ""))
    then err (untrusted_key card.provider)
    else ok passed

abbrev pub trust_card : Options → Discovery → GlyphCard → ClientState → Outcome Done
trust_card o d card s =
    let resolved = resolve d card.provider (resolver_of s.trust_resolver) in
    (
      trust_verdict o.allow_unknown_providers card resolved.0,
      record s { trust_resolver = keep_resolver s.trust_resolver resolved.1 },
    )

-- `result.trusted !== false`
abbrev pub not_distrusted : Option Bool → Bool
not_distrusted none = true
not_distrusted (some b) = b

abbrev pub accepts : AttestationResult → Bool
accepts r = r.valid && not_distrusted r.trusted

-- The loop over the verifiers, which the first one that accepts ends. `none`: one threw.
unfoldable pub any_accepts : Verifiers → GlyphCard → Option Bool
any_accepts [] card = some false
any_accepts ((name, verify) ∷ rest) card =
    let later = any_accepts rest card in
    elim (verify card) [ none ↦ none | some r ↦ if accepts r then some true else later ]

abbrev pub is_required : AttestationPolicy → RiskTier → Bool
is_required all_policy tier = true
is_required danger_policy danger = true
is_required _ _ = false

unfoldable pub attestation_verdict : Option Bool → String → Result Done
attestation_verdict none name = err verifier_threw
attestation_verdict (some true) name = ok passed
attestation_verdict (some false) name = err (not_attested name)

abbrev pub carries : Option CardAttestation → Bool
carries none = false
carries (some _) = true

unfoldable pub attest_card : Options → String → GlyphCard → ClientState → Outcome Done
unfolding any_accepts attestation_verdict
attest_card o name card s =
    if not (card.name == name)
    then (err (verification_failed name), s)
    else if not (is_required o.require_attestation card.cost.risk_tier)
    then (ok passed, s)
    else if not (carries card.attestation)
    then (err (not_attested name), s)
    else (attestation_verdict (any_accepts o.verifiers card) name, s)

abbrev pub is_off : AttestationPolicy → Bool
is_off no_policy = true
is_off _ = false

module _ (k : Crypto) where
  -- `getCard`, on what the server answers.
  unfoldable pub get_card : Option GlyphCard → String → ClientState → Outcome GlyphCard
  get_card none name s = (err request_failed, s)
  get_card (some card) name s =
      if truthy card.signature && not (verify_glyph k card)
      then (err (verification_failed name), s)
      else if truthy card.signature && truthy card.public_key
      then (ok card, record s { card_cache = set s.card_cache name card })
      else (ok card, s)

  -- `this.cardCache.get(name)`, and `getCard` when there is none.
  unfoldable pub load_card :
      Option GlyphCard → Option GlyphCard → String → ClientState → Outcome GlyphCard
  unfolding get_card
  load_card (some card) answer name s = (ok card, s)
  load_card none answer name s = get_card answer name s

  -- `ensureApproved`, from what `inspectCard` says of the loaded card.
  unfoldable pub judge :
      Options → String → String → PinStore → GlyphCard → Inspection → ClientState → Outcome Done
  judge o now name pins card (unchanged pin) s = (ok passed, s)
  judge o now name pins card (revoked pin) s = (err (revoked_tool name pin.revoke_reason), s)
  judge o now name pins card new_tool s =
      if o.tofu
      then if not (is_verified k card)
        then (err (verification_failed name), s)
        else (ok passed, write_pin pins (fresh_pin name now card) s)
      else (err (not_approved_new name), s)
  judge o now name pins card (changed pin diff) s =
      if not (o.secure_mode && not o.auto_approve_review_changes) && not diff.requires_approval
      then (ok passed, write_pin pins (record pin { card = card; approved_at = now }) s)
      else if o.resilient_updates
      then (
        ok passed,
        park (record { tool_name = name; new_card = card; diff = diff; detected_at = now }) s,
      )
      else (err (not_approved_changed name diff), s)

  abbrev pub judge_card :
      Options → String → String → PinStore → GlyphCard → ClientState → Outcome Done
  judge_card o now name pins card s =
      if not (card.name == name)
      then (err (verification_failed name), s)
      else judge o now name pins card (inspect_card pins card) s

  abbrev pub approved_by :
      Option PinStore → Options → String → Option GlyphCard → String → ClientState → Outcome Done
  approved_by none o now answer name s = (ok passed, s)
  approved_by (some pins) o now answer name s =
      and_then (load_card (get s.card_cache name) answer name s) (judge_card o now name pins)

  -- `ensureApproved`
  unfoldable pub ensure_approved :
      Options → String → Option GlyphCard → String → ClientState → Outcome Done
  ensure_approved o now answer name s = approved_by s.pins o now answer name s

  -- `enforceTrust`
  unfoldable pub enforce_trust :
      Options → Discovery → Option GlyphCard → String → ClientState → Outcome Done
  enforce_trust o d answer name s =
      if not o.trust_enabled
      then (ok passed, s)
      else and_then (load_card (get s.card_cache name) answer name s) (trust_card o d)

  -- `ensureAttested`
  unfoldable pub ensure_attested : Options → Option GlyphCard → String → ClientState → Outcome Done
  ensure_attested o answer name s =
      if is_off o.require_attestation
      then (ok passed, s)
      else and_then (load_card (get s.card_cache name) answer name s) (attest_card o name)
