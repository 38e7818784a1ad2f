-- ===== src/Tests/Starting.antt =====
-- The theorems on how glyphs, clients, directories and the audit runner are set up.
use glyph_protocol.Prelude.{◌≡◌, refl, inl, inr, true, false, List, [], ◌∷◌, none, some, arith, suc}
use glyph_protocol.Prelude.Table.{get}
use glyph_protocol.Json.{obj, end}
use glyph_protocol.Crypto.{toy, toy-IsSound}
use glyph_protocol.Card.{GlyphCard}
use glyph_protocol.Card.Depth.{rich_card}
use glyph_protocol.Card.Diff.{diff_cards}
use glyph_protocol.Server.Api.{ServerState, card, parsed}
use glyph_protocol.Server.Handlers.{register, handle_card}
use glyph_protocol.Server.Define.{GlyphConfig, define_glyph}
use glyph_protocol.Server.Define.Published.{define_glyph-published}
use glyph_protocol.Directory.{
  PublicProvidersRegistry, SignedBy, sign_providers_registry, discover_providers,
}
use glyph_protocol.Directory.Rooted.{
  IsRooted, discover_providers-IsRooted, discover_providers-signed,
}
use glyph_protocol.Client.Pins.{ok, approve_card, fresh_pin, set_pin}
use glyph_protocol.Client.Gate.{Options, ClientState, PendingAuditEntry, park}
use glyph_protocol.Client.Requests.{Connection}
use glyph_protocol.Client.Setup.{ClientConfig, production}
use glyph_protocol.Client.Setup.Hardened.{IsHardened, production-IsHardened}
use glyph_protocol.Client.Audit.Runner.{
  Runner, RunnerAction, start, stop, fire, act_all, start_audit_runner, stop_audit_runner, poll,
}
use glyph_protocol.Client.Audit.Runner.Quiet.{stop_audit_runner-quiet, restart-leaks}
use glyph_protocol.Tests.{plain, reworded, config, state}
use glyph_protocol.Tests.Calling.{pins, client}

abbrev mailer : GlyphConfig
mailer = record {
  name = "mail";
  intent = "Send a mail";
  tags = none;
  cost = plain.cost;
  idempotent = none;
  input_schema = parsed;
  output_schema = parsed;
  examples = none;
  failure_modes = none;
  provider = "acme";
  required_scopes = some [];
}

define_glyph-published_example :
    (t : ServerState) × (served : GlyphCard) × (register toy config
        (state plain)
        (define_glyph toy (λ schema. obj end) mailer "noon")
      ≡ some t)
    × ((handle_card toy config "mail" none t).0 ≡ card (rich_card served))
    × (served.public_key ≡ some (toy.public_key "key"))
    × (approve_card toy pins served false "today"
        ≡ (ok (fresh_pin "mail" "today" served), set_pin pins (fresh_pin "mail" "today" served)))
unfolding get
define_glyph-published_example =
    define_glyph-published toy (λ schema. obj end) config mailer "noon" "today" (state plain) pins
      toy-IsSound refl refl

abbrev issuer : SignedBy
issuer = record { name = "acme"; public_key = toy.public_key "root"; fingerprint = "f" }

abbrev unsigned : PublicProvidersRegistry
unsigned = record {
  registry_version = "1.0";
  registry_id = "acme";
  issued_at = "noon";
  ttl_seconds = 60;
  providers = [];
  signed_by = some issuer;
  signature = "";
}

abbrev directory : PublicProvidersRegistry
directory = record unsigned { signature = sign_providers_registry toy unsigned "root" }

-- A consumer with an empty trust root.
discover_providers-signed_example : discover_providers toy (some directory) "" ≡ ok directory
discover_providers-signed_example =
    discover_providers-signed toy "root" "" unsigned issuer toy-IsSound refl refl refl (inr refl)

-- A consumer with the issuer's key.
discover_providers-IsRooted_example :
    (some directory ≡ some directory) × IsRooted toy (toy.public_key "root") directory
discover_providers-IsRooted_example =
    discover_providers-IsRooted toy (toy.public_key "root") (some directory) directory refl (
      discover_providers-signed toy "root" (toy.public_key "root") unsigned issuer toy-IsSound refl
        refl refl (inl refl))

abbrev setup : ClientConfig
setup = record {
  pins = some pins;
  secure_mode = none;
  auto_approve_review_changes = none;
  verify_receipts = none;
  tofu = none;
  trust = none;
  require_attestation = none;
  attestation_verifiers = none;
  resilient_updates = some true;
  pending_audit_queue = none;
}

production-IsHardened_example :
    (o : Options) × (s : ClientState) × (production (λ text. none) setup ≡ inr (o, s))
    × (s.pins ≡ some pins)
    × IsHardened toy setup o
production-IsHardened_example = production-IsHardened toy (λ text. none) setup pins refl

abbrev idle : Runner
idle = record { client = client pins; handle = none; timers = []; next = 0 }

abbrev parked : PendingAuditEntry
parked = record {
  tool_name = "send";
  new_card = reworded;
  diff = diff_cards plain reworded;
  detected_at = "noon";
}

abbrev actions : List RunnerAction
actions = start (some 5) ∷ fire 0 ∷ stop ∷ start none ∷ start (some 7) ∷ []

stop_audit_runner-quiet_example :
    let stopped = stop_audit_runner (act_all actions idle) in
    (poll 1 stopped ≡ stopped) × ((park parked stopped.client).passes ≡ stopped.client.passes)
stop_audit_runner-quiet_example = stop_audit_runner-quiet actions idle 1 parked (refl, refl) tt

restart-leaks_example :
    let stopped =
      stop_audit_runner (start_audit_runner (some 7) (start_audit_runner (some 5) idle)) in
    (stopped.client.runner_active ≡ false) × ((poll 0 stopped).client.passes ≡ suc 0)
restart-leaks_example = restart-leaks idle 5 7 (omega arith) (omega arith)

abbrev connection : Connection
connection = record {
  base_url = "https://acme";
  consumer_id = "agent";
  context_budget = 50000;
  auth_token = none;
  extra_headers = [];
}
