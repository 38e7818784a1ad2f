-- ===== src/Client/Trust.antt =====
-- `ProviderTrustResolver` of packages/client/src/trust.ts. What the trust file and the provider's
-- address answer are arguments: an entry that parsed, or nothing.
pub mod Genesis
use glyph_protocol.Prelude.{
  String, Bool, true, false, List, [], ◌∷◌, Option, none, some, ◌==◌, ◌&&◌, not, truthy, all,
  same_text, if◌then◌else◌, is_some,
}
use glyph_protocol.Prelude.Table.{Table, get, set}

-- The fields of a trust entry that the code reads.
pub record ProviderTrustEntry : Type 0 where
  pub provider : String
  pub public_keys : List String
  pub genesis_key : Option String

pub record Resolver : Type 0 where
  pub cache : Table ProviderTrustEntry
  pub genesis_pins : Table String
  pub http_discovery : Bool

abbrev pub nonempty {ℓ} : {A : Type ℓ} → List A → Bool
nonempty [] = false
nonempty (_ ∷ _) = true

-- `isValidEntry`, of an entry whose fields have their types.
unfoldable pub is_valid_entry : ProviderTrustEntry → Bool
is_valid_entry e =
    not (e.provider == "") && nonempty e.public_keys && all (λ key. not (key == "")) e.public_keys

abbrev pub first_key : List String → Option String
first_key [] = none
first_key (key ∷ _) = some key

-- `entry.genesisKey ?? entry.publicKeys[0]`
abbrev pub candidate_genesis : ProviderTrustEntry → Option String
candidate_genesis e = elim e.genesis_key [ some key ↦ some key | none ↦ first_key e.public_keys ]

abbrev pub pin_genesis : String → Option String → Table String → Table String
pin_genesis provider none m = m
pin_genesis provider (some key) m = set m provider key

-- The checks of `enforceGenesis`, on the candidate and the key that is pinned for the provider.
unfoldable pub check_genesis :
    Option String
    → Option String
    → String
    → ProviderTrustEntry
    → Resolver
    → Option ProviderTrustEntry × Resolver
check_genesis candidate pinned provider entry s =
    if not (truthy candidate)
    then (some entry, s)
    else if not (truthy pinned)
    then (some entry, record s { genesis_pins = pin_genesis provider candidate s.genesis_pins })
    else if same_text candidate pinned
    then (some entry, s)
    else (none, s)

-- `enforceGenesis`
unfoldable pub enforce_genesis :
    String → ProviderTrustEntry → Resolver → Option ProviderTrustEntry × Resolver
enforce_genesis provider entry s =
    check_genesis (candidate_genesis entry) (get s.genesis_pins provider) provider entry s

-- `resolveFromFilesystem`, on the entry that the trust file holds.
abbrev pub from_filesystem : Option ProviderTrustEntry → String → Option ProviderTrustEntry
from_filesystem none provider = none
from_filesystem (some e) provider =
    if not (is_valid_entry e) then none else if e.provider == provider then some e else none

-- `resolveFromHttp`, on the entry that the provider's address answers.
abbrev pub from_http : Option ProviderTrustEntry → Option ProviderTrustEntry
from_http none = none
from_http (some e) = if is_valid_entry e then some e else none

abbrev pub remember : String → ProviderTrustEntry → Resolver → Resolver
remember provider e s = record s { cache = set s.cache provider e }

-- The chain of `resolve`, on what the cache, the file and the address hold.
unfoldable pub resolve_from :
    Option ProviderTrustEntry
    → Option ProviderTrustEntry
    → Option ProviderTrustEntry
    → String
    → Resolver
    → Option ProviderTrustEntry × Resolver
resolve_from (some e) file http provider s = enforce_genesis provider e s
resolve_from none (some e) http provider s = enforce_genesis provider e (remember provider e s)
resolve_from none none (some e) provider s = enforce_genesis provider e (remember provider e s)
resolve_from none none none provider s = (none, s)

abbrev pub Discovery : Type 0
Discovery = Option ProviderTrustEntry × (String → Option ProviderTrustEntry)

-- `resolve`
unfoldable pub resolve : Discovery → String → Resolver → Option ProviderTrustEntry × Resolver
resolve d provider s =
    resolve_from (get s.cache provider) (from_filesystem d.0 provider)
      (if s.http_discovery then from_http (d.1 provider) else none) provider s

unfoldable pub cache_all :
    List ProviderTrustEntry → Table ProviderTrustEntry → Table ProviderTrustEntry
cache_all [] m = m
cache_all (e ∷ es) m = cache_all es (set m e.provider e)

-- The constructor, of the explicit entries and the genesis pins it is given.
unfoldable pub new_resolver : Bool → List ProviderTrustEntry → Table String → Resolver
new_resolver http_discovery explicit genesis = record {
  cache = cache_all explicit [];
  genesis_pins = genesis;
  http_discovery = http_discovery;
}
